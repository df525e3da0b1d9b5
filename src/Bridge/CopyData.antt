-- ===== src/Bridge/CopyData.antt =====
-- The shared-memory transport: `copyDataName` and `handleCopyData` of pageant/run_windows.go. The
-- memory that Windows shows is a list of bytes; what its calls answer is an argument.
pub mod Safe
use winssh_pageant.Common.{
  ℕ, ◌+◌, ◌-◌, Bool, true, false, not, ◌&&◌, ◌||◌, Option, none, some, [], ◌∷◌, ◌++◌, ltb, ◌==◌,
  if◌then◌else◌, Bytes, be_u32, length, take, drop, contains_byte, get_or,
}
use winssh_pageant.Wire.{max_message_length, generic_fail_response}
use winssh_pageant.Bridge.Query.{Handler, Served, query_using}

-- `agentCopyDataID`
abbrev pub agent_copy_data_id : ℕ
agent_copy_data_id = 0x804e50ba

-- `copyDataStruct`; the pointer `lpData` is null or shows at least `cb_data` bytes.
pub record CopyData : Type 0 where
  pub dw_data : ℕ
  pub cb_data : ℕ
  pub lp_data : Option Bytes

terminated : Bytes → Option Bytes
terminated name =
    if not (get_or name (length name - 1) 0 == 0) || contains_byte 0 (take (length name - 1) name)
    then none
    else some name

-- The name with its final NUL.
unfoldable pub copy_data_name : CopyData → Option Bytes
unfolding terminated
copy_data_name cd = elim cd.lp_data [
  | none ↦ none
  | some memory ↦
      if not (cd.dw_data == agent_copy_data_id) || ltb cd.cb_data 2 || ltb 260 cd.cb_data
      then none
      else terminated (take cd.cb_data memory)
]

-- The answers of Windows for one message: whether the mapping opens, the two SIDs, whether it is
-- mapped, whether the region's size is told, and the bytes of the region.
pub record Mapping : Type 0 where
  pub opens : Bool
  pub user_sid : Option ℕ
  pub owner_sid : Option ℕ
  pub maps : Bool
  pub size_known : Bool
  pub region : Bytes

unfoldable pub same_sid : Option ℕ → Option ℕ → Bool
same_sid (some a) (some b) = a == b
same_sid _ _ = false

-- `n`, capped by the protocol's buffer.
abbrev pub capped : ℕ → ℕ
capped n = if ltb max_message_length n then max_message_length else n

-- What the message returns, the region afterwards, and what the handler made of the request.
pub record Handled (S : Type 0) : Type 0 where
  pub answered : Bool
  pub region : Bytes
  pub served : Option (Served S)

abbrev pub fit : ℕ → Bytes → Bytes
fit room reply = if ltb room (length reply) then generic_fail_response else reply

-- `copy(mapped, result)`
abbrev pub overwrite : Bytes → Bytes → Bytes
overwrite reply region = reply ++ drop (length reply) region

abbrev ignored : {S : Type 0} → Bytes → Handled S
ignored region = record { answered = false; region = region; served = none }

module _ {E S : Type 0} where
  -- From the view of the mapping on.
  unfoldable pub answer_mapped : Bool → Handler E S → Bytes → S → Handled S
  answer_mapped has_desktop handler region s =
      let n = capped (length region) in
      let count = be_u32 (take 4 region) in
      if ltb count 1 || ltb (n - 4) count
      then ignored region
      else let served = query_using has_desktop handler (take (count + 4) region) s in
        record {
          answered = true;
          region = overwrite (fit n served.reply) region;
          served = some served;
        }

  unfoldable pub handle_copy_data : Bool → Handler E S → Option CopyData → Mapping → S → Handled S
  handle_copy_data has_desktop handler none m s = ignored m.region
  handle_copy_data has_desktop handler (some cd) m s = elim (copy_data_name cd) [
    | none ↦ ignored m.region
    | some name ↦
        if not m.opens
          || not (same_sid m.owner_sid m.user_sid)
          || not m.maps
          || not m.size_known
          || ltb (length m.region) 5
        then ignored m.region
        else answer_mapped has_desktop handler m.region s
  ]
