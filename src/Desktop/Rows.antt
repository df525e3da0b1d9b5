-- ===== src/Desktop/Rows.antt =====
-- What the list of keys shows: a reading of the calls of pageant/desktop_windows.go as a table.
use mathlib.Core.List.{append-nil, append_assoc}
use winssh_pageant.Common.{
  codes, ◌≢◌, ◌⊎◌, inl, inr, Bool-cases, ℕ, zero, suc, ◌≡◌, refl, sym, ap, ◌∙◌, true, false, List,
  [], ◌∷◌, ◌++◌, map, ◌==◌, ==_refl, if◌then◌else◌, length, length-append, arith, Bytes,
}
use winssh_pageant.Common.Acts.{pure, gets}
use winssh_pageant.Library.{Library}
use winssh_pageant.Text.{clean_ui_text}
use winssh_pageant.Client.{decimal}
use winssh_pageant.Keys.{Key}
use winssh_pageant.Desktop.State.{
  Call, clear_list, insert_item, set_item, set_text, History, System, KeyResult, Desktop, Screen,
  desk, tell, redraw,
}
use winssh_pageant.Desktop.Keys.{
  show_row, show_rows, show_status, fill_list, display_keys, layout_keys, status_text,
}

-- A row: the type, the fingerprint and the comment.
pub record Row : Type 0 where
  pub key_type : Bytes
  pub fingerprint : Bytes
  pub comment : Bytes

abbrev pub set_column : ℕ → Bytes → Row → Row
set_column column text row =
    if column == 1
    then record row { fingerprint = text }
    else if column == 2
    then record row { comment = text }
    else row

-- The row goes before the one at the index, or to the end.
abbrev pub insert_row : ℕ → Row → List Row → List Row
insert_row index new [] = new ∷ []
insert_row zero new (row ∷ rows) = new ∷ row ∷ rows
insert_row (suc index) new (row ∷ rows) = row ∷ insert_row index new rows

abbrev pub change_row : ℕ → (Row → Row) → List Row → List Row
change_row index f [] = []
change_row zero f (row ∷ rows) = f row ∷ rows
change_row (suc index) f (row ∷ rows) = row ∷ change_row index f rows

abbrev pub new_row : Bytes → Row
new_row text = record { key_type = text; fingerprint = []; comment = [] }

-- A list carries out what it is asked.
abbrev pub carry_out : ℕ → Call → List Row → List Row
carry_out list (clear_list w) rows = if w == list then [] else rows
carry_out list (insert_item w index text) rows =
    if w == list then insert_row index (new_row text) rows else rows
carry_out list (set_item w index column text) rows =
    if w == list then change_row index (set_column column text) rows else rows
carry_out list other rows = rows

unfoldable pub table : ℕ → History → List Row
table list [] = []
table list ((call, answer) ∷ earlier) = carry_out list call (table list earlier)

-- The text that a label was given last.
unfoldable pub label : ℕ → History → Bytes
label w [] = []
label w ((set_text v text, answer) ∷ earlier) = if v == w then text else label w earlier
label w (other ∷ earlier) = label w earlier

-- The row of a key.
abbrev pub row_of : Library → Key → Row
row_of lib k = record {
  key_type = clean_ui_text lib k.key_type;
  fingerprint = clean_ui_text lib k.fingerprint;
  comment = clean_ui_text lib k.comment;
}

insert_row-length :
    (rows : List Row) (new : Row) → insert_row (length rows) new rows ≡ rows ++ (new ∷ [])
insert_row-length [] new = refl
insert_row-length (row ∷ rows) new = ap (λ rest. row ∷ rest) (insert_row-length rows new)

change_row-length :
    (f : Row → Row) (rows : List Row) (last : Row)
    → change_row (length rows) f (rows ++ (last ∷ [])) ≡ rows ++ (f last ∷ [])
change_row-length f [] last = refl
change_row-length f (row ∷ rows) last = ap (λ rest. row ∷ rest) (change_row-length f rows last)

module _ (sys : System) (lib : Library) (list : ℕ) where
  show_row-table :
      (k : Key) (s : Screen) (rows : List Row)
      → table list s.history ≡ rows
      → table list (show_row sys lib list (length rows) k s).1.history ≡ rows ++ (row_of lib k ∷ [])
  unfolding show_row tell table
  show_row-table k s rows h =
      rw
        (
          ==_refl list,
          h,
          insert_row-length rows,
          change_row-length (set_column 1 (clean_ui_text lib k.fingerprint)),
          change_row-length (set_column 2 (clean_ui_text lib k.comment)),
        )
        refl

  show_rows-table :
      (ks : List Key) (s : Screen) (rows : List Row) (index : ℕ)
      → length rows ≡ index
      → table list s.history ≡ rows
      → table list (show_rows sys lib list index ks s).1.history ≡ rows ++ map (row_of lib) ks
  unfolding show_rows pure
  show_rows-table [] s rows index count h = h ∙ sym (append-nil rows)
  show_rows-table (k ∷ ks) s rows index count h =
      let t = (show_row sys lib list index k s).1 in
      let more = rows ++ (row_of lib k ∷ []) in
      let first : table list t.history ≡ more = rw (sym count) (show_row-table k s rows h) in
      let next : length more ≡ suc index =
        omega (arith, count, length-append rows (row_of lib k ∷ [])) in
      show_rows-table ks t more (suc index) next first
      ∙ append_assoc rows (row_of lib k ∷ []) (map (row_of lib) ks)

  layout_keys-table : (s : Screen) → table list (layout_keys sys s).1.history ≡ table list s.history
  unfolding layout_keys desk gets tell pure table
  layout_keys-table s = ground arith

  show_rows-label :
      (w index : ℕ) (ks : List Key) (s : Screen)
      → label w (show_rows sys lib list index ks s).1.history ≡ label w s.history
  unfolding show_rows show_row tell pure label
  show_rows-label w index [] s = refl
  show_rows-label w index (k ∷ ks) s =
      show_rows-label w (suc index) ks (show_row sys lib list index k s).1

  layout_keys-label :
      (w : ℕ) (s : Screen) → label w (layout_keys sys s).1.history ≡ label w s.history
  unfolding layout_keys desk gets tell pure label
  layout_keys-label w s = ground arith

module _ (sys : System) (lib : Library) where
  -- Behind the start of `displayKeys`.
  show_status-table :
      (d : Desktop) (result : KeyResult) (s : Screen)
      → (table d.key_list (show_status sys lib d result s).1.history ≡ [])
        × (label d.key_status (show_status sys lib d result s).1.history
            ≡ clean_ui_text lib (status_text result))
  unfolding show_status tell table label
  show_status-table d result s = rw (==_refl d.key_list, ==_refl d.key_status) (refl, refl)

  fill_list-table :
      (d : Desktop) (keys : List Key) (s : Screen)
      → table d.key_list s.history ≡ []
      → (table d.key_list (fill_list sys lib d keys s).1.history ≡ map (row_of lib) keys)
        × (label d.key_status (fill_list sys lib d keys s).1.history ≡ label d.key_status s.history)
  unfolding fill_list tell table label
  fill_list-table d keys s empty =
      let t = (tell sys (redraw d.key_list false) s).1 in
      let u = (show_rows sys lib d.key_list 0 keys t).1 in
      let v = (tell sys (redraw d.key_list true) u).1 in
      (
        layout_keys-table sys lib d.key_list v
            ∙ show_rows-table sys lib d.key_list keys t [] 0 refl empty,
        layout_keys-label sys lib d.key_list d.key_status v
            ∙ show_rows-label sys lib d.key_list d.key_status 0 keys t,
      )

-- What the label says of a result.
abbrev pub IsTold : Library → KeyResult → Bytes → Type 0
IsTold lib result text =
    ((result.failed ≡ true)
      × (text
          ≡ clean_ui_text lib
              (codes "OpenSSH agent unavailable. Check the agent service, then select Refresh.")))
    ⊎ (((result.failed ≡ false)
          × (result.keys ≡ [])
          × (text
              ≡ clean_ui_text lib
                  (codes "No SSH keys are loaded. Add a key with ssh-add, then select Refresh.")))
        ⊎ ((result.failed ≡ false)
            × (result.keys ≢ [])
            × (text
                ≡ clean_ui_text lib (
                    decimal (length result.keys)
                    ++ codes " SSH key(s) available. Only public key details are shown."))))

loaded-IsTold :
    (lib : Library) (result : KeyResult) (ks : List Key)
    → result.failed ≡ false
    → result.keys ≡ ks
    → IsTold lib result (clean_ui_text lib (status_text result))
unfolding status_text
loaded-IsTold lib result [] loaded e = inr (inl (loaded, e, rw (loaded, e, status_text) refl))
loaded-IsTold lib result (k ∷ ks) loaded e =
    let more : (length (k ∷ ks) == 0) ≡ false = ground arith in
    inr (inr (loaded, (rw e λ f. cc), rw (loaded, e, more, status_text) refl))

status_text-IsTold :
    (lib : Library) (result : KeyResult)
    → IsTold lib result (clean_ui_text lib (status_text result))
unfolding status_text
status_text-IsTold lib result = elim (Bool-cases result.failed) [
  | inl failed ↦ inl (failed, rw (failed, status_text) refl)
  | inr loaded ↦ loaded-IsTold lib result result.keys loaded refl
]

-- Behind `displayKeys`, a list that carries out its calls shows the keys of the result in their
-- order and nothing else, each as its type, fingerprint and comment made safe to show; it is empty
-- if the load failed. The label then says that the agent is unavailable; otherwise it says that
-- there are no keys, if there are none, or how many keys there are.
pub display_keys-table :
    (sys : System) (lib : Library) (result : KeyResult) (s : Screen)
    → let after = (display_keys sys lib result s).1.history in
      (table s.desktop.key_list after
        ≡ (if result.failed then [] else map (row_of lib) result.keys))
      × IsTold lib result (label s.desktop.key_status after)
unfolding display_keys desk pure
display_keys-table sys lib result s =
    let (empty, said) = show_status-table sys lib s.desktop result s in
    let t = (show_status sys lib s.desktop result s).1 in
    let (rows, same_label) = fill_list-table sys lib s.desktop result.keys t empty in
    let after = (display_keys sys lib result s).1.history in
    let shown : table s.desktop.key_list after
        ≡ (if result.failed then [] else map (row_of lib) result.keys) =
      ground (arith, empty, rows) in
    let text : label s.desktop.key_status after ≡ clean_ui_text lib (status_text result) =
      ground (arith, said, same_label) in
    (shown, rw text (status_text-IsTold lib result))
