-- ===== src/Bridge/Pipe.antt =====
-- The named-pipe transport: the loop of `pipeListen` in pageant/run_windows.go.
pub mod Reading
pub mod Writing
pub mod Sync
pub mod Ends
pub mod Keeps
pub mod Session
use winssh_pageant.Common.{
  ℕ, zero, suc, ◌-◌, Bool, true, false, ◌||◌, Option, none, some, List, [], ◌∷◌, ◌++◌, ltb, ◌==◌,
  if◌then◌else◌, Bytes, be_u32, length, take, drop,
}
use winssh_pageant.Common.Results.{Result, ok, err}
use winssh_pageant.Conn.{
  IoError, closed_pipe, Conn, Io, ◌>>=◌, ◌>>◌, pure, with_error, set_read_deadline,
  set_write_deadline, read_full,
}
use winssh_pageant.Wire.{max_message_length}
use winssh_pageant.Bridge.Query.{Handler, Served, query_using}

-- `clientTimeout` and the deadline of a reply, in seconds.
abbrev pub client_timeout : ℕ
client_timeout = 120

abbrev pub reply_timeout : ℕ
reply_timeout = 5

-- Why no further request is read. A Write that counts more than it was given makes the slice
-- expression `result[n:]` panic.
pub data Stop : Type 0 where
  read_failed write_failed : IoError → Stop
  bad_length : ℕ → Stop
  no_progress slice_out_of_range : Stop

unfoldable pub request_length : Bytes → Io Stop ℕ
request_length prefix c =
    let n = be_u32 prefix in
    if ltb n 1 || ltb (max_message_length - 4) n then (err (bad_length n), c) else (ok n, c)

-- An idle client may wait for ever; from the first byte of a frame on there is a deadline.
unfoldable pub read_request : Io Stop Bytes
read_request = do
  with_error read_failed (set_read_deadline none)
  first ← with_error read_failed (read_full 1)
  with_error read_failed (set_read_deadline (some client_timeout))
  others ← with_error read_failed (read_full 3)
  n ← request_length (first ++ others)
  payload ← with_error read_failed (read_full n)
  pure ((first ++ others) ++ payload)

-- The outcome of the write loop: its end, the answers left, and what went out.
pub record Written : Type 0 where
  pub stop : Option Stop
  pub answers : List (ℕ × Option IoError)
  pub bytes : Bytes

unfoldable pub push : Bytes → List (ℕ × Option IoError) → Bytes → Written
push [] answers out = record { stop = none; answers = answers; bytes = out }
push (b ∷ bs) [] out = record { stop = some (write_failed closed_pipe); answers = []; bytes = out }
push (b ∷ bs) ((n, some e) ∷ answers) out = record {
  stop = some (write_failed e);
  answers = answers;
  bytes = out ++ take n (b ∷ bs);
}
push (b ∷ bs) ((n, none) ∷ answers) out =
    let rest = push (drop n (b ∷ bs)) answers (out ++ take n (b ∷ bs)) in
    let ended : Stop → Written =
      λ s. record { stop = some s; answers = answers; bytes = out ++ take n (b ∷ bs) } in
    if n == 0
    then ended no_progress
    else if ltb (length (b ∷ bs)) n
    then ended slice_out_of_range
    else rest

abbrev pub end_of : Result Stop (Unit {0}) → Option Stop
end_of (ok u) = none
end_of (err s) = some s

abbrev pub ending : Option Stop → Result Stop (Unit {0})
ending none = ok tt
ending (some s) = err s

-- `for len(result) > 0 { … }`
unfoldable pub push_reply : Bytes → Io Stop (Unit {0})
unfolding push
push_reply reply c =
    let w = push reply c.write_answers [] in
    (ending w.stop, record c { write_answers = w.answers; sent = c.sent ++ w.bytes })

unfoldable pub write_reply : Bytes → Io Stop (Unit {0})
write_reply reply = do
  with_error write_failed (set_write_deadline (some reply_timeout))
  push_reply reply

-- A client's connection, the state of its handler, and the requests that reached `queryUsing`
-- with the replies computed for them, in their order.
pub record Line (S : Type 0) : Type 0 where
  pub conn : Conn
  pub state : S
  pub rounds : List (Bytes × Bytes)

module _ {E S : Type 0} (has_desktop : Bool) (handler : Handler E S) where
  unfoldable pub answer_request : Bytes → Conn → Line S → Option Stop × Line S
  answer_request request c l =
      let served = query_using has_desktop handler request l.state in
      let (r, c') = write_reply served.reply c in
      (
        end_of r,
        record {
          conn = c';
          state = served.state;
          rounds = l.rounds ++ ((request, served.reply) ∷ []);
        },
      )

  -- One turn of the loop: why it ends, if it does.
  unfoldable pub turn : Line S → Option Stop × Line S
  turn l =
      let (r, c) = read_request l.conn in
      elim r [ err s ↦ (some s, record l { conn = c }) | ok request ↦ answer_request request c l ]

  -- The loop; `none` says that the fuel is used up.
  unfoldable pub serve : ℕ → Line S → Option Stop × Line S
  serve zero l = (none, l)
  serve (suc fuel) l =
      let (stop, l') = turn l in elim stop [ some s ↦ (some s, l') | none ↦ serve fuel l' ]
