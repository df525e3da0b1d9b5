-- ===== src/Bridge/Pipe/Ends.antt =====
-- The loop ends: every turn that goes on has used up a request.
use winssh_pageant.Common.{
  ℕ, zero, suc, ◌-◌, ◌≤◌, ◌<◌, ◌≡◌, ◌≢◌, refl, sym, ap, ◌∙◌, inl, inr, Bool, Option, none,
  Option-cases, List, arith, Bytes, length, length-append,
}
use mathlib.Core.Path.{subst}
use winssh_pageant.Common.Results.{Result, ok, err}
use winssh_pageant.Conn.{Conn}
use winssh_pageant.Conn.Reading.{stream}
use winssh_pageant.Wire.{validate_request, max_message_length}
use winssh_pageant.Wire.Frames.{validate_frame_facts}
use winssh_pageant.Bridge.Query.{Handler, query_using}
use winssh_pageant.Bridge.Pipe.{Stop, Line, read_request, answer_request, turn, serve}
use winssh_pageant.Bridge.Pipe.Reading.{read_request-stream}
use winssh_pageant.Bridge.Pipe.Writing.{write_reply-IsCut}
use winssh_pageant.Bridge.Pipe.Sync.{turn_on, turn_eq}

-- What is left to read.
abbrev pub left_over : {S : Type 0} → Line S → ℕ
left_over l = length (stream l.conn.incoming)

request_long : (request : Bytes) → validate_request request ≡ none → 5 ≤ length request
unfolding validate_request
request_long request v = (validate_frame_facts request (max_message_length - 4) v).0

module _ {E S : Type 0} (has_desktop : Bool) (handler : Handler E S) where
  turn_on_less :
      (l : Line S) (r : Result Stop Bytes) (c : Conn)
      → read_request l.conn ≡ (r, c)
      → (turn_on has_desktop handler (r, c) l).0 ≡ none
      → left_over (turn_on has_desktop handler (r, c) l).1 < left_over l
  unfolding turn_on answer_request
  turn_on_less l (err s) c e goes_on = absurd (cc)
  turn_on_less l (ok request) c e goes_on =
      let (v, split, sent) = read_request-stream l.conn e in
      let reply = (query_using has_desktop handler request l.state).reply in
      let (cut, same) = write_reply-IsCut reply c in
      omega (
        arith,
        request_long request v,
        length-append request (stream c.incoming),
        ap length split,
        ap (λ (t : List _). length (stream t)) same,
      )

  turn_less :
      (l : Line S)
      → (turn has_desktop handler l).0 ≡ none
      → left_over (turn has_desktop handler l).1 < left_over l
  turn_less l e =
      subst (λ (p : Option Stop × Line S). left_over p.1 < left_over l)
        (sym (turn_eq has_desktop handler l))
        (turn_on_less l (read_request l.conn).0 (read_request l.conn).1 refl
          (ap (λ (p : Option Stop × Line S). p.0) (sym (turn_eq has_desktop handler l)) ∙ e))

  -- With more fuel than there are bytes to read, the loop comes to its end, on every connection.
  pub serve_ends :
      (fuel : ℕ) (l : Line S) → left_over l < fuel → (serve has_desktop handler fuel l).0 ≢ none
  unfolding serve
  serve_ends zero l h = absurd (omega arith)
  serve_ends (suc fuel) l h =
      let (stop, l') = turn has_desktop handler l in
      elim (Option-cases stop) [
        | inl goes_on ↦
            let less = turn_less l goes_on in
            ground (arith, goes_on, serve_ends fuel l' (omega (arith, less, h)))
        | inr (s, ended) ↦ ground (arith, ended)
      ]
