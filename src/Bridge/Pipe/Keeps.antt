-- ===== src/Bridge/Pipe/Keeps.antt =====
-- What a handler keeps of its state, the loop of `pipeListen` keeps.
use winssh_pageant.Common.{ℕ, zero, suc, inl, inr, Bool, Option, some, Option-cases, Bytes}
use winssh_pageant.Common.Results.{Result, ok, err}
use winssh_pageant.Wire.{validate_request}
use winssh_pageant.Bridge.Query.{Handler, query_using}
use winssh_pageant.Bridge.Pipe.{Stop, Line, read_request, answer_request, turn, serve}

module _ {E S : Type 0} (has_desktop : Bool) (handler : Handler E S) (P : S → Type 0)
    (keeps : (request : Bytes) (s : S) → P s → P (handler request s).1) where
  query_using-keeps :
      (request : Bytes) (s : S) → P s → P (query_using has_desktop handler request s).state
  unfolding query_using
  query_using-keeps request s h = elim (Option-cases (validate_request request)) [
    | inl valid ↦ rw (valid, query_using) (keeps request s h)
    | inr (e, bad) ↦ rw (bad, query_using) h
  ]

  turn-keeps : (l : Line S) → P l.state → P (turn has_desktop handler l).1.state
  unfolding turn answer_request
  turn-keeps l h = go (read_request l.conn).0
    where
      go :
          (r : Result Stop Bytes)
          → P
              (elim r as (λ x. Option Stop × Line S) [
                | err s ↦ (some s, record l { conn = (read_request l.conn).1 })
                | ok request ↦ answer_request has_desktop handler request (read_request l.conn).1 l
              ]).1.state
      go (err s) = h
      go (ok request) = query_using-keeps request l.state h

  pub serve-keeps :
      (fuel : ℕ) (l : Line S) → P l.state → P (serve has_desktop handler fuel l).1.state
  unfolding serve
  serve-keeps zero l h = h
  serve-keeps (suc fuel) l h =
      let (stop, l1) = turn has_desktop handler l in
      let here = turn-keeps l h in
      let later = serve-keeps fuel l1 here in
      elim (Option-cases stop) [
        | inl goes_on ↦ rw (goes_on, serve) later
        | inr (x, ends) ↦ rw (ends, serve) here
      ]
