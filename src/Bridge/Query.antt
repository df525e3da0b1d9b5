-- ===== src/Bridge/Query.antt =====
-- `queryUsing` of pageant/run_windows.go. A handler is what a transport forwards requests to; its
-- state `S` is, for a pipe client, the session with the agent.
use winssh_pageant.Common.{◌≡◌, ◌≢◌, ◌⊎◌, Bool, Option, none, some, arith, if◌then◌else◌, Bytes}
use winssh_pageant.Wire.{validate_request, validate_response, generic_fail_response, FrameError}
use winssh_pageant.Wire.Frames.{generic_fail_response-valid}
use winssh_pageant.Agent.Exchange.{Answer}

abbrev pub Handler : Type 0 → Type 0 → Type 0
Handler E S = Bytes → S → Answer E × S

-- The reply for the client, the handler's state, and the call of `notifySigning`, if there is one.
pub record Served (S : Type 0) : Type 0 where
  pub reply : Bytes
  pub state : S
  pub notified : Option (Bytes × Bytes)

-- `err != nil || openssh.ValidateResponse(result) != nil`
checked : {E : Type 0} → Answer E → Bytes
checked a = elim a.failure [
  | some e ↦ generic_fail_response
  | none ↦ elim (validate_response a.reply) [ some e ↦ generic_fail_response | none ↦ a.reply ]
]

checked-valid : {E : Type 0} (a : Answer E) → validate_response (checked a) ≡ none
unfolding checked
checked-valid a = ground (arith, generic_fail_response-valid.0)

module _ {E S : Type 0} where
  unfoldable pub query_using : Bool → Handler E S → Bytes → S → Served S
  unfolding checked
  query_using has_desktop handler request s = elim (validate_request request) [
    | some e ↦ record { reply = generic_fail_response; state = s; notified = none }
    | none ↦
        let (a, s') = handler request s in
        record {
          reply = checked a;
          state = s';
          notified = if has_desktop then some (request, checked a) else none;
        }
  ]

  -- Whatever the handler answers, the client gets a valid reply.
  pub query_using-valid :
      (has_desktop : Bool) (handler : Handler E S) (request : Bytes) (s : S)
      → validate_response (query_using has_desktop handler request s).reply ≡ none
  unfolding query_using
  query_using-valid has_desktop handler request s =
      ground (arith, generic_fail_response-valid.0, checked-valid (handler request s).0)

  -- A malformed request reaches neither the handler nor a notification.
  pub query_using_malformed :
      (has_desktop : Bool) (handler : Handler E S) (request : Bytes) (s : S) {e : FrameError}
      → validate_request request ≡ some e
      → query_using has_desktop handler request s
        ≡ record { reply = generic_fail_response; state = s; notified = none }
  unfolding query_using
  query_using_malformed has_desktop handler request s e = ground (arith, e)

  -- A request is malformed, and then neither the handler nor a notification sees it and the client
  -- gets the generic failure; or the handler is asked once, and the client gets its reply if that
  -- is valid and came without an error, and the generic failure otherwise. The reply is valid in
  -- every case, and a notification sees the reply that the client gets.
  pub query_using_answers :
      (has_desktop : Bool) (handler : Handler E S) (request : Bytes) (s : S)
      → let served = query_using has_desktop handler request s in
        (validate_response served.reply ≡ none)
        × (((validate_request request ≢ none)
              × (served ≡ record { reply = generic_fail_response; state = s; notified = none }))
            ⊎ ((validate_request request ≡ none)
                × (served.state ≡ (handler request s).1)
                × (served.notified ≡ (if has_desktop then some (request, served.reply) else none))
                × ((((handler request s).0.failure ≡ none)
                      × (validate_response (handler request s).0.reply ≡ none)
                      × (served.reply ≡ (handler request s).0.reply))
                    ⊎ ((((handler request s).0.failure ≢ none)
                          ⊎ (validate_response (handler request s).0.reply ≢ none))
                        × (served.reply ≡ generic_fail_response)))))
  unfolding query_using checked
  query_using_answers has_desktop handler request s =
      ground (arith, query_using-valid has_desktop handler request s)

  -- A valid reply that comes without an error is passed on unchanged.
  pub query_using_passes :
      (has_desktop : Bool) (handler : Handler E S) (request reply : Bytes) (s s' : S)
      → validate_request request ≡ none
      → validate_response reply ≡ none
      → handler request s ≡ (record { reply = reply; failure = none }, s')
      → query_using has_desktop handler request s ≡ record {
        reply = reply;
        state = s';
        notified = if has_desktop then some (request, reply) else none;
      }
  unfolding query_using checked
  query_using_passes has_desktop handler request reply s s' v w e = ground (arith, v, w, e)
