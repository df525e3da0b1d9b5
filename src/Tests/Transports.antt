-- ===== src/Tests/Transports.antt =====
-- The client's side: both transports and the clients of the pipe.
use winssh_pageant.Common.{
  be_u32, List, false, if◌then◌else◌, ◌≢◌, ◌⊎◌, ℕ, ◌+◌, ◌≤◌, ◌≡◌, refl, true, none, some, [], ◌∷◌,
  ◌++◌, arith, Bytes, codes, length, take,
}
use winssh_pageant.Conn.Reading.{stream}
use winssh_pageant.Wire.{validate_request, validate_response, generic_fail_response}
use winssh_pageant.Bridge.Query.{query_using, query_using_answers}
use winssh_pageant.Bridge.CopyData.{CopyData, Mapping, agent_copy_data_id, handle_copy_data}
use winssh_pageant.Bridge.CopyData.Safe.{
  IsAnswered, IsAnswerable, handle_copy_data-region, handle_copy_data_answered,
}
use winssh_pageant.Bridge.Pipe.{Line, serve}
use winssh_pageant.Bridge.Pipe.Session.{Chosen, built_in, IsLeft, pipe_listen, pipe_listen-IsLeft}
use winssh_pageant.Bridge.Pipe.Sync.{IsServed, serve_in_step}
use winssh_pageant.Bridge.Clients.{
  Step, accepts, client_leaves, session_starts, closes_all, start, run,
}
use winssh_pageant.Bridge.Clients.Bounds.{clients_bounded}
use winssh_pageant.Bridge.Clients.Shutdown.{IsDown, IsFewer, shutdown_lasts}
use winssh_pageant.Tests.Data.{calm, pipe_name, lib, counting, client_conn, list_request}

query_using_answers_example :
    let served = query_using true counting list_request 0 in
    let (answer, state) = counting list_request 0 in
    (validate_response served.reply ≡ none)
    × (((validate_request list_request ≢ none)
          × (served ≡ record { reply = generic_fail_response; state = 0; notified = none }))
        ⊎ ((validate_request list_request ≡ none)
            × (served.state ≡ state)
            × (served.notified ≡ (if true then some (list_request, served.reply) else none))
            × (((answer.failure ≡ none)
                  × (validate_response answer.reply ≡ none)
                  × (served.reply ≡ answer.reply))
                ⊎ (((answer.failure ≢ none) ⊎ (validate_response answer.reply ≢ none))
                    × (served.reply ≡ generic_fail_response)))))
query_using_answers_example = query_using_answers true counting list_request 0

abbrev line : Line ℕ
line = record { conn = client_conn; state = 0; rounds = [] }

serve_in_step_example : IsServed (stream client_conn.incoming) (serve true counting 9 line).1
serve_in_step_example = serve_in_step true counting 9 client_conn 0 refl

abbrev name : Bytes
name = codes "PageantRequest00001234" ++ (0 ∷ [])

abbrev message : CopyData
message = record { dw_data = agent_copy_data_id; cb_data = 23; lp_data = some name }

abbrev mapping : Mapping
mapping = record {
  opens = true;
  user_sid = some 7;
  owner_sid = some 7;
  maps = true;
  size_known = true;
  region = list_request ++ (1 ∷ 2 ∷ 3 ∷ 4 ∷ 5 ∷ 6 ∷ []);
}

handle_copy_data-region_example :
    let h = handle_copy_data true counting (some message) mapping 0 in
    (h.region ≡ mapping.region) ⊎ IsAnswered mapping.region h.region
handle_copy_data-region_example = handle_copy_data-region true counting (some message) mapping 0

handle_copy_data_answered_example :
    let h = handle_copy_data true counting (some message) mapping 0 in
    ((h.answered ≡ true)
      × IsAnswerable message mapping
      × (h.served
          ≡ some (
              query_using true counting
                (take (be_u32 (take 4 mapping.region) + 4) mapping.region)
                0)))
    ⊎ ((h.answered ≡ false)
        × (¬ IsAnswerable message mapping)
        × (h.region ≡ mapping.region)
        × (h.served ≡ none))
handle_copy_data_answered_example = handle_copy_data_answered true counting message mapping 0

clients_bounded_example :
    length (run (accepts 1 ∷ accepts 2 ∷ client_leaves 1 ∷ []) start).clients ≤ 32
clients_bounded_example = clients_bounded (accepts 1 ∷ accepts 2 ∷ client_leaves 1 ∷ [])

abbrev before : List Step
before = accepts 1 ∷ session_starts 8 ∷ []

abbrev behind : List Step
behind = accepts 2 ∷ session_starts 9 ∷ []

shutdown_lasts_example :
    IsDown (run (before ++ (closes_all ∷ behind)) start)
    × IsFewer 2 (run before start) (run (before ++ (closes_all ∷ behind)) start)
shutdown_lasts_example = shutdown_lasts before behind start 2

abbrev chosen : Chosen (Unit {0}) ℕ
chosen = built_in

pipe_listen-IsLeft_example :
    IsLeft
      (some false)
      client_conn
      chosen
      (pipe_listen lib (λ n. calm) true (some false) pipe_name chosen 9 client_conn)
pipe_listen-IsLeft_example =
    pipe_listen-IsLeft lib (λ n. calm) true (some false) pipe_name chosen 9 client_conn refl
      (omega arith)
