-- ===== src/Bridge/Clients/Bounds.antt =====
-- The bound on the clients that are served at once.
use winssh_pageant.Common.{ℕ, ◌≤◌, ◌≡◌, refl, List, [], ◌∷◌, arith, length, length-map}
use winssh_pageant.Bridge.Clients.{
  Entry, Runtime, start, max_clients, Step, accepts, client_closes, client_leaves, session_starts,
  session_leaves, closes_all, shut, shut_one, delete, accept, start_session, close_connections,
  step, run,
}

length-shut_one : (c : ℕ) (es : List Entry) → length (shut_one c es) ≡ length es
unfolding shut_one
length-shut_one c [] = refl
length-shut_one c (e ∷ es) = omega (arith, length-shut_one c es)

pub length-delete : (c : ℕ) (es : List Entry) → length (delete c es) ≤ length es
unfolding delete
length-delete c [] = omega arith
length-delete c (e ∷ es) = ground (arith, length-delete c es)

accept-bounded :
    (c : ℕ) (s : Runtime)
    → length s.clients ≤ max_clients
    → length (accept c s).clients ≤ max_clients
unfolding accept
accept-bounded c s h = ground arith

step-bounded :
    (e : Step) (s : Runtime)
    → length s.clients ≤ max_clients
    → length (step e s).clients ≤ max_clients
unfolding step start_session close_connections
step-bounded (accepts c) s h = accept-bounded c s h
step-bounded (client_closes c) s h = omega (arith, length-shut_one c s.clients)
step-bounded (client_leaves c) s h = omega (arith, length-delete c s.clients)
step-bounded (session_starts u) s h = ground arith
step-bounded (session_leaves u) s h = h
step-bounded closes_all s h = omega (arith, length-map shut s.clients)

run-bounded :
    (es : List Step) (s : Runtime)
    → length s.clients ≤ max_clients
    → length (run es s).clients ≤ max_clients
unfolding run
run-bounded [] s h = h
run-bounded (e ∷ es) s h = run-bounded es (step e s) (step-bounded e s h)

-- In every interleaving of the goroutines at most 32 pipe clients are served at a time.
pub clients_bounded : (es : List Step) → length (run es start).clients ≤ 32
clients_bounded es = run-bounded es start (omega arith)
