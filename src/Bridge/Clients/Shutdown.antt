-- ===== src/Bridge/Clients/Shutdown.antt =====
-- What `closeConnections` promises to the goroutines that are still at work.
use winssh_pageant.Common.{
  ℕ, ◌+◌, ◌≤◌, ◌≡◌, refl, ◌==◌, if◌then◌else◌, true, false, List, [], ◌∷◌, ◌++◌, map, arith, All,
}
use winssh_pageant.Bridge.Clients.{
  Entry, Runtime, Step, accepts, client_closes, client_leaves, session_starts, session_leaves,
  closes_all, shut, shut_one, delete, accept, start_session, close_connections, step, run,
}

abbrev pub IsClosed : Entry → Type 0
IsClosed e = e.is_open ≡ false

-- Nothing that is registered is open, and nothing more will be registered.
abbrev pub IsDown : Runtime → Type 0
IsDown s =
    (s.closing ≡ true) × (s.listening ≡ false) × All IsClosed s.clients × All IsClosed s.upstreams

All-shut : (es : List Entry) → All IsClosed (map shut es)
All-shut [] = tt
All-shut (e ∷ es) = (refl, All-shut es)

All-shut_one : (c : ℕ) (es : List Entry) → All IsClosed es → All IsClosed (shut_one c es)
unfolding shut_one
All-shut_one c [] h = tt
All-shut_one c (e ∷ es) (h, hs) = (ground (arith, h), All-shut_one c es hs)

All-delete : (c : ℕ) (es : List Entry) → All IsClosed es → All IsClosed (delete c es)
unfolding delete
All-delete c [] h = tt
All-delete c (e ∷ es) (h, hs) = ground (arith, h, All-delete c es hs)

close_connections-IsDown : (s : Runtime) → IsDown (close_connections s)
unfolding close_connections
close_connections-IsDown s = (refl, refl, All-shut s.clients, All-shut s.upstreams)

step-IsDown : (e : Step) (s : Runtime) → IsDown s → IsDown (step e s)
unfolding step accept start_session
step-IsDown (accepts c) s (down, l, cs, us) = ground (arith, down, l, cs, us)
step-IsDown (client_closes c) s (down, l, cs, us) = (down, l, All-shut_one c s.clients cs, us)
step-IsDown (client_leaves c) s (down, l, cs, us) = (down, l, All-delete c s.clients cs, us)
step-IsDown (session_starts u) s (down, l, cs, us) = ground (arith, down, l, cs, us)
step-IsDown (session_leaves u) s (down, l, cs, us) = (down, l, cs, All-delete u s.upstreams us)
step-IsDown closes_all s h = close_connections-IsDown s

run-IsDown : (es : List Step) (s : Runtime) → IsDown s → IsDown (run es s)
unfolding run
run-IsDown [] s h = h
run-IsDown (e ∷ es) s h = run-IsDown es (step e s) (step-IsDown e s h)

-- How often something is registered.
abbrev pub entries : ℕ → List Entry → ℕ
entries c [] = 0
entries c (e ∷ es) = (if e.id == c then 1 else 0) + entries c es

-- The second state has registered nothing that the first had not.
pub record IsFewer (c : ℕ) (s later : Runtime) : Type 0 where
  pub clients_less : entries c later.clients ≤ entries c s.clients
  pub upstreams_less : entries c later.upstreams ≤ entries c s.upstreams

entries-shut : (c : ℕ) (es : List Entry) → entries c (map shut es) ≡ entries c es
entries-shut c [] = refl
entries-shut c (e ∷ es) = ground (arith, entries-shut c es)

entries-shut_one : (c d : ℕ) (es : List Entry) → entries c (shut_one d es) ≡ entries c es
unfolding shut_one
entries-shut_one c d [] = refl
entries-shut_one c d (e ∷ es) = ground (arith, entries-shut_one c d es)

entries-delete_le : (c d : ℕ) (es : List Entry) → entries c (delete d es) ≤ entries c es
unfolding delete
entries-delete_le c d [] = omega arith
entries-delete_le c d (e ∷ es) = ground (arith, entries-delete_le c d es)

step-IsFewer : (c : ℕ) (e : Step) (s : Runtime) → IsDown s → IsFewer c s (step e s)
unfolding step accept start_session close_connections
step-IsFewer c (accepts d) s (down, l, cs, us) = ground (arith, down)
step-IsFewer c (client_closes d) s h = ground (arith, entries-shut_one c d s.clients)
step-IsFewer c (client_leaves d) s h = ground (arith, entries-delete_le c d s.clients)
step-IsFewer c (session_starts u) s (down, l, cs, us) = ground (arith, down)
step-IsFewer c (session_leaves u) s h = ground (arith, entries-delete_le c u s.upstreams)
step-IsFewer c closes_all s h = ground (arith, entries-shut c s.clients, entries-shut c s.upstreams)

run-IsFewer : (c : ℕ) (es : List Step) (s : Runtime) → IsDown s → IsFewer c s (run es s)
unfolding run
run-IsFewer c [] s h = record { clients_less = omega arith; upstreams_less = omega arith }
run-IsFewer c (e ∷ es) s h =
    let first = step-IsFewer c e s h in
    let later = run-IsFewer c es (step e s) (step-IsDown e s h) in
    record {
      clients_less = omega (arith, first.clients_less, later.clients_less);
      upstreams_less = omega (arith, first.upstreams_less, later.upstreams_less);
    }

cleared : (c : ℕ) (s : Runtime) → IsFewer c s (close_connections s)
unfolding close_connections
cleared c s = ground (arith, entries-shut c s.clients, entries-shut c s.upstreams)

run-append : (es fs : List Step) (s : Runtime) → run (es ++ fs) s ≡ run fs (run es s)
unfolding run
run-append [] fs s = refl
run-append (e ∷ es) fs s = run-append es fs (step e s)

-- From `closeConnections` on, in every interleaving with the goroutines that are still at work, no
-- registered connection or session is open, and none is registered, open or shut, that was not
-- registered when it was called, nor more often.
pub shutdown_lasts :
    (before after : List Step) (s : Runtime) (c : ℕ)
    → IsDown (run (before ++ (closes_all ∷ after)) s)
      × IsFewer c (run before s) (run (before ++ (closes_all ∷ after)) s)
unfolding run step
shutdown_lasts before after s c =
    let here = run before s in
    let down = close_connections-IsDown here in
    let fewer = run-IsFewer c after (close_connections here) down in
    rw (run-append before (closes_all ∷ after) s)
      (run-IsDown after (close_connections here) down, ground (arith, fewer, cleared c here))
