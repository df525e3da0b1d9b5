-- ===== src/Bridge/Clients.antt =====
-- The clients of the named pipe and their sessions with the agent, which `runtimeState` of
-- pageant/run_windows.go keeps under one mutex: `pipeProxy`, the bookkeeping of `pipeListen`, and
-- `closeConnections`. A step is one critical section, or one Close outside of them, so every list
-- of steps is an interleaving of the goroutines. Pointers are numbers.
pub mod Bounds
pub mod Shutdown
use winssh_pageant.Common.{
  ℕ, suc, Bool, true, false, not, ◌||◌, List, [], ◌∷◌, leb, ◌==◌, if◌then◌else◌, length, map,
}

-- A registered connection or session; `is_open` is its own state, that Close changes.
pub record Entry : Type 0 where
  pub id : ℕ
  pub is_open : Bool

-- `refused` counts the connections that were closed without being served.
pub record Runtime : Type 0 where
  pub clients : List Entry
  pub upstreams : List Entry
  pub closing : Bool
  pub listening : Bool
  pub refused : ℕ

abbrev pub start : Runtime
start = record { clients = []; upstreams = []; closing = false; listening = true; refused = 0 }

-- `maxClients`
abbrev pub max_clients : ℕ
max_clients = 32

pub data Step : Type 0 where
  accepts client_closes client_leaves : ℕ → Step
  session_starts session_leaves : ℕ → Step
  closes_all : Step

abbrev pub shut : Entry → Entry
shut e = record e { is_open = false }

-- Close on one of the connections.
unfoldable pub shut_one : ℕ → List Entry → List Entry
shut_one c [] = []
shut_one c (e ∷ es) = (if e.id == c then shut e else e) ∷ shut_one c es

-- `delete`
unfoldable pub delete : ℕ → List Entry → List Entry
delete c [] = []
delete c (e ∷ es) = let rest = delete c es in if e.id == c then rest else e ∷ rest

abbrev pub entry : ℕ → Entry
entry c = record { id = c; is_open = true }

-- The body of `pipeProxy` behind Accept, which only succeeds while the listener is open.
unfoldable pub accept : ℕ → Runtime → Runtime
accept c s =
    if s.closing || leb max_clients (length s.clients)
    then record s { refused = suc s.refused }
    else record s { clients = entry c ∷ s.clients }

-- The registration of a session in `pipeListen`; a session that comes too late is closed at once.
unfoldable pub start_session : ℕ → Runtime → Runtime
start_session u s = if s.closing then s else record s { upstreams = entry u ∷ s.upstreams }

-- `closeConnections`
unfoldable pub close_connections : Runtime → Runtime
close_connections s = record s {
  closing = true;
  listening = false;
  clients = map shut s.clients;
  upstreams = map shut s.upstreams;
}

unfoldable pub step : Step → Runtime → Runtime
step (accepts c) s = accept c s
step (client_closes c) s = record s { clients = shut_one c s.clients }
step (client_leaves c) s = record s { clients = delete c s.clients }
step (session_starts u) s = start_session u s
step (session_leaves u) s = record s { upstreams = delete u s.upstreams }
step closes_all s = close_connections s

unfoldable pub run : List Step → Runtime → Runtime
run [] s = s
run (e ∷ es) s = run es (step e s)
