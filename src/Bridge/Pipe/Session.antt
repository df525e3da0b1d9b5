-- ===== src/Bridge/Pipe/Session.antt =====
-- `pipeListen` of pageant/run_windows.go as a whole. With the built-in handler the client has one
-- session with the agent, which is closed when its loop has ended.
use mathlib.Core.List.{append-nil}
use winssh_pageant.Common.{
  ◌⊎◌, arith, ℕ, suc, ◌<◌, ◌≡◌, ◌≢◌, inl, inr, refl, Bool, true, false, Option, none, some, [],
  if◌then◌else◌, Bytes, length, sym, ◌∙◌,
}
use winssh_pageant.Library.{Library}
use winssh_pageant.Conn.{Conn}
use winssh_pageant.Conn.Reading.{stream}
use winssh_pageant.Agent.Session.{Session, Surroundings, QueryError, new_session, query, close}
use winssh_pageant.Agent.Session.Invariant.{Inv, IsShut, query-Inv, close-IsShut}
use winssh_pageant.Bridge.Query.{Handler}
use winssh_pageant.Bridge.Pipe.{Stop, Line, serve}
use winssh_pageant.Bridge.Pipe.Ends.{serve_ends}
use winssh_pageant.Bridge.Pipe.Sync.{IsServed, serve_in_step}
use winssh_pageant.Bridge.Pipe.Keeps.{serve-keeps}

-- The session of a client, and how many requests it was asked.
pub record Upstream : Type 0 where
  pub session : Session
  pub asked : ℕ

-- How the call ends: the bridge is closing, the loop has ended, or it is out of fuel.
pub data Ending : Type 0 where
  refused working : Ending
  stopped : Stop → Ending

-- The client's line behind the call, and whether its connection is closed.
pub record Listened (S : Type 0) : Type 0 where
  pub ending : Ending
  pub line : Line S
  pub shut : Bool

-- `PageantRequestHandler`: nil or `defaultHandlerFunc`, or a handler of the caller's, with its state.
pub data Chosen (E S : Type 0) : Type 0 where
  built_in : Chosen E S
  custom : Handler E S → S → Chosen E S

-- The call with the built-in handler, and with another.
pub data Listening (S : Type 0) : Type 0 where
  by_session : Listened Upstream → Listening S
  by_handler : Listened S → Listening S

-- What is read of `p.state` under its lock; there may be none.
abbrev pub is_closing : Option Bool → Bool
is_closing none = false
is_closing (some closing) = closing

-- The deferred call, once the loop has ended: the connection is closed.
unfoldable pub hang_up : {S : Type 0} → Option Stop × Line S → Listened S
hang_up (none, l) = record { ending = working; line = l; shut = false }
hang_up (some stop, l) = record { ending = stopped stop; line = l; shut = true }

unfoldable pub begin : {S : Type 0} → S → Conn → Line S
begin s c = record { conn = c; state = s; rounds = [] }

-- What surrounds the n-th query is an argument.
module _ (lib : Library) (around : ℕ → Surroundings) where
  -- `upstream.Query`
  unfoldable pub session_handler : Handler QueryError Upstream
  session_handler request u =
      let (a, s) = query lib (around u.asked) request u.session in
      (a, record { session = s; asked = suc u.asked })

  -- The deferred calls: the session is closed, and then the connection.
  unfoldable pub leave : Ending → Line Upstream → Listened Upstream
  leave ending l = record {
    ending = ending;
    line = record l { state = record l.state { session = close l.state.session } };
    shut = true;
  }

  unfoldable pub listened : Option Stop × Line Upstream → Listened Upstream
  listened (none, l) = record { ending = working; line = l; shut = false }
  listened (some stop, l) = leave (stopped stop) l

  unfoldable pub new_upstream : Bytes → Upstream
  new_upstream pipe = record { session = new_session pipe; asked = 0 }

  unfoldable pub session_listen : Bool → Option Bool → Bytes → ℕ → Conn → Listened Upstream
  unfolding new_upstream
  session_listen has_desktop state pipe fuel c =
      let l = begin (new_upstream pipe) c in
      if is_closing state
      then leave refused l
      else listened (serve has_desktop session_handler fuel l)

  -- `pipeListen`
  unfoldable pub pipe_listen :
      {E S : Type 0} → Bool → Option Bool → Bytes → Chosen E S → ℕ → Conn → Listening S
  unfolding session_listen
  pipe_listen has_desktop state pipe built_in fuel c =
      by_session (session_listen has_desktop state pipe fuel c)
  pipe_listen has_desktop state pipe (custom handler s) fuel c =
      by_handler (hang_up (serve has_desktop handler fuel (begin s c)))

not_closing : (state : Option Bool) → state ≢ some true → is_closing state ≡ false
not_closing none h = refl
not_closing (some false) h = refl
not_closing (some true) h = absurd (h refl)

-- A call that has ended, and closed the connection.
abbrev pub IsOver : {S : Type 0} → Bytes → Listened S → Type 0
IsOver input r = (r.ending ≢ working) × (r.shut ≡ true) × IsServed input r.line

-- The client was served, and not refused, or refused for the closing bridge and not served.
abbrev pub IsRefusal : Option Bool → Conn → Listened Upstream → Type 0
IsRefusal state c r =
    ((state ≢ some true) × (r.ending ≢ refused))
    ⊎ ((state ≡ some true)
        × (r.ending ≡ refused)
        × (r.line.rounds ≡ [])
        × (r.line.conn ≡ c)
        × (r.line.state.session.opened ≡ 0))

-- What a client leaves behind.
abbrev pub IsLeft : {E S : Type 0} → Option Bool → Conn → Chosen E S → Listening S → Type 0
IsLeft state c built_in (by_session r) =
    IsOver (stream c.incoming) r × IsShut r.line.state.session × IsRefusal state c r
IsLeft state c (custom handler s) (by_handler r) =
    IsOver (stream c.incoming) r × (r.ending ≢ refused)
IsLeft state c other others = ⊥

module _ (lib : Library) (around : ℕ → Surroundings) where
  session_handler-Inv :
      (request : Bytes) (u : Upstream)
      → Inv u.session
      → Inv (session_handler lib around request u).1.session
  unfolding session_handler
  session_handler-Inv request u v = query-Inv lib (around u.asked) request u.session v

  listened-IsOver :
      (input : Bytes) (stop : Option Stop) (l : Line Upstream)
      → stop ≢ none
      → Inv l.state.session
      → IsServed input l
      → let r = listened lib around (stop, l) in
        IsOver input r × IsShut r.line.state.session × (r.ending ≢ refused)
  unfolding listened leave
  listened-IsOver input none l ends v served = absurd (ends refl)
  listened-IsOver input (some stop) l ends v served =
      (((λ e. cc), refl, served), close-IsShut l.state.session v, λ e. cc)

  refused-IsLeft :
      (has_desktop : Bool) (pipe : Bytes) (fuel : ℕ) (c : Conn)
      → c.sent ≡ []
      → let r = session_listen lib around has_desktop (some true) pipe fuel c in
        IsOver (stream c.incoming) r × IsShut r.line.state.session × IsRefusal (some true) c r
  unfolding session_listen leave begin new_upstream new_session close
  refused-IsLeft has_desktop pipe fuel c e = (
    ((λ f. cc), refl, (stream c.incoming, [], refl, sym e ∙ sym (append-nil c.sent), tt)),
    close-IsShut (new_session pipe) (inl (refl, refl, refl, refl)),
    inr (refl, refl, refl, refl, ground arith),
  )

  session_listen-IsLeft :
      (has_desktop : Bool) (state : Option Bool) (pipe : Bytes) (fuel : ℕ) (c : Conn)
      → c.sent ≡ []
      → length (stream c.incoming) < fuel
      → state ≢ some true
      → let r = session_listen lib around has_desktop state pipe fuel c in
        IsOver (stream c.incoming) r × IsShut r.line.state.session × IsRefusal state c r
  unfolding session_listen begin new_upstream new_session
  session_listen-IsLeft has_desktop state pipe fuel c e h open_d =
      let u = new_upstream lib around pipe in
      let l = begin u c in
      let handler = session_handler lib around in
      let (stop, l1) = serve has_desktop handler fuel l in
      let goes : is_closing state ≡ false = not_closing state open_d in
      let (over, shut, served) =
        listened-IsOver (stream c.incoming) stop l1 (serve_ends has_desktop handler fuel l h)
          (serve-keeps has_desktop handler (λ v. Inv v.session) session_handler-Inv fuel l
            (inl (refl, refl, refl, refl)))
          (serve_in_step has_desktop handler fuel c u e) in
      rw (goes, session_listen) (over, shut, inl (open_d, served))

hang_up-IsOver :
    {S : Type 0} (input : Bytes) (stop : Option Stop) (l : Line S)
    → stop ≢ none
    → IsServed input l
    → IsOver input (hang_up (stop, l)) × ((hang_up (stop, l)).ending ≢ refused)
unfolding hang_up
hang_up-IsOver input none l ends served = absurd (ends refl)
hang_up-IsOver input (some stop) l ends served = (((λ e. cc), refl, served), λ e. cc)

-- Whatever a client sends over a connection on which nothing was sent before, however the
-- connection and the agent behave and whoever closes its session meanwhile: with more fuel than
-- there are bytes to read the call ends, its connection is closed, the whole requests that were read
-- are the front of the client's bytes, and what went out is the front of the replies in the order of
-- their requests. With the built-in handler the session with the agent is closed, at most one
-- connection to the agent was opened and each that was opened is released; a bridge that is closing
-- then refuses the client, reads and sends nothing and opens no connection, and no other bridge
-- refuses it. With a handler of the caller's no client is refused.
pub pipe_listen-IsLeft :
    {E S : Type 0} (lib : Library) (around : ℕ → Surroundings) (has_desktop : Bool)
    (state : Option Bool) (pipe : Bytes) (chosen : Chosen E S) (fuel : ℕ) (c : Conn)
    → c.sent ≡ []
    → length (stream c.incoming) < fuel
    → IsLeft state c chosen (pipe_listen lib around has_desktop state pipe chosen fuel c)
unfolding pipe_listen begin
pipe_listen-IsLeft lib around has_desktop (some true) pipe built_in fuel c e h =
    refused-IsLeft lib around has_desktop pipe fuel c e
pipe_listen-IsLeft lib around has_desktop (some false) pipe built_in fuel c e h =
    session_listen-IsLeft lib around has_desktop (some false) pipe fuel c e h λ f. cc
pipe_listen-IsLeft lib around has_desktop none pipe built_in fuel c e h =
    session_listen-IsLeft lib around has_desktop none pipe fuel c e h λ f. cc
pipe_listen-IsLeft lib around has_desktop state pipe (custom handler s) fuel c e h =
    let l = begin s c in
    let (stop, l1) = serve has_desktop handler fuel l in
    hang_up-IsOver (stream c.incoming) stop l1 (serve_ends has_desktop handler fuel l h)
      (serve_in_step has_desktop handler fuel c s e)
