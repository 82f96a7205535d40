-- ===== src/Session/Manager.antt =====
-- `CallSessionManager` of ai-backend/app/call/session.py: the sessions by their identifier, and how long
-- one that ended is retained. The clock is an argument. Settings, adapters, channels and the selection
-- of a session are left out.
use ray_me.Base.{
  ℕ, ◌+◌, Bool, false, Option, none, some, List, [], ◌∷◌, ltb, if◌then◌else◌, get, put, pop,
  is_some,
}
use ray_me.Session.Life.{Life, is_terminal_state}
use ray_me.Session.Calls.{rejoin, new_life, end}

pub record Sessions : Type 0 where
  pub sessions : List (ℕ × Life)
  pub deadlines : List (ℕ × ℕ)

abbrev pub no_sessions : Sessions
no_sessions = record { sessions = []; deadlines = [] }

-- `session is not None and session.state in {"ended", "failed"}`
abbrev pub reads_over : Option Life → Bool
reads_over none = false
reads_over (some l) = is_terminal_state l.state

abbrev pub forget_session : Sessions → ℕ → Sessions
forget_session m i = record {
  sessions = if reads_over (get m.sessions i) then pop m.sessions i else m.sessions;
  deadlines = pop m.deadlines i;
}

-- The loop over a copy of the deadlines.
unfoldable pub expire_from : ℕ → List (ℕ × ℕ) → Sessions → Sessions
expire_from now [] m = m
expire_from now ((i, deadline) ∷ ds) m =
    expire_from now ds (if ltb now deadline then m else forget_session m i)

unfoldable pub expire_retained_sessions : ℕ → Sessions → Sessions
unfolding expire_from
expire_retained_sessions now m = expire_from now m.deadlines m

unfoldable pub get_session : ℕ → Sessions → ℕ → Sessions × Option Life
unfolding expire_retained_sessions
get_session now m i = let e = expire_retained_sessions now m in (e, get e.sessions i)

abbrev pub take_peer : Option ℕ → Life → Life
take_peer none l = l
take_peer (some peer) l = rejoin l peer

abbrev pub open_session : Option Life → Sessions → ℕ → Option ℕ → Sessions × Life
open_session none m i none = (record m { sessions = put m.sessions i (new_life 0) }, new_life 0)
open_session none m i (some peer) =
    (record m { sessions = put m.sessions i (new_life peer) }, new_life peer)
open_session (some l) m i peer =
    (record m { sessions = put m.sessions i (take_peer peer l) }, take_peer peer l)

-- A session without a peer has the one of `NullPeerConnection`, which is 0.
unfoldable pub create_session : ℕ → Sessions → ℕ → Option ℕ → Sessions × Life
unfolding expire_retained_sessions
create_session now m i peer =
    let e = expire_retained_sessions now m in open_session (get e.sessions i) e i peer

abbrev pub end_found : Option Life → Sessions → ℕ → ℕ → Sessions
end_found none m i reason = m
end_found (some l) m i reason = record m { sessions = put m.sessions i (end l reason) }

-- `end_session` up to where the end of the session is awaited.
unfoldable pub begin_end_session : ℕ → Sessions → ℕ → ℕ → Sessions
unfolding expire_retained_sessions
begin_end_session now m i reason =
    let e = expire_retained_sessions now m in end_found (get e.sessions i) e i reason

-- The rest of `end_session`.
unfoldable pub retain_session : ℕ → Sessions → ℕ → ℕ → Sessions
retain_session now m i grace =
    if ltb 0 grace
    then record m { deadlines = put m.deadlines i (now + grace) }
    else record { sessions = pop m.sessions i; deadlines = pop m.deadlines i }

abbrev pub removed : Option Life → ℕ → Option Life
removed none reason = none
removed (some l) reason = if is_terminal_state l.state then some l else some (end l reason)

-- With the session that was removed, which is ended with "removed" unless it reads terminal.
unfoldable pub remove_session : Sessions → ℕ → ℕ → Sessions × Option Life
remove_session m i reason = (
  record { sessions = pop m.sessions i; deadlines = pop m.deadlines i },
  removed (get m.sessions i) reason,
)

abbrev pub active_in : List (ℕ × Life) → List (ℕ × ℕ) → ℕ
active_in [] ds = 0
active_in ((i, l) ∷ ls) ds = if is_some (get ds i) then active_in ls ds else active_in ls ds + 1

-- `stats`: how many sessions count as active.
unfoldable pub active_sessions : ℕ → Sessions → Sessions × ℕ
unfolding expire_retained_sessions
active_sessions now m =
    let e = expire_retained_sessions now m in (e, active_in e.sessions e.deadlines)
