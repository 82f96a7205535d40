-- ===== src/Session/Transport.antt =====
-- The transport of a call in ai-backend/app/call/session.py: its loss, the grace it is given, its
-- recovery, and the end when the grace is over. The timer of the grace, the backfills that carry an
-- epoch of their own, the pending candidate and the log are left out.
use ray_me.Base.{
  is_some, ℕ, ◌+◌, Bool, true, false, not, ◌&&◌, ◌||◌, Option, none, some, List, [], ◌∷◌, ◌==◌,
  if◌then◌else◌, ltb,
}
use ray_me.Session.Life.{
  ended, listening, failed, reconnecting, Life, stable, rejoining, TransportState, broken, closed,
  Admission, is_terminal_phase, is_rejoining, is_switching, same_state, transition_terminal,
}
use ray_me.Session.Segments.{or_else}

-- `x is None or x == n`
abbrev pub allows : Option ℕ → ℕ → Bool
allows none n = true
allows (some m) n = m == n

-- `x is n`
abbrev pub is_peer : Option ℕ → ℕ → Bool
is_peer none n = false
is_peer (some m) n = m == n

abbrev pub allows_retiring : Option ℕ → Option ℕ → Bool
allows_retiring none r = true
allows_retiring (some g) r = is_peer r g

abbrev pub is_retiring : Life → ℕ → Option ℕ → Bool
is_retiring l peer generation =
    is_switching l.phase
    && is_peer l.retiring_peer peer
    && allows_retiring generation l.retiring_generation

-- Turns that may outlive a loss of the transport follow its epoch.
abbrev pub carry_epoch : ℕ → Admission → Admission
carry_epoch epoch a =
    if a.allow_transport_reconnect then record a { lifecycle_epoch = epoch } else a

abbrev pub carry_epochs : ℕ → List (ℕ × Admission) → List (ℕ × Admission)
carry_epochs epoch [] = []
carry_epochs epoch ((t, a) ∷ xs) = (t, carry_epoch epoch a) ∷ carry_epochs epoch xs

abbrev pub is_broken : TransportState → Bool
is_broken broken = true
is_broken closed = false

abbrev pub has_grace : Life → ℕ → Bool
has_grace l peer = is_rejoining l.phase && is_peer l.grace_peer peer

abbrev pub graced : Life → ℕ → Life
graced l peer = record l {
  epoch = l.epoch + 1;
  admissions = carry_epochs (l.epoch + 1) l.admissions;
  phase = rejoining;
  state_before_reconnect = some l.state;
  grace_peer = some peer;
}

abbrev pub open_grace : Life → ℕ → Life
open_grace l peer = if not (has_grace l peer) then graced l peer else l

abbrev pub report_loss : Life → TransportState → Life
report_loss l t = record l {
  terminal_state =
      if is_broken t || not (is_some l.terminal_state) then some t else l.terminal_state;
  state = reconnecting;
}

abbrev pub is_other_loss : Life → ℕ → Option ℕ → Bool
is_other_loss l peer generation =
    l.is_ended
    || is_terminal_phase l.phase
    || not (peer == l.peer)
    || not (allows generation l.active_generation)

unfoldable pub begin_transport_reconnect : Life → ℕ → TransportState → Option ℕ → Life
begin_transport_reconnect l peer t generation =
    if is_retiring l peer generation
    then l
    else if is_other_loss l peer generation
    then l
    else report_loss (open_grace l peer) t

-- `_complete_transport_reconnect_locked`, which asks for nothing.
unfoldable pub complete_transport_reconnect : Life → Life
complete_transport_reconnect l = record l {
  terminal_state = none;
  state_before_reconnect = none;
  grace_peer = none;
  phase = stable;
  state =
      if same_state l.state reconnecting
      then or_else l.state_before_reconnect listening
      else l.state;
}

unfoldable pub recover_active_transport : Life → ℕ → Option ℕ → Life × Bool
unfolding complete_transport_reconnect
recover_active_transport l peer generation =
    if not (is_rejoining l.phase)
      || not (is_peer l.grace_peer peer)
      || not (peer == l.peer)
      || not (allows generation l.active_generation)
    then (l, false)
    else (complete_transport_reconnect l, true)

-- The reasons "connection_failed" and "connection_closed".
pub record Reasons : Type 0 where
  pub connection_failed : ℕ
  pub connection_closed : ℕ

abbrev pub allows_peer : Option ℕ → Option ℕ → Bool
allows_peer none r = true
allows_peer (some p) r = is_peer r p

abbrev pub is_expired : Life → Option ℕ → Option ℕ → Bool
is_expired l epoch peer =
    is_rejoining l.phase && not l.is_ended && allows epoch l.epoch && allows_peer peer l.grace_peer

abbrev pub end_lost : TransportState → Reasons → Life → Life
end_lost broken reasons l = transition_terminal failed reasons.connection_failed l
end_lost closed reasons l = transition_terminal ended reasons.connection_closed l

unfoldable pub resolve_loss :
    Option TransportState → Reasons → Life → Option ℕ → Option ℕ → Life × Bool
unfolding transition_terminal
resolve_loss none reasons l epoch peer = (l, false)
resolve_loss (some t) reasons l epoch peer =
    if not (is_expired l epoch peer)
    then (l, false)
    else if ltb 0 l.active_backfills
    then (l, false)
    else (end_lost t reasons l, true)

-- Up to where the terminal transaction is awaited.
unfoldable pub resolve_deferred_connection_state :
    Reasons → Life → Option ℕ → Option ℕ → Life × Bool
unfolding resolve_loss
resolve_deferred_connection_state reasons l epoch peer =
    resolve_loss l.terminal_state reasons l epoch peer
