-- ===== src/Session/Recovery.antt =====
-- A transport that is lost and comes back, in ai-backend/app/call/session.py.
use ray_me.Base.{
  ℕ, Bool, true, false, none, some, List, [], ◌∷◌, if_either, if◌then◌else◌, ◌+◌, ◌≡◌, refl, sym,
  ap, ◌∙◌, subst, not, ◌||◌, arith, ◌==◌, ==_refl,
}
use ray_me.Session.Segments.{or_else}
use ray_me.Session.Life.{
  listening, reconnecting, Life, CallState, stable, rejoining, TransportState, is_terminal_phase,
  is_rejoining, is_switching, same_state,
}
use ray_me.Session.Transport.{
  begin_transport_reconnect, allows, is_peer, is_retiring, has_grace, open_grace, report_loss,
  is_other_loss, complete_transport_reconnect, recover_active_transport, graced,
}

-- The reports of one peer, without a generation, one after the other.
unfoldable pub report_losses : Life → ℕ → List TransportState → Life
unfolding begin_transport_reconnect
report_losses l peer [] = l
report_losses l peer (t ∷ ts) = report_losses (begin_transport_reconnect l peer t none) peer ts

begin-reports :
    (l : Life) (peer : ℕ) (t : TransportState)
    → is_retiring l peer none ≡ false
    → is_other_loss l peer none ≡ false
    → begin_transport_reconnect l peer t none ≡ report_loss (open_grace l peer) t
unfolding begin_transport_reconnect
begin-reports l peer t h k =
    subst
      (λ (b : Bool).
        (if b
          then l
          else if is_other_loss l peer none
          then l
          else report_loss (open_grace l peer) t)
        ≡ report_loss (open_grace l peer) t)
      (sym h)
      (subst
        (λ (b : Bool).
          (if b then l else report_loss (open_grace l peer) t) ≡ report_loss (open_grace l peer) t)
        (sym k) refl)

open_grace-again : (l : Life) (peer : ℕ) → has_grace l peer ≡ true → open_grace l peer ≡ l
open_grace-again l peer h =
    subst (λ (b : Bool). (if not b then graced l peer else l) ≡ l) (sym h) refl

pub begin-first :
    (l : Life) (t : TransportState)
    → l.phase ≡ stable
    → l.is_ended ≡ false
    → begin_transport_reconnect l l.peer t none ≡ report_loss (graced l l.peer) t
begin-first l t h e =
    let s : is_switching l.phase ≡ false = ap is_switching h in
    let k : is_terminal_phase l.phase ≡ false = ap is_terminal_phase h in
    let r : is_rejoining l.phase ≡ false = ap is_rejoining h in
    let n : has_grace l l.peer ≡ false = ground (arith, r) in
    begin-reports l l.peer t (ground (arith, s)) (ground (arith, k, e))
    ∙ subst
        (λ (b : Bool).
          report_loss (if not b then graced l l.peer else l) t ≡ report_loss (graced l l.peer) t)
        (sym n) refl

-- `m` is `l` with its transport lost.
abbrev pub Lost : ℕ → CallState → ℕ → Life → Type 0
Lost peer state epoch m =
    m.phase ≡ rejoining
    × m.grace_peer ≡ some peer
    × m.peer ≡ peer
    × m.state_before_reconnect ≡ some state
    × m.is_ended ≡ false
    × m.state ≡ reconnecting
    × m.epoch ≡ epoch

Lost-has_grace :
    (peer epoch : ℕ) (state : CallState) (m : Life)
    → Lost peer state epoch m
    → has_grace m peer ≡ true
Lost-has_grace peer epoch state m g =
    let r : is_rejoining m.phase ≡ true = ap is_rejoining g.0 in
    let q : is_peer m.grace_peer peer ≡ true = ap (λ o. is_peer o peer) g.1 ∙ ==_refl peer in
    ground (arith, r, q)

Lost-guards :
    (peer epoch : ℕ) (state : CallState) (m : Life)
    → Lost peer state epoch m
    → (is_retiring m peer none ≡ false) × (is_other_loss m peer none ≡ false)
Lost-guards peer epoch state m g =
    let s : is_switching m.phase ≡ false = ap is_switching g.0 in
    let t : is_terminal_phase m.phase ≡ false = ap is_terminal_phase g.0 in
    let e : m.is_ended ≡ false = g.4 in
    let p : m.peer ≡ peer = g.2 in (ground (arith, s), ground (arith, t, e, p))

Lost-again :
    (peer epoch : ℕ) (state : CallState) (m : Life) (t : TransportState)
    → Lost peer state epoch m
    → Lost peer state epoch (begin_transport_reconnect m peer t none)
Lost-again peer epoch state m t g =
    let k = Lost-guards peer epoch state m g in
    subst (Lost peer state epoch) (sym (begin-reports m peer t k.0 k.1)) (
      subst (λ (n : Life). Lost peer state epoch (report_loss n t))
        (sym (open_grace-again m peer (Lost-has_grace peer epoch state m g)))
        (g.0, g.1, g.2, g.3, g.4, refl, g.6))

Lost-all :
    (peer epoch : ℕ) (state : CallState) (m : Life) (ts : List TransportState)
    → Lost peer state epoch m
    → Lost peer state epoch (report_losses m peer ts)
unfolding report_losses
Lost-all peer epoch state m [] g = g
Lost-all peer epoch state m (t ∷ ts) g =
    Lost-all peer epoch state (begin_transport_reconnect m peer t none) ts
      (Lost-again peer epoch state m t g)

Lost-first :
    (l : Life) (t : TransportState)
    → l.phase ≡ stable
    → l.is_ended ≡ false
    → Lost l.peer l.state (l.epoch + 1) (begin_transport_reconnect l l.peer t none)
Lost-first l t h e =
    subst (Lost l.peer l.state (l.epoch + 1)) (sym (begin-first l t h e))
      (refl, refl, refl, refl, e, refl, refl)

abbrev pub Recovered : CallState → ℕ → Life × Bool → Type 0
Recovered state epoch r =
    r.0.state ≡ state
    × r.0.phase ≡ stable
    × r.0.terminal_state ≡ none
    × r.0.grace_peer ≡ none
    × r.0.epoch ≡ epoch
    × r.1 ≡ true

pub Lost-Recovered :
    (peer epoch : ℕ) (state : CallState) (m : Life)
    → Lost peer state epoch m
    → Recovered state epoch (recover_active_transport m peer none)
unfolding recover_active_transport complete_transport_reconnect
Lost-Recovered peer epoch state m g =
    let h : is_rejoining m.phase ≡ true = ap is_rejoining g.0 in
    let q : is_peer m.grace_peer peer ≡ true = ap (λ o. is_peer o peer) g.1 ∙ ==_refl peer in
    let p : m.peer ≡ peer = g.2 in
    let s : (if same_state m.state reconnecting
          then or_else m.state_before_reconnect listening
          else m.state)
        ≡ state =
      subst
        (λ (x : CallState).
          (if same_state x reconnecting then or_else m.state_before_reconnect listening else x)
          ≡ state)
        (sym g.5) (ap (λ o. or_else o listening) g.3) in
    if_either (Recovered state epoch)
      (not (is_rejoining m.phase)
        || not (is_peer m.grace_peer peer)
        || not (peer == m.peer)
        || not (allows none m.active_generation))
      {x = (m, false)} {y = (complete_transport_reconnect m, true)}
      (λ k. ground (arith, h, q, p, k)) (λ _. (s, refl, refl, refl, g.6, refl))

-- A call with a stable transport whose peer is reported lost, once or several times, and then connected
-- has the state and the phase that it had before, one epoch later, and no grace runs.
pub lost_and_recovered :
    (l : Life) (t : TransportState) (ts : List TransportState)
    → l.phase ≡ stable
    → l.is_ended ≡ false
    → let r = recover_active_transport (report_losses l l.peer (t ∷ ts)) l.peer none in
      r.0.state ≡ l.state
      × r.0.phase ≡ stable
      × r.0.terminal_state ≡ none
      × r.0.grace_peer ≡ none
      × r.0.epoch ≡ l.epoch + 1
      × r.1 ≡ true
unfolding report_losses
lost_and_recovered l t ts h e =
    Lost-Recovered l.peer (l.epoch + 1) l.state (report_losses l l.peer (t ∷ ts)) (
      Lost-all l.peer (l.epoch + 1) l.state (begin_transport_reconnect l l.peer t none) ts
        (Lost-first l t h e))
