-- ===== src/Session/Ordered.antt =====
-- The order of the events of a call in ai-backend/app/call/session.py, over every run of its calls.
use ray_me.Base.{
  ℕ, false, Option, none, some, is_some, List, [], ◌∷◌, ◌++◌, length, if_either, length-append, ◌+◌,
  ◌≡◌, refl, sym, ◌∙◌, subst, ◌||◌, arith, ==_refl,
}
use ray_me.Session.Invariants.{Events, events_of, IsInvariant, life_run_keeps}
use ray_me.Session.Calls.{LifeCall, new_life, life_run}
use ray_me.Session.Transport.{Reasons}
use ray_me.Session.Life.{
  OutboxEntry, Outcome, Life, Event, CallState, is_terminal_phase, commit_event,
  resolve_event_commit, taken_from, deliver_from, deliver_event, terminal_life, transition_terminal,
  outcome_event, publish_outcome, publish_terminal_outcome,
}
use ray_me.Session.Outbox.{
  Counts, AreReadyBut, Counts-append, Counts-resolve_in, AreReadyBut-append, AreReady-AreReadyBut,
  AreReadyBut-resolve_in,
}

-- What was taken from the outbox and what is in it have the places from the first to the last, and an
-- entry without a payload is the one of the end.
abbrev pub AreOrdered : Events → Type 0
AreOrdered l =
    Counts 0 l.delivered (length l.delivered)
    × Counts (length l.delivered) l.outbox l.event_sequence
    × AreReadyBut l.outcome l.outbox
    × is_some l.outcome ≡ l.is_ended

unfoldable pub IsOrdered : Life → Type 0
IsOrdered l = AreOrdered (events_of l)

pub events-IsOrdered : (l m : Life) → events_of l ≡ events_of m → IsOrdered l → IsOrdered m
unfolding IsOrdered
events-IsOrdered l m p g = subst AreOrdered p g

pub commit_event-IsOrdered :
    (e : Event) (l : Life) → IsOrdered l → IsOrdered (commit_event (some e) l)
unfolding IsOrdered
commit_event-IsOrdered e l (d, q, a, r) = (
  d,
  Counts-append (length l.delivered) l.event_sequence (l.event_sequence + 1) l.outbox _ q refl refl,
  AreReadyBut-append l.outcome l.outbox _ a refl,
  r,
)

AreReadyBut-none :
    (o : Option Outcome) (xs : List OutboxEntry)
    → is_some o ≡ false
    → AreReadyBut o xs
    → AreReadyBut none xs
AreReadyBut-none none xs h a = a
AreReadyBut-none (some o) xs h a = ground (arith, h)

terminal_life-IsOrdered :
    (target : CallState) (reason : ℕ) (l : Life)
    → l.is_ended ≡ false
    → IsOrdered l
    → IsOrdered (terminal_life target reason l)
unfolding IsOrdered
terminal_life-IsOrdered target reason l h (d, q, a, r) = (
  d,
  Counts-append (length l.delivered) l.event_sequence (l.event_sequence + 1) l.outbox _ q refl refl,
  AreReadyBut-append
      (some record { target_state = target; reason = reason; sequence = l.event_sequence + 1 })
      l.outbox record { sequence = l.event_sequence + 1; event = none }
      (AreReady-AreReadyBut
        (some record { target_state = target; reason = reason; sequence = l.event_sequence + 1 })
        l.outbox (AreReadyBut-none l.outcome l.outbox (r ∙ h) a))
      (==_refl (l.event_sequence + 1)),
  refl,
)

pub transition_terminal-IsOrdered :
    (target : CallState) (reason : ℕ) (l : Life)
    → IsOrdered l
    → IsOrdered (transition_terminal target reason l)
unfolding transition_terminal
transition_terminal-IsOrdered target reason l g =
    if_either IsOrdered (l.is_ended || is_terminal_phase l.phase) (λ _. g)
      (λ h. terminal_life-IsOrdered target reason l (ground (arith, h)) g)

taken_from-IsOrdered :
    (x : OutboxEntry) (xs : List OutboxEntry) (l : Life)
    → l.outbox ≡ x ∷ xs
    → IsOrdered l
    → IsOrdered (taken_from x xs l)
unfolding IsOrdered
taken_from-IsOrdered x xs l p (d, q, a, r) =
    let c = subst (λ ys. Counts (length l.delivered) ys l.event_sequence) p q in
    let n : length (l.delivered ++ x ∷ []) ≡ length l.delivered + 1 =
      omega (arith, length-append l.delivered (x ∷ [])) in
    (
      Counts-append 0 (length l.delivered) _ l.delivered x d c.0 n,
      subst (λ k. Counts k xs l.event_sequence) (sym n) c.1,
      (subst (AreReadyBut l.outcome) p a).1,
      r,
    )

deliver_from-IsOrdered :
    (xs : List OutboxEntry) (l : Life) → l.outbox ≡ xs → IsOrdered l → IsOrdered (deliver_from xs l)
deliver_from-IsOrdered [] l p g = g
deliver_from-IsOrdered (x ∷ xs) l p g =
    if_either IsOrdered (is_some x.event) (λ _. taken_from-IsOrdered x xs l p g) (λ _. g)

pub deliver_event-IsOrdered : (l : Life) → IsOrdered l → IsOrdered (deliver_event l)
unfolding deliver_event
deliver_event-IsOrdered l g = deliver_from-IsOrdered l.outbox l refl g

resolve_event_commit-IsOrdered :
    (n : ℕ) (e : Event) (l : Life) → IsOrdered l → IsOrdered (resolve_event_commit n e l)
unfolding IsOrdered
resolve_event_commit-IsOrdered n e l (d, q, a, r) =
    (d, Counts-resolve_in _ _ n e l.outbox q, AreReadyBut-resolve_in l.outcome n e l.outbox a, r)

publish_outcome-IsOrdered :
    (o : Option Outcome) (l : Life) → IsOrdered l → IsOrdered (publish_outcome o l)
publish_outcome-IsOrdered none l g = g
publish_outcome-IsOrdered (some o) l g =
    resolve_event_commit-IsOrdered o.sequence (outcome_event o) l g

pub publish_terminal_outcome-IsOrdered :
    (l : Life) → IsOrdered l → IsOrdered (publish_terminal_outcome l)
unfolding publish_terminal_outcome
publish_terminal_outcome-IsOrdered l g = publish_outcome-IsOrdered l.outcome l g

pub IsOrdered-invariant : IsInvariant IsOrdered
unfolding IsOrdered
IsOrdered-invariant = record {
  keeps = events-IsOrdered;
  commits = commit_event-IsOrdered;
  ends = transition_terminal-IsOrdered;
  delivers = deliver_event-IsOrdered;
  publishes = publish_terminal_outcome-IsOrdered;
  explains = λ l reason h g. g;
}

pub run_from_new-IsOrdered :
    (reasons : Reasons) (peer : ℕ) (cs : List LifeCall)
    → IsOrdered (life_run reasons (new_life peer) cs)
unfolding IsOrdered
run_from_new-IsOrdered reasons peer cs =
    life_run_keeps IsOrdered IsOrdered-invariant reasons (new_life peer) cs (refl, refl, tt, refl)
