-- ===== src/Session/Final.antt =====
-- The end of a call in ai-backend/app/call/session.py is final, whatever is called afterwards.
use ray_me.Base.{
  ℕ, Bool, true, Option, none, some, is_some, List, [], ◌∷◌, if_either, ◌≡◌, refl, sym, ap, ◌∙◌,
  subst, ◌||◌, arith, get, if◌then◌else◌,
}
use ray_me.Session.Life.{
  Outcome, Life, CallState, other_event, OutboxEntry, Admission, is_terminal_phase, taken_from,
  deliver_from, deliver_event, terminal_life, transition_terminal, publish_outcome,
  publish_terminal_outcome, is_over,
}
use ray_me.Session.Transport.{Reasons}
use ray_me.Session.Turns.{
  claim_inactive, over_answer, StaleAnswer, claim_stt_finalization, stale_of,
  stale_stt_turn_response, commit_unless, commit_stt_event, SttClaim,
}
use ray_me.Session.Calls.{LifeCall, is_unexplained, life_run}
use ray_me.Session.Invariants.{Events, events_of, IsInvariant, life_run_keeps}

abbrev AreEnded : ℕ → Option Outcome → Events → Type 0
AreEnded reason o e = e.is_ended ≡ true × e.end_reason ≡ some reason × e.outcome ≡ o

unfoldable IsEnded : ℕ → Option Outcome → Life → Type 0
IsEnded reason o l = AreEnded reason o (events_of l)

events-IsEnded :
    (r : ℕ) (o : Option Outcome) (l m : Life)
    → events_of l ≡ events_of m
    → IsEnded r o l
    → IsEnded r o m
unfolding IsEnded
events-IsEnded r o l m p g = subst (AreEnded r o) p g

transition_terminal-ended :
    (target : CallState) (reason : ℕ) (l : Life)
    → l.is_ended ≡ true
    → transition_terminal target reason l ≡ l
unfolding transition_terminal
transition_terminal-ended target reason l h =
    subst
      (λ (b : Bool).
        (if b || is_terminal_phase l.phase then l else terminal_life target reason l) ≡ l)
      (sym h) refl

transition_terminal-IsEnded :
    (r : ℕ) (o : Option Outcome) (target : CallState) (reason : ℕ) (l : Life)
    → IsEnded r o l
    → IsEnded r o (transition_terminal target reason l)
unfolding IsEnded
transition_terminal-IsEnded r o target reason l g =
    subst (IsEnded r o) (sym (transition_terminal-ended target reason l g.0)) g

deliver_from-IsEnded :
    (r : ℕ) (o : Option Outcome) (xs : List OutboxEntry) (l : Life)
    → IsEnded r o l
    → IsEnded r o (deliver_from xs l)
unfolding IsEnded
deliver_from-IsEnded r o [] l g = g
deliver_from-IsEnded r o (x ∷ xs) l g =
    if_either (IsEnded r o) (is_some x.event) {x = taken_from x xs l} {y = l} (λ _. g) (λ _. g)

publish_outcome-IsEnded :
    (r : ℕ) (o p : Option Outcome) (l : Life) → IsEnded r o l → IsEnded r o (publish_outcome p l)
unfolding IsEnded
publish_outcome-IsEnded r o none l g = g
publish_outcome-IsEnded r o (some p) l g = g

explained :
    (r : ℕ) (o : Option Outcome) (l : Life) (reason : ℕ)
    → is_unexplained l ≡ true
    → IsEnded r o l
    → IsEnded r o (record l { end_reason = some reason })
unfolding IsEnded
explained r o l reason h g =
    let n : is_some l.end_reason ≡ true = ap is_some g.1 in (g.0, ground (arith, h, n), g.2)

IsEnded-invariant : (r : ℕ) (o : Option Outcome) → IsInvariant (IsEnded r o)
unfolding IsEnded deliver_event publish_terminal_outcome
IsEnded-invariant r o = record {
  keeps = events-IsEnded r o;
  commits = λ e l g. g;
  ends = transition_terminal-IsEnded r o;
  delivers = λ l g. deliver_from-IsEnded r o l.outbox l g;
  publishes = λ l g. publish_outcome-IsEnded r o l.outcome l g;
  explains = explained r o;
}

-- What a call that is over answers to a microphone turn, and what the turn changes.
stale_of-over :
    (a : Option Admission) (l : Life) (token : ℕ)
    → l.is_ended ≡ true
    → is_some (stale_of a l token) ≡ true
unfolding stale_of
stale_of-over none l token h = refl
stale_of-over (some a) l token h = ground (arith, h)

claim_inactive-over :
    (f : Option (ℕ × List ℕ)) (l : Life) (allow : Bool)
    → l.is_ended ≡ true
    → (claim_inactive f l allow).0 ≡ l
unfolding claim_inactive
claim_inactive-over (some (t, fs)) l allow h = refl
claim_inactive-over none l allow h =
    if_either (λ (p : Life × SttClaim). p.0 ≡ l) (is_over l) {x = (l, over_answer l.state)}
      (λ _. refl) (λ k. ground (arith, h, k))

commit_unless-stale :
    (a : Option StaleAnswer) (l : Life) (token n : ℕ) (next : CallState)
    → is_some a ≡ true
    → (commit_unless a l token (other_event n) next).0 ≡ l
unfolding commit_unless
commit_unless-stale (some a) l token n next h = refl
commit_unless-stale none l token n next h = ground (arith, h)

-- Once a call has ended with a reason it keeps that reason and that outcome through every sequence of
-- its calls; no microphone turn is claimed any more, and no event of a turn is committed.
pub ended_is_final :
    (reasons : Reasons) (l : Life) (reason : ℕ) (cs : List LifeCall)
    → l.is_ended ≡ true
    → l.end_reason ≡ some reason
    → let m = life_run reasons l cs in
      m.is_ended ≡ true
      × m.end_reason ≡ l.end_reason
      × m.outcome ≡ l.outcome
      × ((allow : Bool) → (claim_stt_finalization m allow).0 ≡ m)
      × ((token n : ℕ) (next : CallState) → (commit_stt_event m token (other_event n) next).0 ≡ m)
unfolding IsEnded claim_stt_finalization commit_stt_event stale_stt_turn_response
ended_is_final reasons l reason cs h p =
    let m = life_run reasons l cs in
    let g =
      life_run_keeps (IsEnded reason l.outcome) (IsEnded-invariant reason l.outcome) reasons l cs
        (h, p, refl) in
    (
      g.0,
      g.1 ∙ sym p,
      g.2,
      λ allow. claim_inactive-over m.finalization m allow g.0,
      λ token n next.
          commit_unless-stale (stale_stt_turn_response m token) m token n next
            (stale_of-over (get m.admissions token) m token g.0),
    )
