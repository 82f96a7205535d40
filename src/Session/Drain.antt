-- ===== src/Session/Drain.antt =====
-- What a call commits to its outbox in ai-backend/app/call/session.py is delivered in that order.
use ray_me.Base.{
  ℕ, Bool, true, Option, none, some, is_some, List, [], ◌∷◌, ◌++◌, length, suc, ◌+◌, ◌≡◌, refl, sym,
  ◌∙◌, subst, append-nil, if◌then◌else◌, zero, ap,
}
use ray_me.Session.Invariants.{life_run_keeps}
use ray_me.Session.Life.{
  OutboxEntry, Outcome, Life, taken_from, deliver_from, deliver_event, outcome_event,
  publish_outcome, publish_terminal_outcome,
}
use ray_me.Session.Transport.{Reasons}
use ray_me.Session.Calls.{LifeCall, life_step, new_life, deliver_call, life_run}
use ray_me.Session.Outbox.{
  Counts, AreReadyBut, AreReady, AreReady-resolve_in, AreReadyBut-none-AreReady,
}
use ray_me.Session.Ordered.{
  IsOrdered, publish_terminal_outcome-IsOrdered, IsOrdered-invariant, run_from_new-IsOrdered,
}

Counts-both :
    (a b c : ℕ) (xs ys : List OutboxEntry) → Counts a xs b → Counts b ys c → Counts a (xs ++ ys) c
Counts-both a b c [] ys p q = subst (λ k. Counts k ys c) (sym p) q
Counts-both a b c (x ∷ xs) ys p q = (p.0, Counts-both (a + 1) b c xs ys p.1 q)

IsOrdered-Counts : (l : Life) → IsOrdered l → Counts 0 (l.delivered ++ l.outbox) l.event_sequence
unfolding IsOrdered
IsOrdered-Counts l g =
    Counts-both 0 (length l.delivered) l.event_sequence l.delivered l.outbox g.0 g.1

-- In every run of the calls of a session, what was taken from the outbox followed by what is in it are
-- the events committed so far, each once and in the order in which they were committed.
pub life_run_in_order :
    (reasons : Reasons) (peer : ℕ) (cs : List LifeCall)
    → Counts 0
        ((life_run reasons (new_life peer) cs).delivered
          ++ (life_run reasons (new_life peer) cs).outbox)
        (life_run reasons (new_life peer) cs).event_sequence
life_run_in_order reasons peer cs = IsOrdered-Counts _ (run_from_new-IsOrdered reasons peer cs)

abbrev pub deliveries : ℕ → List LifeCall
deliveries zero = []
deliveries (suc n) = deliver_call ∷ deliveries n

deliver_event-taken :
    (l : Life) (x : OutboxEntry) (xs : List OutboxEntry)
    → l.outbox ≡ x ∷ xs
    → is_some x.event ≡ true
    → deliver_event l ≡ taken_from x xs l
unfolding deliver_event
deliver_event-taken l x xs p h =
    subst (λ (ys : List OutboxEntry). deliver_from ys l ≡ taken_from x xs l) (sym p)
      (subst (λ (b : Bool). (if b then taken_from x xs l else l) ≡ taken_from x xs l) (sym h) refl)

deliveries-empty :
    (reasons : Reasons) (xs : List OutboxEntry) (l : Life)
    → l.outbox ≡ xs
    → AreReady xs
    → (life_run reasons l (deliveries (length xs))).outbox ≡ []
      × (life_run reasons l (deliveries (length xs))).event_sequence ≡ l.event_sequence
unfolding life_run life_step
deliveries-empty reasons [] l p a = (p, refl)
deliveries-empty reasons (x ∷ xs) l p a =
    subst
      (λ (m : Life).
        (life_run reasons m (deliveries (length xs))).outbox ≡ []
        × (life_run reasons m (deliveries (length xs))).event_sequence ≡ l.event_sequence)
      (sym (deliver_event-taken l x xs p a.0))
      (deliveries-empty reasons xs (taken_from x xs l) refl a.1)

publish-AreReady :
    (o : Option Outcome) (l : Life) → AreReadyBut o l.outbox → AreReady (publish_outcome o l).outbox
publish-AreReady none l a = AreReadyBut-none-AreReady l.outbox a
publish-AreReady (some o) l a = AreReady-resolve_in o (outcome_event o) l.outbox a

publish_terminal_outcome-AreReady :
    (l : Life) → IsOrdered l → AreReady (publish_terminal_outcome l).outbox
unfolding IsOrdered publish_terminal_outcome
publish_terminal_outcome-AreReady l g = publish-AreReady l.outcome l g.2

-- In every run of the calls of a session, once the terminal outcome is published as many rounds of the
-- delivery as the outbox has entries empty it: every event committed was then taken, in order.
pub publish_then_deliver :
    (reasons : Reasons) (peer : ℕ) (cs : List LifeCall)
    → let m = publish_terminal_outcome (life_run reasons (new_life peer) cs) in
      let w = life_run reasons m (deliveries (length m.outbox)) in
      w.outbox ≡ [] × Counts 0 w.delivered m.event_sequence
publish_then_deliver reasons peer cs =
    let l = life_run reasons (new_life peer) cs in
    let g = run_from_new-IsOrdered reasons peer cs in
    let m = publish_terminal_outcome l in
    let w = life_run reasons m (deliveries (length m.outbox)) in
    let e = deliveries-empty reasons m.outbox m refl (publish_terminal_outcome-AreReady l g) in
    let o =
      life_run_keeps IsOrdered IsOrdered-invariant reasons m (deliveries (length m.outbox))
        (publish_terminal_outcome-IsOrdered l g) in
    (e.0, drained w m e.0 e.1 o)
  where
    drained :
        (w m : Life)
        → w.outbox ≡ []
        → w.event_sequence ≡ m.event_sequence
        → IsOrdered w
        → Counts 0 w.delivered m.event_sequence
    drained w m p q o = subst (Counts 0 w.delivered) q (
        subst (λ (xs : List OutboxEntry). Counts 0 xs w.event_sequence)
          (ap (λ (ys : List OutboxEntry). w.delivered ++ ys) p ∙ append-nil w.delivered)
          (IsOrdered-Counts w o))
