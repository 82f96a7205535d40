-- ===== src/Session/Late.antt =====
-- A commit in ai-backend/app/call/session.py that comes after the cancellation of its turn.
use ray_me.Base.{
  if_either, ℕ, ◌≡◌, refl, sym, ap, ◌∙◌, subst, inl, inr, true, some, List, [], ◌∷◌, arith, ==_refl,
  Bool-cases, put, pop, if◌then◌else◌,
}
use ray_me.Session.Segments.{
  Segment, Names, completed, terminated, TurnLedger, find_segment, ledger_of, commit_in, entry_of,
  commit_found, commit_tts_segment, cancel_segments, is_completed, terminate_ledger,
  cancel_tts_turn,
}
use ray_me.Session.Claims.{find_segment-cancel}
use ray_me.Session.Attempts.{
  Speech, Entry-of_open, holds, silence, SpeechCall, commit_call, cancel_call, after_commit,
  speech_step, speech_run, IsOrderly, ledger_of-put,
}
use ray_me.Session.Orderly.{speech_run-IsOrderly, speech_step-IsOrderly, silence-IsOrderly}

commit_final :
    (names : Names) (v : Speech) (t i x : ℕ) (y : Segment)
    → entry_of v.turns t i ≡ some (ledger_of v.turns t, y)
    → holds v.attempts t i ≡ true
    → y.final_chunk ≡ true
    → (ledger_of (speech_step names v (commit_call t i x)).turns t).state ≡ completed
unfolding speech_step commit_tts_segment commit_found
commit_final names v t i x y f h b = rw h (
    subst
      (λ o. (ledger_of (after_commit (commit_found o v.turns t x) t i v).turns t).state ≡ completed)
      (sym f)
      (if_either (λ s. (ledger_of s t).state ≡ completed) y.final_chunk
        (λ c. done (pop v.turns.playback t)) (λ c. done v.turns.playback)))
  where
    done :
        (playback : List (ℕ × ℕ))
        → (ledger_of
            record {
              ledgers = put v.turns.ledgers t (commit_in (ledger_of v.turns t) y x);
              playback = playback;
            }
            t).state
          ≡ completed
    done playback =
        rw (ledger_of-put v.turns t t (commit_in (ledger_of v.turns t) y x), ==_refl t)
          (if_either (λ s. s ≡ completed) y.final_chunk (λ c. refl) (λ c. ground (arith, b, c)))

cancel_ledger :
    (names : Names) (w : Speech) (t : ℕ)
    → ledger_of (speech_step names w (cancel_call t)).turns t
      ≡ terminate_ledger (ledger_of w.turns t)
unfolding speech_step cancel_tts_turn
cancel_ledger names w t =
    if_either (λ s. ledger_of s t ≡ terminate_ledger (ledger_of w.turns t))
      (is_completed (ledger_of w.turns t).state) (λ b. at w.turns.playback)
      (λ b. at (pop w.turns.playback t))
  where
    at :
        (playback : List (ℕ × ℕ))
        → ledger_of
            record {
              ledgers = put w.turns.ledgers t (terminate_ledger (ledger_of w.turns t));
              playback = playback;
            }
            t
          ≡ terminate_ledger (ledger_of w.turns t)
    at playback =
        ledger_of-put w.turns t t (terminate_ledger (ledger_of w.turns t)) ∙ rw (==_refl t) refl

find_terminated :
    (i : ℕ) (l : TurnLedger) (e y : Segment)
    → find_segment i l.segments ≡ some e
    → find_segment i (terminate_ledger l).segments ≡ some y
    → e.final_chunk ≡ true
    → y.final_chunk ≡ true
find_terminated i l e y f g b = elim (Bool-cases (is_completed l.state)) [
  | inl c ↦
      ground
        (arith, f, b, subst (λ q. find_segment i (if q then l else ended).segments ≡ some y) c g)
  | inr c ↦ ground (
    arith,
    f,
    b,
    sym (find_segment-cancel i l.segments)
        ∙ subst (λ q. find_segment i (if q then l else ended).segments ≡ some y) c g,
  )
]
  where
    ended : TurnLedger
    ended = record l { state = terminated; segments = cancel_segments l.segments }

cancel_call-attempts :
    (names : Names) (w : Speech) (t : ℕ)
    → (speech_step names w (cancel_call t)).attempts ≡ w.attempts
unfolding speech_step
cancel_call-attempts names w t = refl

cancelled_final :
    (names : Names) (w : Speech) (t i x : ℕ) (e : Segment)
    → IsOrderly w
    → holds w.attempts t i ≡ true
    → find_segment i (ledger_of w.turns t).segments ≡ some e
    → e.final_chunk ≡ true
    → (ledger_of
        (speech_step names (speech_step names w (cancel_call t)) (commit_call t i x)).turns
        t).state
      ≡ completed
cancelled_final names w t i x e g h f b =
    let v = speech_step names w (cancel_call t) in
    let held : holds v.attempts t i ≡ true =
      ap (λ a. holds a t i) (cancel_call-attempts names w t) ∙ h in
    let d =
      Entry-of_open v.turns t i ((speech_step-IsOrderly names w (cancel_call t) g t).1 i held) in
    commit_final names v t i x d.segment d.here held (
      find_terminated i (ledger_of w.turns t) e d.segment f
        (subst (λ (m : TurnLedger). find_segment i m.segments ≡ some d.segment)
          (cancel_ledger names w t) d.found)
        b)

-- When an attempt at the segment that closes its turn (`final_chunk`) is running, and the turn is then
-- cancelled, the commit of that attempt completes the cancelled turn.
pub cancelled-completed :
    (names : Names) (cs : List SpeechCall) (t i x : ℕ) (e : Segment)
    → holds (speech_run names silence cs).attempts t i ≡ true
    → find_segment i (ledger_of (speech_run names silence cs).turns t).segments ≡ some e
    → e.final_chunk ≡ true
    → (ledger_of
        (speech_run names
          (speech_run names silence cs)
          (cancel_call t ∷ commit_call t i x ∷ [])).turns
        t).state
      ≡ completed
unfolding speech_run
cancelled-completed names cs t i x e h f b =
    cancelled_final names (speech_run names silence cs) t i x e
      (speech_run-IsOrderly names silence cs silence-IsOrderly) h f b
