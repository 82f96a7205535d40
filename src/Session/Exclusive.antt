-- ===== src/Session/Exclusive.antt =====
-- At most one attempt per turn runs against the ledger of ai-backend/app/call/session.py.
use ray_me.Base.{
  ℕ, ◌≤◌, is_some, if_either, ◌≡◌, refl, sym, ◌∙◌, subst, true, false, Option, none, some, List, [],
  ◌∷◌, arith, ◌==◌, put, pop, map_some, ◌&&◌,
}
use ray_me.Session.Segments.{
  Segment, Names, TurnLedger, SpeechTurns, SegmentRequest, Claim, claimed, cached, waiting,
  conflict, turn_over, no_response, find_segment, claim_in, ledger_of, claim_tts_segment,
  commit_found, commit_tts_segment, release_found, release_tts_segment_attempt,
  record_tts_turn_playback, is_active, is_in_flight, is_completed, terminate_ledger,
  cancel_tts_turn, commit_in, cancel_segment,
}
use ray_me.Session.Claims.{find_segment-cancel, claim_in-IsClaim}
use ray_me.Session.Attempts.{
  Speech, holds, drop_attempt, silence, SpeechCall, claim_call, commit_call, release_call,
  cancel_call, playback_call, attempts_after, attempts_after-others, after_commit, speech_step,
  speech_run, IsOrderly, holds-drop_attempt, Entry-of_open,
}
use ray_me.Session.Granted.{is_free, claim_in-IsGrant}
use ray_me.Session.Single.{
  attempt_count, attempt_count-holds, attempt_count-drop, IsSingle, IsExclusive, IsExclusive-put,
  ended-IsExclusive, same_open, claimed-IsSingle,
}
use ray_me.Session.Orderly.{speech_step-IsOrderly, speech_run-IsOrderly, silence-IsOrderly}

attempts_after-count :
    (t : ℕ) (c : Claim) (h : List (ℕ × ℕ)) (u : ℕ)
    → t == u ≡ false
    → attempt_count u (attempts_after t c h) ≤ attempt_count u h
unfolding attempt_count
attempts_after-count t (claimed e) h u n = ground (arith, n)
attempts_after-count t (cached x) h u n = omega arith
attempts_after-count t waiting h u n = omega arith
attempts_after-count t conflict h u n = omega arith
attempts_after-count t turn_over h u n = omega arith
attempts_after-count t no_response h u n = omega arith

of_exclusive : (w : Speech) (t : ℕ) → IsExclusive w → IsSingle w.attempts t (ledger_of w.turns t)
unfolding IsExclusive
of_exclusive w t g = g t

claim_call-IsExclusive :
    (names : Names) (w : Speech) (t : ℕ) (r : SegmentRequest)
    → IsOrderly w
    → IsExclusive w
    → IsExclusive (speech_step names w (claim_call t r))
unfolding speech_step claim_tts_segment
claim_call-IsExclusive names w t r o g =
    let l = ledger_of w.turns t in
    let p = claim_in names t l r in
    IsExclusive-put w t p.0 w.turns.playback (attempts_after t p.1 w.attempts)
      (claimed-IsSingle t w.attempts l p.0 p.1 (claim_in-IsGrant names t l r)
        (claim_in-IsClaim names t l r (o t).0) (o t).1 (of_exclusive w t g))
      (attempts_after-count t p.1 w.attempts) (attempts_after-others t p.1 w.attempts) g

commit_call-IsExclusive :
    (names : Names) (w : Speech) (t i x : ℕ)
    → IsOrderly w
    → IsExclusive w
    → IsExclusive (speech_step names w (commit_call t i x))
unfolding speech_step commit_tts_segment commit_found
commit_call-IsExclusive names w t i x o g =
    if_either IsExclusive (holds w.attempts t i) held (λ h. g)
  where
    held :
        holds w.attempts t i ≡ true
        → IsExclusive (after_commit (commit_tts_segment w.turns t i x) t i w)
    held h =
        let e = Entry-of_open w.turns t i ((o t).1 i h) in
        let l = commit_in (ledger_of w.turns t) e.segment x in
        subst (λ c. IsExclusive (after_commit (commit_found c w.turns t x) t i w)) (sym e.here)
          (if_either
            (λ s. IsExclusive (record { turns = s; attempts = drop_attempt t i w.attempts }))
            e.segment.final_chunk (λ b. ended-IsExclusive w t i l (pop w.turns.playback t) h g)
            (λ b. ended-IsExclusive w t i l w.turns.playback h g))

dropped-IsExclusive :
    (w : Speech) (t i : ℕ)
    → IsExclusive w
    → IsExclusive (record w { attempts = drop_attempt t i w.attempts })
unfolding IsExclusive
dropped-IsExclusive w t i g u = (
  omega (arith, (g u).0, attempt_count-drop u t i w.attempts),
  λ j q. (g u).1 j (ground (arith, sym (holds-drop_attempt t i u j w.attempts) ∙ q)),
)

release_call-IsExclusive :
    (names : Names) (w : Speech) (t i : ℕ)
    → IsOrderly w
    → IsExclusive w
    → IsExclusive (speech_step names w (release_call t i))
unfolding speech_step release_tts_segment_attempt release_found
release_call-IsExclusive names w t i o g =
    if_either IsExclusive (holds w.attempts t i) held (λ h. g)
  where
    held :
        holds w.attempts t i ≡ true
        → IsExclusive record {
          turns = release_tts_segment_attempt w.turns t i;
          attempts = drop_attempt t i w.attempts;
        }
    held h =
        let e = Entry-of_open w.turns t i ((o t).1 i h) in
        subst
          (λ c.
            IsExclusive (record {
              turns = release_found c w.turns t;
              attempts = drop_attempt t i w.attempts;
            }))
          (sym e.here)
          (if_either
            (λ s. IsExclusive (record { turns = s; attempts = drop_attempt t i w.attempts }))
            (is_active (ledger_of w.turns t).state && is_in_flight e.segment)
            (λ b. ended-IsExclusive w t i _ w.turns.playback h g)
            (λ b. dropped-IsExclusive w t i g))

cancel_segment-free :
    (o : Option Segment) → is_free o ≡ false → is_free (map_some cancel_segment o) ≡ false
cancel_segment-free none h = h
cancel_segment-free (some e) h = ground (arith, h)

terminate_ledger-IsSingle :
    (h : List (ℕ × ℕ)) (t : ℕ) (l : TurnLedger) → IsSingle h t l → IsSingle h t (terminate_ledger l)
terminate_ledger-IsSingle h t l s =
    if_either (IsSingle h t) (is_completed l.state) (λ b. s)
      (λ b. (
        s.0,
        λ i q.
            rw (find_segment-cancel i l.segments)
              (cancel_segment-free (find_segment i l.segments) (s.1 i q)),
      ))

cancel_call-IsExclusive :
    (names : Names) (w : Speech) (t : ℕ)
    → IsExclusive w
    → IsExclusive (speech_step names w (cancel_call t))
unfolding speech_step cancel_tts_turn
cancel_call-IsExclusive names w t g =
    if_either (λ s. IsExclusive (record w { turns = s })) (is_completed (ledger_of w.turns t).state)
      (λ b. written w.turns.playback) (λ b. written (pop w.turns.playback t))
  where
    written :
        (playback : List (ℕ × ℕ))
        → IsExclusive record w {
          turns = record {
            ledgers = put w.turns.ledgers t (terminate_ledger (ledger_of w.turns t));
            playback = playback;
          };
        }
    written playback =
        IsExclusive-put w t (terminate_ledger (ledger_of w.turns t)) playback w.attempts
          (terminate_ledger-IsSingle w.attempts t (ledger_of w.turns t) (of_exclusive w t g))
          (λ u n. omega arith) (λ u i n q. q) g

speech_step-IsExclusive :
    (names : Names) (w : Speech) (c : SpeechCall)
    → IsOrderly w
    → IsExclusive w
    → IsExclusive (speech_step names w c)
unfolding speech_step record_tts_turn_playback IsExclusive
speech_step-IsExclusive names w (claim_call t r) o g = claim_call-IsExclusive names w t r o g
speech_step-IsExclusive names w (commit_call t i x) o g = commit_call-IsExclusive names w t i x o g
speech_step-IsExclusive names w (release_call t i) o g = release_call-IsExclusive names w t i o g
speech_step-IsExclusive names w (cancel_call t) o g = cancel_call-IsExclusive names w t g
speech_step-IsExclusive names w (playback_call t n) o g = g

speech_run-IsExclusive :
    (names : Names) (w : Speech) (cs : List SpeechCall)
    → IsOrderly w
    → IsExclusive w
    → IsExclusive (speech_run names w cs)
unfolding speech_run
speech_run-IsExclusive names w [] o g = g
speech_run-IsExclusive names w (c ∷ cs) o g =
    speech_run-IsExclusive names (speech_step names w c) cs (speech_step-IsOrderly names w c o)
      (speech_step-IsExclusive names w c o g)

silence-IsExclusive : IsExclusive silence
unfolding IsExclusive attempt_count
silence-IsExclusive t = (omega arith, λ i h. ground (arith, h))

commit_found-is_some :
    (s : SpeechTurns) (l : TurnLedger) (e : Segment) (t x : ℕ)
    → is_some (commit_found (some (l, e)) s t x) ≡ true
unfolding commit_found
commit_found-is_some s l e t x = refl

-- In every run at most one attempt at a time speaks on a turn: there is no second attempt, not even on
-- the same segment. Two segments that are spoken on it are thus the same, and the commit of an attempt
-- finds its entry: `ledger ownership was lost` is never raised.
pub attempts_exclusive :
    (names : Names) (cs : List SpeechCall) (t i j x : ℕ)
    → holds (speech_run names silence cs).attempts t i ≡ true
    → holds (speech_run names silence cs).attempts t j ≡ true
    → i ≡ j
      × attempt_count t (speech_run names silence cs).attempts ≡ 1
      × is_some (commit_tts_segment (speech_run names silence cs).turns t i x) ≡ true
unfolding commit_tts_segment
attempts_exclusive names cs t i j x h k =
    let w = speech_run names silence cs in
    let o = speech_run-IsOrderly names silence cs silence-IsOrderly in
    let s =
      of_exclusive w t
        (speech_run-IsExclusive names silence cs silence-IsOrderly silence-IsExclusive) in
    let e = Entry-of_open w.turns t i ((o t).1 i h) in
    (
      same_open i j (ledger_of w.turns t) (o t).0 ((o t).1 i h) ((o t).1 j k),
      omega (arith, s.0, attempt_count-holds t i w.attempts h),
      subst (λ c. is_some (commit_found c w.turns t x) ≡ true) (sym e.here)
          (commit_found-is_some w.turns (ledger_of w.turns t) e.segment t x),
    )
