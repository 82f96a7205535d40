-- ===== src/Session/Over.antt =====
-- A turn that is over in ai-backend/app/call/session.py, and a commit that comes after a cancellation.
use ray_me.Base.{
  if_either, ℕ, ◌≡◌, refl, sym, ap, ◌∙◌, subst, inl, inr, Bool, true, false, Option, none, some,
  List, arith, ◌==◌, ==_iff, Bool-cases, put, pop, ◌&&◌, [], ◌∷◌, ==_refl, get,
}
use ray_me.Session.Segments.{
  or_else, modify_segment, record_tts_turn_playback, Segment, Names, TurnLedger, SegmentRequest,
  Claim, claimed, cached, waiting, conflict, turn_over, no_response, is_committed, is_over,
  identity_of, find_segment, differs, cached_response, claim_existing, claim_new, claim_found,
  claim_in, ledger_of, claim_tts_segment, entry_of, commit_found, commit_tts_segment,
  release_tts_segment_attempt, is_completed, terminate_ledger, cancel_tts_turn, TurnState, active,
  completed, terminated, empty_ledger, SpeechTurns, commit_in, with_ledger, entry_in,
  release_segment, is_active, is_in_flight, release_found,
}
use ray_me.Session.Attempts.{
  Speech, holds, SpeechCall, claim_call, commit_call, release_call, cancel_call, playback_call,
  attempts_after, after_commit, speech_step, ledger_of-put, drop_attempt, speech_run,
}

abbrev pub is_claimed : Claim → Bool
is_claimed (claimed e) = true
is_claimed (cached x) = false
is_claimed waiting = false
is_claimed conflict = false
is_claimed turn_over = false
is_claimed no_response = false

-- No attempt starts, and the ledger stays.
abbrev IsBarred : TurnLedger → TurnLedger × Claim → Type 0
IsBarred l p = p.0 ≡ l × is_claimed p.1 ≡ false

cached_response-is_claimed : (o : Option ℕ) → is_claimed (cached_response o) ≡ false
cached_response-is_claimed none = refl
cached_response-is_claimed (some x) = refl

claim_existing-IsBarred :
    (names : Names) (turn : ℕ) (l : TurnLedger) (r : SegmentRequest) (e : Segment)
    → is_over l.state ≡ true
    → IsBarred l (claim_existing names turn l r e)
unfolding claim_existing
claim_existing-IsBarred names turn l r e h =
    if_either (IsBarred l) (differs e r) (λ t. (refl, refl))
      (λ t.
        if_either (IsBarred l) (is_committed e) (λ u. (refl, cached_response-is_claimed e.response))
          (λ u.
            if_either (IsBarred l) (is_over l.state) (λ v. (refl, refl))
              (λ v. ground (arith, h, v))))

claim_found-IsBarred :
    (o : Option Segment) (names : Names) (turn i : ℕ) (l : TurnLedger) (r : SegmentRequest)
    → is_over l.state ≡ true
    → IsBarred l (claim_found o names turn l r i)
unfolding claim_found claim_new
claim_found-IsBarred none names turn i l r h = rw h (refl, refl)
claim_found-IsBarred (some e) names turn i l r h = claim_existing-IsBarred names turn l r e h

pub claim_in-IsBarred :
    (names : Names) (turn : ℕ) (l : TurnLedger) (r : SegmentRequest)
    → is_over l.state ≡ true
    → IsBarred l (claim_in names turn l r)
unfolding claim_in
claim_in-IsBarred names turn l r h =
    claim_found-IsBarred (find_segment (identity_of names l r) l.segments) names turn
      (identity_of names l r) l r h

abbrev pub over_at : Speech → ℕ → Bool
over_at w t = is_over (ledger_of w.turns t).state

put_over :
    (w : Speech) (t u : ℕ) (l : TurnLedger) (playback : List (ℕ × ℕ)) (attempts : List (ℕ × ℕ))
    → (is_over (ledger_of w.turns t).state ≡ true → is_over l.state ≡ true)
    → over_at w u ≡ true
    → over_at
        record {
          turns = record { ledgers = put w.turns.ledgers t l; playback = playback };
          attempts = attempts;
        }
        u
      ≡ true
put_over w t u l playback attempts k h = elim (Bool-cases (t == u)) [
  | inl e ↦
      rw (ledger_of-put w.turns t u l, e)
        (k (subst (λ v. over_at w v ≡ true) (sym ((==_iff t u).0 e)) h))
  | inr e ↦ rw (ledger_of-put w.turns t u l, e) h
]

entry_in-ledger :
    (o : Option TurnLedger) (i : ℕ) (l : TurnLedger) (e : Segment)
    → entry_in o i ≡ some (l, e)
    → or_else o empty_ledger ≡ l
entry_in-ledger none i l e h = ground (arith, h)
entry_in-ledger (some m) i l e h = of (find_segment i m.segments) h
  where
    of : (o : Option Segment) → with_ledger m o ≡ some (l, e) → m ≡ l
    of none h = ground (arith, h)
    of (some x) h = ground (arith, h)

-- The ledger of an attempt is the one of its turn.
over_ledger :
    (s : SpeechTurns) (t i : ℕ) (l : TurnLedger) (e : Segment)
    → entry_of s t i ≡ some (l, e)
    → is_over (ledger_of s t).state ≡ true
    → is_over l.state ≡ true
over_ledger s t i l e f h =
    subst (λ (m : TurnLedger). is_over m.state ≡ true) (entry_in-ledger (get s.ledgers t) i l e f) h

commit_in_over :
    (l : TurnLedger) (e : Segment) (x : ℕ)
    → is_over l.state ≡ true
    → is_over (commit_in l e x).state ≡ true
commit_in_over l e x h = if_either (λ s. is_over s ≡ true) e.final_chunk (λ b. refl) (λ b. h)

commit_over :
    (w : Speech) (t i x u : ℕ) (o : Option (TurnLedger × Segment))
    → entry_of w.turns t i ≡ o
    → over_at w u ≡ true
    → over_at (after_commit (commit_found o w.turns t x) t i w) u ≡ true
unfolding commit_found
commit_over w t i x u none f h = h
commit_over w t i x u (some (l, e)) f h =
    let k = λ (b : is_over (ledger_of w.turns t).state ≡ true).
      commit_in_over l e x (over_ledger w.turns t i l e f b) in
    if_either (λ s. over_at (record { turns = s; attempts = drop_attempt t i w.attempts }) u ≡ true)
      e.final_chunk
      (λ b.
        put_over w t u (commit_in l e x) (pop w.turns.playback t) (drop_attempt t i w.attempts) k h)
      (λ b. put_over w t u (commit_in l e x) w.turns.playback (drop_attempt t i w.attempts) k h)

release_over :
    (w : Speech) (t i u : ℕ) (o : Option (TurnLedger × Segment))
    → entry_of w.turns t i ≡ o
    → over_at w u ≡ true
    → over_at record { turns = release_found o w.turns t; attempts = drop_attempt t i w.attempts } u
      ≡ true
unfolding release_found
release_over w t i u none f h = h
release_over w t i u (some (l, e)) f h =
    if_either (λ s. over_at (record { turns = s; attempts = drop_attempt t i w.attempts }) u ≡ true)
      (is_active l.state && is_in_flight e)
      (λ b.
        put_over w t u
          record l { segments = modify_segment e.segment_id release_segment l.segments }
          w.turns.playback (drop_attempt t i w.attempts) (over_ledger w.turns t i l e f) h)
      (λ b. h)

terminate_over :
    (l : TurnLedger) → is_over l.state ≡ true → is_over (terminate_ledger l).state ≡ true
terminate_over l h =
    if_either (λ (m : TurnLedger). is_over m.state ≡ true) (is_completed l.state) (λ b. h)
      (λ b. refl)

speech_step_over :
    (names : Names) (w : Speech) (c : SpeechCall) (u : ℕ)
    → over_at w u ≡ true
    → over_at (speech_step names w c) u ≡ true
unfolding speech_step claim_tts_segment commit_tts_segment release_tts_segment_attempt
    cancel_tts_turn record_tts_turn_playback
speech_step_over names w (claim_call t r) u h =
    put_over w t u (claim_in names t (ledger_of w.turns t) r).0 w.turns.playback
      (attempts_after t (claim_in names t (ledger_of w.turns t) r).1 w.attempts)
      (λ k.
        ap (λ (l : TurnLedger). is_over l.state)
          (claim_in-IsBarred names t (ledger_of w.turns t) r k).0
        ∙ k)
      h
speech_step_over names w (commit_call t i x) u h =
    if_either (λ v. over_at v u ≡ true) (holds w.attempts t i)
      (λ b. commit_over w t i x u (entry_of w.turns t i) refl h) (λ b. h)
speech_step_over names w (release_call t i) u h =
    if_either (λ v. over_at v u ≡ true) (holds w.attempts t i)
      (λ b. release_over w t i u (entry_of w.turns t i) refl h) (λ b. h)
speech_step_over names w (cancel_call t) u h =
    if_either (λ s. over_at (record w { turns = s }) u ≡ true)
      (is_completed (ledger_of w.turns t).state)
      (λ b.
        put_over w t u (terminate_ledger (ledger_of w.turns t)) w.turns.playback w.attempts
          (terminate_over (ledger_of w.turns t)) h)
      (λ b.
        put_over w t u (terminate_ledger (ledger_of w.turns t)) (pop w.turns.playback t) w.attempts
          (terminate_over (ledger_of w.turns t)) h)
speech_step_over names w (playback_call t n) u h = h

completed_over : (s : TurnState) → is_completed s ≡ true → is_over s ≡ true
completed_over active h = h
completed_over completed h = h
completed_over terminated h = refl

speech_run_over :
    (names : Names) (w : Speech) (cs : List SpeechCall) (u : ℕ)
    → over_at w u ≡ true
    → over_at (speech_run names w cs) u ≡ true
unfolding speech_run
speech_run_over names w [] u h = h
speech_run_over names w (c ∷ cs) u h =
    speech_run_over names (speech_step names w c) cs u (speech_step_over names w c u h)

cancel_call_over :
    (names : Names) (w : Speech) (t : ℕ) → over_at (speech_step names w (cancel_call t)) t ≡ true
unfolding speech_step cancel_tts_turn
cancel_call_over names w t =
    if_either (λ s. over_at (record w { turns = s }) t ≡ true)
      (is_completed (ledger_of w.turns t).state) (λ b. cancelled_at w.turns.playback)
      (λ b. cancelled_at (pop w.turns.playback t))
  where
    terminated_over : (l : TurnLedger) → is_over (terminate_ledger l).state ≡ true
    terminated_over l =
        if_either (λ (m : TurnLedger). is_over m.state ≡ true) (is_completed l.state)
          (λ b. completed_over l.state b) (λ b. refl)

    cancelled_at :
        (playback : List (ℕ × ℕ))
        → over_at
            record w {
              turns = record {
                ledgers = put w.turns.ledgers t (terminate_ledger (ledger_of w.turns t));
                playback = playback;
              };
            }
            t
          ≡ true
    cancelled_at playback =
        rw (ledger_of-put w.turns t t (terminate_ledger (ledger_of w.turns t)), ==_refl t)
          (terminated_over (ledger_of w.turns t))

-- After a turn is cancelled, no claim on it starts an attempt any more, whatever calls come in
-- between: it is answered from a committed segment or refused, and the ledger stays as it is.
pub cancelled_for_good :
    (names : Names) (w : Speech) (cs : List SpeechCall) (t : ℕ) (r : SegmentRequest)
    → is_claimed
          (claim_tts_segment names
            (speech_run names (speech_step names w (cancel_call t)) cs).turns
            t
            r).1
        ≡ false
      × ledger_of
          (claim_tts_segment names
            (speech_run names (speech_step names w (cancel_call t)) cs).turns
            t
            r).0
          t
        ≡ ledger_of (speech_run names (speech_step names w (cancel_call t)) cs).turns t
unfolding claim_tts_segment
cancelled_for_good names w cs t r =
    let v = speech_run names (speech_step names w (cancel_call t)) cs in
    let l = ledger_of v.turns t in
    let k = claim_in-IsBarred names t l r (
      speech_run_over names (speech_step names w (cancel_call t)) cs t
        (cancel_call_over names w t)) in
    (k.1, ledger_of-put v.turns t t (claim_in names t l r).0 ∙ rw (==_refl t) k.0)
