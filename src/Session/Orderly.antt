-- ===== src/Session/Orderly.antt =====
-- The ledgers stay in sequence in ai-backend/app/call/session.py, whatever the attempts do.
use ray_me.Base.{
  if_either, ℕ, ◌≡◌, refl, sym, ◌∙◌, subst, true, false, not, ◌&&◌, some, List, [], ◌∷◌, arith,
  ◌==◌, put, pop,
}
use ray_me.Session.Segments.{
  modify_segment, record_tts_turn_playback, Segment, Names, TurnLedger, is_committed, find_segment,
  ledger_of, commit_segment, commit_in, commit_found, commit_tts_segment, release_segment,
  is_active, is_in_flight, release_found, release_tts_segment_attempt, is_completed,
  terminate_ledger, cancel_tts_turn,
}
use ray_me.Session.Claims.{
  is_open_at, is_open, find_segment-modify, find_segment-cancel, find_segment-id, KeepsOpen,
}
use ray_me.Session.Sequence.{
  IsSequential, runs_to-modify, are_owned-modify, runs_to-commit, runs_to-cancel, are_owned-cancel,
}
use ray_me.Session.Attempts.{
  Speech, holds, drop_attempt, silence, SpeechCall, claim_call, commit_call, release_call,
  cancel_call, playback_call, after_commit, speech_step, speech_run, IsOrderly, IsOrderly-put,
  holds-drop_attempt, claim_call-IsOrderly, Entry-of_open,
}

commit_in-IsSequential :
    (l : TurnLedger) (i x : ℕ) (e : Segment)
    → find_segment i l.segments ≡ some e
    → is_committed e ≡ false
    → IsSequential l
    → IsSequential (commit_in l e x)
commit_in-IsSequential l i x e f c q =
    let g =
      subst (λ k. find_segment k l.segments ≡ some e) (sym (find_segment-id i l.segments e f)) f in
    (
      runs_to-commit 0 l.next_ordinal e.segment_id x l.segments e q.0 g c,
      are_owned-modify l.ordinal_owners e.segment_id (commit_segment x) l.segments (λ y. refl)
          (λ y. refl) q.1,
    )

-- A change of the segment of an attempt that ends leaves the other attempts their segments.
others_open :
    (w : Speech) (t i : ℕ) (e : Segment) (f : Segment → Segment) (es : List Segment)
    → ((y : Segment) → (f y).segment_id ≡ y.segment_id)
    → find_segment i es ≡ some e
    → ((j : ℕ) → holds w.attempts t j ≡ true → is_open (find_segment j es) ≡ true)
    → (j : ℕ) → holds (drop_attempt t i w.attempts) t j ≡ true
    → is_open (find_segment j (modify_segment e.segment_id f es)) ≡ true
others_open w t i e f es k g h j q =
    let d : (not (t == t && i == j) && holds w.attempts t j) ≡ true =
      sym (holds-drop_attempt t i t j w.attempts) ∙ q in
    rw (find_segment-modify e.segment_id j f es k, find_segment-id i es e g)
      (ground (arith, d, h j))

dropped-others :
    (t i : ℕ) (h : List (ℕ × ℕ)) (u j : ℕ)
    → (t == u) ≡ false
    → holds (drop_attempt t i h) u j ≡ true
    → holds h u j ≡ true
dropped-others t i h u j n q = ground (arith, sym (holds-drop_attempt t i u j h) ∙ q)

commit_call-IsOrderly :
    (names : Names) (w : Speech) (t i x : ℕ)
    → IsOrderly w
    → IsOrderly (speech_step names w (commit_call t i x))
unfolding speech_step commit_tts_segment commit_found
commit_call-IsOrderly names w t i x g = if_either IsOrderly (holds w.attempts t i) held (λ h. g)
  where
    written :
        (e : Segment) (playback : List (ℕ × ℕ))
        → find_segment i (ledger_of w.turns t).segments ≡ some e
        → is_committed e ≡ false
        → IsOrderly record {
          turns = record {
            ledgers = put w.turns.ledgers t (commit_in (ledger_of w.turns t) e x);
            playback = playback;
          };
          attempts = drop_attempt t i w.attempts;
        }
    written e playback f c =
        IsOrderly-put w t (commit_in (ledger_of w.turns t) e x) playback
          (drop_attempt t i w.attempts)
          (commit_in-IsSequential (ledger_of w.turns t) i x e f c (g t).0)
          (others_open w t i e (commit_segment x) (ledger_of w.turns t).segments (λ y. refl) f
            (g t).1)
          (dropped-others t i w.attempts) g

    held :
        holds w.attempts t i ≡ true
        → IsOrderly (after_commit (commit_tts_segment w.turns t i x) t i w)
    held h =
        let e = Entry-of_open w.turns t i ((g t).1 i h) in
        subst (λ o. IsOrderly (after_commit (commit_found o w.turns t x) t i w)) (sym e.here)
          (if_either (λ s. IsOrderly (record { turns = s; attempts = drop_attempt t i w.attempts }))
            e.segment.final_chunk
            (λ b. written e.segment (pop w.turns.playback t) e.found e.uncommitted)
            (λ b. written e.segment w.turns.playback e.found e.uncommitted))

-- A segment that is in flight is released within the same shape.
release_call-IsOrderly :
    (names : Names) (w : Speech) (t i : ℕ)
    → IsOrderly w
    → IsOrderly (speech_step names w (release_call t i))
unfolding speech_step release_tts_segment_attempt release_found
release_call-IsOrderly names w t i g = if_either IsOrderly (holds w.attempts t i) held (λ h. g)
  where
    l : TurnLedger
    l = ledger_of w.turns t

    dropped : IsOrderly (record w { attempts = drop_attempt t i w.attempts })
    dropped u = (
      (g u).0,
      λ j q. (g u).1 j (ground (arith, sym (holds-drop_attempt t i u j w.attempts) ∙ q)),
    )

    held :
        holds w.attempts t i ≡ true
        → IsOrderly record {
          turns = release_tts_segment_attempt w.turns t i;
          attempts = drop_attempt t i w.attempts;
        }
    held h =
        let e = Entry-of_open w.turns t i ((g t).1 i h) in
        let same =
          subst (λ k. find_segment k l.segments ≡ some e.segment)
            (sym (find_segment-id i l.segments e.segment e.found)) e.found in
        subst
          (λ o.
            IsOrderly (record {
              turns = release_found o w.turns t;
              attempts = drop_attempt t i w.attempts;
            }))
          (sym e.here)
          (if_either (λ s. IsOrderly (record { turns = s; attempts = drop_attempt t i w.attempts }))
            (is_active l.state && is_in_flight e.segment)
            (λ b.
              IsOrderly-put w t
                record l {
                  segments = modify_segment e.segment.segment_id release_segment l.segments;
                }
                w.turns.playback (drop_attempt t i w.attempts)
                (
                  runs_to-modify 0 l.next_ordinal e.segment.segment_id release_segment l.segments
                      e.segment (g t).0.0 same e.uncommitted (refl, refl, refl),
                  are_owned-modify l.ordinal_owners e.segment.segment_id release_segment l.segments
                      (λ y. refl) (λ y. refl) (g t).0.1,
                )
                (others_open w t i e.segment release_segment l.segments (λ y. refl) e.found (g t).1)
                (dropped-others t i w.attempts) g)
            (λ b. dropped))

terminate_ledger-IsSequential :
    (l : TurnLedger) → IsSequential l → IsSequential (terminate_ledger l)
terminate_ledger-IsSequential l q =
    if_either IsSequential (is_completed l.state) (λ b. q)
      (λ b. (
        runs_to-cancel 0 l.next_ordinal l.segments q.0,
        are_owned-cancel l.ordinal_owners l.segments q.1,
      ))

terminate_ledger-KeepsOpen : (l : TurnLedger) → KeepsOpen l (terminate_ledger l)
terminate_ledger-KeepsOpen l j h =
    if_either (λ m. is_open_at j m ≡ true) (is_completed l.state) (λ b. h)
      (λ b. rw (find_segment-cancel j l.segments) (ground (arith, h)))

cancel_call-IsOrderly :
    (names : Names) (w : Speech) (t : ℕ)
    → IsOrderly w
    → IsOrderly (speech_step names w (cancel_call t))
unfolding speech_step cancel_tts_turn
cancel_call-IsOrderly names w t g =
    if_either (λ s. IsOrderly (record w { turns = s })) (is_completed (ledger_of w.turns t).state)
      (λ b. written w.turns.playback) (λ b. written (pop w.turns.playback t))
  where
    written :
        (playback : List (ℕ × ℕ))
        → IsOrderly record w {
          turns = record {
            ledgers = put w.turns.ledgers t (terminate_ledger (ledger_of w.turns t));
            playback = playback;
          };
        }
    written playback =
        IsOrderly-put w t (terminate_ledger (ledger_of w.turns t)) playback w.attempts
          (terminate_ledger-IsSequential (ledger_of w.turns t) (g t).0)
          (λ i h. terminate_ledger-KeepsOpen (ledger_of w.turns t) i ((g t).1 i h)) (λ u i n h. h) g

pub speech_step-IsOrderly :
    (names : Names) (w : Speech) (c : SpeechCall) → IsOrderly w → IsOrderly (speech_step names w c)
unfolding speech_step record_tts_turn_playback
speech_step-IsOrderly names w (claim_call t r) g = claim_call-IsOrderly names w t r g
speech_step-IsOrderly names w (commit_call t i x) g = commit_call-IsOrderly names w t i x g
speech_step-IsOrderly names w (release_call t i) g = release_call-IsOrderly names w t i g
speech_step-IsOrderly names w (cancel_call t) g = cancel_call-IsOrderly names w t g
speech_step-IsOrderly names w (playback_call t n) g = g

pub speech_run-IsOrderly :
    (names : Names) (w : Speech) (cs : List SpeechCall)
    → IsOrderly w
    → IsOrderly (speech_run names w cs)
unfolding speech_run
speech_run-IsOrderly names w [] g = g
speech_run-IsOrderly names w (c ∷ cs) g =
    speech_run-IsOrderly names (speech_step names w c) cs (speech_step-IsOrderly names w c g)

pub silence-IsOrderly : IsOrderly silence
silence-IsOrderly t = ((refl, refl), λ i h. h)
