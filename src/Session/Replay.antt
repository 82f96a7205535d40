-- ===== src/Session/Replay.antt =====
-- A committed segment of ai-backend/app/call/session.py is not spoken again: its entry stays as it is,
-- and claims are answered from it.
use ray_me.Base.{
  if_either, ℕ, ◌+◌, ◌≡◌, refl, sym, ap, ◌∙◌, subst, inl, inr, true, false, not, ◌&&◌, Option, none,
  some, List, [], ◌∷◌, arith, ◌==◌, ==_iff, Bool-cases, get, put, pop, if◌then◌else◌,
}
use ray_me.Session.Segments.{
  modify_segment, record_tts_turn_playback, or_else, Segment, Names, SegmentState, reserved,
  in_flight, committed, cancelled, TurnState, completed, TurnLedger, SpeechTurns, SegmentRequest,
  Claim, cached, is_committed, is_over, identity_of, find_segment, differs, next_attempt,
  claim_open, claim_existing, new_segment, is_foreign_owner, claim_new, claim_found, claim_in,
  ledger_of, claim_tts_segment, commit_segment, commit_in, commit_found, commit_tts_segment,
  release_segment, is_active, is_in_flight, release_found, release_tts_segment_attempt,
  is_completed, terminate_ledger, cancel_tts_turn,
}
use ray_me.Session.Claims.{
  find_segment-modify, find_segment-cancel, find_segment-append, find_segment-id,
}
use ray_me.Session.Attempts.{
  Speech, holds, silence, SpeechCall, claim_call, commit_call, release_call, cancel_call,
  playback_call, after_commit, speech_step, speech_run, IsOrderly, ledger_of-put, Entry-of_open,
}
use ray_me.Session.Orderly.{speech_run-IsOrderly, speech_step-IsOrderly, silence-IsOrderly}

-- The entry of an identity, when it is committed.
abbrev pub IsAnswered : ℕ → Segment → TurnLedger → Type 0
IsAnswered i e l = find_segment i l.segments ≡ some e × is_committed e ≡ true

abbrev KeepsAnswers : TurnLedger → TurnLedger → Type 0
KeepsAnswers l m = (i : ℕ) (e : Segment) → IsAnswered i e l → IsAnswered i e m

-- A change of an open segment.
modify-KeepsAnswers :
    (l : TurnLedger) (i : ℕ) (x : Segment) (f : Segment → Segment) (next : ℕ) (state : TurnState)
    → ((y : Segment) → (f y).segment_id ≡ y.segment_id)
    → find_segment i l.segments ≡ some x
    → is_committed x ≡ false
    → KeepsAnswers l record l {
      segments = modify_segment x.segment_id f l.segments;
      next_ordinal = next;
      state = state;
    }
modify-KeepsAnswers l i x f next state k g c j e (h, d) =
    rw (find_segment-modify x.segment_id j f l.segments k, find_segment-id i l.segments x g)
      (ground (arith, g, c, h, d))

claim_open-KeepsAnswers :
    (s : SegmentState) (names : Names) (turn i : ℕ) (l : TurnLedger) (e : Segment)
    → find_segment i l.segments ≡ some e
    → is_committed e ≡ false
    → KeepsAnswers l (claim_open s names turn l e).0
unfolding claim_open
claim_open-KeepsAnswers in_flight names turn i l e f c = λ j x h. h
claim_open-KeepsAnswers committed names turn i l e f c = λ j x h. h
claim_open-KeepsAnswers cancelled names turn i l e f c = λ j x h. h
claim_open-KeepsAnswers reserved names turn i l e f c =
    modify-KeepsAnswers l i e (next_attempt names turn) l.next_ordinal l.state (λ y. refl) f c

abbrev Answering : TurnLedger → TurnLedger × Claim → Type 0
Answering l p = KeepsAnswers l p.0

claim_existing-KeepsAnswers :
    (names : Names) (turn i : ℕ) (l : TurnLedger) (r : SegmentRequest) (e : Segment)
    → find_segment i l.segments ≡ some e
    → KeepsAnswers l (claim_existing names turn l r e).0
unfolding claim_existing
claim_existing-KeepsAnswers names turn i l r e f =
    if_either (Answering l) (differs e r) (λ t j x h. h)
      (λ t.
        if_either (Answering l) (is_committed e) (λ u j x h. h)
          (λ u.
            if_either (Answering l) (is_over l.state) (λ v j x h. h)
              (λ v. claim_open-KeepsAnswers e.state names turn i l e f u)))

claim_new-KeepsAnswers :
    (names : Names) (turn i : ℕ) (l : TurnLedger) (r : SegmentRequest)
    → KeepsAnswers l (claim_new names turn l r i).0
unfolding claim_new
claim_new-KeepsAnswers names turn i l r =
    let ordinal = or_else r.requested_ordinal l.next_ordinal in
    if_either (Answering l) (is_over l.state) (λ t j x h. h)
      (λ t.
        if_either (Answering l) (not (ordinal == l.next_ordinal)) (λ u j x h. h)
          (λ u.
            if_either (Answering l) (is_foreign_owner (get l.ordinal_owners ordinal) i)
              (λ v j x h. h)
              (λ v j x h. (
                rw (find_segment-append j l.segments (new_segment names turn r i ordinal), h.0)
                    refl,
                h.1,
              ))))

claim_found-KeepsAnswers :
    (o : Option Segment) (names : Names) (turn i : ℕ) (l : TurnLedger) (r : SegmentRequest)
    → find_segment i l.segments ≡ o
    → KeepsAnswers l (claim_found o names turn l r i).0
unfolding claim_found
claim_found-KeepsAnswers none names turn i l r f = claim_new-KeepsAnswers names turn i l r
claim_found-KeepsAnswers (some e) names turn i l r f =
    claim_existing-KeepsAnswers names turn i l r e f

claim_in-KeepsAnswers :
    (names : Names) (turn : ℕ) (l : TurnLedger) (r : SegmentRequest)
    → KeepsAnswers l (claim_in names turn l r).0
unfolding claim_in
claim_in-KeepsAnswers names turn l r =
    claim_found-KeepsAnswers (find_segment (identity_of names l r) l.segments) names turn
      (identity_of names l r) l r refl

terminate_ledger-KeepsAnswers : (l : TurnLedger) → KeepsAnswers l (terminate_ledger l)
terminate_ledger-KeepsAnswers l j e (h, d) =
    if_either (IsAnswered j e) (is_completed l.state) (λ b. (h, d))
      (λ b. (rw (find_segment-cancel j l.segments, h) (ground (arith, d)), d))

-- Every turn keeps its answers.
abbrev Remembers : SpeechTurns → SpeechTurns → Type 0
Remembers s u = (t : ℕ) → KeepsAnswers (ledger_of s t) (ledger_of u t)

put-Remembers :
    (s : SpeechTurns) (t : ℕ) (l : TurnLedger) (playback : List (ℕ × ℕ))
    → KeepsAnswers (ledger_of s t) l
    → Remembers s (record { ledgers = put s.ledgers t l; playback = playback })
put-Remembers s t l playback k u = elim (Bool-cases (t == u)) [
  | inl e ↦
      rw (ledger_of-put s t u l, e)
        (subst (λ v. KeepsAnswers (ledger_of s v) l) ((==_iff t u).0 e) k)
  | inr e ↦ rw (ledger_of-put s t u l, e) (λ i x h. h)
]

commit_found-Remembers :
    (s : SpeechTurns) (t i x : ℕ) (e : Segment) (w : Speech)
    → find_segment i (ledger_of s t).segments ≡ some e
    → is_committed e ≡ false
    → w.turns ≡ s
    → Remembers s (after_commit (commit_found (some (ledger_of s t, e)) s t x) t i w).turns
unfolding commit_found
commit_found-Remembers s t i x e w f c q =
    if_either (Remembers s) e.final_chunk
      (λ b. put-Remembers s t (commit_in l e x) (pop s.playback t) kept)
      (λ b. put-Remembers s t (commit_in l e x) s.playback kept)
  where
    l : TurnLedger
    l = ledger_of s t

    kept : KeepsAnswers l (commit_in l e x)
    kept =
        modify-KeepsAnswers l i e (commit_segment x) (e.ordinal + 1)
          (if e.final_chunk then completed else l.state) (λ y. refl) f c

commit_call-Remembers :
    (names : Names) (w : Speech) (t i x : ℕ)
    → IsOrderly w
    → Remembers w.turns (speech_step names w (commit_call t i x)).turns
unfolding speech_step commit_tts_segment
commit_call-Remembers names w t i x g =
    if_either (λ (v : Speech). Remembers w.turns v.turns) (holds w.attempts t i)
      (λ h.
        let e = Entry-of_open w.turns t i ((g t).1 i h) in
        subst (λ o. Remembers w.turns (after_commit (commit_found o w.turns t x) t i w).turns)
          (sym e.here)
          (commit_found-Remembers w.turns t i x e.segment w e.found e.uncommitted refl))
      (λ h u j y k. k)

release_call-Remembers :
    (names : Names) (w : Speech) (t i : ℕ)
    → IsOrderly w
    → Remembers w.turns (speech_step names w (release_call t i)).turns
unfolding speech_step release_tts_segment_attempt release_found
release_call-Remembers names w t i g =
    if_either (λ (v : Speech). Remembers w.turns v.turns) (holds w.attempts t i)
      (λ h.
        let e = Entry-of_open w.turns t i ((g t).1 i h) in
        let l = ledger_of w.turns t in
        subst (λ o. Remembers w.turns (release_found o w.turns t)) (sym e.here)
          (if_either (Remembers w.turns) (is_active l.state && is_in_flight e.segment)
            (λ b.
              put-Remembers w.turns t
                record l {
                  segments = modify_segment e.segment.segment_id release_segment l.segments;
                }
                w.turns.playback
                (modify-KeepsAnswers l i e.segment release_segment l.next_ordinal l.state
                  (λ y. refl) e.found e.uncommitted))
            (λ b u j y k. k)))
      (λ h u j y k. k)

cancel_tts_turn-Remembers : (s : SpeechTurns) (t : ℕ) → Remembers s (cancel_tts_turn s t)
unfolding cancel_tts_turn
cancel_tts_turn-Remembers s t =
    if_either (Remembers s) (is_completed (ledger_of s t).state)
      (λ b.
        put-Remembers s t (terminate_ledger (ledger_of s t)) s.playback
          (terminate_ledger-KeepsAnswers (ledger_of s t)))
      (λ b.
        put-Remembers s t (terminate_ledger (ledger_of s t)) (pop s.playback t)
          (terminate_ledger-KeepsAnswers (ledger_of s t)))

speech_step-Remembers :
    (names : Names) (w : Speech) (c : SpeechCall)
    → IsOrderly w
    → Remembers w.turns (speech_step names w c).turns
unfolding speech_step claim_tts_segment record_tts_turn_playback
speech_step-Remembers names w (claim_call t r) g =
    put-Remembers w.turns t (claim_in names t (ledger_of w.turns t) r).0 w.turns.playback
      (claim_in-KeepsAnswers names t (ledger_of w.turns t) r)
speech_step-Remembers names w (commit_call t i x) g = commit_call-Remembers names w t i x g
speech_step-Remembers names w (release_call t i) g = release_call-Remembers names w t i g
speech_step-Remembers names w (cancel_call t) g = cancel_tts_turn-Remembers w.turns t
speech_step-Remembers names w (playback_call t n) g = λ u j y k. k

speech_run-Remembers :
    (names : Names) (w : Speech) (cs : List SpeechCall)
    → IsOrderly w
    → Remembers w.turns (speech_run names w cs).turns
unfolding speech_run
speech_run-Remembers names w [] g = λ u j y k. k
speech_run-Remembers names w (c ∷ cs) g = λ u j y k.
    speech_run-Remembers names (speech_step names w c) cs (speech_step-IsOrderly names w c g) u j y
      (speech_step-Remembers names w c g u j y k)

-- The same content under the same identity.
abbrev pub IsRepeat : Segment → SegmentRequest → Type 0
IsRepeat e r = r.segment_id ≡ some e.segment_id × differs e r ≡ false

-- Claims are answered by the response of the commit.
claim_in-cached :
    (names : Names) (t i x : ℕ) (l : TurnLedger) (e : Segment) (r : SegmentRequest)
    → IsAnswered i e l
    → e.response ≡ some x
    → IsRepeat e r
    → (claim_in names t l r).1 ≡ cached x
unfolding claim_in claim_found claim_existing
claim_in-cached names t i x l e r (f, c) v (s, d) =
    let k : identity_of names l r ≡ i =
      ap (λ o. identity_of names l (record r { segment_id = o })) s
      ∙ find_segment-id i l.segments e f in
    ap (λ n. (claim_found (find_segment n l.segments) names t l r n).1) k
    ∙ ap (λ o. (claim_found o names t l r i).1) f
    ∙ rw (d, c, v) refl

-- Once a segment is committed with a response, a request that repeats it is answered by that response
-- and not spoken again, after any further calls, the cancellation of its turn included.
pub claim_again-cached :
    (names : Names) (cs ds : List SpeechCall) (t i x : ℕ) (e : Segment) (r : SegmentRequest)
    → IsAnswered i e (ledger_of (speech_run names silence cs).turns t)
    → e.response ≡ some x
    → IsRepeat e r
    → (claim_tts_segment names (speech_run names (speech_run names silence cs) ds).turns t r).1
      ≡ cached x
unfolding claim_tts_segment
claim_again-cached names cs ds t i x e r a v p =
    let w = speech_run names silence cs in
    claim_in-cached names t i x (ledger_of (speech_run names w ds).turns t) e r
      (speech_run-Remembers names w ds (speech_run-IsOrderly names silence cs silence-IsOrderly) t i
        e a)
      v p
