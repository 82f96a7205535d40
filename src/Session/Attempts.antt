-- ===== src/Session/Attempts.antt =====
-- The attempts that speak segments, against the ledger of ai-backend/app/call/session.py. An attempt
-- that claimed a segment ends by a commit or by a release; others may claim, cancel the turn or end
-- the call in between.
use ray_me.Base.{
  ℕ, ◌≡◌, sym, subst, inl, inr, Bool, true, false, ◌&&◌, ◌||◌, Option, none, some, List, [], ◌∷◌,
  arith, ◌==◌, ==_iff, Bool-cases, put, get-put, if◌then◌else◌, refl, not, get, ap, ◌∙◌,
}
use ray_me.Session.Segments.{
  or_else, record_tts_turn_playback, Names, TurnLedger, SpeechTurns, SegmentRequest, Claim, claimed,
  cached, waiting, conflict, turn_over, no_response, ledger_of, claim_tts_segment,
  commit_tts_segment, release_tts_segment_attempt, cancel_tts_turn, Segment, empty_ledger,
  is_committed, find_segment, claim_in, entry_of, with_ledger, entry_in,
}
use ray_me.Session.Claims.{claim_in-IsClaim, is_open_at, is_open, KeepsOpen, OpensClaimed}
use ray_me.Session.Sequence.{IsSequential}

abbrev pub holds : List (ℕ × ℕ) → ℕ → ℕ → Bool
holds [] t i = false
holds ((u, j) ∷ h) t i = u == t && j == i || holds h t i

abbrev pub drop_attempt : ℕ → ℕ → List (ℕ × ℕ) → List (ℕ × ℕ)
drop_attempt t i [] = []
drop_attempt t i ((u, j) ∷ h) =
    let rest = drop_attempt t i h in if u == t && j == i then rest else (u, j) ∷ rest

-- The attempts are pairs of a turn and an identity.
pub record Speech : Type 0 where
  pub turns : SpeechTurns
  pub attempts : List (ℕ × ℕ)

abbrev pub silence : Speech
silence = record { turns = record { ledgers = []; playback = [] }; attempts = [] }

pub data SpeechCall : Type 0 where
  claim_call : ℕ → SegmentRequest → SpeechCall
  commit_call : ℕ → ℕ → ℕ → SpeechCall
  release_call : ℕ → ℕ → SpeechCall
  cancel_call : ℕ → SpeechCall
  playback_call : ℕ → ℕ → SpeechCall

abbrev pub attempts_after : ℕ → Claim → List (ℕ × ℕ) → List (ℕ × ℕ)
attempts_after t (claimed e) h = (t, e.segment_id) ∷ h
attempts_after t (cached x) h = h
attempts_after t waiting h = h
attempts_after t conflict h = h
attempts_after t turn_over h = h
attempts_after t no_response h = h

abbrev pub after_commit : Option SpeechTurns → ℕ → ℕ → Speech → Speech
after_commit none t i w = w
after_commit (some s) t i w = record { turns = s; attempts = drop_attempt t i w.attempts }

-- Only an attempt that holds its segment commits or releases it.
unfoldable pub speech_step : Names → Speech → SpeechCall → Speech
unfolding claim_tts_segment commit_tts_segment release_tts_segment_attempt cancel_tts_turn
    record_tts_turn_playback
speech_step names w (claim_call t r) =
    let p = claim_tts_segment names w.turns t r in
    record { turns = p.0; attempts = attempts_after t p.1 w.attempts }
speech_step names w (commit_call t i x) =
    if holds w.attempts t i then after_commit (commit_tts_segment w.turns t i x) t i w else w
speech_step names w (release_call t i) =
    if holds w.attempts t i
    then record {
      turns = release_tts_segment_attempt w.turns t i;
      attempts = drop_attempt t i w.attempts;
    }
    else w
speech_step names w (cancel_call t) = record w { turns = cancel_tts_turn w.turns t }
speech_step names w (playback_call t n) = record w { turns = record_tts_turn_playback w.turns t n }

unfoldable pub speech_run : Names → Speech → List SpeechCall → Speech
unfolding speech_step
speech_run names w [] = w
speech_run names w (c ∷ cs) = speech_run names (speech_step names w c) cs

-- Every ledger is in sequence, and what an attempt holds is there and not committed.
abbrev pub IsOrderly : Speech → Type 0
IsOrderly w =
    (t : ℕ)
    → IsSequential (ledger_of w.turns t)
      × ((i : ℕ) → holds w.attempts t i ≡ true → is_open_at i (ledger_of w.turns t) ≡ true)

pub ledger_of-put :
    (s : SpeechTurns) (t u : ℕ) (l : TurnLedger)
    → ledger_of (record s { ledgers = put s.ledgers t l }) u ≡ (if t == u then l else ledger_of s u)
ledger_of-put s t u l = rw (get-put s.ledgers t u l) (ground arith)

-- One ledger is written.
pub IsOrderly-put :
    (w : Speech) (t : ℕ) (l : TurnLedger) (playback : List (ℕ × ℕ)) (attempts : List (ℕ × ℕ))
    → IsSequential l
    → ((i : ℕ) → holds attempts t i ≡ true → is_open_at i l ≡ true)
    → ((u i : ℕ) → (t == u) ≡ false → holds attempts u i ≡ true → holds w.attempts u i ≡ true)
    → IsOrderly w
    → IsOrderly record {
      turns = record { ledgers = put w.turns.ledgers t l; playback = playback };
      attempts = attempts;
    }
IsOrderly-put w t l playback attempts q k m g u = elim (Bool-cases (t == u)) [
  | inl e ↦
      let same = (==_iff t u).0 e in
      rw (ledger_of-put w.turns t u l, e)
        (q, λ i h. k i (subst (λ v. holds attempts v i ≡ true) (sym same) h))
  | inr e ↦ rw (ledger_of-put w.turns t u l, e) ((g u).0, λ i h. (g u).1 i (m u i e h))
]

pub holds-drop_attempt :
    (t i u j : ℕ) (h : List (ℕ × ℕ))
    → holds (drop_attempt t i h) u j ≡ (not (t == u && i == j) && holds h u j)
holds-drop_attempt t i u j [] = ground arith
holds-drop_attempt t i u j ((v, k) ∷ h) = ground (arith, holds-drop_attempt t i u j h)

attempts_after-open :
    (t : ℕ) (l m : TurnLedger) (c : Claim) (h : List (ℕ × ℕ))
    → KeepsOpen l m
    → OpensClaimed m c
    → ((i : ℕ) → holds h t i ≡ true → is_open_at i l ≡ true)
    → (i : ℕ) → holds (attempts_after t c h) t i ≡ true
    → is_open_at i m ≡ true
attempts_after-open t l m (claimed e) h k o g i q = elim (Bool-cases (e.segment_id == i)) [
  | inl s ↦ subst (λ j. is_open_at j m ≡ true) ((==_iff e.segment_id i).0 s) o
  | inr s ↦ k i (g i (ground (arith, q, s)))
]
attempts_after-open t l m (cached x) h k o g i q = k i (g i q)
attempts_after-open t l m waiting h k o g i q = k i (g i q)
attempts_after-open t l m conflict h k o g i q = k i (g i q)
attempts_after-open t l m turn_over h k o g i q = k i (g i q)
attempts_after-open t l m no_response h k o g i q = k i (g i q)

pub attempts_after-others :
    (t : ℕ) (c : Claim) (h : List (ℕ × ℕ)) (u i : ℕ)
    → (t == u) ≡ false
    → holds (attempts_after t c h) u i ≡ true
    → holds h u i ≡ true
attempts_after-others t (claimed e) h u i n q = ground (arith, n, q)
attempts_after-others t (cached x) h u i n q = q
attempts_after-others t waiting h u i n q = q
attempts_after-others t conflict h u i n q = q
attempts_after-others t turn_over h u i n q = q
attempts_after-others t no_response h u i n q = q

pub claim_call-IsOrderly :
    (names : Names) (w : Speech) (t : ℕ) (r : SegmentRequest)
    → IsOrderly w
    → IsOrderly (speech_step names w (claim_call t r))
unfolding speech_step claim_tts_segment
claim_call-IsOrderly names w t r g =
    let p = claim_in names t (ledger_of w.turns t) r in
    let k = claim_in-IsClaim names t (ledger_of w.turns t) r (g t).0 in
    IsOrderly-put w t p.0 w.turns.playback (attempts_after t p.1 w.attempts) k.0
      (attempts_after-open t (ledger_of w.turns t) p.0 p.1 w.attempts k.1 k.2 (g t).1)
      (attempts_after-others t p.1 w.attempts) g

-- The entry of an open segment.
pub record Entry (s : SpeechTurns) (t i : ℕ) : Type 0 where
  pub segment : Segment
  pub here : entry_of s t i ≡ some (ledger_of s t, segment)
  pub found : find_segment i (ledger_of s t).segments ≡ some segment
  pub uncommitted : is_committed segment ≡ false

pub Entry-of_open : (s : SpeechTurns) (t i : ℕ) → is_open_at i (ledger_of s t) ≡ true → Entry s t i
Entry-of_open s t i h = of_ledger (get s.ledgers t) refl
  where
    of_segment :
        (l : TurnLedger) (o : Option Segment)
        → get s.ledgers t ≡ some l
        → find_segment i l.segments ≡ o
        → is_open o ≡ true
        → Entry s t i
    of_segment l none e f q = ground (arith, q)
    of_segment l (some x) e f q = record {
      segment = x;
      here =
          ap (λ o. entry_in o i) e
          ∙ ap (with_ledger l) f
          ∙ ap (λ o. some (or_else o empty_ledger, x)) (sym e);
      found = ap (λ o. find_segment i (or_else o empty_ledger).segments) e ∙ f;
      uncommitted = ground (arith, q);
    }

    of_ledger : (o : Option TurnLedger) → get s.ledgers t ≡ o → Entry s t i
    of_ledger none e = ground (arith, subst (λ o. is_open_at i (or_else o empty_ledger) ≡ true) e h)
    of_ledger (some l) e =
        of_segment l (find_segment i l.segments) e refl
          (subst (λ o. is_open_at i (or_else o empty_ledger) ≡ true) e h)
