-- ===== src/Session/Examples.antt =====
-- A turn of two segments, and the theorems on it.
use ray_me.Base.{is_some, ℕ, ◌+◌, ◌*◌, ◌≡◌, refl, ap, true, false, none, some, List, [], ◌∷◌}
use ray_me.Session.Segments.{
  Segment, Names, in_flight, committed, active, completed, TurnLedger, SegmentRequest, cached,
  conflict, find_segment, claim_new, claim_found, claim_in, ledger_of, claim_tts_segment,
  commit_found, commit_tts_segment,
}
use ray_me.Session.Attempts.{
  holds, silence, SpeechCall, claim_call, commit_call, cancel_call, speech_step, speech_run,
}
use ray_me.Session.Exclusive.{attempts_exclusive}
use ray_me.Session.Single.{attempt_count}
use ray_me.Session.Replay.{claim_again-cached}
use ray_me.Session.Over.{cancelled_for_good, is_claimed}
use ray_me.Session.Late.{cancelled-completed}

abbrev names : Names
names = record {
  ordinal_name = λ o. 100 + o;
  legacy_name = λ o d b. 200 + o;
  request_name = λ t i o d a. 1000 * i + a;
}

abbrev first_segment : SegmentRequest
first_segment = record {
  content_digest = 7;
  final_chunk = false;
  segment_id = some 1;
  requested_ordinal = some 0;
}

abbrev last_segment : SegmentRequest
last_segment = record {
  content_digest = 8;
  final_chunk = true;
  segment_id = some 2;
  requested_ordinal = none;
}

abbrev speaking : List SpeechCall
speaking = claim_call 5 first_segment ∷ commit_call 5 1 90 ∷ claim_call 5 last_segment ∷ []

abbrev spoken : Segment
spoken = record {
  segment_id = 1;
  ordinal = 0;
  content_digest = 7;
  final_chunk = false;
  worker_request_id = 1001;
  attempt_generation = 1;
  state = committed;
  response = some 90;
}

abbrev sounding : Segment
sounding = record {
  segment_id = 2;
  ordinal = 1;
  content_digest = 8;
  final_chunk = true;
  worker_request_id = 2001;
  attempt_generation = 1;
  state = in_flight;
  response = none;
}

speaking-ledger : ledger_of (speech_run names silence speaking).turns 5 ≡ record {
  state = active;
  next_ordinal = 1;
  segments = spoken ∷ sounding ∷ [];
  ordinal_owners = (0, 1) ∷ (1, 2) ∷ [];
}
unfolding speech_run speech_step claim_tts_segment claim_in claim_found claim_new commit_tts_segment
    commit_found
speaking-ledger = refl

speaking-holds : holds (speech_run names silence speaking).attempts 5 2 ≡ true
unfolding speech_run speech_step claim_tts_segment claim_in claim_found claim_new commit_tts_segment
    commit_found
speaking-holds = refl

-- A gap in the ordinals is a conflict.
gap-conflict :
    (claim_tts_segment names
      (speech_run names silence []).turns
      5
      record first_segment { requested_ordinal = some 3 }).1
    ≡ conflict
unfolding speech_run claim_tts_segment claim_in claim_found claim_new
gap-conflict = refl

attempts_exclusive_example :
    ◌≡◌ {A = ℕ} 2 2
    × attempt_count 5 (speech_run names silence speaking).attempts ≡ 1
    × is_some (commit_tts_segment (speech_run names silence speaking).turns 5 2 91) ≡ true
attempts_exclusive_example =
    attempts_exclusive names speaking 5 2 2 91 speaking-holds speaking-holds

claim_again-cached_example :
    (claim_tts_segment names
      (speech_run names (speech_run names silence speaking) (cancel_call 5 ∷ [])).turns
      5
      first_segment).1
    ≡ cached 90
claim_again-cached_example =
    claim_again-cached names speaking (cancel_call 5 ∷ []) 5 1 90 spoken first_segment
      (ap (λ (l : TurnLedger). find_segment 1 l.segments) speaking-ledger, refl) refl (refl, refl)

cancelled_for_good_example :
    is_claimed
        (claim_tts_segment names
          (speech_run names
            (speech_step names (speech_run names silence speaking) (cancel_call 5))
            []).turns
          5
          last_segment).1
      ≡ false
    × ledger_of
        (claim_tts_segment names
          (speech_run names
            (speech_step names (speech_run names silence speaking) (cancel_call 5))
            []).turns
          5
          last_segment).0
        5
      ≡ ledger_of
          (speech_run names
            (speech_step names (speech_run names silence speaking) (cancel_call 5))
            []).turns
          5
cancelled_for_good_example =
    cancelled_for_good names (speech_run names silence speaking) [] 5 last_segment

cancelled-completed_example :
    (ledger_of
      (speech_run names
        (speech_run names silence speaking)
        (cancel_call 5 ∷ commit_call 5 2 91 ∷ [])).turns
      5).state
    ≡ completed
cancelled-completed_example =
    cancelled-completed names speaking 5 2 91 sounding speaking-holds
      (ap (λ (l : TurnLedger). find_segment 2 l.segments) speaking-ledger) refl
