-- ===== src/Refusal/Records.antt =====
-- Records of refusals in the ring of web-ui/server/app/domain/refusal_activity.py, on concrete inputs.
use ray_me.Base.{ℕ, true, List, [], ◌∷◌, ◌==◌, none, some, ◌≡◌, refl, map}
use ray_me.Refusal.Guard.{policy_or_safety}
use ray_me.Refusal.Activity.{
  retry_outcome, ActivityRecord, send, bad_attempt, valid, invalid, check_record, empty_store,
  list_recent, append_record,
}
use ray_me.Refusal.Retries.{
  PromptMessage, SpeakerRole, system_message, user_message, assistant_message, messages_for_attempt,
}
use ray_me.Refusal.Recent.{last_of, list_recent-append_all, of_thread, append_all, accepted_log}

abbrev attempt_record : ℕ → ActivityRecord
attempt_record n = record {
  action = send;
  attempt = n;
  reason_code = policy_or_safety;
  prefix_characters = 12;
  prefix_estimated_tokens = 3;
  retry_count = 0;
  release_ms = none;
  decision_ms = some 4;
  terminal_outcome = retry_outcome;
  timestamp = 0;
}

fourth_attempt : check_record (λ t. true) (attempt_record 4) ≡ invalid bad_attempt
unfolding check_record
fourth_attempt = refl

third_attempt : check_record (λ t. true) (attempt_record 3) ≡ valid (attempt_record 3)
unfolding check_record
third_attempt = refl

-- Thread 0 is blank; thread 7 gets three records, of which two are kept.
abbrev log : List (ℕ × ActivityRecord)
log =
    (7, attempt_record 1)
    ∷ (8, attempt_record 1)
    ∷ (0, attempt_record 1)
    ∷ (7, attempt_record 2)
    ∷ (7, attempt_record 3)
    ∷ []

kept_records :
    list_recent (append_all (λ t. t == 0) (empty_store 2) log) 7
    ≡ attempt_record 2 ∷ attempt_record 3 ∷ []
unfolding append_record list_recent
kept_records = refl

list_recent-append_all_example :
    list_recent (append_all (λ t. t == 0) (empty_store 2) log) 7
    ≡ last_of 2 (of_thread 7 (accepted_log (λ t. t == 0) log))
list_recent-append_all_example = list_recent-append_all (λ t. t == 0) 2 log 7

-- The system message behind the last one of the user goes in front of it on a retry.
abbrev by_role : SpeakerRole → ℕ → PromptMessage
by_role r n = record { role = r; content = n }

abbrev prompt : List PromptMessage
prompt =
    by_role system_message 1
    ∷ by_role user_message 2
    ∷ by_role system_message 3
    ∷ by_role assistant_message 4
    ∷ []

second_attempt :
    map (λ (x : PromptMessage). x.content) (messages_for_attempt 9 prompt 2)
    ≡ 1 ∷ 3 ∷ 2 ∷ 9 ∷ 4 ∷ []
unfolding messages_for_attempt
second_attempt = refl

abbrev body : List PromptMessage
body = by_role system_message 1 ∷ by_role user_message 2 ∷ by_role system_message 3 ∷ []
