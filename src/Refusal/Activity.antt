-- ===== src/Refusal/Activity.antt =====
-- The recent refusals of a thread in web-ui/server/app/domain/refusal_activity.py: what a record may
-- hold, and the ring of the records of each thread. Counts are natural numbers, so the tests against
-- negative ones are left out; times are whole numbers. What Python's strings answer is a parameter:
-- whether a time ends in "Z" and whether an identifier is blank.
use ray_me.Base.{
  ℕ, Bool, not, ◌&&◌, Option, none, some, List, [], ◌∷◌, ◌++◌, length, ltb, leb, if◌then◌else◌, get,
  put,
}
use ray_me.Refusal.Guard.{ReasonCode, is_blank}

pub data RefusalAction : Type 0 where
  send regenerate swipe continue_answer call_offer call_turn preview : RefusalAction

pub data RefusalOutcome : Type 0 where
  retry_outcome accepted_outcome exhausted_outcome empty_outcome failed_outcome cancelled_outcome :
      RefusalOutcome

pub record ActivityRecord : Type 0 where
  pub action : RefusalAction
  pub attempt : ℕ
  pub reason_code : ReasonCode
  pub prefix_characters : ℕ
  pub prefix_estimated_tokens : ℕ
  pub retry_count : ℕ
  pub release_ms : Option ℕ
  pub decision_ms : Option ℕ
  pub terminal_outcome : RefusalOutcome
  pub timestamp : ℕ

pub data ActivityError : Type 0 where
  bad_attempt bad_retry_count bad_timestamp thread_required bad_maximum : ActivityError

pub data Checked {ℓ} (A : Type ℓ) : Type ℓ where
  valid : A → Checked A
  invalid : ActivityError → Checked A

-- `RefusalActivityRecord.__post_init__`
unfoldable pub check_record : (ℕ → Bool) → ActivityRecord → Checked ActivityRecord
check_record ends_in_z r =
    if not (leb 1 r.attempt && leb r.attempt 3)
    then invalid bad_attempt
    else if not (leb r.retry_count 2)
    then invalid bad_retry_count
    else if not (ends_in_z r.timestamp)
    then invalid bad_timestamp
    else valid r

pub record ActivityStore : Type 0 where
  pub max_records_per_thread : ℕ
  pub records : List (ℕ × List ActivityRecord)

abbrev pub empty_store : ℕ → ActivityStore
empty_store max_records = record { max_records_per_thread = max_records; records = [] }

unfoldable pub new_store : ℕ → Checked ActivityStore
new_store max_records =
    if ltb max_records 1 then invalid bad_maximum else valid (empty_store max_records)

abbrev pub tail {ℓ} : {A : Type ℓ} → List A → List A
tail [] = []
tail (x ∷ xs) = xs

-- `deque.append` with a `maxlen`.
abbrev pub append_bounded {ℓ} : {A : Type ℓ} → ℕ → List A → A → List A
append_bounded bound xs x =
    if ltb bound (length (xs ++ x ∷ [])) then tail (xs ++ x ∷ []) else xs ++ x ∷ []

abbrev pub records_of : Option (List ActivityRecord) → List ActivityRecord
records_of none = []
records_of (some xs) = xs

unfoldable pub list_recent : ActivityStore → ℕ → List ActivityRecord
list_recent s thread_id = records_of (get s.records thread_id)

abbrev pub appended : ActivityStore → ℕ → ActivityRecord → ActivityStore
appended s thread_id r = record s {
  records =
      put s.records thread_id
        (append_bounded s.max_records_per_thread (records_of (get s.records thread_id)) r);
}

unfoldable pub append_record :
    (ℕ → Bool) → ActivityStore → ℕ → ActivityRecord → Checked ActivityStore
append_record is_blank s thread_id r =
    if is_blank thread_id then invalid thread_required else valid (appended s thread_id r)
