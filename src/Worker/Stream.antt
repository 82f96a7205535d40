-- ===== src/Worker/Stream.antt =====
-- The worker's stream events and `QwenStreamEventValidator` of
-- ai-backend/app/models/tts_qwen3_protocol.py. A float that is not negative is the number that its 64
-- bits spell, which orders floats as their values; the sum of two floats, which rounds, is the
-- parameter `plus`. The initial time of -1.0 ms, below every admissible one, is `none`.
use ray_me.Base.{
  ℕ, ◌+◌, Bool, false, ◌||◌, Option, none, some, ltb, leb, ◌==◌, if◌then◌else◌, not, List, [], ◌∷◌,
  ◌≡◌, refl,
}

pub data TerminalKind : Type 0 where
  done cancelled error : TerminalKind

pub record Chunk : Type 0 where
  pub request_id : ℕ
  pub chunk_index : ℕ
  pub duration : ℕ
  pub generated_at : ℕ
  pub total_steps_so_far : ℕ

pub record Terminal : Type 0 where
  pub request_id : ℕ
  pub kind : TerminalKind
  pub chunk_count : ℕ
  pub natural_eos : Bool
  pub error_code : Option ℕ

-- Every other event (loaded, prompt_ready, prompt_failed, invalidated) is one outside the stream.
pub data WorkerEvent : Type 0 where
  chunk : Chunk → WorkerEvent
  terminal : Terminal → WorkerEvent
  other : ℕ → WorkerEvent

abbrev pub event_request_id : WorkerEvent → ℕ
event_request_id (chunk c) = c.request_id
event_request_id (terminal t) = t.request_id
event_request_id (other r) = r

pub data ProtocolError : Type 0 where
  after_terminal request_mismatch index_not_monotonic time_not_monotonic : ProtocolError
  steps_not_monotonic audio_exceeded not_stream_event count_mismatch : ProtocolError

pub data Accepted {ℓ} (A : Type ℓ) : Type ℓ where
  ok : A → Accepted A
  refused : ProtocolError → Accepted A

pub record Validator : Type 0 where
  pub request_id : ℕ
  pub max_cumulative_duration : ℕ
  pub next_chunk_index : ℕ
  pub last_generated_at : Option ℕ
  pub last_total_steps : ℕ
  pub cumulative_duration : ℕ
  pub terminal : Option Terminal

-- The bits of 32000.0, which are 0x40DF400000000000.
abbrev pub ceiling : ℕ
ceiling = 4674525306978041856

unfoldable pub init : ℕ → ℕ → Option Validator
init request_id max_duration =
    if max_duration == 0 || ltb ceiling max_duration
    then none
    else some (record {
      request_id = request_id;
      max_cumulative_duration = max_duration;
      next_chunk_index = 0;
      last_generated_at = none;
      last_total_steps = 0;
      cumulative_duration = 0;
      terminal = none;
    })

abbrev earlier : ℕ → Option ℕ → Bool
earlier t none = false
earlier t (some last) = ltb t last

-- The sum of two floats.
abbrev pub Plus : Type 0
Plus = ℕ → ℕ → ℕ

accept_chunk : Plus → Validator → Chunk → Accepted Validator
accept_chunk plus v c =
    if not (c.chunk_index == v.next_chunk_index)
    then refused index_not_monotonic
    else if earlier c.generated_at v.last_generated_at
    then refused time_not_monotonic
    else if leb c.total_steps_so_far v.last_total_steps
    then refused steps_not_monotonic
    else if ltb v.max_cumulative_duration (plus v.cumulative_duration c.duration)
    then refused audio_exceeded
    else ok (record v {
      next_chunk_index = v.next_chunk_index + 1;
      last_generated_at = some c.generated_at;
      last_total_steps = c.total_steps_so_far;
      cumulative_duration = plus v.cumulative_duration c.duration;
    })

abbrev same_request : Validator → WorkerEvent → Bool
same_request v e = event_request_id e == v.request_id

-- The tests behind the first two guards, by the kind of event.
accept_kind : Plus → Validator → WorkerEvent → Accepted Validator
unfolding accept_chunk
accept_kind plus v (chunk c) = accept_chunk plus v c
accept_kind plus v (terminal t) =
    if t.chunk_count == v.next_chunk_index
    then ok (record v { terminal = some t })
    else refused count_mismatch
accept_kind plus v (other r) = refused not_stream_event

unfoldable pub accept : Plus → Validator → WorkerEvent → Accepted Validator
unfolding accept_kind
accept plus v e = elim v.terminal [
  | some _ ↦ refused after_terminal
  | none ↦ if same_request v e then accept_kind plus v e else refused request_mismatch
]

-- The next event is handed to the validator that accepted the last one.
abbrev pub carry_on : Accepted Validator → (Validator → Accepted Validator) → Accepted Validator
carry_on (refused x) rest = refused x
carry_on (ok v) rest = rest v

pub carry_on-eq-ok :
    (first : Accepted Validator) (rest : Validator → Accepted Validator) {w : Validator}
    → carry_on first rest ≡ ok w
    → (u : Validator) × (rest u ≡ ok w) × (first ≡ ok u)
carry_on-eq-ok (refused x) rest h = cc
carry_on-eq-ok (ok u) rest h = (u, h, refl)

-- Events handed over in turn; the first refusal ends the run.
unfoldable pub accept_all : Plus → Validator → List WorkerEvent → Accepted Validator
accept_all plus v [] = ok v
accept_all plus v (e ∷ es) = carry_on (accept plus v e) (λ w. accept_all plus w es)
