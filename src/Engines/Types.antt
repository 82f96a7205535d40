-- ===== src/Engines/Types.antt =====
-- The state of `ModelManager` (ai-backend/app/models/model_manager.py) and the statuses of
-- ai-backend/app/models/engine_metadata.py. Engines, voice keys, cache keys, lease owners and error
-- codes are compared only, so they are numbers.
use ray_me.Base.{ℕ, Bool, true, false, Option, none, List}

pub data EngineState : Type 0 where
  idle loading resident unavailable : EngineState

-- The reasons that the manager writes.
pub data Reason : Type 0 where
  not_implemented self_test_failed load_failed default_load_failed runtime_failed : Reason

pub record EngineStatus : Type 0 where
  pub available : Bool
  pub resident : Bool
  pub state : EngineState
  pub unavailable_reason : Option Reason

pub data PromptState : Type 0 where
  empty prewarming ready failed : PromptState

abbrev pub is_ready : PromptState → Bool
is_ready ready = true
is_ready _ = false

pub record VoicePrompt : Type 0 where
  pub engine_id : Option ℕ
  pub voice_key : Option ℕ
  pub state : PromptState
  pub error_code : Option ℕ

abbrev pub no_prompt : VoicePrompt
no_prompt = record { engine_id = none; voice_key = none; state = empty; error_code = none }

pub record Manager : Type 0 where
  pub statuses : List (ℕ × EngineStatus)
  pub loading_engine : Option ℕ
  pub resident_tts_engine : Option ℕ
  pub selected_voice_prompt : VoicePrompt
  pub selected_prompt_cache_key : Option ℕ
  pub lease_owners : List ℕ
  pub lease_voice_key : Option ℕ
  pub lease_cache_key : Option ℕ
  -- The cache key of the last alignment, and whether it was accepted.
  pub alignment_cache : Option (ℕ × Bool)
  pub started : Bool

-- What a method raises.
pub data ManagerError : Type 0 where
  unknown_engine engine_unavailable invalid_voice_key leased : ManagerError
  reference_audio_required transcript_required transcript_mismatch : ManagerError
  prompt_preparation_missing invalidation_missing wrong_engine : ManagerError
  adapter_error : ℕ → ManagerError

pub data Result {ℓ} (A : Type ℓ) : Type ℓ where
  ok : A → Result A
  err : ManagerError → Result A
