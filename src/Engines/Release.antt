-- ===== src/Engines/Release.antt =====
-- Releasing the lease, invalidating a prompt, readiness, shutdown: `release_tts_prompt_lease`,
-- `invalidate_tts_prompt`, `is_tts_prompt_ready`, `shutdown` and the status of `health` in
-- ai-backend/app/models/model_manager.py.
use ray_me.Base.{
  is_some, ℕ, Bool, true, false, not, ◌&&◌, ◌||◌, Option, none, some, List, ◌∷◌, ◌==◌, ◌==?◌,
  contains, discard, if◌then◌else◌, [], is_empty,
}
use ray_me.Engines.Types.{
  Manager, EngineStatus, is_ready, invalid_voice_key, leased, invalidation_missing, wrong_engine,
  adapter_error, Result, ok, err,
}
use ray_me.Engines.Switch.{qwen, Outcome, is_leased, now_idle, reset_prompt}
use ray_me.Engines.Prepare.{clear_qwen_prompt_lease, contain_qwen_runtime_failure}

-- The lease goes with its last owner.
abbrev pub release_of : Manager → List ℕ → Manager
release_of m owners =
    if is_empty owners then clear_qwen_prompt_lease m else record m { lease_owners = owners }

unfoldable pub release_tts_prompt_lease : Manager → ℕ → Manager × Bool
release_tts_prompt_lease m owner =
    if contains m.lease_owners owner
    then (release_of m (discard owner m.lease_owners), true)
    else (m, false)

-- How the adapter's `invalidate` ends: it may have no such method; an exception has a code and may
-- mark the engine unavailable; a result says whether it matched and whether it cancelled.
pub data Invalidation : Type 0 where
  no_method : Invalidation
  invalidation_failed : ℕ → Bool → Invalidation
  invalidated : Bool → Bool → Invalidation

pub record InvalidateResult : Type 0 where
  pub matched : Bool
  pub active_cancelled : Bool

abbrev pub prompt_matches : Manager → ℕ → ℕ → Bool
prompt_matches m e key =
    (m.selected_voice_prompt.engine_id ==? some e)
    && (m.selected_voice_prompt.voice_key ==? some key)

-- The adapter is called.
unfoldable pub invalidate_prompt :
    Manager → ℕ → ℕ → Invalidation → Manager × Result InvalidateResult
unfolding contain_qwen_runtime_failure
invalidate_prompt m e key no_method = (m, err invalidation_missing)
invalidate_prompt m e key (invalidation_failed code marks) =
    ((if marks then contain_qwen_runtime_failure m e else m), err (adapter_error code))
invalidate_prompt m e key (invalidated matched cancelled) = (
  (if prompt_matches m e key then record (reset_prompt m) { alignment_cache = none } else m),
  ok record { matched = prompt_matches m e key || matched; active_cancelled = cancelled },
)

-- `well_formed` says that the key has 1 to 128 characters of the allowed ones.
unfoldable pub invalidate_tts_prompt :
    Manager → ℕ → ℕ → Bool → Invalidation → Manager × Result InvalidateResult
unfolding invalidate_prompt
invalidate_tts_prompt m e key well_formed answer =
    if not (e == qwen)
    then (m, err wrong_engine)
    else if not well_formed
    then (m, err invalid_voice_key)
    else if is_leased m && (m.lease_voice_key ==? some key)
    then (m, err leased)
    else invalidate_prompt m e key answer

-- With the cache key of a reference, or without a reference.
unfoldable pub is_tts_prompt_ready : Manager → ℕ → ℕ → Option ℕ → Bool
is_tts_prompt_ready m e key reference =
    e == qwen
    && (m.resident_tts_engine ==? some e)
    && prompt_matches m e key
    && is_ready m.selected_voice_prompt.state
    && elim reference as (λ _. Bool) [
      | none ↦ true
      | some cache ↦ m.selected_prompt_cache_key ==? some cache
    ]

abbrev pub idle_if_available : EngineStatus → EngineStatus
idle_if_available s = if s.available then now_idle s else s

unfoldable pub idle_engines : List (ℕ × EngineStatus) → List (ℕ × EngineStatus)
idle_engines [] = []
idle_engines ((e, s) ∷ m) = (e, idle_if_available s) ∷ idle_engines m

unfoldable pub stopped : Manager → Manager
unfolding idle_engines
stopped m = record (clear_qwen_prompt_lease (reset_prompt m)) {
  statuses = idle_engines m.statuses;
  resident_tts_engine = none;
  loading_engine = none;
  started = false;
}

unfoldable pub unload_all : Option ℕ → Manager → Outcome → Manager × Result (Unit {0})
unfolding stopped
unload_all none m unload = (stopped m, ok tt)
unload_all (some e) m none = (stopped m, ok tt)
unload_all (some e) m (some code) = (m, err (adapter_error code))

-- The adapter's `unload` may raise, and then nothing more is done.
unfoldable pub shutdown : Manager → Outcome → Manager × Result (Unit {0})
unfolding unload_all
shutdown m unload = unload_all m.resident_tts_engine m unload

pub data Health : Type 0 where
  healthy degraded starting : Health

abbrev any_unavailable : List (ℕ × EngineStatus) → Bool
any_unavailable [] = false
any_unavailable ((e, s) ∷ m) = not s.available || any_unavailable m

abbrev pub health : Manager → Health
health m =
    if not m.started && not (is_some m.resident_tts_engine)
    then starting
    else if any_unavailable m.statuses
    then degraded
    else healthy
