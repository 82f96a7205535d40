-- ===== src/Engines/Switch.antt =====
-- Loading and unloading speech engines: `_switch_tts_engine_locked` of
-- ai-backend/app/models/model_manager.py and its helpers.
use ray_me.Base.{
  ℕ, Bool, true, false, not, ◌&&◌, Option, none, some, List, [], ◌∷◌, ◌==◌, ◌==?◌, if◌then◌else◌,
  get, put, is_empty,
}
use ray_me.Engines.Types.{
  Manager, EngineStatus, idle, loading, resident, unavailable, Reason, load_failed,
  default_load_failed, runtime_failed, no_prompt, Result, ok, err, unknown_engine,
  engine_unavailable, leased, adapter_error,
}

-- The identifier "qwen3_1_7b".
abbrev pub qwen : ℕ
qwen = 3

abbrev pub is_retriable : Option Reason → Bool
is_retriable (some load_failed) = true
is_retriable (some default_load_failed) = true
is_retriable (some runtime_failed) = true
is_retriable _ = false

-- How the adapter's `load` and `unload` end: the exception is a code.
abbrev pub Outcome : Type 0
Outcome = Option ℕ

abbrev pub is_leased : Manager → Bool
is_leased m = not (is_empty m.lease_owners)

abbrev pub set_status : Manager → ℕ → EngineStatus → Manager
set_status m e s = record m { statuses = put m.statuses e s }

-- Attributes of the status of a registered engine are assigned in place.
unfoldable pub modify_status :
    List (ℕ × EngineStatus) → ℕ → (EngineStatus → EngineStatus) → List (ℕ × EngineStatus)
modify_status [] e f = []
modify_status ((j, s) ∷ m) e f = if j == e then (j, f s) ∷ m else (j, s) ∷ modify_status m e f

abbrev pub with_status : Manager → ℕ → (EngineStatus → EngineStatus) → Manager
with_status m e f = record m { statuses = modify_status m.statuses e f }

abbrev pub unavailable_status : Reason → EngineStatus → EngineStatus
unavailable_status why s = record {
  available = false;
  resident = false;
  state = unavailable;
  unavailable_reason = some why;
}

abbrev pub mark_unavailable : Manager → ℕ → Reason → Manager
mark_unavailable m e why = with_status m e (unavailable_status why)

abbrev pub retried : EngineStatus → EngineStatus
retried s = record {
  available = true;
  resident = s.resident;
  state = idle;
  unavailable_reason = none;
}

abbrev pub now_resident : EngineStatus → EngineStatus
now_resident s = record s { resident = true; state = resident }

abbrev pub now_loading : EngineStatus → EngineStatus
now_loading s = record s { state = loading }

abbrev pub now_idle : EngineStatus → EngineStatus
now_idle s = record s { resident = false; state = idle }

abbrev pub reset_prompt : Manager → Manager
reset_prompt m = record m { selected_voice_prompt = no_prompt; selected_prompt_cache_key = none }

-- The engine is loaded into the empty slot, or marked unavailable.
unfoldable pub load_engine : Manager → ℕ → Outcome → Manager × Result (Unit {0})
unfolding modify_status
load_engine m e none = (
  record (with_status m e now_resident) { resident_tts_engine = some e; loading_engine = none },
  ok tt,
)
load_engine m e (some code) = (
  record (mark_unavailable m e load_failed) { resident_tts_engine = none; loading_engine = none },
  err (adapter_error code),
)

abbrev pub emptied : Manager → ℕ → Manager
emptied m previous = record (with_status m previous now_idle) { resident_tts_engine = none }

-- The slot is emptied first; a prompt of the engine that leaves goes with it.
unfoldable pub replace_engine : Manager → ℕ → ℕ → Outcome → Outcome → Manager × Result (Unit {0})
unfolding load_engine
replace_engine m e previous (some code) load = (m, err (adapter_error code))
replace_engine m e previous none load =
    let m₁ = emptied m previous in
    let m₂ = if previous == qwen && not (e == previous) then reset_prompt m₁ else m₁ in
    load_engine m₂ e load

-- From the engine that holds the slot, if one does.
unfoldable pub enter_from : Option ℕ → Manager → ℕ → Outcome → Outcome → Manager × Result (Unit {0})
unfolding replace_engine
enter_from none m e unload load = load_engine m e load
enter_from (some previous) m e unload load = replace_engine m e previous unload load

abbrev pub begin_loading : Manager → ℕ → Manager
begin_loading m e = record (with_status m e now_loading) { loading_engine = some e }

unfoldable pub enter_engine : Manager → ℕ → Outcome → Outcome → Manager × Result (Unit {0})
unfolding enter_from
enter_engine m e unload load = enter_from m.resident_tts_engine (begin_loading m e) e unload load

-- The engine is registered, and available or retried.
unfoldable pub admitted_engine : Manager → ℕ → Outcome → Outcome → Manager × Result (Unit {0})
unfolding enter_engine
admitted_engine m e unload load =
    if m.resident_tts_engine ==? some e
    then (with_status m e now_resident, ok tt)
    else if (m.resident_tts_engine ==? some qwen) && is_leased m && not (e == qwen)
    then (m, err leased)
    else enter_engine m e unload load

-- From the status of the engine, if it is registered.
unfoldable pub switch_from :
    Option EngineStatus → Manager → ℕ → Outcome → Outcome → Manager × Result (Unit {0})
unfolding admitted_engine
switch_from none m e unload load = (m, err unknown_engine)
switch_from (some s) m e unload load =
    if s.available
    then admitted_engine m e unload load
    else if is_retriable s.unavailable_reason
    then admitted_engine (with_status m e retried) e unload load
    else (m, err engine_unavailable)

unfoldable pub switch_tts_engine : Manager → ℕ → Outcome → Outcome → Manager × Result (Unit {0})
unfolding switch_from
switch_tts_engine m e unload load = switch_from (get m.statuses e) m e unload load
