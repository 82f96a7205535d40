-- ===== src/Engines/Examples.antt =====
-- A manager with two engines that serves a call, and the manager's theorems on it.
use ray_me.Base.{ℕ, ◌≡◌, refl, true, false, Option, none, some, List, [], ◌∷◌, arith}
use ray_me.Engines.Types.{Manager, idle, resident, EngineStatus, ready, no_prompt, leased, err}
use ray_me.Engines.Switch.{qwen}
use ray_me.Engines.Prepare.{Request, prepare_tts_engine}
use ray_me.Engines.Release.{is_tts_prompt_ready}
use ray_me.Engines.Runs.{ManagerCall, switch_engine, prepare, release, serve_all}
use ray_me.Engines.Residency.{IsConsistent}
use ray_me.Engines.Serving.{serve_all-IsConsistent}
use ray_me.Engines.Leases.{serve_all-IsLeasedTo, IsLeasedTo, AreForeign}
use ray_me.Engines.Outcomes.{is_ok, prepare_tts_engine-is_ok, all_well}
use ray_me.Engines.Overtaken.{prepare_tts_engine-overtaken, overtaken_by}
use ray_me.Engines.Refused.{prepare_tts_engine-forgets}

abbrev fresh : EngineStatus
fresh = record { available = true; resident = false; state = idle; unavailable_reason = none }

abbrev started_manager : Manager
started_manager = record {
  statuses = (0, fresh) ∷ (3, fresh) ∷ [];
  loading_engine = none;
  resident_tts_engine = none;
  selected_voice_prompt = no_prompt;
  selected_prompt_cache_key = none;
  lease_owners = [];
  lease_voice_key = none;
  lease_cache_key = none;
  alignment_cache = none;
  started = true;
}

abbrev voice_request : Request
voice_request = record {
  engine = 3;
  voice_key = 7;
  voice_key_length = 10;
  cache_key = 70;
  has_audio = true;
  has_transcript = true;
  lease_owner = some 1;
}

abbrev other_request : Request
other_request = record voice_request { engine = 0; lease_owner = none }

-- Qwen3 is in the slot and caller 1 leases its prompt.
abbrev calling_manager : Manager
calling_manager = record started_manager {
  statuses = (0, fresh) ∷ (3, record fresh { resident = true; state = resident }) ∷ [];
  resident_tts_engine = some 3;
  selected_voice_prompt = record {
    engine_id = some 3;
    voice_key = some 7;
    state = ready;
    error_code = none;
  };
  selected_prompt_cache_key = some 70;
  lease_owners = 1 ∷ [];
  lease_voice_key = some 7;
  lease_cache_key = some 70;
}

started_manager-IsConsistent : IsConsistent started_manager
started_manager-IsConsistent e = ground arith

serve_all-IsConsistent_example : IsConsistent (
    serve_all started_manager (prepare voice_request all_well ∷ switch_engine 0 none (some 9) ∷ []))
serve_all-IsConsistent_example =
    serve_all-IsConsistent started_manager
      (prepare voice_request all_well ∷ switch_engine 0 none (some 9) ∷ [])
      started_manager-IsConsistent

abbrev foreign_calls : List ManagerCall
foreign_calls = switch_engine 0 none none ∷ prepare other_request all_well ∷ release 2 ∷ []

foreign_calls-AreForeign : AreForeign 1 foreign_calls
foreign_calls-AreForeign = (refl, (refl, (refl, tt)))

serve_all-IsLeasedTo_example : IsLeasedTo 1 7 70 (serve_all calling_manager foreign_calls)
serve_all-IsLeasedTo_example =
    serve_all-IsLeasedTo calling_manager 1 7 70 foreign_calls foreign_calls-AreForeign
      (refl, refl, refl)

prepare_tts_engine-is_ok_example :
    is_ok (prepare_tts_engine started_manager voice_request all_well).1 ≡ true
prepare_tts_engine-is_ok_example =
    prepare_tts_engine-is_ok started_manager voice_request refl refl tt refl

prepare_tts_engine-forgets_example :
    (prepare_tts_engine calling_manager other_request all_well).1 ≡ err leased
    × (prepare_tts_engine calling_manager other_request all_well).0.loading_engine ≡ some 0
    × ((key : ℕ) (reference : Option ℕ)
        → is_tts_prompt_ready
            (prepare_tts_engine calling_manager other_request all_well).0
            qwen
            key
            reference
          ≡ false)
prepare_tts_engine-forgets_example =
    prepare_tts_engine-forgets calling_manager other_request all_well refl refl refl refl refl

-- Qwen3 is in the slot, with no prompt selected.
abbrev idle_manager : Manager
idle_manager = record started_manager {
  statuses = (0, fresh) ∷ (3, record fresh { resident = true; state = resident }) ∷ [];
  resident_tts_engine = some 3;
}

prepare_tts_engine-overtaken_example :
    let (m, answer) =
      prepare_tts_engine idle_manager
        record voice_request { lease_owner = some 1 }
        (overtaken_by 0) in
    is_ok answer ≡ true
    × m.resident_tts_engine ≡ some 0
    × IsLeasedTo 1 voice_request.voice_key voice_request.cache_key m
    × ((key : ℕ) (reference : Option ℕ) → is_tts_prompt_ready m qwen key reference ≡ false)
prepare_tts_engine-overtaken_example =
    prepare_tts_engine-overtaken idle_manager record voice_request { lease_owner = some 1 } 0 1 refl
      refl refl refl refl refl tt refl refl
