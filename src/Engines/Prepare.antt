-- ===== src/Engines/Prepare.antt =====
-- Preparing a voice prompt: `prepare_tts_engine`, the lease of the Qwen3 prompt and the helpers they
-- call, in ai-backend/app/models/model_manager.py. What the adapters, the decoder and the
-- transcription answer are arguments, since that code is not part of the manager.
use ray_me.Base.{
  is_some, discard, contains, [], ℕ, ◌⊎◌, inl, inr, Bool, true, false, not, ◌&&◌, ◌||◌, Option,
  none, some, List, ◌∷◌, ltb, ◌==◌, ◌==?◌, add, get, if◌then◌else◌, is_empty,
}
use ray_me.Engines.Types.{
  EngineState, runtime_failed, PromptState, empty, prewarming, ready, failed, is_ready, Manager,
  ManagerError, unknown_engine, invalid_voice_key, leased, reference_audio_required,
  transcript_required, transcript_mismatch, prompt_preparation_missing, adapter_error, Result, ok,
  err, VoicePrompt,
}
use ray_me.Engines.Switch.{
  modify_status, switch_tts_engine, Outcome, qwen, is_leased, mark_unavailable, begin_loading,
}

-- The error codes that the manager writes itself.
abbrev pub mismatch_code : ℕ
mismatch_code = 1

abbrev pub preparation_failed_code : ℕ
preparation_failed_code = 2

-- The arguments: the cache key is the digest of the reference audio and transcript.
pub record Request : Type 0 where
  pub engine : ℕ
  pub voice_key : ℕ
  pub voice_key_length : ℕ
  pub cache_key : ℕ
  pub has_audio : Bool
  pub has_transcript : Bool
  pub lease_owner : Option ℕ

-- Whether the transcription of the reference agrees with the transcript, or the code of the error.
pub data Transcription : Type 0 where
  aligned : Bool → Transcription
  unverified : ℕ → Transcription

-- How the adapter's `prewarm` ends: it may have no such method, and an exception may have a code and
-- mark the engine unavailable.
pub data Prewarm : Type 0 where
  missing prewarmed : Prewarm
  prewarm_failed : Option ℕ → Bool → Prewarm

-- A switch that another request asks for while a call awaits something: `switch_tts_engine` has a
-- lock of its own.
pub record OtherSwitch : Type 0 where
  pub engine : ℕ
  pub unload : Outcome
  pub load : Outcome

abbrev pub meanwhile : Manager → List OtherSwitch → Manager
meanwhile m [] = m
meanwhile m (s ∷ ss) = meanwhile (switch_tts_engine m s.engine s.unload s.load).0 ss

abbrev pub between {ℓ} : {A : Type ℓ} → List OtherSwitch → Manager × A → Manager × A
between ss p = (meanwhile p.0 ss, p.1)

-- What the code that the manager calls answers, and what happens during the awaits of the call.
pub record Answers : Type 0 where
  pub during_alignment : List OtherSwitch
  pub before_switch : List OtherSwitch
  pub after_switch : List OtherSwitch
  pub during_prewarm : List OtherSwitch
  pub transcription : Transcription
  pub unload : Outcome
  pub load : Outcome
  pub prewarm : Prewarm

pub record PrepareResult : Type 0 where
  pub engine_id : ℕ
  pub model_state : Option EngineState
  pub prompt_state : PromptState
  pub voice_key : Option ℕ
  pub error_code : Option ℕ

abbrev pub prepare_result : Manager → ℕ → PrepareResult
prepare_result m e = record {
  engine_id = e;
  model_state = elim (get m.statuses e) [ none ↦ none | some s ↦ some s.state ];
  prompt_state = m.selected_voice_prompt.state;
  voice_key = m.selected_voice_prompt.voice_key;
  error_code = m.selected_voice_prompt.error_code;
}

-- The owners are `{a}`.
abbrev pub is_only : ℕ → List ℕ → Bool
is_only a owners = contains owners a && is_empty (discard a owners)

abbrev pub same_lease : Manager → ℕ → ℕ → Bool
same_lease m key cache = (m.lease_voice_key ==? some key) && (m.lease_cache_key ==? some cache)

abbrev pub is_sole_owner : Manager → Option ℕ → Bool
is_sole_owner m none = false
is_sole_owner m (some a) = is_only a m.lease_owners

-- `_reject_competing_qwen_prompt` raises.
abbrev pub is_competing : Manager → Request → Bool
is_competing m r =
    is_leased m && not (same_lease m r.voice_key r.cache_key) && not (is_sole_owner m r.lease_owner)

abbrev pub leased_by : Manager → List ℕ → ℕ → ℕ → Manager
leased_by m owners key cache = record m {
  lease_owners = owners;
  lease_voice_key = some key;
  lease_cache_key = some cache;
}

unfoldable pub set_qwen_prompt_lease : Manager → ℕ → ℕ → ℕ → Manager × Result (Unit {0})
set_qwen_prompt_lease m owner key cache =
    if is_leased m && not (same_lease m key cache)
    then (if is_only owner m.lease_owners
        then (leased_by m (add owner []) key cache, ok tt)
        else (m, err leased))
    else (leased_by m (add owner m.lease_owners) key cache, ok tt)

abbrev pub clear_qwen_prompt_lease : Manager → Manager
clear_qwen_prompt_lease m = record m {
  lease_owners = [];
  lease_voice_key = none;
  lease_cache_key = none;
}

abbrev pub transcribe_reference : Manager → ℕ → Transcription → Manager × (ℕ ⊎ Bool)
transcribe_reference m cache (unverified code) = (m, inl code)
transcribe_reference m cache (aligned accepted) =
    (record m { alignment_cache = some (cache, accepted) }, inr accepted)

abbrev pub recall_alignment : Option (ℕ × Bool) → Manager → ℕ → Transcription → Manager × (ℕ ⊎ Bool)
recall_alignment none m cache answer = transcribe_reference m cache answer
recall_alignment (some (key, accepted)) m cache answer =
    if key == cache then (m, inr accepted) else transcribe_reference m cache answer

-- The last alignment is kept with its cache key.
abbrev pub qwen_reference_alignment : Manager → ℕ → Transcription → Manager × (ℕ ⊎ Bool)
qwen_reference_alignment m cache answer = recall_alignment m.alignment_cache m cache answer

-- The adapter is unloaded, whatever its `unload` raises.
unfoldable pub contain_qwen_runtime_failure : Manager → ℕ → Manager
unfolding modify_status
contain_qwen_runtime_failure m e =
    if e == qwen
    then mark_unavailable
        record m {
          resident_tts_engine =
              if m.resident_tts_engine ==? some e then none else m.resident_tts_engine;
          loading_engine = if m.loading_engine ==? some e then none else m.loading_engine;
        }
        e runtime_failed
    else m

abbrev pub with_prompt_state : Manager → PromptState → Option ℕ → Manager
with_prompt_state m state code = record m {
  selected_voice_prompt = record m.selected_voice_prompt { state = state; error_code = code };
}

abbrev pub leased_result : ℕ → Manager × Result (Unit {0}) → Manager × Result PrepareResult
leased_result e (m, ok u) = (m, ok (prepare_result m e))
leased_result e (m, err why) = (m, err why)

unfoldable pub lease_as : Option ℕ → Manager → Request → Manager × Result PrepareResult
unfolding set_qwen_prompt_lease
lease_as none m r = (m, ok (prepare_result m r.engine))
lease_as (some owner) m r =
    leased_result r.engine (set_qwen_prompt_lease m owner r.voice_key r.cache_key)

-- The caller becomes an owner of the lease, when it names itself.
unfoldable pub lease_prompt : Manager → Request → Manager × Result PrepareResult
unfolding lease_as
lease_prompt m r = lease_as r.lease_owner m r

abbrev pub code_or_default : Option ℕ → ℕ
code_or_default none = preparation_failed_code
code_or_default (some code) = code

abbrev pub ready_prompt : Manager → Request → Manager
ready_prompt m r = record (with_prompt_state m ready none) {
  selected_prompt_cache_key = some r.cache_key;
}

unfoldable pub prewarm_prompt : Manager → Request → Prewarm → Manager × Result PrepareResult
unfolding lease_prompt contain_qwen_runtime_failure
prewarm_prompt m r missing =
    (with_prompt_state m failed (some preparation_failed_code), err prompt_preparation_missing)
prewarm_prompt m r (prewarm_failed code marks) =
    let m₁ = with_prompt_state m failed (some (code_or_default code)) in
    (
      (if marks then contain_qwen_runtime_failure m₁ r.engine else m₁),
      err (adapter_error (code_or_default code)),
    )
prewarm_prompt m r prewarmed = lease_prompt (ready_prompt m r) r

-- The engine is resident from here on.
unfoldable pub prompt_resident : Manager → Request → Answers → Manager × Result PrepareResult
unfolding prewarm_prompt
prompt_resident m r a =
    if r.engine == qwen
    then prewarm_prompt
        (meanwhile (with_prompt_state m prewarming m.selected_voice_prompt.error_code)
          a.during_prewarm)
        r a.prewarm
    else (m, ok (prepare_result m r.engine))

unfoldable pub switched_prompt :
    Request → Answers → Manager × Result (Unit {0}) → Manager × Result PrepareResult
unfolding prompt_resident
switched_prompt r a (m, ok u) = prompt_resident m r a
switched_prompt r a (m, err why) = (m, err why)

unfoldable pub make_resident : Manager → Request → Answers → Manager × Result PrepareResult
unfolding switched_prompt prompt_resident switch_tts_engine modify_status
make_resident m r a =
    if m.resident_tts_engine ==? some r.engine
    then prompt_resident m r a
    else switched_prompt r a (
        between a.after_switch (
          switch_tts_engine (meanwhile (begin_loading m r.engine) a.before_switch) r.engine a.unload
            a.load))

abbrev pub selected : Request → VoicePrompt
selected r = record {
  engine_id = some r.engine;
  voice_key = some r.voice_key;
  state = empty;
  error_code = none;
}

abbrev pub select_prompt : Manager → Request → Manager
select_prompt m r = record m {
  selected_voice_prompt = selected r;
  selected_prompt_cache_key = none;
}

unfoldable pub aligned_prompt :
    Request → Answers → Manager × (ℕ ⊎ Bool) → Manager × Result PrepareResult
unfolding make_resident
aligned_prompt r a (m, inl code) =
    (with_prompt_state m failed (some code), err (adapter_error code))
aligned_prompt r a (m, inr true) = make_resident m r a
aligned_prompt r a (m, inr false) =
    (with_prompt_state m failed (some mismatch_code), err transcript_mismatch)

-- Another prompt than the one that is ready is prepared.
unfoldable pub prepare_selected : Manager → Request → Answers → Manager × Result PrepareResult
unfolding aligned_prompt make_resident
prepare_selected m r a =
    if r.engine == qwen
    then aligned_prompt r a
        (between a.during_alignment (qwen_reference_alignment m r.cache_key a.transcription))
    else make_resident m r a

abbrev pub same_ready_prompt : Manager → Request → Bool
same_ready_prompt m r =
    r.engine == qwen
    && (m.resident_tts_engine ==? some r.engine)
    && (m.selected_voice_prompt.voice_key ==? some r.voice_key)
    && is_ready m.selected_voice_prompt.state
    && (m.selected_prompt_cache_key ==? some r.cache_key)

-- The request as it is checked before the lock is taken.
abbrev pub request_error : Manager → Request → Option ManagerError
request_error m r =
    if not (is_some (get m.statuses r.engine))
    then some unknown_engine
    else if r.voice_key_length == 0 || ltb 128 r.voice_key_length
    then some invalid_voice_key
    else if r.engine == qwen && not r.has_audio
    then some reference_audio_required
    else if r.engine == qwen && not r.has_transcript
    then some transcript_required
    else none

-- Behind the checks of the request.
unfoldable pub prepare_admitted : Manager → Request → Answers → Manager × Result PrepareResult
unfolding lease_prompt prepare_selected
prepare_admitted m r a =
    if r.engine == qwen && is_competing m r
    then (m, err leased)
    else if same_ready_prompt m r
    then lease_prompt m r
    else prepare_selected (select_prompt m r) r a

unfoldable pub prepare_unless :
    Option ManagerError → Manager → Request → Answers → Manager × Result PrepareResult
unfolding prepare_admitted
prepare_unless (some why) m r a = (m, err why)
prepare_unless none m r a = prepare_admitted m r a

unfoldable pub prepare_tts_engine : Manager → Request → Answers → Manager × Result PrepareResult
unfolding prepare_unless
prepare_tts_engine m r a = prepare_unless (request_error m r) m r a
