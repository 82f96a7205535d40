-- ===== src/Engines/Stable.antt =====
-- A property of the manager that every helper of ai-backend/app/models/model_manager.py keeps, and
-- which `prepare_tts_engine` and `invalidate_tts_prompt` keep then.
use ray_me.Base.{
  List, [], ◌∷◌, if_either, ℕ, ◌≡◌, refl, ◌⊎◌, inl, inr, Bool, true, false, not, ◌&&◌, Option, none,
  some, ◌==◌, ◌==?◌,
}
use ray_me.Engines.Types.{
  Manager, prewarming, failed, ManagerError, Result, ok, err, PromptState, ready, VoicePrompt,
  no_prompt,
}
use ray_me.Engines.Switch.{qwen, is_leased, begin_loading, switch_tts_engine, Outcome, reset_prompt}
use ray_me.Engines.Prepare.{
  OtherSwitch, meanwhile, between, Request, Transcription, aligned, unverified, Prewarm, missing,
  prewarmed, prewarm_failed, Answers, is_competing, set_qwen_prompt_lease, transcribe_reference,
  recall_alignment, qwen_reference_alignment, contain_qwen_runtime_failure, with_prompt_state,
  leased_result, lease_as, lease_prompt, code_or_default, ready_prompt, prewarm_prompt,
  prompt_resident, switched_prompt, make_resident, select_prompt, aligned_prompt, prepare_selected,
  same_ready_prompt, prepare_admitted, prepare_unless, request_error, prepare_tts_engine,
  mismatch_code, preparation_failed_code, selected,
}
use ray_me.Engines.Release.{
  Invalidation, no_method, invalidation_failed, invalidated, prompt_matches, invalidate_prompt,
  invalidate_tts_prompt,
}

-- What the helpers keep. The owners that may take the lease can be restricted.
pub record Stable (P : Manager → Type 0) (allowed : ℕ → Bool) : Type 0 where
  pub on_switch :
      (m : Manager) (e : ℕ) (unload load : Outcome) → P m → P (switch_tts_engine m e unload load).0
  pub on_loading : (m : Manager) (e : ℕ) → P m → P (begin_loading m e)
  pub on_contain : (m : Manager) (e : ℕ) → P m → P (contain_qwen_runtime_failure m e)
  pub on_prompt :
      (m : Manager) (p : VoicePrompt) (cache : Option ℕ)
      → P m
      → P (record m { selected_voice_prompt = p; selected_prompt_cache_key = cache })
  pub on_alignment :
      (m : Manager) (known : Option (ℕ × Bool)) → P m → P (record m { alignment_cache = known })
  pub on_lease :
      (m : Manager) (owner key cache : ℕ)
      → allowed owner ≡ true
      → P m
      → P (set_qwen_prompt_lease m owner key cache).0

abbrev pub allows : (ℕ → Bool) → Option ℕ → Bool
allows allowed none = true
allows allowed (some owner) = allowed owner

leased_result-fst : (e : ℕ) (p : Manager × Result (Unit {0})) → (leased_result e p).0 ≡ p.0
leased_result-fst e (m, ok u) = refl
leased_result-fst e (m, err why) = refl

module _ (P : Manager → Type 0) (allowed : ℕ → Bool) (s : Stable P allowed) where
  abbrev Leaves {ℓ} : {R : Type ℓ} → Manager × R → Type 0
  Leaves p = P p.0

  meanwhile-Stable : (m : Manager) (ss : List OtherSwitch) → P m → P (meanwhile m ss)
  meanwhile-Stable m [] c = c
  meanwhile-Stable m (x ∷ ss) c =
      meanwhile-Stable (switch_tts_engine m x.engine x.unload x.load).0 ss
        (s.on_switch m x.engine x.unload x.load c)

  state-Stable :
      (m : Manager) (state : PromptState) (code : Option ℕ)
      → P m
      → P (with_prompt_state m state code)
  state-Stable m state code =
      s.on_prompt m record m.selected_voice_prompt { state = state; error_code = code }
        m.selected_prompt_cache_key

  lease_as-Stable :
      (o : Option ℕ) (m : Manager) (r : Request)
      → allows allowed o ≡ true
      → P m
      → P (lease_as o m r).0
  unfolding lease_as
  lease_as-Stable none m r q c = c
  lease_as-Stable (some owner) m r q c =
      rw (leased_result-fst r.engine (set_qwen_prompt_lease m owner r.voice_key r.cache_key))
        (s.on_lease m owner r.voice_key r.cache_key q c)

  prewarm_prompt-Stable :
      (m : Manager) (r : Request) (p : Prewarm)
      → allows allowed r.lease_owner ≡ true
      → P m
      → P (prewarm_prompt m r p).0
  unfolding prewarm_prompt lease_prompt
  prewarm_prompt-Stable m r missing q c = state-Stable m failed (some preparation_failed_code) c
  prewarm_prompt-Stable m r (prewarm_failed code true) q c =
      s.on_contain (with_prompt_state m failed (some (code_or_default code))) r.engine
        (state-Stable m failed (some (code_or_default code)) c)
  prewarm_prompt-Stable m r (prewarm_failed code false) q c =
      state-Stable m failed (some (code_or_default code)) c
  prewarm_prompt-Stable m r prewarmed q c = lease_as-Stable r.lease_owner (ready_prompt m r) r q (
      s.on_prompt m record m.selected_voice_prompt { state = ready; error_code = none }
        (some r.cache_key) c)

  prompt_resident-Stable :
      (m : Manager) (r : Request) (a : Answers)
      → allows allowed r.lease_owner ≡ true
      → P m
      → P (prompt_resident m r a).0
  unfolding prompt_resident
  prompt_resident-Stable m r a q c =
      if_either Leaves (r.engine == qwen)
        (λ h.
          let n = with_prompt_state m prewarming m.selected_voice_prompt.error_code in
          prewarm_prompt-Stable (meanwhile n a.during_prewarm) r a.prewarm q (
            meanwhile-Stable n a.during_prewarm
              (state-Stable m prewarming m.selected_voice_prompt.error_code c)))
        (λ h. c)

  switched_prompt-Stable :
      (r : Request) (a : Answers) (p : Manager × Result (Unit {0}))
      → allows allowed r.lease_owner ≡ true
      → P p.0
      → P (switched_prompt r a p).0
  unfolding switched_prompt
  switched_prompt-Stable r a (m, ok u) q c = prompt_resident-Stable m r a q c
  switched_prompt-Stable r a (m, err why) q c = c

  make_resident-Stable :
      (m : Manager) (r : Request) (a : Answers)
      → allows allowed r.lease_owner ≡ true
      → P m
      → P (make_resident m r a).0
  unfolding make_resident
  make_resident-Stable m r a q c =
      if_either Leaves (m.resident_tts_engine ==? some r.engine)
        (λ h. prompt_resident-Stable m r a q c)
        (λ h.
          let n = meanwhile (begin_loading m r.engine) a.before_switch in
          let p = switch_tts_engine n r.engine a.unload a.load in
          switched_prompt-Stable r a (between a.after_switch p) q (
            meanwhile-Stable p.0 a.after_switch (
              s.on_switch n r.engine a.unload a.load (
                meanwhile-Stable (begin_loading m r.engine) a.before_switch
                  (s.on_loading m r.engine c)))))

  aligned_prompt-Stable :
      (r : Request) (a : Answers) (p : Manager × (ℕ ⊎ Bool))
      → allows allowed r.lease_owner ≡ true
      → P p.0
      → P (aligned_prompt r a p).0
  unfolding aligned_prompt
  aligned_prompt-Stable r a (m, inl code) q c = state-Stable m failed (some code) c
  aligned_prompt-Stable r a (m, inr true) q c = make_resident-Stable m r a q c
  aligned_prompt-Stable r a (m, inr false) q c = state-Stable m failed (some mismatch_code) c

  transcribe_reference-Stable :
      (m : Manager) (cache : ℕ) (t : Transcription) → P m → P (transcribe_reference m cache t).0
  transcribe_reference-Stable m cache (unverified code) c = c
  transcribe_reference-Stable m cache (aligned accepted) c =
      s.on_alignment m (some (cache, accepted)) c

  recall_alignment-Stable :
      (o : Option (ℕ × Bool)) (m : Manager) (cache : ℕ) (t : Transcription)
      → P m
      → P (recall_alignment o m cache t).0
  recall_alignment-Stable none m cache t c = transcribe_reference-Stable m cache t c
  recall_alignment-Stable (some (key, accepted)) m cache t c =
      if_either Leaves (key == cache) (λ h. c) (λ h. transcribe_reference-Stable m cache t c)

  prepare_selected-Stable :
      (m : Manager) (r : Request) (a : Answers)
      → allows allowed r.lease_owner ≡ true
      → P m
      → P (prepare_selected m r a).0
  unfolding prepare_selected
  prepare_selected-Stable m r a q c =
      if_either Leaves (r.engine == qwen)
        (λ h.
          let p = qwen_reference_alignment m r.cache_key a.transcription in
          aligned_prompt-Stable r a (between a.during_alignment p) q (
            meanwhile-Stable p.0 a.during_alignment
              (recall_alignment-Stable m.alignment_cache m r.cache_key a.transcription c)))
        (λ h. make_resident-Stable m r a q c)

  prepare_unless-Stable :
      (o : Option ManagerError) (m : Manager) (r : Request) (a : Answers)
      → allows allowed r.lease_owner ≡ true
      → P m
      → P (prepare_unless o m r a).0
  unfolding prepare_unless prepare_admitted lease_prompt
  prepare_unless-Stable (some why) m r a q c = c
  prepare_unless-Stable none m r a q c =
      if_either Leaves (r.engine == qwen && is_competing m r) (λ h. c)
        (λ h.
          if_either Leaves (same_ready_prompt m r) (λ t. lease_as-Stable r.lease_owner m r q c)
            (λ t.
              prepare_selected-Stable (select_prompt m r) r a q
                (s.on_prompt m (selected r) none c)))

  pub prepare_tts_engine-Stable :
      (m : Manager) (r : Request) (a : Answers)
      → allows allowed r.lease_owner ≡ true
      → P m
      → P (prepare_tts_engine m r a).0
  unfolding prepare_tts_engine
  prepare_tts_engine-Stable m r a q c = prepare_unless-Stable (request_error m r) m r a q c

  invalidate_prompt-Stable :
      (m : Manager) (e key : ℕ) (answer : Invalidation)
      → P m
      → P (invalidate_prompt m e key answer).0
  unfolding invalidate_prompt
  invalidate_prompt-Stable m e key no_method c = c
  invalidate_prompt-Stable m e key (invalidation_failed code true) c = s.on_contain m e c
  invalidate_prompt-Stable m e key (invalidation_failed code false) c = c
  invalidate_prompt-Stable m e key (invalidated matched cancelled) c =
      if_either P (prompt_matches m e key)
        (λ h. s.on_alignment (reset_prompt m) none (s.on_prompt m no_prompt none c)) (λ h. c)

  pub invalidate_tts_prompt-Stable :
      (m : Manager) (e key : ℕ) (well_formed : Bool) (answer : Invalidation)
      → P m
      → P (invalidate_tts_prompt m e key well_formed answer).0
  unfolding invalidate_tts_prompt
  invalidate_tts_prompt-Stable m e key well_formed answer c =
      if_either Leaves (not (e == qwen)) (λ h. c)
        (λ h.
          if_either Leaves (not well_formed) (λ t. c)
            (λ t.
              if_either Leaves (is_leased m && (m.lease_voice_key ==? some key)) (λ u. c)
                (λ u. invalidate_prompt-Stable m e key answer c)))
