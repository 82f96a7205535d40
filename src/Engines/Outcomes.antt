-- ===== src/Engines/Outcomes.antt =====
-- When `prepare_tts_engine` of ai-backend/app/models/model_manager.py returns.
use ray_me.Base.{
  if_either, ℕ, ◌≡◌, refl, Bool, true, false, not, ◌&&◌, Option, none, some, arith, ◌==◌, ◌==?◌, ap,
  ◌∙◌, List, [], get, is_empty, sym, subst, ◌⊎◌, inr,
}
use ray_me.Engines.Types.{Manager, EngineStatus, Result, ok, err, prewarming}
use ray_me.Engines.Switch.{
  qwen, is_leased, load_engine, replace_engine, enter_from, begin_loading, enter_engine,
  admitted_engine, switch_from, now_loading, switch_tts_engine,
}
use ray_me.Engines.Switching.{switch_tts_engine-Lease}
use ray_me.Engines.Residency.{is_available, is_available-modify_status}
use ray_me.Engines.Prepare.{
  Request, aligned, prewarmed, Answers, set_qwen_prompt_lease, lease_as, is_competing,
  recall_alignment, with_prompt_state, lease_prompt, ready_prompt, prewarm_prompt, prompt_resident,
  switched_prompt, make_resident, select_prompt, aligned_prompt, prepare_selected,
  same_ready_prompt, request_error, prepare_admitted, prepare_unless, prepare_tts_engine,
}

abbrev pub is_ok {ℓ} : {A : Type ℓ} → Result A → Bool
is_ok (ok a) = true
is_ok (err why) = false

-- Nothing that the manager calls fails, and nothing else switches the engine.
abbrev pub all_well : Answers
all_well = record {
  during_alignment = [];
  before_switch = [];
  after_switch = [];
  during_prewarm = [];
  transcription = aligned true;
  unload = none;
  load = none;
  prewarm = prewarmed;
}

abbrev Succeeds {ℓ} : {A : Type ℓ} → Manager × Result A → Type 0
Succeeds p = is_ok p.1 ≡ true

enter_from-Succeeds : (r : Option ℕ) (m : Manager) (e : ℕ) → Succeeds (enter_from r m e none none)
unfolding enter_from replace_engine load_engine
enter_from-Succeeds none m e = refl
enter_from-Succeeds (some previous) m e = refl

switch_from-Succeeds :
    (o : Option EngineStatus) (m : Manager) (e : ℕ)
    → is_available o ≡ true
    → is_leased m ≡ false
    → Succeeds (switch_from o m e none none)
unfolding switch_from admitted_engine enter_engine
switch_from-Succeeds none m e h n = h
switch_from-Succeeds (some s) m e h n = simp h (
    if_either Succeeds (m.resident_tts_engine ==? some e) (λ t. refl)
      (λ t.
        if_either Succeeds ((m.resident_tts_engine ==? some qwen) && is_leased m && not (e == qwen))
          (λ u. ground (arith, u, n))
          (λ u. enter_from-Succeeds m.resident_tts_engine (begin_loading m e) e)))

lease_as-Succeeds :
    (o : Option ℕ) (m : Manager) (r : Request) → is_leased m ≡ false → Succeeds (lease_as o m r)
unfolding lease_as set_qwen_prompt_lease
lease_as-Succeeds none m r n = refl
lease_as-Succeeds (some owner) m r n = ground (arith, n)

abbrev Unleased : List ℕ → Option ℕ → Option ℕ → Type 0
Unleased owners k x = is_empty owners ≡ true

prompt_resident-Succeeds :
    (m : Manager) (r : Request) → is_leased m ≡ false → Succeeds (prompt_resident m r all_well)
unfolding prompt_resident prewarm_prompt lease_prompt
prompt_resident-Succeeds m r n =
    if_either Succeeds (r.engine == qwen)
      (λ h.
        lease_as-Succeeds r.lease_owner
          (ready_prompt (with_prompt_state m prewarming m.selected_voice_prompt.error_code) r) r n)
      (λ h. refl)

switched_prompt-Succeeds :
    (r : Request) (p : Manager × Result (Unit {0}))
    → Succeeds p
    → is_leased p.0 ≡ false
    → Succeeds (switched_prompt r all_well p)
unfolding switched_prompt
switched_prompt-Succeeds r (m, ok u) h n = prompt_resident-Succeeds m r n
switched_prompt-Succeeds r (m, err why) h n = h

make_resident-Succeeds :
    (m : Manager) (r : Request)
    → is_available (get m.statuses r.engine) ≡ true
    → is_leased m ≡ false
    → Succeeds (make_resident m r all_well)
unfolding make_resident switch_tts_engine
make_resident-Succeeds m r h n =
    if_either Succeeds (m.resident_tts_engine ==? some r.engine)
      (λ t. prompt_resident-Succeeds m r n)
      (λ t.
        switched_prompt-Succeeds r (switch_tts_engine (begin_loading m r.engine) r.engine none none)
          (switch_from-Succeeds (get (begin_loading m r.engine).statuses r.engine)
            (begin_loading m r.engine) r.engine
            (is_available-modify_status m.statuses r.engine r.engine now_loading (λ s. refl) ∙ h) n)
          (ap not (
            switch_tts_engine-Lease Unleased (begin_loading m r.engine) r.engine none none
              (ground (arith, n)))))

-- The remembered alignment, if it is the one of this reference, is not a rejection.
abbrev pub IsUnrejected : Option (ℕ × Bool) → ℕ → Type 0
IsUnrejected none cache = Unit {0}
IsUnrejected (some (key, accepted)) cache = (key == cache) ≡ true → accepted ≡ true

prepare_selected-Succeeds :
    (m : Manager) (r : Request)
    → IsUnrejected m.alignment_cache r.cache_key
    → is_available (get m.statuses r.engine) ≡ true
    → is_leased m ≡ false
    → Succeeds (prepare_selected m r all_well)
unfolding prepare_selected
prepare_selected-Succeeds m r k h n =
    if_either Succeeds (r.engine == qwen) (λ t. go m.alignment_cache k)
      (λ t. make_resident-Succeeds m r h n)
  where
    go :
        (o : Option (ℕ × Bool))
        → IsUnrejected o r.cache_key
        → Succeeds (aligned_prompt r all_well (recall_alignment o m r.cache_key (aligned true)))
    go none e =
        make_resident-Succeeds (record m { alignment_cache = some (r.cache_key, true) }) r h n
    go (some (key, accepted)) e =
        if_either (λ (p : Manager × (ℕ ⊎ Bool)). Succeeds (aligned_prompt r all_well p))
          (key == r.cache_key)
          (λ q.
            subst (λ b. Succeeds (aligned_prompt r all_well (m, inr b))) (sym (e q))
              (make_resident-Succeeds m r h n))
          (λ q.
            make_resident-Succeeds (record m { alignment_cache = some (r.cache_key, true) }) r h n)

-- When no owner leases the Qwen3 prompt, the alignment remembered for the reference, if there is one, is
-- not a rejection, and no other request switches the engine meanwhile: `prepare_tts_engine` returns
-- for a well-formed request and an available engine, when nothing it calls fails.
pub prepare_tts_engine-is_ok :
    (m : Manager) (r : Request)
    → request_error m r ≡ none
    → is_available (get m.statuses r.engine) ≡ true
    → IsUnrejected m.alignment_cache r.cache_key
    → is_leased m ≡ false
    → is_ok (prepare_tts_engine m r all_well).1 ≡ true
unfolding prepare_tts_engine prepare_unless prepare_admitted lease_prompt
prepare_tts_engine-is_ok m r e h k n = rw e (
    if_either Succeeds (r.engine == qwen && is_competing m r) (λ t. ground (arith, t, n))
      (λ t.
        if_either Succeeds (same_ready_prompt m r) (λ u. lease_as-Succeeds r.lease_owner m r n)
          (λ u. prepare_selected-Succeeds (select_prompt m r) r k h n)))
