-- ===== src/Engines/Overtaken.antt =====
-- A switch of the engine that overtakes `prepare_tts_engine` of
-- ai-backend/app/models/model_manager.py while it awaits its prewarm.
use ray_me.Base.{
  if_either, ℕ, ◌≡◌, refl, ap, sym, subst, Bool, true, false, not, ◌&&◌, Option, none, some, List,
  [], ◌∷◌, arith, ◌==◌, ◌==?◌, get, ◌⊎◌, inr, is_empty, contains-add_self, ==_refl, add, contains,
}
use ray_me.Engines.Types.{Manager, EngineStatus, Result, prewarming}
use ray_me.Engines.Switch.{
  qwen, is_leased, load_engine, replace_engine, enter_from, begin_loading, enter_engine,
  admitted_engine, switch_from, switch_tts_engine,
}
use ray_me.Engines.Switching.{switch_tts_engine-Lease}
use ray_me.Engines.Residency.{is_available}
use ray_me.Engines.Leases.{IsLeasedTo}
use ray_me.Engines.Prepare.{
  Request, Answers, PrepareResult, aligned, is_competing, set_qwen_prompt_lease, lease_as,
  lease_prompt, ready_prompt, prewarm_prompt, with_prompt_state, prompt_resident, make_resident,
  select_prompt, aligned_prompt, recall_alignment, prepare_selected, same_ready_prompt,
  request_error, prepare_admitted, prepare_unless, prepare_tts_engine, same_lease, leased_result,
}
use ray_me.Engines.Release.{is_tts_prompt_ready}
use ray_me.Engines.Outcomes.{is_ok, all_well, IsUnrejected}

-- Nothing fails, and another request switches to the engine `e` during the prewarm.
abbrev pub overtaken_by : ℕ → Answers
overtaken_by e = record all_well {
  during_prewarm = record { engine = e; unload = none; load = none } ∷ [];
}

abbrev InSlot {ℓ} : {A : Type ℓ} → ℕ → Manager × A → Type 0
InSlot e p = p.0.resident_tts_engine ≡ some e

enter_from-InSlot : (o : Option ℕ) (m : Manager) (e : ℕ) → InSlot e (enter_from o m e none none)
unfolding enter_from replace_engine load_engine
enter_from-InSlot none m e = refl
enter_from-InSlot (some previous) m e = refl

switch_from-InSlot :
    (o : Option EngineStatus) (m : Manager) (e : ℕ)
    → is_available o ≡ true
    → (e == qwen) ≡ false
    → (m.resident_tts_engine ==? some qwen) ≡ true
    → is_leased m ≡ false
    → InSlot e (switch_from o m e none none)
unfolding switch_from admitted_engine enter_engine
switch_from-InSlot none m e h q s l = ground (arith, h)
switch_from-InSlot (some x) m e h q s l =
    if_either (InSlot e) x.available
      (λ t.
        if_either (InSlot e) (m.resident_tts_engine ==? some e) (λ u. ground (arith, u, q, s))
          (λ u.
            if_either (InSlot e)
              ((m.resident_tts_engine ==? some qwen) && is_leased m && not (e == qwen))
              (λ v. ground (arith, v, l))
              (λ v. enter_from-InSlot m.resident_tts_engine (begin_loading m e) e)))
      (λ t. ground (arith, t, h))

-- The call returns, and its caller has the lease, but the other engine is in the slot.
abbrev IsOvertaken : ℕ → ℕ → Request → Manager × Result PrepareResult → Type 0
IsOvertaken e owner r p =
    is_ok p.1 ≡ true × InSlot e p × IsLeasedTo owner r.voice_key r.cache_key p.0

lease_as-IsOvertaken :
    (o : Option ℕ) (m : Manager) (r : Request) (e owner : ℕ)
    → o ≡ some owner
    → m.resident_tts_engine ≡ some e
    → is_leased m ≡ false
    → IsOvertaken e owner r (lease_as o m r)
unfolding lease_as set_qwen_prompt_lease
lease_as-IsOvertaken none m r e owner q s l = ground (arith, q)
lease_as-IsOvertaken (some a) m r e owner q s l =
    let same : a ≡ owner = ground (arith, q) in
    if_either
      (λ (p : Manager × Result (Unit {0})). IsOvertaken e owner r (leased_result r.engine p))
      (is_leased m && not (same_lease m r.voice_key r.cache_key)) (λ t. ground (arith, t, l))
      (λ t. (
        refl,
        s,
        (
          subst (λ b. contains (add a m.lease_owners) b ≡ true) same
              (contains-add_self a m.lease_owners),
          ==_refl r.voice_key,
          ==_refl r.cache_key,
        ),
      ))

abbrev Unleased : List ℕ → Option ℕ → Option ℕ → Type 0
Unleased owners k x = is_empty owners ≡ true

prompt_resident-IsOvertaken :
    (m : Manager) (r : Request) (e owner : ℕ)
    → (r.engine == qwen) ≡ true
    → r.lease_owner ≡ some owner
    → (m.resident_tts_engine ==? some qwen) ≡ true
    → is_leased m ≡ false
    → is_available (get m.statuses e) ≡ true
    → (e == qwen) ≡ false
    → IsOvertaken e owner r (prompt_resident m r (overtaken_by e))
unfolding prompt_resident prewarm_prompt lease_prompt switch_tts_engine
prompt_resident-IsOvertaken m r e owner q o s l h n =
    let w = with_prompt_state m prewarming m.selected_voice_prompt.error_code in
    let x = (switch_tts_engine w e none none).0 in
    if_either (IsOvertaken e owner r) (r.engine == qwen)
      (λ t.
        lease_as-IsOvertaken r.lease_owner (ready_prompt x r) r e owner o
          (switch_from-InSlot (get w.statuses e) w e h n s l)
          (ap not (switch_tts_engine-Lease Unleased w e none none (ground (arith, l)))))
      (λ t. ground (arith, t, q))

prepare_selected-IsOvertaken :
    (m : Manager) (r : Request) (e owner : ℕ)
    → (r.engine == qwen) ≡ true
    → r.lease_owner ≡ some owner
    → (m.resident_tts_engine ==? some qwen) ≡ true
    → is_leased m ≡ false
    → IsUnrejected m.alignment_cache r.cache_key
    → is_available (get m.statuses e) ≡ true
    → (e == qwen) ≡ false
    → IsOvertaken e owner r (prepare_selected m r (overtaken_by e))
unfolding prepare_selected aligned_prompt make_resident
prepare_selected-IsOvertaken m r e owner q o s l u h n =
    if_either (IsOvertaken e owner r) (r.engine == qwen) (λ t. go m.alignment_cache u)
      (λ t. ground (arith, t, q))
  where
    stays :
        (c : Option (ℕ × Bool))
        → IsOvertaken e owner r
            (make_resident (record m { alignment_cache = c }) r (overtaken_by e))
    stays c =
        if_either (IsOvertaken e owner r) (m.resident_tts_engine ==? some r.engine)
          (λ t.
            prompt_resident-IsOvertaken (record m { alignment_cache = c }) r e owner q o s l h n)
          (λ t. ground (arith, t, q, s))

    go :
        (c : Option (ℕ × Bool))
        → IsUnrejected c r.cache_key
        → IsOvertaken e owner r
            (aligned_prompt r (overtaken_by e) (recall_alignment c m r.cache_key (aligned true)))
    go none i = stays (some (r.cache_key, true))
    go (some (key, accepted)) i =
        if_either
          (λ (p : Manager × (ℕ ⊎ Bool)).
            IsOvertaken e owner r (aligned_prompt r (overtaken_by e) p))
          (key == r.cache_key)
          (λ t.
            subst (λ b. IsOvertaken e owner r (aligned_prompt r (overtaken_by e) (m, inr b)))
              (sym (i t)) (stays m.alignment_cache))
          (λ t. stays (some (r.cache_key, true)))

-- A Qwen3 request whose caller asks for the lease, while Qwen3 is in the slot, nothing is leased, the
-- prompt is not ready yet, no rejected alignment is remembered for the reference and nothing fails: when
-- another request switches to an available engine during the prewarm, the call returns all the same and
-- its caller gets the lease, but the other engine is in the slot and no Qwen3 prompt is ready.
pub prepare_tts_engine-overtaken :
    (m : Manager) (r : Request) (e owner : ℕ)
    → request_error m r ≡ none
    → (r.engine == qwen) ≡ true
    → r.lease_owner ≡ some owner
    → (m.resident_tts_engine ==? some qwen) ≡ true
    → is_leased m ≡ false
    → same_ready_prompt m r ≡ false
    → IsUnrejected m.alignment_cache r.cache_key
    → is_available (get m.statuses e) ≡ true
    → (e == qwen) ≡ false
    → let (m', answer) = prepare_tts_engine m r (overtaken_by e) in
      is_ok answer ≡ true
      × m'.resident_tts_engine ≡ some e
      × IsLeasedTo owner r.voice_key r.cache_key m'
      × ((key : ℕ) (reference : Option ℕ) → is_tts_prompt_ready m' qwen key reference ≡ false)
unfolding prepare_tts_engine prepare_unless prepare_admitted is_tts_prompt_ready
prepare_tts_engine-overtaken m r e owner x q o s l y u h n =
    let p : IsOvertaken e owner r (prepare_unless none m r (overtaken_by e)) =
      if_either (IsOvertaken e owner r) (r.engine == qwen && is_competing m r)
        (λ t. ground (arith, t, l))
        (λ t.
          if_either (IsOvertaken e owner r) (same_ready_prompt m r) (λ v. ground (arith, v, y))
            (λ v. prepare_selected-IsOvertaken (select_prompt m r) r e owner q o s l u h n)) in
    rw x (p.0, p.1, p.2, λ key reference. ground (arith, p.1, n))
