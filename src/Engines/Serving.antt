-- ===== src/Engines/Serving.antt =====
-- The statuses agree with the engine in memory after every call of
-- ai-backend/app/models/model_manager.py.
use ray_me.Base.{
  if_either, ℕ, ◌≡◌, refl, inl, inr, Bool, true, not, ◌&&◌, Option, none, some, arith, ◌==◌,
  Bool-cases, List, [], ◌∷◌, contains, discard, get, map_some, is_empty,
}
use ray_me.Engines.Types.{Manager, runtime_failed, EngineStatus}
use ray_me.Engines.Switch.{qwen, is_leased, unavailable_status, Outcome}
use ray_me.Engines.Prepare.{
  is_only, same_lease, set_qwen_prompt_lease, contain_qwen_runtime_failure,
}
use ray_me.Engines.Release.{
  release_tts_prompt_lease, idle_if_available, idle_engines, stopped, unload_all, shutdown,
}
use ray_me.Engines.Runs.{
  serve, ManagerCall, switch_engine, prepare, release, invalidate, shut_down, serve_all,
}
use ray_me.Engines.Residency.{
  IsConsistent, get-modify_status, begin_loading-IsConsistent, switch_tts_engine-IsConsistent,
}
use ray_me.Engines.Stable.{Stable, allows, prepare_tts_engine-Stable, invalidate_tts_prompt-Stable}

abbrev LeavesConsistent {ℓ} : {R : Type ℓ} → Manager × R → Type 0
LeavesConsistent p = IsConsistent p.0

contain_qwen_runtime_failure-IsConsistent :
    (m : Manager) (e : ℕ) → IsConsistent m → IsConsistent (contain_qwen_runtime_failure m e)
unfolding contain_qwen_runtime_failure
contain_qwen_runtime_failure-IsConsistent m e c j = elim (Bool-cases (e == qwen)) [
  | inl h ↦ rw h (
      rw (get-modify_status m.statuses e j (unavailable_status runtime_failed))
        (ground (arith, c j)))
  | inr h ↦ rw h (c j)
]

set_qwen_prompt_lease-IsConsistent :
    (m : Manager) (owner key cache : ℕ)
    → IsConsistent m
    → IsConsistent (set_qwen_prompt_lease m owner key cache).0
unfolding set_qwen_prompt_lease
set_qwen_prompt_lease-IsConsistent m owner key cache c =
    if_either LeavesConsistent (is_leased m && not (same_lease m key cache))
      (λ h. if_either LeavesConsistent (is_only owner m.lease_owners) (λ t. c) (λ t. c)) (λ h. c)

abbrev anyone : ℕ → Bool
anyone owner = true

IsConsistent-Stable : Stable IsConsistent anyone
IsConsistent-Stable = record {
  on_switch = switch_tts_engine-IsConsistent;
  on_loading = begin_loading-IsConsistent;
  on_contain = contain_qwen_runtime_failure-IsConsistent;
  on_prompt = λ m p cache c. c;
  on_alignment = λ m known c. c;
  on_lease = λ m owner key cache q c. set_qwen_prompt_lease-IsConsistent m owner key cache c;
}

allows-anyone : (o : Option ℕ) → allows anyone o ≡ true
allows-anyone none = refl
allows-anyone (some owner) = refl

get-idle_engines :
    (l : List (ℕ × EngineStatus)) (e : ℕ)
    → get (idle_engines l) e ≡ map_some idle_if_available (get l e)
unfolding idle_engines
get-idle_engines [] e = refl
get-idle_engines ((i, s) ∷ l) e = ground (arith, get-idle_engines l e)

stopped-IsConsistent : (m : Manager) → IsConsistent m → IsConsistent (stopped m)
unfolding stopped
stopped-IsConsistent m c e = rw (get-idle_engines m.statuses e) (ground (arith, c e))

unload_all-IsConsistent :
    (o : Option ℕ) (m : Manager) (unload : Outcome)
    → IsConsistent m
    → IsConsistent (unload_all o m unload).0
unfolding unload_all
unload_all-IsConsistent none m unload c = stopped-IsConsistent m c
unload_all-IsConsistent (some e) m none c = stopped-IsConsistent m c
unload_all-IsConsistent (some e) m (some code) c = c

serve-IsConsistent : (m : Manager) (c : ManagerCall) → IsConsistent m → IsConsistent (serve m c)
unfolding serve release_tts_prompt_lease shutdown
serve-IsConsistent m (switch_engine e unload load) c =
    switch_tts_engine-IsConsistent m e unload load c
serve-IsConsistent m (prepare r a) c =
    prepare_tts_engine-Stable IsConsistent anyone IsConsistent-Stable m r a
      (allows-anyone r.lease_owner) c
serve-IsConsistent m (release owner) c =
    if_either LeavesConsistent (contains m.lease_owners owner)
      (λ h. if_either IsConsistent (is_empty (discard owner m.lease_owners)) (λ t. c) (λ t. c))
      (λ h. c)
serve-IsConsistent m (invalidate e key well_formed answer) c =
    invalidate_tts_prompt-Stable IsConsistent anyone IsConsistent-Stable m e key well_formed answer
      c
serve-IsConsistent m (shut_down unload) c = unload_all-IsConsistent m.resident_tts_engine m unload c

-- Whatever the adapters answer, an engine whose status says resident is the one in the slot, and an
-- unavailable engine is not resident, after every sequence of calls.
pub serve_all-IsConsistent :
    (m : Manager) (cs : List ManagerCall) → IsConsistent m → IsConsistent (serve_all m cs)
unfolding serve_all
serve_all-IsConsistent m [] c = c
serve_all-IsConsistent m (d ∷ cs) c =
    serve_all-IsConsistent (serve m d) cs (serve-IsConsistent m d c)
