-- ===== src/Engines/Switching.antt =====
-- `switch_tts_engine` of ai-backend/app/models/model_manager.py leaves the lease alone.
use ray_me.Base.{if_either, ℕ, not, ◌&&◌, Option, none, some, List, ◌==◌, ◌==?◌, get}
use ray_me.Engines.Types.{Manager, EngineStatus}
use ray_me.Engines.Switch.{
  qwen, is_retriable, Outcome, is_leased, with_status, retried, reset_prompt, load_engine, emptied,
  replace_engine, enter_from, begin_loading, enter_engine, admitted_engine, switch_from,
  switch_tts_engine,
}

module _ (Q : List ℕ → Option ℕ → Option ℕ → Type 0) where
  abbrev P : Manager → Type 0
  P m = Q m.lease_owners m.lease_voice_key m.lease_cache_key

  abbrev Leaves {ℓ} : {R : Type ℓ} → Manager × R → Type 0
  Leaves p = P p.0

  load_engine-Lease : (m : Manager) (e : ℕ) (o : Outcome) → P m → P (load_engine m e o).0
  unfolding load_engine
  load_engine-Lease m e none c = c
  load_engine-Lease m e (some code) c = c

  enter_from-Lease :
      (r : Option ℕ) (m : Manager) (e : ℕ) (unload load : Outcome)
      → P m
      → P (enter_from r m e unload load).0
  unfolding enter_from replace_engine
  enter_from-Lease none m e unload load c = load_engine-Lease m e load c
  enter_from-Lease (some previous) m e (some code) load c = c
  enter_from-Lease (some previous) m e none load c =
      if_either (λ n. P (load_engine n e load).0) (previous == qwen && not (e == previous))
        (λ h. load_engine-Lease (reset_prompt (emptied m previous)) e load c)
        (λ h. load_engine-Lease (emptied m previous) e load c)

  admitted_engine-Lease :
      (m : Manager) (e : ℕ) (unload load : Outcome) → P m → P (admitted_engine m e unload load).0
  unfolding admitted_engine enter_engine
  admitted_engine-Lease m e unload load c =
      if_either Leaves (m.resident_tts_engine ==? some e) (λ h. c)
        (λ h.
          if_either Leaves ((m.resident_tts_engine ==? some qwen) && is_leased m && not (e == qwen))
            (λ t. c)
            (λ t. enter_from-Lease m.resident_tts_engine (begin_loading m e) e unload load c))

  switch_from-Lease :
      (o : Option EngineStatus) (m : Manager) (e : ℕ) (unload load : Outcome)
      → P m
      → P (switch_from o m e unload load).0
  unfolding switch_from
  switch_from-Lease none m e unload load c = c
  switch_from-Lease (some s) m e unload load c =
      if_either Leaves s.available (λ h. admitted_engine-Lease m e unload load c)
        (λ h.
          if_either Leaves (is_retriable s.unavailable_reason)
            (λ t. admitted_engine-Lease (with_status m e retried) e unload load c) (λ t. c))

  pub switch_tts_engine-Lease :
      (m : Manager) (e : ℕ) (unload load : Outcome) → P m → P (switch_tts_engine m e unload load).0
  unfolding switch_tts_engine
  switch_tts_engine-Lease m e unload load c = switch_from-Lease (get m.statuses e) m e unload load c
