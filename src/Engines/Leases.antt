-- ===== src/Engines/Leases.antt =====
-- The lease of the Qwen3 prompt in ai-backend/app/models/model_manager.py: whoever holds it keeps it
-- until it gives it up.
use ray_me.Base.{
  All, if_either, ℕ, ◌≡◌, Bool, true, false, not, ◌&&◌, Option, some, List, ◌==◌, ◌==?◌, contains,
  discard, contains-discard_ne, refl, ◌∙◌, [], ◌∷◌, arith, contains-add_ne, is_empty,
}
use ray_me.Engines.Types.{Manager}
use ray_me.Engines.Switch.{qwen, is_leased}
use ray_me.Engines.Prepare.{
  is_only, same_lease, set_qwen_prompt_lease, contain_qwen_runtime_failure,
}
use ray_me.Engines.Release.{release_tts_prompt_lease}
use ray_me.Engines.Runs.{
  serve, ManagerCall, switch_engine, prepare, release, invalidate, shut_down, serve_all,
}
use ray_me.Engines.Switching.{switch_tts_engine-Lease}
use ray_me.Engines.Stable.{Stable, allows, prepare_tts_engine-Stable, invalidate_tts_prompt-Stable}

abbrev pub LeasedTo : ℕ → ℕ → ℕ → List ℕ → Option ℕ → Option ℕ → Type 0
LeasedTo a key cache owners k x =
    contains owners a ≡ true × (k ==? some key) ≡ true × (x ==? some cache) ≡ true

-- The caller `a` is an owner of the lease on the prompt of this voice and cache key.
abbrev pub IsLeasedTo : ℕ → ℕ → ℕ → Manager → Type 0
IsLeasedTo a key cache m = LeasedTo a key cache m.lease_owners m.lease_voice_key m.lease_cache_key

abbrev pub is_other : ℕ → ℕ → Bool
is_other a b = not (b == a)

-- A call that `a` does not make itself, and not the shutdown.
abbrev pub is_foreign : ℕ → ManagerCall → Bool
is_foreign a (switch_engine e unload load) = true
is_foreign a (prepare r answers) = allows (is_other a) r.lease_owner
is_foreign a (release owner) = not (owner == a)
is_foreign a (invalidate e key well_formed answer) = true
is_foreign a (shut_down unload) = false

abbrev pub AreForeign : ℕ → List ManagerCall → Type 0
AreForeign a cs = All (λ c. is_foreign a c ≡ true) cs

is_empty-contains : (a : ℕ) (xs : List ℕ) → contains xs a ≡ true → is_empty xs ≡ false
is_empty-contains a [] h = ground (arith, h)
is_empty-contains a (x ∷ xs) h = refl

is_only-contains :
    (a b : ℕ) (owners : List ℕ)
    → is_other a b ≡ true
    → contains owners a ≡ true
    → is_only b owners ≡ false
is_only-contains a b owners n h =
    let e =
      is_empty-contains a (discard b owners)
        (contains-discard_ne b a owners (ground (arith, n)) ∙ h) in
    ground (arith, e)

-- Without a lease, or with one on the same prompt.
joined :
    (m : Manager) (a key cache k x : ℕ)
    → IsLeasedTo a key cache m
    → (is_leased m && not (same_lease m k x)) ≡ false
    → (k == key) ≡ true × (x == cache) ≡ true
joined m a key cache k x c h =
    let e = is_empty-contains a m.lease_owners c.0 in
    (ground (arith, e, c, h), ground (arith, e, c, h))

module _ (a key cache : ℕ) where
  abbrev P : Manager → Type 0
  P m = IsLeasedTo a key cache m

  abbrev Leaves {ℓ} : {R : Type ℓ} → Manager × R → Type 0
  Leaves p = P p.0

  contain_qwen_runtime_failure-IsLeasedTo :
      (m : Manager) (e : ℕ) → P m → P (contain_qwen_runtime_failure m e)
  unfolding contain_qwen_runtime_failure
  contain_qwen_runtime_failure-IsLeasedTo m e c = if_either P (e == qwen) (λ h. c) (λ h. c)

  -- A second owner joins on the same prompt only.
  set_qwen_prompt_lease-IsLeasedTo :
      (m : Manager) (owner k x : ℕ)
      → is_other a owner ≡ true
      → P m
      → P (set_qwen_prompt_lease m owner k x).0
  unfolding set_qwen_prompt_lease
  set_qwen_prompt_lease-IsLeasedTo m owner k x q c =
      if_either Leaves (is_leased m && not (same_lease m k x))
        (λ h.
          if_either Leaves (is_only owner m.lease_owners)
            (λ t. ground (arith, t, is_only-contains a owner m.lease_owners q c.0)) (λ t. c))
        (λ h.
          let e = joined m a key cache k x c h in
          (contains-add_ne owner a m.lease_owners c.0, e.0, e.1))

  IsLeasedTo-Stable : Stable P (is_other a)
  IsLeasedTo-Stable = record {
    on_switch =
        λ m e unload load c. switch_tts_engine-Lease (LeasedTo a key cache) m e unload load c;
    on_loading = λ m e c. c;
    on_contain = contain_qwen_runtime_failure-IsLeasedTo;
    on_prompt = λ m p x c. c;
    on_alignment = λ m known c. c;
    on_lease = set_qwen_prompt_lease-IsLeasedTo;
  }

  release-IsLeasedTo :
      (m : Manager) (owner : ℕ)
      → not (owner == a) ≡ true
      → P m
      → P (release_tts_prompt_lease m owner).0
  unfolding release_tts_prompt_lease
  release-IsLeasedTo m owner n c =
      let k = contains-discard_ne owner a m.lease_owners (ground (arith, n)) ∙ c.0 in
      if_either Leaves (contains m.lease_owners owner)
        (λ h.
          if_either P (is_empty (discard owner m.lease_owners))
            (λ t. ground (arith, t, is_empty-contains a (discard owner m.lease_owners) k))
            (λ t. (k, c.1, c.2)))
        (λ h. c)

  serve-IsLeasedTo : (m : Manager) (d : ManagerCall) → is_foreign a d ≡ true → P m → P (serve m d)
  unfolding serve
  serve-IsLeasedTo m (switch_engine e unload load) q c =
      switch_tts_engine-Lease (LeasedTo a key cache) m e unload load c
  serve-IsLeasedTo m (prepare r answers) q c =
      prepare_tts_engine-Stable P (is_other a) IsLeasedTo-Stable m r answers q c
  serve-IsLeasedTo m (release owner) q c = release-IsLeasedTo m owner q c
  serve-IsLeasedTo m (shut_down unload) q c = ground (arith, q)
  serve-IsLeasedTo m (invalidate e k well_formed answer) q c =
      invalidate_tts_prompt-Stable P (is_other a) IsLeasedTo-Stable m e k well_formed answer c

-- A caller that holds the lease keeps it, on the same voice and reference, through every sequence of
-- calls that it does not make itself and that does not shut the manager down, whatever the adapters
-- answer and whatever engine others switch to while a call waits.
pub serve_all-IsLeasedTo :
    (m : Manager) (a key cache : ℕ) (cs : List ManagerCall)
    → AreForeign a cs
    → IsLeasedTo a key cache m
    → IsLeasedTo a key cache (serve_all m cs)
unfolding serve_all
serve_all-IsLeasedTo m a key cache [] f c = c
serve_all-IsLeasedTo m a key cache (d ∷ cs) f c =
    serve_all-IsLeasedTo (serve m d) a key cache cs f.1 (serve-IsLeasedTo a key cache m d f.0 c)
