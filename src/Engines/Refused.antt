-- ===== src/Engines/Refused.antt =====
-- What `prepare_tts_engine` of ai-backend/app/models/model_manager.py leaves when it refuses a
-- request because of the lease.
use ray_me.Base.{
  List, [], ◌∷◌, Bool-cases, inl, inr, map_some, not, subst, sym, if_either, ℕ, ◌≡◌, refl, ◌∙◌,
  true, false, Option, none, some, arith, ◌==◌, ◌==?◌, get, ◌&&◌,
}
use ray_me.Engines.Types.{Manager, EngineStatus, leased, err, Result, VoicePrompt}
use ray_me.Engines.Switch.{
  qwen, Outcome, is_leased, is_retriable, retried, now_resident, with_status, now_loading,
  begin_loading, admitted_engine, switch_from, switch_tts_engine,
}
use ray_me.Engines.Residency.{is_available, is_available-modify_status, get-modify_status}
use ray_me.Engines.Prepare.{
  Request, Answers, is_competing, switched_prompt, make_resident, select_prompt, prepare_selected,
  request_error, prepare_admitted, prepare_unless, prepare_tts_engine, PrepareResult,
  same_ready_prompt, OtherSwitch, meanwhile, between, selected,
}
use ray_me.Engines.Release.{is_tts_prompt_ready}

switch_from-refused :
    (o : Option EngineStatus) (m : Manager) (e : ℕ) (unload load : Outcome)
    → is_available o ≡ true
    → (e == qwen) ≡ false
    → (m.resident_tts_engine ==? some qwen) ≡ true
    → is_leased m ≡ true
    → switch_from o m e unload load ≡ (m, err leased)
unfolding switch_from admitted_engine
switch_from-refused none m e unload load h q r l = ground (arith, h)
switch_from-refused (some s) m e unload load h q r l = ground (arith, h, q, r, l)

-- Qwen3 is in the slot and leased, and the refused engine is entered as loading.
record IsHeld (e : ℕ) (v : VoicePrompt) (m : Manager) : Type 0 where
  resident : (m.resident_tts_engine ==? some qwen) ≡ true
  leased : is_leased m ≡ true
  loading : m.loading_engine ≡ some e
  prompt : m.selected_voice_prompt ≡ v
  available : is_available (get m.statuses e) ≡ true

is_available-kept :
    (m : Manager) (e j : ℕ) (f : EngineStatus → EngineStatus)
    → ((s : EngineStatus) → s.available ≡ true → (f s).available ≡ true)
    → is_available (get m.statuses j) ≡ true
    → is_available (get (with_status m e f).statuses j) ≡ true
is_available-kept m e j f k h =
    rw (get-modify_status m.statuses e j f)
      (elim (Bool-cases (e == j)) [ inl q ↦ rw q (go (get m.statuses j) h) | inr q ↦ rw q h ])
  where
    go : (o : Option EngineStatus) → is_available o ≡ true → is_available (map_some f o) ≡ true
    go none c = c
    go (some s) c = k s c

with_status-IsHeld :
    (m : Manager) (e i : ℕ) (v : VoicePrompt) (f : EngineStatus → EngineStatus)
    → ((s : EngineStatus) → s.available ≡ true → (f s).available ≡ true)
    → IsHeld e v m
    → IsHeld e v (with_status m i f)
with_status-IsHeld m e i v f k h = record {
  resident = h.resident;
  leased = h.leased;
  loading = h.loading;
  prompt = h.prompt;
  available = is_available-kept m i e f k h.available;
}

-- A switch to another engine is refused, and one to Qwen3 finds it there.
admitted_engine-IsHeld :
    (m : Manager) (e i : ℕ) (v : VoicePrompt) (unload load : Outcome)
    → IsHeld e v m
    → IsHeld e v (admitted_engine m i unload load).0
unfolding admitted_engine
admitted_engine-IsHeld m e i v unload load h =
    if_either (λ (p : Manager × Result (Unit {0})). IsHeld e v p.0)
      (m.resident_tts_engine ==? some i) (λ t. with_status-IsHeld m e i v now_resident (λ s c. c) h)
      (λ t.
        if_either (λ (p : Manager × Result (Unit {0})). IsHeld e v p.0)
          ((m.resident_tts_engine ==? some qwen) && is_leased m && not (i == qwen)) (λ u. h)
          (λ u. ground (arith, t, u, h.resident, h.leased)))

switch_from-IsHeld :
    (o : Option EngineStatus) (m : Manager) (e i : ℕ) (v : VoicePrompt) (unload load : Outcome)
    → IsHeld e v m
    → IsHeld e v (switch_from o m i unload load).0
unfolding switch_from
switch_from-IsHeld none m e i v unload load h = h
switch_from-IsHeld (some s) m e i v unload load h =
    if_either (λ (p : Manager × Result (Unit {0})). IsHeld e v p.0) s.available
      (λ t. admitted_engine-IsHeld m e i v unload load h)
      (λ t.
        if_either (λ (p : Manager × Result (Unit {0})). IsHeld e v p.0)
          (is_retriable s.unavailable_reason)
          (λ u.
            admitted_engine-IsHeld (with_status m i retried) e i v unload load
              (with_status-IsHeld m e i v retried (λ x c. refl) h))
          (λ u. h))

meanwhile-IsHeld :
    (m : Manager) (e : ℕ) (v : VoicePrompt) (ss : List OtherSwitch)
    → IsHeld e v m
    → IsHeld e v (meanwhile m ss)
unfolding switch_tts_engine
meanwhile-IsHeld m e v [] h = h
meanwhile-IsHeld m e v (s ∷ ss) h =
    meanwhile-IsHeld (switch_tts_engine m s.engine s.unload s.load).0 e v ss
      (switch_from-IsHeld (get m.statuses s.engine) m e s.engine v s.unload s.load h)

-- The call is refused, with its own prompt selected.
abbrev IsRefused : Request → Manager × Result PrepareResult → Type 0
IsRefused r p = p.1 ≡ err leased × IsHeld r.engine (selected r) p.0

make_resident-IsRefused :
    (m : Manager) (r : Request) (a : Answers)
    → (r.engine == qwen) ≡ false
    → IsHeld r.engine (selected r) (begin_loading m r.engine)
    → IsRefused r (make_resident m r a)
unfolding make_resident switch_tts_engine switched_prompt
make_resident-IsRefused m r a q h =
    let n = meanwhile (begin_loading m r.engine) a.before_switch in
    let k = meanwhile-IsHeld (begin_loading m r.engine) r.engine (selected r) a.before_switch h in
    let e =
      switch_from-refused (get n.statuses r.engine) n r.engine a.unload a.load k.available q
        k.resident k.leased in
    if_either (IsRefused r) (m.resident_tts_engine ==? some r.engine)
      (λ t. ground (arith, t, q, h.resident))
      (λ t.
        subst (λ p. IsRefused r (switched_prompt r a (between a.after_switch p))) (sym e)
          (refl, meanwhile-IsHeld n r.engine (selected r) a.after_switch k))

prepare_unless-IsRefused :
    (m : Manager) (r : Request) (a : Answers)
    → is_available (get m.statuses r.engine) ≡ true
    → (r.engine == qwen) ≡ false
    → (m.resident_tts_engine ==? some qwen) ≡ true
    → is_leased m ≡ true
    → IsRefused r (prepare_unless none m r a)
unfolding prepare_unless prepare_admitted prepare_selected
prepare_unless-IsRefused m r a h q s l =
    let held : IsHeld r.engine (selected r) (begin_loading (select_prompt m r) r.engine) = record {
      resident = s;
      leased = l;
      loading = refl;
      prompt = refl;
      available =
          is_available-modify_status m.statuses r.engine r.engine now_loading (λ t. refl) ∙ h;
    } in
    if_either (IsRefused r) (r.engine == qwen && is_competing m r) (λ t. ground (arith, t, q))
      (λ t.
        if_either (IsRefused r) (same_ready_prompt m r) (λ u. ground (arith, u, q))
          (λ u.
            if_either (IsRefused r) (r.engine == qwen) (λ v. ground (arith, v, q))
              (λ v. make_resident-IsRefused (select_prompt m r) r a q held)))

-- While a call leases the Qwen3 prompt, a request for another engine that is available is refused, whatever
-- other requests switch to meanwhile, but not before the selected prompt is forgotten and the other
-- engine is entered as loading: no prompt is ready then.
pub prepare_tts_engine-forgets :
    (m : Manager) (r : Request) (a : Answers)
    → request_error m r ≡ none
    → is_available (get m.statuses r.engine) ≡ true
    → (r.engine == qwen) ≡ false
    → (m.resident_tts_engine ==? some qwen) ≡ true
    → is_leased m ≡ true
    → (prepare_tts_engine m r a).1 ≡ err leased
      × (prepare_tts_engine m r a).0.loading_engine ≡ some r.engine
      × ((key : ℕ) (reference : Option ℕ)
          → is_tts_prompt_ready (prepare_tts_engine m r a).0 qwen key reference ≡ false)
unfolding prepare_tts_engine is_tts_prompt_ready
prepare_tts_engine-forgets m r a e h q s l =
    let (why, held) = prepare_unless-IsRefused m r a h q s l in
    rw e (why, held.loading, λ key reference. ground (arith, q, held.prompt))
