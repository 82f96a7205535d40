-- ===== src/Engines/Residency.antt =====
-- The statuses of ai-backend/app/models/model_manager.py agree with the engine in memory.
use ray_me.Base.{
  is_some, ℕ, ◌≡◌, Bool, true, not, ◌&&◌, ◌||◌, Option, none, some, List, [], ◌∷◌, arith, ◌==◌,
  ◌==?◌, get, map_some, if◌then◌else◌, refl, inl, inr, false, Bool-cases, ◌∙◌, ap,
}
use ray_me.Engines.Types.{Manager, load_failed, EngineStatus}
use ray_me.Engines.Switch.{
  modify_status, Outcome, unavailable_status, now_resident, load_engine, with_status, qwen,
  now_loading, now_idle, reset_prompt, replace_engine, enter_engine, is_retriable, is_leased,
  retried, admitted_engine, switch_tts_engine, enter_from, begin_loading, switch_from,
}

pub get-modify_status :
    (l : List (ℕ × EngineStatus)) (e j : ℕ) (f : EngineStatus → EngineStatus)
    → get (modify_status l e f) j ≡ (if e == j then map_some f (get l j) else get l j)
unfolding modify_status
get-modify_status [] e j f = ground arith
get-modify_status ((i, s) ∷ l) e j f = ground (arith, get-modify_status l e j f)

-- A status says that its engine is resident exactly when the slot holds it, and never when it is
-- unavailable.
abbrev fits : Option ℕ → ℕ → Option EngineStatus → Bool
fits r e none = true
fits r e (some s) =
    (if s.resident then r ==? some e else not (r ==? some e)) && (s.available || not s.resident)

abbrev pub IsConsistent : Manager → Type 0
IsConsistent m = (e : ℕ) → fits m.resident_tts_engine e (get m.statuses e) ≡ true

abbrev pub is_available : Option EngineStatus → Bool
is_available none = false
is_available (some s) = s.available

load_engine-IsConsistent :
    (m : Manager) (e : ℕ) (o : Outcome)
    → m.resident_tts_engine ≡ none
    → is_available (get m.statuses e) ≡ true
    → IsConsistent m
    → IsConsistent (load_engine m e o).0
unfolding load_engine
load_engine-IsConsistent m e none n k c j =
    rw (get-modify_status m.statuses e j now_resident) (ground (arith, c j, n))
load_engine-IsConsistent m e (some code) n k c j =
    rw (get-modify_status m.statuses e j (unavailable_status load_failed)) (ground (arith, c j, n))

fits-map_some :
    (r : Option ℕ) (j : ℕ) (f : EngineStatus → EngineStatus) (o : Option EngineStatus)
    → ((s : EngineStatus) → fits r j (some s) ≡ true → fits r j (some (f s)) ≡ true)
    → fits r j o ≡ true
    → fits r j (map_some f o) ≡ true
fits-map_some r j f none k h = refl
fits-map_some r j f (some s) k h = k s h

with_status-IsConsistent :
    (m : Manager) (e : ℕ) (f : EngineStatus → EngineStatus) (l : Option ℕ)
    → ((j : ℕ) (s : EngineStatus)
        → (e == j) ≡ true
        → fits m.resident_tts_engine j (some s) ≡ true
        → fits m.resident_tts_engine j (some (f s)) ≡ true)
    → IsConsistent m
    → IsConsistent (record (with_status m e f) { loading_engine = l })
with_status-IsConsistent m e f l k c j =
    rw (get-modify_status m.statuses e j f) (elim (Bool-cases (e == j)) [
      | inl h ↦
          rw h (fits-map_some m.resident_tts_engine j f (get m.statuses j) (λ s. k j s h) (c j))
      | inr h ↦ rw h (c j)
    ])

-- The engine that leaves the slot is idle.
leave-IsConsistent :
    (m : Manager) (e : ℕ)
    → m.resident_tts_engine ≡ some e
    → IsConsistent m
    → IsConsistent (record (with_status m e now_idle) { resident_tts_engine = none })
leave-IsConsistent m e h c j =
    rw (get-modify_status m.statuses e j now_idle) (ground (arith, c j, h))

pub is_available-modify_status :
    (l : List (ℕ × EngineStatus)) (e j : ℕ) (f : EngineStatus → EngineStatus)
    → ((s : EngineStatus) → (f s).available ≡ s.available)
    → is_available (get (modify_status l e f) j) ≡ is_available (get l j)
is_available-modify_status l e j f k =
    rw (get-modify_status l e j f)
      (elim (Bool-cases (e == j)) [ inl h ↦ rw h (go (get l j)) | inr h ↦ rw h refl ])
  where
    go : (o : Option EngineStatus) → is_available (map_some f o) ≡ is_available o
    go none = refl
    go (some s) = k s

replace_engine-IsConsistent :
    (m : Manager) (e previous : ℕ) (unload load : Outcome)
    → m.resident_tts_engine ≡ some previous
    → is_available (get m.statuses e) ≡ true
    → IsConsistent m
    → IsConsistent (replace_engine m e previous unload load).0
unfolding replace_engine
replace_engine-IsConsistent m e previous (some code) load h k c = c
replace_engine-IsConsistent m e previous none load h k c =
    elim (Bool-cases (previous == qwen && not (e == previous))) [
      | inl t ↦ rw t (load_engine-IsConsistent (reset_prompt m₁) e load refl k₁ c₁)
      | inr t ↦ rw t (load_engine-IsConsistent m₁ e load refl k₁ c₁)
    ]
  where
    m₁ : Manager
    m₁ = record (with_status m previous now_idle) { resident_tts_engine = none }

    k₁ : is_available (get m₁.statuses e) ≡ true
    k₁ = is_available-modify_status m.statuses previous e now_idle (λ s. refl) ∙ k

    c₁ : IsConsistent m₁
    c₁ = leave-IsConsistent m previous h c

pub begin_loading-IsConsistent :
    (m : Manager) (e : ℕ) → IsConsistent m → IsConsistent (begin_loading m e)
begin_loading-IsConsistent m e c =
    with_status-IsConsistent m e now_loading (some e) (λ j s h f. f) c

enter_from-IsConsistent :
    (r : Option ℕ) (m : Manager) (e : ℕ) (unload load : Outcome)
    → m.resident_tts_engine ≡ r
    → is_available (get m.statuses e) ≡ true
    → IsConsistent m
    → IsConsistent (enter_from r m e unload load).0
unfolding enter_from
enter_from-IsConsistent none m e unload load h k c = load_engine-IsConsistent m e load h k c
enter_from-IsConsistent (some previous) m e unload load h k c =
    replace_engine-IsConsistent m e previous unload load h k c

admitted_engine-IsConsistent :
    (m : Manager) (e : ℕ) (unload load : Outcome)
    → is_available (get m.statuses e) ≡ true
    → IsConsistent m
    → IsConsistent (admitted_engine m e unload load).0
unfolding admitted_engine enter_engine
admitted_engine-IsConsistent m e unload load k c =
    elim (Bool-cases (m.resident_tts_engine ==? some e)) [
      | inl h ↦ simp h (
          with_status-IsConsistent m e now_resident m.loading_engine
            (λ j s i f. ground (arith, k, f, h)) c)
      | inr h ↦
          elim (Bool-cases
            ((m.resident_tts_engine ==? some qwen) && is_leased m && not (e == qwen))) [
              | inl t ↦ simp (h, t) c
              | inr t ↦
                  simp (h, t)
                    (enter_from-IsConsistent m.resident_tts_engine (begin_loading m e) e unload load
                      refl (is_available-modify_status m.statuses e e now_loading (λ s. refl) ∙ k)
                      (begin_loading-IsConsistent m e c))
            ]
    ]

retried-is_available :
    (m : Manager) (e : ℕ)
    → is_some (get m.statuses e) ≡ true
    → is_available (get (with_status m e retried).statuses e) ≡ true
retried-is_available m e h = rw (get-modify_status m.statuses e e retried) (ground (arith, h))

switch_from-IsConsistent :
    (o : Option EngineStatus) (m : Manager) (e : ℕ) (unload load : Outcome)
    → get m.statuses e ≡ o
    → IsConsistent m
    → IsConsistent (switch_from o m e unload load).0
unfolding switch_from
switch_from-IsConsistent none m e unload load h c = c
switch_from-IsConsistent (some s) m e unload load h c = elim (Bool-cases s.available) [
  | inl a ↦ simp a (admitted_engine-IsConsistent m e unload load (ap is_available h ∙ a) c)
  | inr a ↦ elim (Bool-cases (is_retriable s.unavailable_reason)) [
    | inl t ↦
        simp (a, t)
          (admitted_engine-IsConsistent (with_status m e retried) e unload load
            (retried-is_available m e (ap is_some h))
            (with_status-IsConsistent m e retried m.loading_engine (λ j s h f. ground (arith, f))
              c))
    | inr t ↦ simp (a, t) c
  ]
]

pub switch_tts_engine-IsConsistent :
    (m : Manager) (e : ℕ) (unload load : Outcome)
    → IsConsistent m
    → IsConsistent (switch_tts_engine m e unload load).0
unfolding switch_tts_engine
switch_tts_engine-IsConsistent m e unload load c =
    switch_from-IsConsistent (get m.statuses e) m e unload load refl c
