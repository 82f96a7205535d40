-- ===== src/Refusal/Recent.antt =====
-- The ring of web-ui/server/app/domain/refusal_activity.py holds the last records of each thread.
use ray_me.Base.{
  by_cases, if_either, ℕ, ◌+◌, ◌-◌, Bool, List, [], ◌∷◌, ◌++◌, length, ltb, if◌then◌else◌, get,
  zero, suc, ◌≤◌, ◌≡◌, refl, arith, ◌==◌, ◌<◌, sym, ap, ◌∙◌, length-append, some, append-nil,
  append_assoc, get-put,
}
use ray_me.Refusal.Activity.{
  records_of, append_bounded, tail, ActivityStore, ActivityRecord, Checked, valid, invalid,
  append_record, thread_required, empty_store, list_recent, appended,
}

abbrev pub drop {ℓ} : {A : Type ℓ} → ℕ → List A → List A
drop zero xs = xs
drop (suc n) [] = []
drop (suc n) (x ∷ xs) = drop n xs

-- The last `n` of a list.
abbrev pub last_of {ℓ} : {A : Type ℓ} → ℕ → List A → List A
last_of n xs = drop (length xs - n) xs

-- What a store promises: a log of everything that was ever appended, of which each thread sees the last
-- records of its own.
abbrev pub of_thread : ℕ → List (ℕ × ActivityRecord) → List ActivityRecord
of_thread t [] = []
of_thread t ((u, r) ∷ log) = if u == t then r ∷ of_thread t log else of_thread t log

abbrev pub after_append : ActivityStore → Checked ActivityStore → ActivityStore
after_append s (valid w) = w
after_append s (invalid e) = s

-- A record that is refused leaves the store as it is.
abbrev pub append_all : (ℕ → Bool) → ActivityStore → List (ℕ × ActivityRecord) → ActivityStore
append_all is_blank s [] = s
append_all is_blank s ((t, r) ∷ log) =
    append_all is_blank (after_append s (append_record is_blank s t r)) log

module _ {ℓ} {A : Type ℓ} where
  drop-append :
      (n : ℕ) (xs : List A) (x : A) → n ≤ length xs → drop n (xs ++ x ∷ []) ≡ drop n xs ++ x ∷ []
  drop-append zero xs x h = refl
  drop-append (suc n) [] x h = ground (arith, h)
  drop-append (suc n) (y ∷ ys) x h = drop-append n ys x (omega (arith, h))

  drop-nil : (n : ℕ) → drop {A = A} n [] ≡ []
  drop-nil zero = refl
  drop-nil (suc n) = refl

  tail-drop : (n : ℕ) (xs : List A) → tail (drop n xs) ≡ drop (suc n) xs
  tail-drop zero [] = refl
  tail-drop zero (x ∷ xs) = refl
  tail-drop (suc n) [] = refl
  tail-drop (suc n) (x ∷ xs) = tail-drop n xs

  length-drop : (n : ℕ) (xs : List A) → length (drop n xs) ≡ length xs - n
  length-drop zero xs = omega arith
  length-drop (suc n) [] = omega arith
  length-drop (suc n) (x ∷ xs) = omega (arith, length-drop n xs)

  -- One more record keeps the ring at the last ones.
  append_bounded-last_of :
      (n : ℕ) (xs : List A) (x : A) → append_bounded n (last_of n xs) x ≡ last_of n (xs ++ x ∷ [])
  append_bounded-last_of n xs x =
      let k = length xs - n in
      let size : length (drop k xs ++ x ∷ []) ≡ length xs - k + 1 =
        omega (arith, length-append (drop k xs) (x ∷ []), length-drop k xs) in
      let more : length (xs ++ x ∷ []) ≡ length xs + 1 = omega (arith, length-append xs (x ∷ [])) in
      let added : drop k (xs ++ x ∷ []) ≡ drop k xs ++ x ∷ [] = drop-append k xs x (omega arith) in
      if_either (λ (ys : List A). ys ≡ last_of n (xs ++ x ∷ []))
        (ltb n (length (drop k xs ++ x ∷ [])))
        (λ h.
          let full : n ≤ length xs = ground (arith, h, size) in
          let next : suc k ≡ length (xs ++ x ∷ []) - n = omega (arith, full, more) in
          ap tail (sym added)
          ∙ tail-drop k (xs ++ x ∷ [])
          ∙ ap (λ (j : ℕ). drop j (xs ++ x ∷ [])) next)
        (λ h.
          let room : length xs < n = ground (arith, h, size) in
          let none_dropped : k ≡ length (xs ++ x ∷ []) - n = omega (arith, room, more) in
          sym added ∙ ap (λ (j : ℕ). drop j (xs ++ x ∷ [])) none_dropped)

-- The store is `log` as each thread sees it.
abbrev Shows : ActivityStore → List (ℕ × ActivityRecord) → Type 0
Shows s log =
    (t : ℕ) → records_of (get s.records t) ≡ last_of s.max_records_per_thread (of_thread t log)

abbrev pub accepted_log : (ℕ → Bool) → List (ℕ × ActivityRecord) → List (ℕ × ActivityRecord)
accepted_log is_blank [] = []
accepted_log is_blank ((t, r) ∷ log) =
    if is_blank t then accepted_log is_blank log else (t, r) ∷ accepted_log is_blank log

of_thread-append :
    (t u : ℕ) (r : ActivityRecord) (log : List (ℕ × ActivityRecord))
    → of_thread t (log ++ (u, r) ∷ [])
      ≡ (if u == t then of_thread t log ++ r ∷ [] else of_thread t log)
of_thread-append t u r [] = refl
of_thread-append t u r ((v, q) ∷ log) = ground (arith, of_thread-append t u r log)

after_append-Shows :
    (s : ActivityStore) (past : List (ℕ × ActivityRecord)) (u : ℕ) (r : ActivityRecord)
    → Shows s past
    → Shows (appended s u r) (past ++ (u, r) ∷ [])
after_append-Shows s past u r g t =
    let n = s.max_records_per_thread in
    let q = append_bounded n (records_of (get s.records u)) r in
    ap records_of (get-put s.records u t q)
    ∙ by_cases (u == t)
        (λ h.
          let e : u ≡ t = ground (arith, h) in
          ap (λ b. records_of (if b then some q else get s.records t)) h
          ∙ ap (λ xs. append_bounded n xs r) (g u)
          ∙ append_bounded-last_of n (of_thread u past) r
          ∙ ap (λ v. last_of n (of_thread v past ++ r ∷ [])) e
          ∙ ap (λ b. last_of n (if b then of_thread t past ++ r ∷ [] else of_thread t past))
              (sym h))
        (λ h.
          ap (λ b. records_of (if b then some q else get s.records t)) h
          ∙ g t
          ∙ ap (λ b. last_of n (if b then of_thread t past ++ r ∷ [] else of_thread t past))
              (sym h))
    ∙ ap (last_of n) (sym (of_thread-append t u r past))

append_all-Shows :
    (is_blank : ℕ → Bool) (s : ActivityStore) (past log : List (ℕ × ActivityRecord)) (t : ℕ)
    → Shows s past
    → list_recent (append_all is_blank s log) t
      ≡ last_of s.max_records_per_thread (of_thread t (past ++ accepted_log is_blank log))
unfolding list_recent append_record
append_all-Shows is_blank s past [] t g =
    g t ∙ ap (λ xs. last_of s.max_records_per_thread (of_thread t xs)) (sym (append-nil past))
append_all-Shows is_blank s past ((u, r) ∷ log) t g =
    by_cases (is_blank u)
      (λ h.
        ap
          (λ b.
            list_recent
              (append_all is_blank
                (after_append s (if b then invalid thread_required else valid (appended s u r)))
                log)
              t)
          h
        ∙ append_all-Shows is_blank s past log t g
        ∙ ap
            (λ b. last_of s.max_records_per_thread (
              of_thread t (
                past
                ++ (if b then accepted_log is_blank log else (u, r) ∷ accepted_log is_blank log))))
            (sym h))
      (λ h.
        ap
          (λ b.
            list_recent
              (append_all is_blank
                (after_append s (if b then invalid thread_required else valid (appended s u r)))
                log)
              t)
          h
        ∙ append_all-Shows is_blank (appended s u r) (past ++ (u, r) ∷ []) log t
            (after_append-Shows s past u r g)
        ∙ ap (λ xs. last_of s.max_records_per_thread (of_thread t xs))
            (append_assoc past ((u, r) ∷ []) (accepted_log is_blank log))
        ∙ ap
            (λ b. last_of s.max_records_per_thread (
              of_thread t (
                past
                ++ (if b then accepted_log is_blank log else (u, r) ∷ accepted_log is_blank log))))
            (sym h))

-- After any appends to a new store, a thread sees the last of all the records ever accepted for it, as
-- many as the store keeps, oldest first.
pub list_recent-append_all :
    (is_blank : ℕ → Bool) (bound : ℕ) (log : List (ℕ × ActivityRecord)) (t : ℕ)
    → list_recent (append_all is_blank (empty_store bound) log) t
      ≡ last_of bound (of_thread t (accepted_log is_blank log))
list_recent-append_all is_blank bound log t =
    append_all-Shows is_blank (empty_store bound) [] log t (λ u. sym (drop-nil (0 - bound)))
