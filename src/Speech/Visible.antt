-- ===== src/Speech/Visible.antt =====
-- What is seen of a text, without its white space, and that cutting and stripping keep it.
use ray_me.Base.{
  ℕ, zero, suc, Bool, true, List, [], ◌∷◌, ◌++◌, if◌then◌else◌, is_empty, if_either, ◌+◌, ◌-◌, ◌≤◌,
  ◌≡◌, refl, sym, ap, ◌∙◌, append_assoc, arith, length,
}
use ray_me.Speech.Segmenter.{
  take, drop, Speech, lstrip, Boundaries, Segmenter, strip_cons, rstrip, strip, without_blank,
  with_segment, cut,
}

abbrev pub visible : (ℕ → Bool) → Speech → Speech
visible is_space [] = []
visible is_space (c ∷ cs) = let rest = visible is_space cs in if is_space c then rest else c ∷ rest

pub visible-append : (p : ℕ → Bool) (s t : Speech) → visible p (s ++ t) ≡ visible p s ++ visible p t
visible-append p [] t = refl
visible-append p (c ∷ cs) t = ground (arith, visible-append p cs t)

pub visible-lstrip : (p : ℕ → Bool) (t : Speech) → visible p (lstrip p t) ≡ visible p t
visible-lstrip p [] = refl
visible-lstrip p (c ∷ cs) = ground (arith, visible-lstrip p cs)

visible-strip_cons :
    (p : ℕ → Bool) (c : ℕ) (t : Speech) → visible p (strip_cons p c t) ≡ visible p (c ∷ t)
visible-strip_cons p c [] = ground arith
visible-strip_cons p c (d ∷ ds) = refl

pub visible-rstrip : (p : ℕ → Bool) (t : Speech) → visible p (rstrip p t) ≡ visible p t
visible-rstrip p [] = refl
visible-rstrip p (c ∷ cs) =
    visible-strip_cons p c (rstrip p cs)
    ∙ ap (λ (r : Speech). if p c then r else c ∷ r) (visible-rstrip p cs)

pub visible-strip : (p : ℕ → Bool) (t : Speech) → visible p (strip p t) ≡ visible p t
visible-strip p t = visible-rstrip p (lstrip p t) ∙ visible-lstrip p t

take-drop : (n : ℕ) (t : Speech) → take n t ++ drop n t ≡ t
take-drop zero t = refl
take-drop (suc n) [] = refl
take-drop (suc n) (c ∷ cs) = ap (λ (r : Speech). c ∷ r) (take-drop n cs)

-- A segment and what is left of the buffer show what the buffer showed.
pub visible-cut :
    (p : ℕ → Bool) (n : ℕ) (t : Speech)
    → visible p (strip p (take n t)) ++ visible p (lstrip p (drop n t)) ≡ visible p t
visible-cut p n t =
    ap (λ (r : Speech). r ++ visible p (lstrip p (drop n t))) (visible-strip p (take n t))
    ∙ ap (λ (r : Speech). visible p (take n t) ++ r) (visible-lstrip p (drop n t))
    ∙ sym (visible-append p (take n t) (drop n t))
    ∙ ap (visible p) (take-drop n t)

is_empty-visible :
    (p : ℕ → Bool) (s t : Speech) → visible p s ≡ visible p t → is_empty s ≡ true → visible p t ≡ []
is_empty-visible p [] t h e = sym h
is_empty-visible p (c ∷ cs) t h e = ground (arith, e)

pub visible-without_blank :
    (b : Boundaries) (ws : List ℕ) (t : Speech)
    → visible b.is_space (without_blank b ws t) ≡ visible b.is_space t
visible-without_blank b [] t =
    if_either (λ (r : Speech). visible b.is_space r ≡ visible b.is_space t)
      (is_empty (strip b.is_space t))
      (λ h. sym (is_empty-visible b.is_space (strip b.is_space t) t (visible-strip b.is_space t) h))
      (λ _. refl)
visible-without_blank b (w ∷ ws) t = refl

-- What a list of segments shows.
abbrev pub shown : (ℕ → Bool) → List Speech → Speech
shown p [] = []
shown p (t ∷ ts) = visible p t ++ shown p ts

pub shown-with_segment :
    (p : ℕ → Bool) (t : Speech) (ts : List Speech)
    → shown p (with_segment t ts) ≡ visible p t ++ shown p ts
shown-with_segment p [] ts = refl
shown-with_segment p (c ∷ cs) ts = refl

pub shown-append :
    (p : ℕ → Bool) (ss ts : List Speech) → shown p (ss ++ ts) ≡ shown p ss ++ shown p ts
shown-append p [] ts = refl
shown-append p (s ∷ ss) ts =
    ap (λ (r : Speech). visible p s ++ r) (shown-append p ss ts)
    ∙ sym (append_assoc (visible p s) (shown p ss) (shown p ts))

length-drop : (n : ℕ) (t : Speech) → length (drop n t) ≡ length t - n
length-drop zero t = omega arith
length-drop (suc n) [] = omega arith
length-drop (suc n) (c ∷ cs) = omega (arith, length-drop n cs)

length-lstrip : (p : ℕ → Bool) (t : Speech) → length (lstrip p t) ≤ length t
length-lstrip p [] = omega arith
length-lstrip p (c ∷ cs) = ground (arith, length-lstrip p cs)

-- A boundary that is not at the start shortens the buffer.
pub length-cut :
    (b : Boundaries) (s : Segmenter) (e : ℕ)
    → 1 ≤ e
    → e ≤ length s.buffer
    → length (cut b s e).buffer + 1 ≤ length s.buffer
length-cut b s e h k =
    omega (arith, h, k, length-lstrip b.is_space (drop e s.buffer), length-drop e s.buffer)
