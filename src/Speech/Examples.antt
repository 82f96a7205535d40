-- ===== src/Speech/Examples.antt =====
-- A text of words and full stops that is cut into segments: 32 is the space and 46 the full stop.
use ray_me.Base.{
  if_either, ℕ, Bool, true, false, List, [], ◌∷◌, ◌==◌, if◌then◌else◌, some, ◌+◌, ◌≤◌, ◌≡◌, refl,
  arith, length,
}
use ray_me.Speech.Segmenter.{
  Speech, Boundaries, Segmenter, hard_boundary, soft_boundary, ceiling_boundary, next_boundary,
  segments, segmenter_feed, segmenter_finish,
}
use ray_me.Speech.Conserved.{
  tokens_are_spoken, AreMatches, AreWithin, feed_tokens, finish_tokens, ShowsTokens,
}

-- The ends of the runs of other code points.
abbrev word_ends_from : ℕ → Bool → Speech → List ℕ
word_ends_from n in_word [] = if in_word then n ∷ [] else []
word_ends_from n in_word (c ∷ cs) =
    let rest = word_ends_from (n + 1) true cs in
    let after = word_ends_from (n + 1) false cs in
    if c == 32 then (if in_word then n ∷ after else after) else rest

-- The ends of the full stops.
abbrev stops_from : ℕ → Speech → List ℕ
stops_from n [] = []
stops_from n (c ∷ cs) = let rest = stops_from (n + 1) cs in if c == 46 then (n + 1) ∷ rest else rest

abbrev boundaries : Boundaries
boundaries = record {
  is_space = λ c. c == 32;
  word_ends = word_ends_from 0 false;
  hard_ends = stops_from 0;
  soft_ends = λ t k. [];
}

abbrev segmenter : Segmenter
segmenter = record { max_words = 3; min_words = 1; buffer = []; is_finished = false }

-- "a b", ". c d e f" with a space in front of the last words.
abbrev tokens : List Speech
tokens = (97 ∷ 32 ∷ 98 ∷ []) ∷ (46 ∷ 32 ∷ 99 ∷ 32 ∷ 100 ∷ []) ∷ (32 ∷ 101 ∷ 32 ∷ 102 ∷ []) ∷ []

segments_of_tokens :
    finish_tokens boundaries (feed_tokens boundaries segmenter tokens)
    ≡ some ((97 ∷ 32 ∷ 98 ∷ 46 ∷ []) ∷ (99 ∷ 32 ∷ 100 ∷ 32 ∷ 101 ∷ []) ∷ (102 ∷ []) ∷ [])
unfolding feed_tokens segmenter_feed segments next_boundary hard_boundary ceiling_boundary
    soft_boundary segmenter_finish
segments_of_tokens = refl

word_ends_from-AreWithin :
    (n m : ℕ) (in_word : Bool) (t : Speech)
    → m ≡ n + length t
    → (in_word ≡ true → 1 ≤ n)
    → AreWithin m (word_ends_from n in_word t)
word_ends_from-AreWithin n m true [] p h = ((h refl, omega (arith, p)), tt)
word_ends_from-AreWithin n m false [] p h = tt
word_ends_from-AreWithin n m in_word (c ∷ cs) p h =
    let inside = word_ends_from-AreWithin (n + 1) m true cs (omega (arith, p)) (λ _. omega arith) in
    let after = word_ends_from-AreWithin (n + 1) m false cs (omega (arith, p)) (λ _. omega arith) in
    if_either (AreWithin m) (c == 32)
      (λ _. if_either (AreWithin m) in_word (λ q. ((h q, omega (arith, p)), after)) (λ _. after))
      (λ _. inside)

stops_from-AreWithin : (n m : ℕ) (t : Speech) → m ≡ n + length t → AreWithin m (stops_from n t)
stops_from-AreWithin n m [] p = tt
stops_from-AreWithin n m (c ∷ cs) p =
    let rest = stops_from-AreWithin (n + 1) m cs (omega (arith, p)) in
    if_either (AreWithin m) (c == 46) (λ _. ((omega arith, omega (arith, p)), rest)) (λ _. rest)

boundaries-AreMatches : AreMatches boundaries
boundaries-AreMatches t = (
  word_ends_from-AreWithin 0 (length t) false t (omega arith) (λ h. ground (arith, h)),
  stops_from-AreWithin 0 (length t) t (omega arith),
  λ k. tt,
)

tokens_are_spoken_example :
    ShowsTokens boundaries.is_space tokens
      (finish_tokens boundaries (feed_tokens boundaries segmenter tokens))
tokens_are_spoken_example =
    tokens_are_spoken boundaries segmenter tokens boundaries-AreMatches refl refl
