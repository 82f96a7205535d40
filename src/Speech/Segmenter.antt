-- ===== src/Speech/Segmenter.antt =====
-- `CallTtsSegmenter` of web-ui/server/app/domain/call_tts_segments.py. A text is the list of its code
-- points. Where the three regular expressions match is a parameter, since matching them is the work of
-- Python's `re`; so is `str.isspace`.
use ray_me.Base.{
  ℕ, zero, suc, ◌+◌, ◌-◌, Bool, true, false, ◌&&◌, ◌||◌, Option, none, some, List, [], ◌∷◌, ◌++◌,
  length, ltb, leb, if◌then◌else◌, is_empty,
}

abbrev pub Speech : Type 0
Speech = List ℕ

-- The ends of the matches of each expression in a text, from left to right; those of `_SOFT_BOUNDARY_RE`
-- up to a position.
pub record Boundaries : Type 0 where
  pub is_space : ℕ → Bool
  pub word_ends : Speech → List ℕ
  pub hard_ends : Speech → List ℕ
  pub soft_ends : Speech → ℕ → List ℕ

pub record Segmenter : Type 0 where
  pub max_words : ℕ
  pub min_words : ℕ
  pub buffer : Speech
  pub is_finished : Bool

pub data SegmenterError : Type 0 where
  max_words_not_positive min_words_out_of_range already_finished : SegmenterError

pub data Segmented {ℓ} (A : Type ℓ) : Type ℓ where
  segmented : A → Segmented A
  refused_feed : SegmenterError → Segmented A

unfoldable pub new_segmenter : ℕ → ℕ → Segmented Segmenter
new_segmenter max_words min_words =
    if ltb max_words 1
    then refused_feed max_words_not_positive
    else if ltb min_words 1 || ltb max_words min_words
    then refused_feed min_words_out_of_range
    else segmented
        record { max_words = max_words; min_words = min_words; buffer = []; is_finished = false }

abbrev pub take {ℓ} : {A : Type ℓ} → ℕ → List A → List A
take zero xs = []
take (suc n) [] = []
take (suc n) (x ∷ xs) = x ∷ take n xs

abbrev pub drop {ℓ} : {A : Type ℓ} → ℕ → List A → List A
drop zero xs = xs
drop (suc n) [] = []
drop (suc n) (x ∷ xs) = drop n xs

abbrev pub lstrip : (ℕ → Bool) → Speech → Speech
lstrip is_space [] = []
lstrip is_space (c ∷ cs) = let rest = lstrip is_space cs in if is_space c then rest else c ∷ cs

abbrev pub strip_cons : (ℕ → Bool) → ℕ → Speech → Speech
strip_cons is_space c cs = if is_empty cs && is_space c then [] else c ∷ cs

abbrev pub rstrip : (ℕ → Bool) → Speech → Speech
rstrip is_space [] = []
rstrip is_space (c ∷ cs) = strip_cons is_space c (rstrip is_space cs)

abbrev pub strip : (ℕ → Bool) → Speech → Speech
strip is_space t = rstrip is_space (lstrip is_space t)

abbrev pub word_count : Boundaries → Speech → ℕ
word_count b t = length (b.word_ends t)

-- The loop over the hard boundaries.
unfoldable pub hard_boundary : Boundaries → Segmenter → List ℕ → Option ℕ
hard_boundary b s [] = none
hard_boundary b s (e ∷ es) =
    let rest = hard_boundary b s es in
    if ltb (word_count b (take e s.buffer)) s.min_words
    then rest
    else if leb (word_count b (take e s.buffer)) s.max_words
    then some e
    else none

-- The last of the soft boundaries with enough words before them, or the ceiling.
unfoldable pub soft_boundary : Boundaries → Segmenter → List ℕ → ℕ → ℕ
soft_boundary b s [] ceiling = ceiling
soft_boundary b s (e ∷ es) ceiling =
    soft_boundary b s es (if leb s.min_words (word_count b (take e s.buffer)) then e else ceiling)

abbrev pub nth : List ℕ → ℕ → ℕ
nth [] n = 0
nth (x ∷ xs) zero = x
nth (x ∷ xs) (suc n) = nth xs n

unfoldable pub ceiling_boundary : Boundaries → Segmenter → List ℕ → Option ℕ
unfolding soft_boundary
ceiling_boundary b s words =
    let word_limit = nth words (s.max_words - 1) in
    if ltb (length words) s.max_words
    then none
    else some (soft_boundary b s (b.soft_ends s.buffer (word_limit + 1)) word_limit)

abbrev pub or_boundary : Option ℕ → Option ℕ → Option ℕ
or_boundary (some e) o = some e
or_boundary none o = o

-- `_next_boundary` of a buffer with words.
unfoldable pub next_boundary : Boundaries → Segmenter → List ℕ → Option ℕ
unfolding hard_boundary ceiling_boundary
next_boundary b s [] = none
next_boundary b s (w ∷ ws) =
    or_boundary (hard_boundary b s (b.hard_ends s.buffer)) (ceiling_boundary b s (w ∷ ws))

-- The buffer that `_next_boundary` leaves where it finds none: blank text is forgotten.
abbrev pub without_blank : Boundaries → List ℕ → Speech → Speech
without_blank b [] buffer = if is_empty (strip b.is_space buffer) then [] else buffer
without_blank b (w ∷ ws) buffer = buffer

abbrev pub with_segment : Speech → List Speech → List Speech
with_segment t ts = if is_empty t then ts else t ∷ ts

abbrev pub cut : Boundaries → Segmenter → ℕ → Segmenter
cut b s e = record s { buffer = lstrip b.is_space (drop e s.buffer) }

abbrev pub emit : Speech → Option (Segmenter × List Speech) → Option (Segmenter × List Speech)
emit t none = none
emit t (some (s, ts)) = some (s, with_segment t ts)

abbrev pub cut_next :
    Boundaries
    → Segmenter
    → Option ℕ
    → (Segmenter → Option (Segmenter × List Speech))
    → Option (Segmenter × List Speech)
cut_next b s none more =
    some (record s { buffer = without_blank b (b.word_ends s.buffer) s.buffer }, [])
cut_next b s (some e) more = emit (strip b.is_space (take e s.buffer)) (more (cut b s e))

-- The loop of `feed`, on fuel: `none` is that the fuel is used up.
unfoldable pub segments : Boundaries → ℕ → Segmenter → Option (Segmenter × List Speech)
unfolding next_boundary
segments b zero s = none
segments b (suc n) s = cut_next b s (next_boundary b s (b.word_ends s.buffer)) (λ t. segments b n t)

abbrev pub with_token : Segmenter → Speech → Segmenter
with_token s token = record s { buffer = s.buffer ++ token }

unfoldable pub segmenter_feed :
    Boundaries → ℕ → Segmenter → Speech → Segmented (Option (Segmenter × List Speech))
unfolding segments
segmenter_feed b fuel s token =
    if s.is_finished
    then refused_feed already_finished
    else segmented (segments b fuel (with_token s token))

abbrev pub tail_of : Speech → Option Speech
tail_of [] = none
tail_of (c ∷ cs) = some (c ∷ cs)

abbrev pub closed : Boundaries → Segmenter → Segmenter × Option Speech
closed b s = (record s { buffer = []; is_finished = true }, tail_of (strip b.is_space s.buffer))

unfoldable pub segmenter_finish : Boundaries → Segmenter → Segmenter × Option Speech
segmenter_finish b s = if s.is_finished then (s, none) else closed b s
