-- ===== src/Speech/Conserved.antt =====
-- Segmentation in web-ui/server/app/domain/call_tts_segments.py ends and loses nothing of a text but
-- white space.
use ray_me.Base.{
  ℕ, zero, suc, Bool, true, false, List, [], ◌∷◌, ◌++◌, if◌then◌else◌, if_either, append-nil, ◌+◌,
  ◌-◌, ◌≤◌, ◌<◌, ◌≡◌, refl, ap, ◌∙◌, Option, none, some, append_assoc, arith, ltb, leb, length, sym,
  subst,
}
use ray_me.Speech.Segmenter.{
  take, Speech, Boundaries, Segmenter, Segmented, segmented, refused_feed, strip, word_count,
  hard_boundary, soft_boundary, nth, ceiling_boundary, or_boundary, next_boundary, cut, emit,
  cut_next, segments, segmenter_feed, segmenter_finish, already_finished, with_token, tail_of,
  closed,
}
use ray_me.Speech.Visible.{
  visible, visible-cut, visible-without_blank, shown, shown-with_segment, length-cut,
  visible-append, visible-strip, shown-append,
}

-- Positions in a text of that length, none of them at its start.
abbrev pub AreWithin : ℕ → List ℕ → Type 0
AreWithin n [] = Unit
AreWithin n (e ∷ es) = (1 ≤ e × e ≤ n) × AreWithin n es

-- No match of the expressions is empty, and they match inside of the text.
abbrev pub AreMatches : Boundaries → Type 0
AreMatches b =
    (t : Speech)
    → AreWithin (length t) (b.word_ends t)
      × AreWithin (length t) (b.hard_ends t)
      × ((k : ℕ) → AreWithin (length t) (b.soft_ends t k))

abbrev IsCut : ℕ → Option ℕ → Type 0
IsCut n none = Unit
IsCut n (some e) = 1 ≤ e × e ≤ n

hard_boundary-IsCut :
    (b : Boundaries) (s : Segmenter) (n : ℕ) (es : List ℕ)
    → AreWithin n es
    → IsCut n (hard_boundary b s es)
unfolding hard_boundary
hard_boundary-IsCut b s n [] w = tt
hard_boundary-IsCut b s n (e ∷ es) w =
    if_either (IsCut n) (ltb (word_count b (take e s.buffer)) s.min_words)
      (λ _. hard_boundary-IsCut b s n es w.1)
      (λ _.
        if_either (IsCut n) (leb (word_count b (take e s.buffer)) s.max_words) (λ _. w.0) (λ _. tt))

soft_boundary-IsCut :
    (b : Boundaries) (s : Segmenter) (n : ℕ) (es : List ℕ) (c : ℕ)
    → AreWithin n es
    → 1 ≤ c × c ≤ n
    → IsCut n (some (soft_boundary b s es c))
unfolding soft_boundary
soft_boundary-IsCut b s n [] c w h = h
soft_boundary-IsCut b s n (e ∷ es) c w h =
    soft_boundary-IsCut b s n es (if leb s.min_words (word_count b (take e s.buffer)) then e else c)
      w.1
      (if_either (λ (k : ℕ). 1 ≤ k × k ≤ n) (leb s.min_words (word_count b (take e s.buffer)))
        (λ _. w.0) (λ _. h))

nth-AreWithin :
    (n i : ℕ) (es : List ℕ) → AreWithin n es → i < length es → 1 ≤ nth es i × nth es i ≤ n
nth-AreWithin n i [] w h = ground (arith, h)
nth-AreWithin n zero (e ∷ es) w h = w.0
nth-AreWithin n (suc i) (e ∷ es) w h = nth-AreWithin n i es w.1 (omega (arith, h))

ceiling_boundary-IsCut :
    (b : Boundaries) (s : Segmenter) (w : ℕ) (ws : List ℕ)
    → AreWithin (length s.buffer) (w ∷ ws)
    → AreWithin (length s.buffer) (b.soft_ends s.buffer (nth (w ∷ ws) (s.max_words - 1) + 1))
    → IsCut (length s.buffer) (ceiling_boundary b s (w ∷ ws))
unfolding ceiling_boundary
ceiling_boundary-IsCut b s w ws h k =
    let limit = nth (w ∷ ws) (s.max_words - 1) in
    if_either (IsCut (length s.buffer)) (ltb (length (w ∷ ws)) s.max_words) {x = none}
      {y = some (soft_boundary b s (b.soft_ends s.buffer (limit + 1)) limit)} (λ _. tt)
      (λ q.
        soft_boundary-IsCut b s (length s.buffer) (b.soft_ends s.buffer (limit + 1)) limit k
          (nth-AreWithin (length s.buffer) (s.max_words - 1) (w ∷ ws) h (ground (arith, q))))

or_boundary-IsCut : (n : ℕ) (o p : Option ℕ) → IsCut n o → IsCut n p → IsCut n (or_boundary o p)
or_boundary-IsCut n none p h k = k
or_boundary-IsCut n (some e) p h k = h

next_boundary-IsCut :
    (b : Boundaries) (s : Segmenter) (ws : List ℕ)
    → AreMatches b
    → AreWithin (length s.buffer) ws
    → IsCut (length s.buffer) (next_boundary b s ws)
unfolding next_boundary
next_boundary-IsCut b s [] g h = tt
next_boundary-IsCut b s (w ∷ ws) g h =
    or_boundary-IsCut (length s.buffer) (hard_boundary b s (b.hard_ends s.buffer))
      (ceiling_boundary b s (w ∷ ws))
      (hard_boundary-IsCut b s (length s.buffer) (b.hard_ends s.buffer) ((g s.buffer).1))
      (ceiling_boundary-IsCut b s w ws h ((g s.buffer).2 (nth (w ∷ ws) (s.max_words - 1) + 1)))

-- There is a result, and it shows what the buffer showed.
abbrev Conserves : (ℕ → Bool) → Segmenter → Option (Segmenter × List Speech) → Type 0
Conserves p s none = true ≡ false
Conserves p s (some (t, ts)) =
    shown p ts ++ visible p t.buffer ≡ visible p s.buffer × t.is_finished ≡ s.is_finished

emit-Conserves :
    (b : Boundaries) (s : Segmenter) (e : ℕ) (o : Option (Segmenter × List Speech))
    → Conserves b.is_space (cut b s e) o
    → Conserves b.is_space s (emit (strip b.is_space (take e s.buffer)) o)
emit-Conserves b s e none g = g
emit-Conserves b s e (some (t, ts)) g =
    let p = b.is_space in
    let u = strip p (take e s.buffer) in
    (
      ap (λ (r : Speech). r ++ visible p t.buffer) (shown-with_segment p u ts)
          ∙ append_assoc (visible p u) (shown p ts) (visible p t.buffer)
          ∙ ap (λ (r : Speech). visible p u ++ r) g.0
          ∙ visible-cut p e s.buffer,
      g.1,
    )

cut_next-Conserves :
    (b : Boundaries) (s : Segmenter) (o : Option ℕ)
    (more : Segmenter → Option (Segmenter × List Speech))
    → IsCut (length s.buffer) o
    → ((e : ℕ)
        → length (cut b s e).buffer + 1 ≤ length s.buffer
        → Conserves b.is_space (cut b s e) (more (cut b s e)))
    → Conserves b.is_space s (cut_next b s o more)
cut_next-Conserves b s none more k g =
    (visible-without_blank b (b.word_ends s.buffer) s.buffer, refl)
cut_next-Conserves b s (some e) more k g =
    emit-Conserves b s e (more (cut b s e)) (g e (length-cut b s e k.0 k.1))

-- Fuel above the length of the buffer is enough.
segments-Conserves :
    (b : Boundaries) (n : ℕ) (s : Segmenter)
    → AreMatches b
    → length s.buffer < n
    → Conserves b.is_space s (segments b n s)
unfolding segments
segments-Conserves b zero s g h = ground (arith, h)
segments-Conserves b (suc n) s g h =
    cut_next-Conserves b s (next_boundary b s (b.word_ends s.buffer)) (λ t. segments b n t)
      (next_boundary-IsCut b s (b.word_ends s.buffer) g ((g s.buffer).0))
      (λ e k. segments-Conserves b n (cut b s e) g (omega (arith, h, k)))

-- The tokens of an answer, one after the other; the fuel of a round is the length of the buffer.
abbrev pub put_before :
    List Speech → Option (Segmenter × List Speech) → Option (Segmenter × List Speech)
put_before out none = none
put_before out (some (s, ts)) = some (s, out ++ ts)

abbrev pub then_feed :
    Segmented (Option (Segmenter × List Speech))
    → (Segmenter → Option (Segmenter × List Speech))
    → Option (Segmenter × List Speech)
then_feed (refused_feed e) more = none
then_feed (segmented none) more = none
then_feed (segmented (some (s, ts))) more = put_before ts (more s)

unfoldable pub feed_tokens : Boundaries → Segmenter → List Speech → Option (Segmenter × List Speech)
unfolding segmenter_feed
feed_tokens b s [] = some (s, [])
feed_tokens b s (t ∷ ts) =
    then_feed (segmenter_feed b (length (s.buffer ++ t) + 1) s t) (λ r. feed_tokens b r ts)

abbrev pub with_tail : List Speech → Option Speech → List Speech
with_tail ts none = ts
with_tail ts (some t) = ts ++ t ∷ []

abbrev pub finish_tokens : Boundaries → Option (Segmenter × List Speech) → Option (List Speech)
finish_tokens b none = none
finish_tokens b (some (s, ts)) = some (with_tail ts (segmenter_finish b s).1)

abbrev IsSpoken : (ℕ → Bool) → Segmenter → List Speech → Option (Segmenter × List Speech) → Type 0
IsSpoken p s tokens none = true ≡ false
IsSpoken p s tokens (some (t, ts)) =
    shown p ts ++ visible p t.buffer ≡ visible p s.buffer ++ shown p tokens × t.is_finished ≡ false

then_feed-IsSpoken :
    (p : ℕ → Bool) (s : Segmenter) (t : Speech) (tokens : List Speech)
    (o : Option (Segmenter × List Speech)) (more : Segmenter → Option (Segmenter × List Speech))
    → s.is_finished ≡ false
    → Conserves p (with_token s t) o
    → ((r : Segmenter) → r.is_finished ≡ false → IsSpoken p r tokens (more r))
    → IsSpoken p s (t ∷ tokens) (then_feed (segmented o) more)
then_feed-IsSpoken p s t tokens none more f c g = c
then_feed-IsSpoken p s t tokens (some (r, ts)) more f c g = before (more r) (g r (c.1 ∙ f))
  where
    before :
        (o : Option (Segmenter × List Speech))
        → IsSpoken p r tokens o
        → IsSpoken p s (t ∷ tokens) (put_before ts o)
    before none h = h
    before (some (q, us)) h = (
      ap (λ x. x ++ visible p q.buffer) (shown-append p ts us)
          ∙ append_assoc (shown p ts) (shown p us) (visible p q.buffer)
          ∙ ap (λ x. shown p ts ++ x) h.0
          ∙ sym (append_assoc (shown p ts) (visible p r.buffer) (shown p tokens))
          ∙ ap (λ x. x ++ shown p tokens) (c.0 ∙ visible-append p s.buffer t)
          ∙ append_assoc (visible p s.buffer) (visible p t) (shown p tokens),
      h.1,
    )

feed_tokens-IsSpoken :
    (b : Boundaries) (s : Segmenter) (tokens : List Speech)
    → AreMatches b
    → s.is_finished ≡ false
    → IsSpoken b.is_space s tokens (feed_tokens b s tokens)
unfolding feed_tokens segmenter_feed
feed_tokens-IsSpoken b s [] g f = (sym (append-nil (visible b.is_space s.buffer)), f)
feed_tokens-IsSpoken b s (t ∷ ts) g f =
    let n = length (s.buffer ++ t) + 1 in
    subst
      (λ (x : Bool). IsSpoken b.is_space s (t ∷ ts) (
        then_feed
          (if x then refused_feed already_finished else segmented (segments b n (with_token s t)))
          (λ r. feed_tokens b r ts)))
      (sym f)
      (then_feed-IsSpoken b.is_space s t ts (segments b n (with_token s t))
        (λ r. feed_tokens b r ts) f (segments-Conserves b n (with_token s t) g (omega arith))
        (λ r h. feed_tokens-IsSpoken b r ts g h))

-- There is a result, and it shows what the tokens show.
abbrev pub ShowsTokens : (ℕ → Bool) → List Speech → Option (List Speech) → Type 0
ShowsTokens p tokens none = true ≡ false
ShowsTokens p tokens (some ts) = shown p ts ≡ shown p tokens

shown-with_tail :
    (p : ℕ → Bool) (ts : List Speech) (t : Speech)
    → shown p (with_tail ts (tail_of t)) ≡ shown p ts ++ visible p t
shown-with_tail p ts [] = sym (append-nil (shown p ts))
shown-with_tail p ts (c ∷ cs) =
    shown-append p ts ((c ∷ cs) ∷ []) ∙ ap (λ x. shown p ts ++ x) (append-nil (visible p (c ∷ cs)))

finish_tokens-ShowsTokens :
    (b : Boundaries) (s : Segmenter) (tokens : List Speech) (o : Option (Segmenter × List Speech))
    → visible b.is_space s.buffer ≡ []
    → IsSpoken b.is_space s tokens o
    → ShowsTokens b.is_space tokens (finish_tokens b o)
unfolding segmenter_finish
finish_tokens-ShowsTokens b s tokens none e h = h
finish_tokens-ShowsTokens b s tokens (some (t, ts)) e h =
    let p = b.is_space in
    ap
      (λ (x : Bool).
        let r : Segmenter × Option Speech = if x then (t, none) else closed b t in
        shown p (with_tail ts r.1))
      h.1
    ∙ shown-with_tail p ts (strip p t.buffer)
    ∙ ap (λ x. shown p ts ++ x) (visible-strip p t.buffer)
    ∙ h.0
    ∙ ap (λ x. x ++ shown p tokens) e

-- A segmenter that is fed the tokens of an answer and finished, with fuel above the length of its
-- buffer in every round, gives segments, and they show what the tokens show: nothing but white space
-- is lost, added or moved. The expressions must match inside of the text and nowhere empty.
pub tokens_are_spoken :
    (b : Boundaries) (s : Segmenter) (tokens : List Speech)
    → AreMatches b
    → s.is_finished ≡ false
    → s.buffer ≡ []
    → ShowsTokens b.is_space tokens (finish_tokens b (feed_tokens b s tokens))
tokens_are_spoken b s tokens g f e =
    finish_tokens-ShowsTokens b s tokens (feed_tokens b s tokens) (ap (visible b.is_space) e)
      (feed_tokens-IsSpoken b s tokens g f)
