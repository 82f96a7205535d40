-- ===== src/Prompt/Mandatory.antt =====
-- What compose_prompt of web-ui/server/app/domain/prompt_builder.py keeps, and when it raises.
use ray_me.Base.{
  ℕ, zero, suc, ◌+◌, Bool, true, false, Option, none, some, List, [], ◌∷◌, ◌++◌, length,
  if◌then◌else◌, if_either, ◌<◌, ◌≡◌, refl, sym, ap, ◌∙◌, ◌&&◌, arith, ◌≤◌,
}
use ray_me.Prompt.Sections.{PromptSection, estimated_total, violates_offer_constraints}
use ray_me.Prompt.Compose.{
  PromptDraft, is_call_offer, PromptNames, PromptBuildInput, concat, assembled, keep_entry,
  remove_optional, drop_examples, drop_history, give_up_one, Fit, fitted, exceeded, next_round, fit,
  is_over_budget, first_draft, only_mandatory, mandatory_sections, Composed, composed,
  budget_exceeded, offer_exceeded, after_offer, rounds, after_budget, compose_prompt,
}

-- `e` is `d` with less history and fewer examples, which are counted.
abbrev pub LeftOf : PromptDraft → PromptDraft → Type 0
LeftOf d e =
    mandatory_sections e ≡ mandatory_sections d
    × length e.retained_history + e.dropped_history_count
      ≡ length d.retained_history + d.dropped_history_count
    × length e.retained_examples + e.dropped_example_group_count
      ≡ length d.retained_examples + d.dropped_example_group_count
    × estimated_total (assembled e) ≤ estimated_total (assembled d)

estimated_total-append :
    (xs ys : List PromptSection)
    → estimated_total (xs ++ ys) ≡ estimated_total xs + estimated_total ys
estimated_total-append [] ys = omega arith
estimated_total-append (x ∷ xs) ys = omega (arith, estimated_total-append xs ys)

estimated_total-assembled :
    (d : PromptDraft)
    → estimated_total (assembled d)
      ≡ estimated_total d.base
        + (estimated_total (concat d.retained_examples)
            + (estimated_total d.retained_history + estimated_total d.late))
estimated_total-assembled d = omega (
  arith,
  estimated_total-append d.base (concat d.retained_examples ++ (d.retained_history ++ d.late)),
  estimated_total-append (concat d.retained_examples) (d.retained_history ++ d.late),
  estimated_total-append d.retained_history d.late,
)

LeftOf-trans : (d e f : PromptDraft) → LeftOf d e → LeftOf e f → LeftOf d f
LeftOf-trans d e f g h =
    (h.0 ∙ g.0, omega (arith, g.1, h.1), omega (arith, g.2, h.2), omega (arith, g.3, h.3))

-- Without an optional section they are all mandatory; otherwise one of them goes and no mandatory one.
abbrev IsRemoval : List PromptSection → Option (List PromptSection) → Type 0
IsRemoval xs none = only_mandatory xs ≡ xs
IsRemoval xs (some ys) =
    only_mandatory ys ≡ only_mandatory xs
    × length xs ≡ length ys + 1
    × estimated_total ys ≤ estimated_total xs

remove_optional-IsRemoval : (xs : List PromptSection) → IsRemoval xs (remove_optional xs)
remove_optional-IsRemoval [] = refl
remove_optional-IsRemoval (x ∷ xs) =
    if_either (IsRemoval (x ∷ xs)) x.mandatory
      (λ h. kept h (remove_optional xs) (remove_optional-IsRemoval xs))
      (λ h. (
        ap (λ (b : Bool). if b then x ∷ only_mandatory xs else only_mandatory xs) (sym h),
        omega arith,
        omega arith,
      ))
  where
    kept :
        x.mandatory ≡ true
        → (o : Option (List PromptSection)) → IsRemoval xs o
        → IsRemoval (x ∷ xs) (keep_entry x o)
    kept h none g =
        ap (λ (b : Bool). if b then x ∷ only_mandatory xs else only_mandatory xs) h
        ∙ ap (λ (ys : List PromptSection). x ∷ ys) g
    kept h (some ys) g = (
      ap (λ (b : Bool). if b then x ∷ only_mandatory ys else only_mandatory ys) h
          ∙ ap (λ (zs : List PromptSection). x ∷ zs) g.0
          ∙ ap (λ (b : Bool). if b then x ∷ only_mandatory xs else only_mandatory xs) (sym h),
      omega (arith, g.1),
      omega (arith, g.2),
    )

abbrev pub size : PromptDraft → ℕ
size d = length d.retained_history + length d.retained_examples

abbrev GivesUp : PromptDraft → Option PromptDraft → Type 0
GivesUp d none = assembled d ≡ mandatory_sections d
GivesUp d (some e) = LeftOf d e × size d ≡ size e + 1

give_up_one-GivesUp : (d : PromptDraft) → GivesUp d (give_up_one d)
give_up_one-GivesUp d =
    history (remove_optional d.retained_history) (remove_optional-IsRemoval d.retained_history)
  where
    examples :
        only_mandatory d.retained_history ≡ d.retained_history
        → (gs : List (List PromptSection)) → d.retained_examples ≡ gs
        → GivesUp d (drop_examples d gs)
    examples h [] p =
        let a : assembled d ≡ d.base ++ (concat [] ++ (d.retained_history ++ d.late)) =
          ap
            (λ (gs : List (List PromptSection)).
              d.base ++ (concat gs ++ (d.retained_history ++ d.late)))
            p in
        let m : d.base ++ (d.retained_history ++ d.late) ≡ mandatory_sections d =
          ap (λ (xs : List PromptSection). d.base ++ (xs ++ d.late)) (sym h) in
        a ∙ m
    examples h (g ∷ gs) p =
        let n : length d.retained_examples ≡ length gs + 1 =
          omega (arith, ap (λ (xs : List (List PromptSection)). length xs) p) in
        let e = record d {
          retained_examples = gs;
          dropped_example_group_count = d.dropped_example_group_count + 1;
        } in
        let c : estimated_total (concat d.retained_examples)
            ≡ estimated_total g + estimated_total (concat gs) =
          ap (λ (xs : List (List PromptSection)). estimated_total (concat xs)) p
          ∙ estimated_total-append g (concat gs) in
        (
          (
            refl,
            refl,
            omega (arith, n),
            omega (arith, c, estimated_total-assembled d, estimated_total-assembled e),
          ),
          omega (arith, n),
        )

    history :
        (o : Option (List PromptSection))
        → IsRemoval d.retained_history o
        → GivesUp d (drop_history d o)
    history none h = examples h d.retained_examples refl
    history (some xs) h = (
      (
        ap (λ (ys : List PromptSection). d.base ++ (ys ++ d.late)) h.0,
        omega (arith, h.1),
        refl,
        omega (
          arith,
          h.2,
          estimated_total-assembled d,
          estimated_total-assembled record d {
            retained_history = xs;
            dropped_history_count = d.dropped_history_count + 1;
          },
        ),
      ),
      omega (arith, h.1),
    )

-- Either what is left fits, or everything optional is gone and the rest does not.
abbrev IsFit : (List PromptSection → Bool) → PromptDraft → Option Fit → Type 0
IsFit violates d none = true ≡ false
IsFit violates d (some (fitted e)) = LeftOf d e × violates (assembled e) ≡ false
IsFit violates d (some (exceeded e)) =
    assembled e ≡ mandatory_sections d × violates (mandatory_sections d) ≡ true

IsFit-left :
    (violates : List PromptSection → Bool) (d e : PromptDraft) (o : Option Fit)
    → LeftOf d e
    → IsFit violates e o
    → IsFit violates d o
IsFit-left violates d e none g h = h
IsFit-left violates d e (some (fitted f)) g h = (LeftOf-trans d e f g h.0, h.1)
IsFit-left violates d e (some (exceeded f)) g h = (h.0 ∙ g.0, ap violates (sym g.0) ∙ h.1)

next_round-IsFit :
    (violates : List PromptSection → Bool) (d : PromptDraft) (o : Option PromptDraft)
    (more : PromptDraft → Option Fit)
    → violates (assembled d) ≡ true
    → GivesUp d o
    → ((e : PromptDraft) → size d ≡ size e + 1 → IsFit violates e (more e))
    → IsFit violates d (next_round d o more)
next_round-IsFit violates d none more h g k = (g, ap violates (sym g) ∙ h)
next_round-IsFit violates d (some e) more h g k = IsFit-left violates d e (more e) g.0 (k e g.1)

fit-IsFit :
    (violates : List PromptSection → Bool) (n : ℕ) (d : PromptDraft)
    → size d < n
    → IsFit violates d (fit violates n d)
unfolding fit
fit-IsFit violates zero d h = ground (arith, h)
fit-IsFit violates (suc n) d h =
    if_either (IsFit violates d) (violates (assembled d))
      (λ v.
        next_round-IsFit violates d (give_up_one d) (λ e. fit violates n e) v
          (give_up_one-GivesUp d) (λ e k. fit-IsFit violates n e (omega (arith, h, k))))
      (λ v. ((refl, refl, refl, omega arith), v))

-- What each outcome of compose_prompt says: a prompt has all mandatory sections in their order, is
-- within the budget, and counts what it left out; an error names mandatory sections that do not fit.
abbrev pub IsComposed : PromptNames → PromptBuildInput → Option Composed → Type 0
IsComposed n b none = true ≡ false
IsComposed n b (some (composed e)) =
    LeftOf (first_draft n b) e
    × is_over_budget n b (estimated_total (assembled e)) ≡ false
    × is_call_offer b.action && violates_offer_constraints (assembled e) ≡ false
IsComposed n b (some (budget_exceeded t)) =
    t ≡ estimated_total (mandatory_sections (first_draft n b)) × is_over_budget n b t ≡ true
IsComposed n b (some (offer_exceeded t)) =
    is_call_offer b.action ≡ true
    × violates_offer_constraints (mandatory_sections (first_draft n b)) ≡ true

over_budget-smaller :
    (n : PromptNames) (b : PromptBuildInput) (s t : ℕ)
    → s ≤ t
    → is_over_budget n b t ≡ false
    → is_over_budget n b s ≡ false
over_budget-smaller n b s t h k = ground (arith, h, k)

after_offer-IsComposed :
    (n : PromptNames) (b : PromptBuildInput) (d : PromptDraft) (o : Option Fit)
    → is_call_offer b.action ≡ true
    → LeftOf (first_draft n b) d
    → is_over_budget n b (estimated_total (assembled d)) ≡ false
    → IsFit violates_offer_constraints d o
    → IsComposed n b (after_offer o)
after_offer-IsComposed n b d none c g k h = h
after_offer-IsComposed n b d (some (fitted e)) c g k h = (
  LeftOf-trans (first_draft n b) d e g h.0,
  over_budget-smaller n b _ (estimated_total (assembled d)) h.0.3 k,
  ground (arith, h.1),
)
after_offer-IsComposed n b d (some (exceeded e)) c g k h =
    (c, ap violates_offer_constraints (sym g.0) ∙ h.1)

after_budget-IsComposed :
    (n : PromptNames) (b : PromptBuildInput) (o : Option Fit)
    → is_over_budget n b (estimated_total (mandatory_sections (first_draft n b))) ≡ false
    → IsFit (λ xs. is_over_budget n b (estimated_total xs)) (first_draft n b) o
    → IsComposed n b (after_budget b o)
after_budget-IsComposed n b none m h = h
after_budget-IsComposed n b (some (exceeded e)) m h = ground (arith, m, h.1)
after_budget-IsComposed n b (some (fitted d)) m h =
    if_either (IsComposed n b) (is_call_offer b.action)
      {x = after_offer (fit violates_offer_constraints (rounds d) d)} {y = some (composed d)}
      (λ c.
        after_offer-IsComposed n b d (fit violates_offer_constraints (rounds d) d) c h.0 h.1
          (fit-IsFit violates_offer_constraints (rounds d) d (omega arith)))
      (λ c. (h.0, h.1, ground (arith, c)))

-- compose_prompt has an outcome with the fuel that it takes. A prompt that it gives has all mandatory
-- sections in their order, is within the budget and, for a call offer, within its limits, and counts
-- what it left out; it raises only when the mandatory sections alone are over the budget or, for a
-- call offer, over its limits.
pub compose_prompt-IsComposed :
    (n : PromptNames) (b : PromptBuildInput) → IsComposed n b (compose_prompt n b)
unfolding compose_prompt
compose_prompt-IsComposed n b =
    let d = first_draft n b in
    let tokens = estimated_total (mandatory_sections d) in
    if_either (IsComposed n b) (is_over_budget n b tokens) {x = some (budget_exceeded tokens)}
      {y = after_budget b (fit (λ xs. is_over_budget n b (estimated_total xs)) (rounds d) d)}
      (λ h. (refl, h))
      (λ h.
        after_budget-IsComposed n b
          (fit (λ xs. is_over_budget n b (estimated_total xs)) (rounds d) d) h
          (fit-IsFit (λ xs. is_over_budget n b (estimated_total xs)) (rounds d) d (omega arith)))
