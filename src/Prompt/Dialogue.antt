-- ===== src/Prompt/Dialogue.antt =====
-- `_parse_example_groups` of web-ui/server/app/domain/prompt_builder.py, from the lines of the groups:
-- `str.split` at "<START>" and `str.splitlines` are library code. Whether `str.strip` leaves nothing of a
-- line is a parameter; it leaves nothing of a group when it leaves nothing of its lines.
use ray_me.Base.{
  ℕ, ◌+◌, Bool, true, false, ◌&&◌, Option, none, some, List, [], ◌∷◌, ◌++◌, ◌==◌, if◌then◌else◌,
}
use ray_me.Prompt.Sections.{Content}

pub record ExampleTurn : Type 0 where
  pub is_user : Bool
  pub content : Content

-- "{{user}}:" and "{{char}}:"
abbrev pub marker : Bool → Content
marker true = 123 ∷ 123 ∷ 117 ∷ 115 ∷ 101 ∷ 114 ∷ 125 ∷ 125 ∷ 58 ∷ []
marker false = 123 ∷ 123 ∷ 99 ∷ 104 ∷ 97 ∷ 114 ∷ 125 ∷ 125 ∷ 58 ∷ []

-- What follows a prefix.
abbrev pub after_prefix : Content → Content → Option Content
after_prefix [] t = some t
after_prefix (c ∷ cs) [] = none
after_prefix (c ∷ cs) (d ∷ ds) = let rest = after_prefix cs ds in if c == d then rest else none

abbrev pub marked_by : Option Content → Option Content → Option (Bool × Content)
marked_by (some t) o = some (true, t)
marked_by none (some t) = some (false, t)
marked_by none none = none

-- The role that a line begins with, and its remainder.
unfoldable pub marker_of : Content → Option (Bool × Content)
marker_of line = marked_by (after_prefix (marker true) line) (after_prefix (marker false) line)

-- The remainder without one space.
abbrev pub without_space : Content → Content
without_space [] = []
without_space (c ∷ cs) = if c == 32 then cs else c ∷ cs

-- `"\n".join`
abbrev pub join_lines : Content → List Content → Content
join_lines line [] = line
join_lines line (l ∷ ls) = line ++ 10 ∷ join_lines l ls

abbrev pub join_all : List Content → Content
join_all [] = []
join_all (l ∷ ls) = join_lines l ls

-- The turns so far, and the role and the lines of the current one.
pub record Parsing : Type 0 where
  pub turns : List ExampleTurn
  pub current : Option (Bool × List Content)

abbrev pub close_turn : List ExampleTurn → Option (Bool × List Content) → List ExampleTurn
close_turn ts none = ts
close_turn ts (some (r, ls)) = ts ++ record { is_user = r; content = join_all ls } ∷ []

abbrev pub open_turn : Parsing → Bool → Content → Parsing
open_turn s r remainder = record {
  turns = close_turn s.turns s.current;
  current = some (r, without_space remainder ∷ []);
}

abbrev pub add_line :
    (Content → Bool) → Parsing → Option (Bool × List Content) → Content → Option Parsing
add_line is_blank s none line = if is_blank line then some s else none
add_line is_blank s (some (r, ls)) line = some record s { current = some (r, ls ++ line ∷ []) }

-- `none` is an invalid group.
abbrev pub read_line :
    (Content → Bool) → Parsing → Option (Bool × Content) → Content → Option Parsing
read_line is_blank s none line = add_line is_blank s s.current line
read_line is_blank s (some (r, remainder)) line = some (open_turn s r remainder)

abbrev pub closing : List ExampleTurn → Option (Bool × List Content) → Option (List ExampleTurn)
closing ts none = none
closing ts (some c) = some (close_turn ts (some c))

abbrev pub and_then :
    Option Parsing → (Parsing → Option (List ExampleTurn)) → Option (List ExampleTurn)
and_then none more = none
and_then (some s) more = more s

unfoldable pub parse_lines : (Content → Bool) → Parsing → List Content → Option (List ExampleTurn)
unfolding marker_of
parse_lines is_blank s [] = closing s.turns s.current
parse_lines is_blank s (l ∷ ls) =
    and_then (read_line is_blank s (marker_of l) l) (λ t. parse_lines is_blank t ls)

abbrev pub no_turns : Parsing
no_turns = record { turns = []; current = none }

abbrev pub are_blank : (Content → Bool) → List Content → Bool
are_blank is_blank [] = true
are_blank is_blank (l ∷ ls) = is_blank l && are_blank is_blank ls

abbrev pub add_group :
    Option (List ExampleTurn) → List (List ExampleTurn) × ℕ → List (List ExampleTurn) × ℕ
add_group none (gs, malformed) = (gs, malformed + 1)
add_group (some g) (gs, malformed) = (g ∷ gs, malformed)

-- The groups, and how many were malformed.
unfoldable pub parse_example_groups :
    (Content → Bool) → List (List Content) → List (List ExampleTurn) × ℕ
unfolding parse_lines
parse_example_groups is_blank [] = ([], 0)
parse_example_groups is_blank (g ∷ gs) =
    let rest = parse_example_groups is_blank gs in
    if are_blank is_blank g then rest else add_group (parse_lines is_blank no_turns g) rest
