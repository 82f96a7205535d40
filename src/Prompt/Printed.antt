-- ===== src/Prompt/Printed.antt =====
-- Examples that are written as web-ui/server/app/domain/prompt_builder.py reads them are read back.
use ray_me.Base.{
  Bool, true, false, ◌&&◌, none, some, List, [], ◌∷◌, ◌++◌, if◌then◌else◌, append_assoc, append-nil,
  map, ◌≡◌, refl, sym, ap, ◌∙◌,
}
use ray_me.Prompt.Sections.{Content}
use ray_me.Prompt.Dialogue.{
  ExampleTurn, parse_lines, marker, marker_of, join_lines, Parsing, close_turn, read_line, and_then,
  no_turns, are_blank, add_group, parse_example_groups,
}

-- A turn in lines.
pub record SpokenLines : Type 0 where
  pub is_user : Bool
  pub first : Content
  pub more : List Content

abbrev pub print_turn : SpokenLines → List Content
print_turn t = (marker t.is_user ++ 32 ∷ t.first) ∷ t.more

abbrev pub print_turns : List SpokenLines → List Content
print_turns [] = []
print_turns (t ∷ ts) = print_turn t ++ print_turns ts

abbrev pub turn_of : SpokenLines → ExampleTurn
turn_of t = record { is_user = t.is_user; content = join_lines t.first t.more }

-- No line but the first of a turn begins with a marker.
abbrev pub AreUnmarked : List Content → Type 0
AreUnmarked [] = Unit
AreUnmarked (l ∷ ls) = marker_of l ≡ none × AreUnmarked ls

abbrev pub ArePlain : List SpokenLines → Type 0
ArePlain [] = Unit
ArePlain (t ∷ ts) = AreUnmarked t.more × ArePlain ts

marker_of-first : (r : Bool) (t : Content) → marker_of (marker r ++ 32 ∷ t) ≡ some (r, 32 ∷ t)
unfolding marker_of
marker_of-first true t = refl
marker_of-first false t = refl

parse_lines-unmarked :
    (is_blank : Content → Bool) (ts : List ExampleTurn) (r : Bool) (cs ls rest : List Content)
    → AreUnmarked ls
    → parse_lines is_blank record { turns = ts; current = some (r, cs) } (ls ++ rest)
      ≡ parse_lines is_blank record { turns = ts; current = some (r, cs ++ ls) } rest
unfolding parse_lines
parse_lines-unmarked is_blank ts r cs [] rest u =
    ap (λ xs. parse_lines is_blank record { turns = ts; current = some (r, xs) } rest)
      (sym (append-nil cs))
parse_lines-unmarked is_blank ts r cs (l ∷ ls) rest u =
    ap
      (λ m.
        and_then (read_line is_blank record { turns = ts; current = some (r, cs) } m l)
          (λ t. parse_lines is_blank t (ls ++ rest)))
      u.0
    ∙ parse_lines-unmarked is_blank ts r (cs ++ l ∷ []) ls rest u.1
    ∙ ap (λ xs. parse_lines is_blank record { turns = ts; current = some (r, xs) } rest)
        (append_assoc cs (l ∷ []) ls)

parse_lines-turn :
    (is_blank : Content → Bool) (s : Parsing) (t : SpokenLines) (rest : List Content)
    → AreUnmarked t.more
    → parse_lines is_blank s (print_turn t ++ rest)
      ≡ parse_lines is_blank
          record {
            turns = close_turn s.turns s.current;
            current = some (t.is_user, t.first ∷ t.more);
          }
          rest
unfolding parse_lines
parse_lines-turn is_blank s t rest u =
    ap
      (λ m.
        and_then (read_line is_blank s m (marker t.is_user ++ 32 ∷ t.first))
          (λ p. parse_lines is_blank p (t.more ++ rest)))
      (marker_of-first t.is_user t.first)
    ∙ parse_lines-unmarked is_blank (close_turn s.turns s.current) t.is_user (t.first ∷ []) t.more
        rest u

parse_lines-turns :
    (is_blank : Content → Bool) (before : List ExampleTurn) (t : SpokenLines)
    (ts : List SpokenLines)
    → ArePlain ts
    → parse_lines is_blank
        record { turns = before; current = some (t.is_user, t.first ∷ t.more) }
        (print_turns ts)
      ≡ some (before ++ turn_of t ∷ map turn_of ts)
unfolding parse_lines
parse_lines-turns is_blank before t [] p = refl
parse_lines-turns is_blank before t (u ∷ us) p =
    parse_lines-turn is_blank
      record { turns = before; current = some (t.is_user, t.first ∷ t.more) } u (print_turns us) p.0
    ∙ parse_lines-turns is_blank (before ++ turn_of t ∷ []) u us p.1
    ∙ ap some (append_assoc before (turn_of t ∷ []) (turn_of u ∷ map turn_of us))

-- A group begins with a turn.
abbrev pub print_group : SpokenLines × List SpokenLines → List Content
print_group (t, ts) = print_turns (t ∷ ts)

abbrev pub group_of : SpokenLines × List SpokenLines → List ExampleTurn
group_of (t, ts) = map turn_of (t ∷ ts)

abbrev pub AllPlain : List (SpokenLines × List SpokenLines) → Type 0
AllPlain [] = Unit
AllPlain ((t, ts) ∷ gs) = ArePlain (t ∷ ts) × AllPlain gs

are_blank-group :
    (is_blank : Content → Bool) (t : SpokenLines) (rest : List Content)
    → ((l : Content) → is_blank (123 ∷ l) ≡ false)
    → are_blank is_blank (print_turn t ++ rest) ≡ false
are_blank-group is_blank t rest h =
    ap (λ b. b && are_blank is_blank (t.more ++ rest)) (of t.is_user)
  where
    of : (r : Bool) → is_blank (marker r ++ 32 ∷ t.first) ≡ false
    of true = h _
    of false = h _

-- Groups of turns that are printed with a marker and a space in front of each turn, no other line of
-- which begins with a marker, are read back as they were, and none is malformed. A line that begins
-- with a brace must not be blank.
pub parse_example_groups-print_group :
    (is_blank : Content → Bool) (gs : List (SpokenLines × List SpokenLines))
    → ((l : Content) → is_blank (123 ∷ l) ≡ false)
    → AllPlain gs
    → parse_example_groups is_blank (map print_group gs) ≡ (map group_of gs, 0)
unfolding parse_example_groups
parse_example_groups-print_group is_blank [] h p = refl
parse_example_groups-print_group is_blank ((t, ts) ∷ gs) h p =
    ap
      (λ (b : Bool).
        if b
        then parse_example_groups is_blank (map print_group gs)
        else add_group (parse_lines is_blank no_turns (print_turns (t ∷ ts)))
            (parse_example_groups is_blank (map print_group gs)))
      (are_blank-group is_blank t (print_turns ts) h)
    ∙ ap (λ o. add_group o (parse_example_groups is_blank (map print_group gs)))
        (parse_lines-turn is_blank no_turns t (print_turns ts) p.0.0
          ∙ parse_lines-turns is_blank [] t ts p.0.1)
    ∙ ap (add_group (some (map turn_of (t ∷ ts))))
        (parse_example_groups-print_group is_blank gs h p.1)
