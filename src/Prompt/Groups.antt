-- ===== src/Prompt/Groups.antt =====
-- Groups of examples on concrete lines: 72 and 105 are letters, 32 is the space.
use ray_me.Base.{true, false, List, [], ◌∷◌, refl, map, is_empty, ◌≡◌}
use ray_me.Prompt.Dialogue.{parse_example_groups, marker_of, parse_lines}
use ray_me.Prompt.Printed.{parse_example_groups-print_group, SpokenLines, print_group, group_of}

abbrev two_turns : SpokenLines × List SpokenLines
two_turns = (
  record { is_user = true; first = 72 ∷ 105 ∷ []; more = (105 ∷ []) ∷ [] },
  record { is_user = false; first = 72 ∷ []; more = [] } ∷ [],
)

-- Text in front of the first turn makes a group malformed, an empty line does not.
malformed_group :
    parse_example_groups is_empty
      (([] ∷ (72 ∷ []) ∷ print_group two_turns) ∷ print_group two_turns ∷ [])
    ≡ (group_of two_turns ∷ [], 1)
unfolding parse_example_groups parse_lines marker_of
malformed_group = refl

parse_example_groups-print_group_example :
    parse_example_groups is_empty (map print_group (two_turns ∷ []))
    ≡ (map group_of (two_turns ∷ []), 0)
unfolding marker_of
parse_example_groups-print_group_example =
    parse_example_groups-print_group is_empty (two_turns ∷ []) (λ l. refl)
      (((refl, tt), (tt, tt)), tt)
