-- ===== src/Calls/Safety/Evolves.antt =====
-- How the database may move: ended turns stay as they are, an answer is spoken once, and the messages of a thread are numbered upwards.
use ray_me.Base.{
  ℕ, ◌≤◌, ◌≡◌, ◌<◌, All, subst, refl, ap, ◌∙◌, sym, Bool, true, false, Option, none, some, List, [],
  ◌∷◌, ◌++◌, ◌==◌, ==_iff, if◌then◌else◌, arith, append-nil, Bool-cases, inl, inr,
}
use ray_me.Calls.Types.{CallTurn, completed, Message, Db, is_active, is_completed}
use ray_me.Calls.Rows.{find_turn, modify_turn, update_where, next_sequence}
use ray_me.Calls.Safety.Rows.{
  lookup_map, KeepsKey, find_turn-update_where, find_turn-modify_turn, find_turn-append,
  spoken_count, spoken_count-append, sequences, sequences-append, RisingFrom, RisingFrom-snoc,
  sequences-lt-next_sequence,
}

-- How many answers a turn may have in the history: one once it is completed.
abbrev pub quota : Option CallTurn → ℕ
quota none = 0
quota (some r) = if is_completed r.state then 1 else 0

abbrev pub SpokenOnce : Db → Type 0
SpokenOnce db = (c t : ℕ) → spoken_count c t db.messages ≤ quota (find_turn c t db.turns)

abbrev pub IsRising : Db → Type 0
IsRising db = (k : ℕ) → RisingFrom 0 (sequences k db.messages)

abbrev pub KeepsSettled : Db → Db → Type 0
KeepsSettled a b =
    (c t : ℕ) (r : CallTurn)
    → find_turn c t a.turns ≡ some r
    → is_active r.state ≡ false
    → find_turn c t b.turns ≡ some r

pub record Evolves (a b : Db) : Type 0 where
  pub settled : KeepsSettled a b
  pub once : SpokenOnce a → SpokenOnce b
  pub rising : IsRising a → IsRising b

pub Evolves-refl : (a : Db) → Evolves a a
Evolves-refl a = record { settled = λ c t r e h. e; once = λ h. h; rising = λ h. h }

pub Evolves-trans : (a b c : Db) → Evolves a b → Evolves b c → Evolves a c
Evolves-trans a b c p q = record {
  settled = λ i t r e h. q.settled i t r (p.settled i t r e h) h;
  once = λ h. q.once (p.once h);
  rising = λ h. q.rising (p.rising h);
}

-- Turns move, messages stay.
turns_only :
    (a : Db) (rows : List CallTurn)
    → KeepsSettled a (record a { turns = rows })
    → ((c t : ℕ) → quota (find_turn c t a.turns) ≤ quota (find_turn c t rows))
    → Evolves a (record a { turns = rows })
turns_only a rows s q = record {
  settled = s;
  once = λ h c t. omega (arith, h c t, q c t);
  rising = λ h. h;
}

-- An UPDATE that matches active turns alone.
pub Evolves-update_where :
    (a : Db) (p : CallTurn → Bool) (f : CallTurn → CallTurn)
    → KeepsKey f
    → ((r : CallTurn) → p r ≡ true → is_active r.state ≡ true)
    → Evolves a (record a { turns = update_where p f a.turns })
Evolves-update_where a p f k only = turns_only a (update_where p f a.turns) kept grown
  where
    kept : KeepsSettled a (record a { turns = update_where p f a.turns })
    kept c t r e h = rw (find_turn-update_where p f c t a.turns k, e) (ground (arith, only r))

    growth : (o : Option CallTurn) → quota o ≤ quota (lookup_map (λ r. if p r then f r else r) o)
    growth none = omega arith
    growth (some r) = ground (arith, only r)

    grown :
        (c t : ℕ) → quota (find_turn c t a.turns) ≤ quota (find_turn c t (update_where p f a.turns))
    grown c t = rw (find_turn-update_where p f c t a.turns k) (growth (find_turn c t a.turns))

-- New values for a turn that is active.
pub Evolves-modify_turn :
    (a : Db) (c t : ℕ) (f : CallTurn → CallTurn) (r : CallTurn)
    → KeepsKey f
    → find_turn c t a.turns ≡ some r
    → is_active r.state ≡ true
    → Evolves a (record a { turns = modify_turn c t f a.turns })
Evolves-modify_turn a c t f r k e h = turns_only a (modify_turn c t f a.turns) kept grown
  where
    kept : KeepsSettled a (record a { turns = modify_turn c t f a.turns })
    kept c' t' s e' h' = rw (find_turn-modify_turn c' t' f c t a.turns k) (ground arith)

    grown :
        (c' t' : ℕ)
        → quota (find_turn c' t' a.turns) ≤ quota (find_turn c' t' (modify_turn c t f a.turns))
    grown c' t' = rw (find_turn-modify_turn c' t' f c t a.turns k) (ground arith)

-- A new row never hides one that is there.
pub Evolves-insert : (a : Db) (r : CallTurn) → Evolves a (record a { turns = a.turns ++ r ∷ [] })
Evolves-insert a r = turns_only a (a.turns ++ r ∷ []) kept grown
  where
    kept : KeepsSettled a (record a { turns = a.turns ++ r ∷ [] })
    kept c t s e h = rw (find_turn-append c t a.turns (r ∷ []), e) refl

    grown : (c t : ℕ) → quota (find_turn c t a.turns) ≤ quota (find_turn c t (a.turns ++ r ∷ []))
    grown c t = rw (find_turn-append c t a.turns (r ∷ [])) (ground arith)

rising_snoc :
    (a : Db) (m : Message)
    → m.sequence ≡ next_sequence m.thread_id a.messages
    → IsRising a
    → (k : ℕ) → RisingFrom 0 (sequences k (a.messages ++ m ∷ []))
unfolding sequences
rising_snoc a m e h k = elim (Bool-cases (m.thread_id == k)) [
  | inl q ↦
      let here = ap (λ j. next_sequence j a.messages) ((==_iff _ _).0 q) in
      let bound =
        subst (λ n. All (λ x. x < n) (sequences k a.messages)) (sym (e ∙ here))
          (sequences-lt-next_sequence k a.messages) in
      rw (sequences-append k a.messages (m ∷ []), q)
        (RisingFrom-snoc 0 m.sequence (sequences k a.messages) (h k) (omega arith) bound)
  | inr q ↦ rw (sequences-append k a.messages (m ∷ []), q, append-nil) (h k)
]

spoken_count-one : (c t : ℕ) (m : Message) → m.call_id ≡ none → spoken_count c t (m ∷ []) ≡ 0
unfolding spoken_count
spoken_count-one c t m e = ground arith

-- A message that speaks for no turn, at the end of its thread.
pub Evolves-message :
    (a b : Db) (m : Message)
    → m.sequence ≡ next_sequence m.thread_id a.messages
    → m.call_id ≡ none
    → b.messages ≡ a.messages ++ m ∷ []
    → b.turns ≡ a.turns
    → Evolves a b
Evolves-message a b m e n msgs rows = record {
  settled = λ c t r f h. rw rows f;
  once = λ h c t.
      rw (msgs, rows, spoken_count-append c t a.messages (m ∷ []), spoken_count-one c t m n)
        (omega (arith, h c t));
  rising = λ h k. rw msgs (rising_snoc a m e h k);
}

-- The answer of a turn, together with the turn's completion.
pub Evolves-completion :
    (a b : Db) (m : Message) (c t : ℕ) (f : CallTurn → CallTurn) (r : CallTurn)
    → m.sequence ≡ next_sequence m.thread_id a.messages
    → m.call_id ≡ some c
    → m.call_turn_id ≡ some t
    → KeepsKey f
    → (f r).state ≡ completed
    → find_turn c t a.turns ≡ some r
    → is_active r.state ≡ true
    → b.messages ≡ a.messages ++ m ∷ []
    → b.turns ≡ modify_turn c t f a.turns
    → Evolves a b
unfolding spoken_count
Evolves-completion a b m c t f r e mc mt k done found act msgs rows = record {
  settled =
      λ c' t' s g h. rw rows ((Evolves-modify_turn a c t f r k found act).settled c' t' s g h);
  once = λ h c' t'.
      rw
        (
          msgs,
          rows,
          spoken_count-append c' t' a.messages (m ∷ []),
          find_turn-modify_turn c' t' f c t a.turns k,
        )
        (ground (arith, h c' t'));
  rising = λ h i. rw msgs (rising_snoc a m e h i);
}
