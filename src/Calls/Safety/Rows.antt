-- ===== src/Calls/Safety/Rows.antt =====
-- Laws of the tables: what a lookup finds after an update, and how a thread's sequence grows.
use ray_me.Base.{
  ℕ, suc, ◌+◌, max, ◌≤◌, ◌<◌, ◌≡◌, refl, Bool, ◌&&◌, Option, none, some, List, [], ◌∷◌, ◌++◌, ◌==◌,
  if◌then◌else◌, arith, All, Bool-cases, inl, inr,
}
use ray_me.Calls.Types.{CallTurn, Message, Db, ok}
use ray_me.Calls.Rows.{
  find_turn, modify_turn, update_where, next_sequence, stage_message, Draft, new_message,
}
use ray_me.Calls.Record.{speaks_for}

abbrev pub lookup_map : (CallTurn → CallTurn) → Option CallTurn → Option CallTurn
lookup_map f none = none
lookup_map f (some r) = some (f r)

-- An update that keeps the keys.
abbrev pub KeepsKey : (CallTurn → CallTurn) → Type 0
KeepsKey f = (r : CallTurn) → ((f r).call_id ≡ r.call_id) × ((f r).turn_id ≡ r.turn_id)

pub find_turn-update_where :
    (p : CallTurn → Bool) (f : CallTurn → CallTurn) (c t : ℕ) (rows : List CallTurn)
    → KeepsKey f
    → find_turn c t (update_where p f rows)
      ≡ lookup_map (λ r. if p r then f r else r) (find_turn c t rows)
unfolding find_turn update_where
find_turn-update_where p f c t [] k = refl
find_turn-update_where p f c t (r ∷ rows) k =
    ground (arith, k r, find_turn-update_where p f c t rows k)

pub find_turn-modify_turn :
    (c t : ℕ) (f : CallTurn → CallTurn) (c' t' : ℕ) (rows : List CallTurn)
    → KeepsKey f
    → find_turn c t (modify_turn c' t' f rows)
      ≡ (if c == c' && t == t' then lookup_map f (find_turn c t rows) else find_turn c t rows)
unfolding find_turn modify_turn
find_turn-modify_turn c t f c' t' [] k = ground arith
find_turn-modify_turn c t f c' t' (r ∷ rows) k =
    ground (arith, k r, find_turn-modify_turn c t f c' t' rows k)

abbrev pub or_else : Option CallTurn → Option CallTurn → Option CallTurn
or_else none o = o
or_else (some r) o = some r

pub find_turn-append :
    (c t : ℕ) (xs ys : List CallTurn)
    → find_turn c t (xs ++ ys) ≡ or_else (find_turn c t xs) (find_turn c t ys)
unfolding find_turn
find_turn-append c t [] ys = refl
find_turn-append c t (x ∷ xs) ys = ground (arith, find_turn-append c t xs ys)

-- The number of messages that speak for a turn.
unfoldable pub spoken_count : ℕ → ℕ → List Message → ℕ
spoken_count c t [] = 0
spoken_count c t (m ∷ ms) = (if speaks_for c t m then 1 else 0) + spoken_count c t ms

pub spoken_count-append :
    (c t : ℕ) (xs ys : List Message)
    → spoken_count c t (xs ++ ys) ≡ spoken_count c t xs + spoken_count c t ys
unfolding spoken_count
spoken_count-append c t [] ys = omega arith
spoken_count-append c t (x ∷ xs) ys = omega (arith, spoken_count-append c t xs ys)

-- The sequence numbers of one thread, in the order of the table.
unfoldable pub sequences : ℕ → List Message → List ℕ
sequences k [] = []
sequences k (m ∷ ms) = if m.thread_id == k then m.sequence ∷ sequences k ms else sequences k ms

pub sequences-append :
    (k : ℕ) (xs ys : List Message) → sequences k (xs ++ ys) ≡ sequences k xs ++ sequences k ys
unfolding sequences
sequences-append k [] ys = refl
sequences-append k (x ∷ xs) ys = ground (arith, sequences-append k xs ys)

-- Every number is above the one before it.
abbrev pub RisingFrom : ℕ → List ℕ → Type 0
RisingFrom n [] = Unit {0}
RisingFrom n (x ∷ xs) = (n ≤ x) × RisingFrom (suc x) xs

pub RisingFrom-snoc :
    (n k : ℕ) (xs : List ℕ)
    → RisingFrom n xs
    → n ≤ k
    → All (λ x. x < k) xs
    → RisingFrom n (xs ++ k ∷ [])
RisingFrom-snoc n k [] r h a = (h, tt)
RisingFrom-snoc n k (x ∷ xs) r h a = (r.0, RisingFrom-snoc (suc x) k xs r.1 a.0 a.1)

All-lt_mono : (a b : ℕ) (xs : List ℕ) → a ≤ b → All (λ x. x < a) xs → All (λ x. x < b) xs
All-lt_mono a b [] h q = tt
All-lt_mono a b (x ∷ xs) h q = (omega (arith, q.0), All-lt_mono a b xs h q.1)

pub sequences-lt-next_sequence :
    (k : ℕ) (ms : List Message) → All (λ x. x < next_sequence k ms) (sequences k ms)
unfolding sequences next_sequence
sequences-lt-next_sequence k [] = tt
sequences-lt-next_sequence k (m ∷ ms) = elim (Bool-cases (m.thread_id == k)) [
  | inl e ↦ rw e (
    omega arith,
    All-lt_mono (next_sequence k ms) (max (m.sequence + 1) (next_sequence k ms)) (sequences k ms)
        (omega arith) (sequences-lt-next_sequence k ms),
  )
  | inr e ↦ rw e (sequences-lt-next_sequence k ms)
]

-- A staged message is put last, in its thread's next place; turns are left alone.
pub stage_message_lem :
    (db db' : Db) (thread now : ℕ) (d : Draft) (m : Message)
    → stage_message db thread d now ≡ ok (m, db')
    → (m ≡ new_message d thread now (next_sequence thread db.messages))
      × (db'.messages ≡ db.messages ++ m ∷ [])
      × (db'.turns ≡ db.turns)
unfolding stage_message
stage_message_lem db db' thread now d m h = ground arith
