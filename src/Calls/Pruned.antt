-- ===== src/Calls/Pruned.antt =====
-- The history of a call among deletions: `truncate_stale_after` of
-- web-ui/server/app/domain/message_actions.py, which removes stale messages behind a message, and
-- `delete_thread` of web-ui/server/app/domain/thread_service.py, which removes a thread with its
-- messages, and by the foreign key with its turns.
use ray_me.Base.{
  if_either, ℕ, suc, ◌≤◌, ◌≡◌, Bool, true, false, ◌&&◌, List, [], ◌∷◌, some, ◌==◌, ltb,
  if◌then◌else◌, arith,
}
use ray_me.Calls.Types.{CallTurn, Message, Thread, Db, World, is_active}
use ray_me.Calls.Rows.{find_turn}
use ray_me.Calls.Reserve.{TaskDone}
use ray_me.Calls.Steps.{Action, step}
use ray_me.Calls.Safety.Rows.{sequences, RisingFrom}
use ray_me.Calls.Safety.Evolves.{IsRising}
use ray_me.Calls.Safety.Runs.{step-Evolves}

-- Which messages are stale is known by their identifiers.
pub data HistoryEvent : Type 0 where
  acts : TaskDone → Action → HistoryEvent
  truncates : ℕ → ℕ → (ℕ → Bool) → HistoryEvent
  deletes : ℕ → HistoryEvent

unfoldable pub remove_messages : (Message → Bool) → List Message → List Message
remove_messages p [] = []
remove_messages p (m ∷ ms) = let rest = remove_messages p ms in if p m then rest else m ∷ rest

unfoldable pub remove_turns : ℕ → List CallTurn → List CallTurn
remove_turns k [] = []
remove_turns k (r ∷ rows) =
    let rest = remove_turns k rows in if r.thread_id == k then rest else r ∷ rest

unfoldable pub remove_threads : ℕ → List Thread → List Thread
remove_threads k [] = []
remove_threads k (x ∷ xs) = let rest = remove_threads k xs in if x.id == k then rest else x ∷ rest

-- `truncate_stale_after` for a message with this thread and sequence number.
unfoldable pub truncate_after : Db → ℕ → ℕ → (ℕ → Bool) → Db
unfolding remove_messages
truncate_after db thread sequence stale = record db {
  messages =
      remove_messages (λ m. m.thread_id == thread && ltb sequence m.sequence && stale m.id)
        db.messages;
}

-- `delete_thread`.
unfoldable pub delete_thread : Db → ℕ → Db
unfolding remove_messages remove_turns remove_threads
delete_thread db k = record {
  threads = remove_threads k db.threads;
  messages = remove_messages (λ m. m.thread_id == k) db.messages;
  turns = remove_turns k db.turns;
}

unfoldable pub happens : World → HistoryEvent → World
happens w (acts done a) = step done w a
happens w (truncates thread sequence stale) = record w {
  db = truncate_after w.db thread sequence stale;
}
happens w (deletes k) = record w { db = delete_thread w.db k }

unfoldable pub happen : World → List HistoryEvent → World
unfolding happens
happen w [] = w
happen w (e ∷ es) = happen (happens w e) es

-- The thread is not deleted.
abbrev pub IsSpared : ℕ → List HistoryEvent → Type 0
IsSpared k [] = Unit {0}
IsSpared k (acts done a ∷ es) = IsSpared k es
IsSpared k (truncates thread sequence stale ∷ es) = IsSpared k es
IsSpared k (deletes j ∷ es) = (k == j ≡ false) × IsSpared k es

RisingFrom-lower : (m n : ℕ) (xs : List ℕ) → m ≤ n → RisingFrom n xs → RisingFrom m xs
RisingFrom-lower m n [] h r = tt
RisingFrom-lower m n (x ∷ xs) h r = (omega (arith, r.0), r.1)

without_head :
    (b : Bool) (n x : ℕ) (xs ys : List ℕ)
    → ((j : ℕ) → RisingFrom j xs → RisingFrom j ys)
    → RisingFrom n (if b then x ∷ xs else xs)
    → RisingFrom n ys
without_head true n x xs ys f r = RisingFrom-lower n (suc x) ys (omega (arith, r.0)) (f (suc x) r.1)
without_head false n x xs ys f r = f n r

with_head :
    (b : Bool) (n x : ℕ) (xs ys : List ℕ)
    → ((j : ℕ) → RisingFrom j xs → RisingFrom j ys)
    → RisingFrom n (if b then x ∷ xs else xs)
    → RisingFrom n (if b then x ∷ ys else ys)
with_head true n x xs ys f r = (r.0, f (suc x) r.1)
with_head false n x xs ys f r = f n r

RisingFrom-remove_messages :
    (p : Message → Bool) (k n : ℕ) (ms : List Message)
    → RisingFrom n (sequences k ms)
    → RisingFrom n (sequences k (remove_messages p ms))
unfolding sequences remove_messages
RisingFrom-remove_messages p k n [] r = tt
RisingFrom-remove_messages p k n (m ∷ ms) r =
    let rest = λ (j : ℕ). RisingFrom-remove_messages p k j ms in
    if_either (λ (xs : List Message). RisingFrom n (sequences k xs)) (p m)
      (λ d. without_head (m.thread_id == k) n m.sequence _ _ rest r)
      (λ d. with_head (m.thread_id == k) n m.sequence _ _ rest r)

find_turn-remove_turns :
    (k c t : ℕ) (r : CallTurn) (rows : List CallTurn)
    → find_turn c t rows ≡ some r
    → r.thread_id == k ≡ false
    → find_turn c t (remove_turns k rows) ≡ some r
unfolding find_turn remove_turns
find_turn-remove_turns k c t r [] e n = e
find_turn-remove_turns k c t r (x ∷ rows) e n = ground (arith, find_turn-remove_turns k c t r rows)

-- What the database keeps, for the turns of threads that are not deleted.
pub record IsKept (es : List HistoryEvent) (a b : Db) : Type 0 where
  pub rising : IsRising a → IsRising b
  pub settled :
      (c t : ℕ) (r : CallTurn)
      → IsSpared r.thread_id es
      → find_turn c t a.turns ≡ some r
      → is_active r.state ≡ false
      → find_turn c t b.turns ≡ some r

happens-IsKept : (w : World) (e : HistoryEvent) → IsKept (e ∷ []) w.db (happens w e).db
unfolding happens truncate_after delete_thread
happens-IsKept w (acts done a) =
    let h = step-Evolves done w a in
    record { rising = h.rising; settled = λ c t r s f i. h.settled c t r f i }
happens-IsKept w (truncates thread sequence stale) = record {
  rising = λ h k. RisingFrom-remove_messages _ k 0 w.db.messages (h k);
  settled = λ c t r s f i. f;
}
happens-IsKept w (deletes j) = record {
  rising = λ h k. RisingFrom-remove_messages _ k 0 w.db.messages (h k);
  settled = λ c t r s f i. find_turn-remove_turns j c t r w.db.turns f s.0;
}

IsSpared-head :
    (k : ℕ) (e : HistoryEvent) (es : List HistoryEvent) → IsSpared k (e ∷ es) → IsSpared k (e ∷ [])
IsSpared-head k (acts done a) es s = tt
IsSpared-head k (truncates thread sequence stale) es s = tt
IsSpared-head k (deletes j) es s = (s.0, tt)

IsSpared-tail :
    (k : ℕ) (e : HistoryEvent) (es : List HistoryEvent) → IsSpared k (e ∷ es) → IsSpared k es
IsSpared-tail k (acts done a) es s = s
IsSpared-tail k (truncates thread sequence stale) es s = s
IsSpared-tail k (deletes j) es s = s.1

happen-IsKept : (w : World) (es : List HistoryEvent) → IsKept es w.db (happen w es).db
unfolding happen
happen-IsKept w [] = record { rising = λ h. h; settled = λ c t r s f i. f }
happen-IsKept w (e ∷ es) =
    let first = happens-IsKept w e in
    let rest = happen-IsKept (happens w e) es in
    record {
      rising = λ h. rest.rising (first.rising h);
      settled = λ c t r s f i.
          rest.settled c t r (IsSpared-tail r.thread_id e es s)
            (first.settled c t r (IsSpared-head r.thread_id e es s) f i) i;
    }

-- Among actions of the call, writes of other processes, removals of stale messages and deletions of
-- threads in any order: where the sequence numbers of every thread rise along the table, they still do
-- at the end.
pub happen-IsRising :
    (w : World) (es : List HistoryEvent) → IsRising w.db → IsRising (happen w es).db
happen-IsRising w es h = (happen-IsKept w es).rising h
