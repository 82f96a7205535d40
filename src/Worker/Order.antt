-- ===== src/Worker/Order.antt =====
-- What an accepted stream of the speech worker looks like.
use native.Mathlib.Numerals.{add-one}
use ray_me.Base.{
  ◌∙◌, ap, ◌↔◌, ℕ, suc, ◌+◌, ◌≤◌, ◌<◌, ◌≡◌, refl, Option, none, some, List, [], ◌∷◌, ◌++◌, map,
  length, All, arith,
}
use ray_me.Worker.Stream.{
  Chunk, Terminal, WorkerEvent, chunk, terminal, ok, Validator, accept, carry_on-eq-ok, accept_all,
  init, Plus,
}

-- The indices run up from `n`.
abbrev pub IndexedFrom : ℕ → List Chunk → Type 0
IndexedFrom n [] = Unit {0}
IndexedFrom n (c ∷ cs) = (c.chunk_index ≡ n) × IndexedFrom (suc n) cs

abbrev pub NotBefore : Option ℕ → ℕ → Type 0
NotBefore none t = Unit {0}
NotBefore (some last) t = last ≤ t

-- The times never fall.
abbrev pub TimedFrom : Option ℕ → List Chunk → Type 0
TimedFrom last [] = Unit {0}
TimedFrom last (c ∷ cs) = NotBefore last c.generated_at × TimedFrom (some c.generated_at) cs

-- The step counts rise.
abbrev pub SteppedFrom : ℕ → List Chunk → Type 0
SteppedFrom last [] = Unit {0}
SteppedFrom last (c ∷ cs) = (last < c.total_steps_so_far) × SteppedFrom c.total_steps_so_far cs

-- No running sum of the durations is above the limit.
abbrev pub SummedFrom : Plus → ℕ → ℕ → List Chunk → Type 0
SummedFrom plus sum limit [] = Unit {0}
SummedFrom plus sum limit (c ∷ cs) =
    (plus sum c.duration ≤ limit) × SummedFrom plus (plus sum c.duration) limit cs

pub record Conforms (plus : Plus) (v : Validator) (cs : List Chunk) : Type 0 where
  pub owned : All (λ c. c.request_id ≡ v.request_id) cs
  pub indexed : IndexedFrom v.next_chunk_index cs
  pub timed : TimedFrom v.last_generated_at cs
  pub stepped : SteppedFrom v.last_total_steps cs
  pub bounded : SummedFrom plus v.cumulative_duration v.max_cumulative_duration cs

-- What a request's whole stream of chunks has to be.
pub record Stream (plus : Plus) (request limit : ℕ) (cs : List Chunk) : Type 0 where
  pub owned : All (λ c. c.request_id ≡ request) cs
  pub indexed : IndexedFrom 0 cs
  pub timed : TimedFrom none cs
  pub stepped : SteppedFrom 0 cs
  pub bounded : SummedFrom plus 0 limit cs

abbrev fresh : ℕ → ℕ → Validator
fresh request limit = record {
  request_id = request;
  max_cumulative_duration = limit;
  next_chunk_index = 0;
  last_generated_at = none;
  last_total_steps = 0;
  cumulative_duration = 0;
  terminal = none;
}

-- The validator after the chunk, when it is accepted.
abbrev pub after : Plus → Validator → Chunk → Validator
after plus v c = record v {
  next_chunk_index = v.next_chunk_index + 1;
  last_generated_at = some c.generated_at;
  last_total_steps = c.total_steps_so_far;
  cumulative_duration = plus v.cumulative_duration c.duration;
}

accept_sound :
    (plus : Plus) (v w : Validator) (c : Chunk)
    → accept plus v (chunk c) ≡ ok w
    → (w ≡ after plus v c)
      × (c.request_id ≡ v.request_id)
      × (c.chunk_index ≡ v.next_chunk_index)
      × NotBefore v.last_generated_at c.generated_at
      × (v.last_total_steps < c.total_steps_so_far)
      × (plus v.cumulative_duration c.duration ≤ v.max_cumulative_duration)
unfolding accept
accept_sound plus v w c h = ground arith

accept_complete :
    (plus : Plus) (v : Validator) (c : Chunk)
    → v.terminal ≡ none
    → c.request_id ≡ v.request_id
    → c.chunk_index ≡ v.next_chunk_index
    → NotBefore v.last_generated_at c.generated_at
    → v.last_total_steps < c.total_steps_so_far
    → plus v.cumulative_duration c.duration ≤ v.max_cumulative_duration
    → accept plus v (chunk c) ≡ ok (after plus v c)
unfolding accept
accept_complete plus v c e r i t s b = ground arith

run_chunks : Plus → Validator → List Chunk → Validator
run_chunks plus v [] = v
run_chunks plus v (c ∷ cs) = run_chunks plus (after plus v c) cs

Conforms-cons :
    (plus : Plus) (v : Validator) (c : Chunk) (cs : List Chunk)
    → Conforms plus v (c ∷ cs)
    → v.terminal ≡ none
    → (accept plus v (chunk c) ≡ ok (after plus v c)) × Conforms plus (after plus v c) cs
Conforms-cons plus v c cs h e = (
  accept_complete plus v c e h.owned.0 h.indexed.0 h.timed.0 h.stepped.0 h.bounded.0,
  record {
    owned = h.owned.1;
    indexed = rw (add-one v.next_chunk_index) h.indexed.1;
    timed = h.timed.1;
    stepped = h.stepped.1;
    bounded = h.bounded.1;
  },
)

accept_all_complete :
    (plus : Plus) (v : Validator) (cs : List Chunk)
    → v.terminal ≡ none
    → Conforms plus v cs
    → accept_all plus v (map chunk cs) ≡ ok (run_chunks plus v cs)
unfolding accept_all run_chunks
accept_all_complete plus v [] e h = refl
accept_all_complete plus v (c ∷ cs) e h =
    let (step, rest) = Conforms-cons plus v c cs h e in
    rw (step, accept_all) (accept_all_complete plus (after plus v c) cs e rest)

Conforms-back :
    (plus : Plus) (v : Validator) (c : Chunk) (cs : List Chunk)
    → c.request_id ≡ v.request_id
    → c.chunk_index ≡ v.next_chunk_index
    → NotBefore v.last_generated_at c.generated_at
    → v.last_total_steps < c.total_steps_so_far
    → plus v.cumulative_duration c.duration ≤ v.max_cumulative_duration
    → Conforms plus (after plus v c) cs
    → Conforms plus v (c ∷ cs)
Conforms-back plus v c cs r i t s b h = record {
  owned = (r, h.owned);
  indexed = (i, rw (← add-one v.next_chunk_index) h.indexed);
  timed = (t, h.timed);
  stepped = (s, h.stepped);
  bounded = (b, h.bounded);
}

accept_all_sound :
    (plus : Plus) (v w : Validator) (cs : List Chunk)
    → v.cumulative_duration ≤ v.max_cumulative_duration
    → accept_all plus v (map chunk cs) ≡ ok w
    → Conforms plus v cs × (w ≡ run_chunks plus v cs)
unfolding accept_all run_chunks
accept_all_sound plus v w [] b h =
    (record { owned = tt; indexed = tt; timed = tt; stepped = tt; bounded = tt }, ground arith)
accept_all_sound plus v w (c ∷ cs) b h =
    let (u, rest, step) =
      carry_on-eq-ok (accept plus v (chunk c)) (λ u. accept_all plus u (map chunk cs)) h in
    let (e, owned, indexed, timed, stepped, bounded) = accept_sound plus v u c step in
    let (tail, same) = accept_all_sound plus u w cs (rw e bounded) rest in
    (
      Conforms-back plus v c cs owned indexed timed stepped bounded (rw e at tail),
      same ∙ ap (λ t. run_chunks plus t cs) e,
    )

init-fresh :
    (request limit : ℕ) (v : Validator) → init request limit ≡ some v → v ≡ fresh request limit
unfolding init
init-fresh request limit v h = ground arith

-- A stream of chunks from a fresh validator is accepted whole exactly when every chunk is of the
-- request, the indices run 0, 1, 2, ..., the times never fall, the step counts rise from above 0,
-- and no sum of the durations so far is above the ceiling of the request, where `plus` is the sum of
-- floats, which rounds.
pub accept_all_iff :
    (plus : Plus) (request limit : ℕ) (v : Validator) (cs : List Chunk)
    → init request limit ≡ some v
    → ((w : Validator) × (accept_all plus v (map chunk cs) ≡ ok w)) ↔ Stream plus request limit cs
accept_all_iff plus request limit v cs h = rw (init-fresh request limit v h) (to, from)
  where
    to :
        (w : Validator) × (accept_all plus (fresh request limit) (map chunk cs) ≡ ok w)
        → Stream plus request limit cs
    to (w, e) =
        let c = (accept_all_sound plus (fresh request limit) w cs (omega arith) e).0 in
        record {
          owned = c.owned;
          indexed = c.indexed;
          timed = c.timed;
          stepped = c.stepped;
          bounded = c.bounded;
        }

    from :
        Stream plus request limit cs
        → (w : Validator) × (accept_all plus (fresh request limit) (map chunk cs) ≡ ok w)
    from s = (
      run_chunks plus (fresh request limit) cs,
      accept_all_complete plus (fresh request limit) cs refl (record {
        owned = s.owned;
        indexed = s.indexed;
        timed = s.timed;
        stepped = s.stepped;
        bounded = s.bounded;
      }),
    )

accept-terminal :
    (plus : Plus) (v w : Validator) (t : Terminal)
    → accept plus v (terminal t) ≡ ok w
    → (t.chunk_count ≡ v.next_chunk_index) × (w.terminal ≡ some t)
unfolding accept
accept-terminal plus v w t h = ground arith

-- Nothing is accepted after a terminal event.
finished_stays :
    (plus : Plus) (v w : Validator) (t : Terminal) (es : List WorkerEvent)
    → v.terminal ≡ some t
    → accept_all plus v es ≡ ok w
    → (es ≡ []) × (w.terminal ≡ some t)
unfolding accept_all accept
finished_stays plus v w t [] e h = (refl, ground arith)
finished_stays plus v w t (x ∷ es) e h = ground arith

accept_all-terminal-from :
    (plus : Plus) (v w : Validator) (cs : List Chunk) (t : Terminal) (es : List WorkerEvent)
    → accept_all plus v (map chunk cs ++ terminal t ∷ es) ≡ ok w
    → (es ≡ []) × (t.chunk_count ≡ v.next_chunk_index + length cs) × (w.terminal ≡ some t)
unfolding accept_all
accept_all-terminal-from plus v w [] t es h =
    let (u, rest, step) =
      carry_on-eq-ok (accept plus v (terminal t)) (λ u. accept_all plus u es) h in
    let (count, last) = accept-terminal plus v u t step in
    let (none_left, kept) = finished_stays plus u w t es last rest in (none_left, omega arith, kept)
accept_all-terminal-from plus v w (c ∷ cs) t es h =
    let more = map chunk cs ++ terminal t ∷ es in
    let (u, rest, step) =
      carry_on-eq-ok (accept plus v (chunk c)) (λ u. accept_all plus u more) h in
    let facts = accept_sound plus v u c step in
    let (none_left, count, kept) = accept_all-terminal-from plus u w cs t es rest in
    (none_left, omega (arith, ap (λ (x : Validator). x.next_chunk_index) facts.0), kept)

-- When a run that begins with chunks and a terminal event is accepted, nothing follows that event,
-- and it counts exactly the chunks that came before it.
pub accept_all-terminal :
    (plus : Plus) (v w : Validator) (cs : List Chunk) (t : Terminal) (es : List WorkerEvent)
    → v.next_chunk_index ≡ 0
    → accept_all plus v (map chunk cs ++ terminal t ∷ es) ≡ ok w
    → (es ≡ []) × (t.chunk_count ≡ length cs) × (w.terminal ≡ some t)
accept_all-terminal plus v w cs t es z h =
    let (none_left, count, kept) = accept_all-terminal-from plus v w cs t es h in
    (none_left, omega arith, kept)
