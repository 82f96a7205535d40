-- ===== src/Worker/Examples.antt =====
-- Streams of the speech worker: the theorems at concrete inputs.
use ray_me.Base.{◌+◌, ◌≡◌, refl, ◌↔◌, none, some, List, [], ◌∷◌, ◌++◌, map, length, true}
use ray_me.Worker.Stream.{
  Chunk, Terminal, done, Validator, WorkerEvent, chunk, terminal, ok, accept_all, init, accept,
}
use ray_me.Worker.Order.{Stream, accept_all_iff, accept_all-terminal}

abbrev fresh : Validator
fresh = record {
  request_id = 5;
  max_cumulative_duration = 1000;
  next_chunk_index = 0;
  last_generated_at = none;
  last_total_steps = 0;
  cumulative_duration = 0;
  terminal = none;
}

abbrev first : Chunk
first = record {
  request_id = 5;
  chunk_index = 0;
  duration = 400;
  generated_at = 10;
  total_steps_so_far = 4;
}

abbrev second : Chunk
second = record {
  request_id = 5;
  chunk_index = 1;
  duration = 600;
  generated_at = 10;
  total_steps_so_far = 8;
}

abbrev last : Terminal
last = record {
  request_id = 5;
  kind = done;
  chunk_count = 2;
  natural_eos = true;
  error_code = none;
}

accept_all_iff_example :
    ((w : Validator) × (accept_all ◌+◌ fresh (map chunk (first ∷ second ∷ [])) ≡ ok w))
    ↔ Stream ◌+◌ 5 1000 (first ∷ second ∷ [])
unfolding init
accept_all_iff_example = accept_all_iff ◌+◌ 5 1000 fresh (first ∷ second ∷ []) refl

abbrev finished : Validator
finished = record fresh {
  next_chunk_index = 2;
  last_generated_at = some 10;
  last_total_steps = 8;
  cumulative_duration = 1000;
  terminal = some last;
}

whole_stream :
    accept_all ◌+◌ fresh (map chunk (first ∷ second ∷ []) ++ terminal last ∷ []) ≡ ok finished
unfolding accept_all accept
whole_stream = refl

accept_all-terminal_example :
    (◌≡◌ {A = List WorkerEvent} [] [])
    × (last.chunk_count ≡ length (first ∷ second ∷ []))
    × (finished.terminal ≡ some last)
accept_all-terminal_example =
    accept_all-terminal ◌+◌ fresh finished (first ∷ second ∷ []) last [] refl whole_stream
