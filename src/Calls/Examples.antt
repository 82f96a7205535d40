-- ===== src/Calls/Examples.antt =====
-- Runs of one call: tests of the model, and the theorems at concrete inputs.
use ray_me.Base.{
  ℕ, ◌+◌, ◌≤◌, ◌≡◌, refl, true, false, none, some, List, [], ◌∷◌, ◌++◌, length, is_some, get, arith,
  ◌==◌,
}
use ray_me.Calls.Types.{
  completed, failed, CallTurn, Message, Thread, World, ok, CallTurnReservation, call_end,
}
use ray_me.Calls.Rows.{next_sequence, touch_thread, find_thread, find_turn}
use ray_me.Calls.Reserve.{
  turn_owner_is_live, TaskDone, Request, committed, reserve_call_turn, terminalize_stale, new_turn,
}
use ray_me.Calls.Record.{
  commit_completion, gate_completion, admit_completion, SpeechTurnTerminal, normal, settled,
  record_reserved_user_speech, record_completed_ai_speech,
}
use ray_me.Calls.End.{new_call, end_call, begin_end}
use ray_me.Calls.Steps.{step, Action, reserves, hears, admits, gates, speaks, ends, run}
use ray_me.Calls.Safety.Rows.{spoken_count, sequences}
use ray_me.Calls.Safety.Evolves.{quota, SpokenOnce, IsRising}
use ray_me.Calls.Safety.Runs.{run_settled, run-SpokenOnce}
use ray_me.Calls.Pruned.{
  acts, truncates, deletes, happen, happens, truncate_after, delete_thread, happen-IsRising,
  HistoryEvent,
}
use ray_me.Calls.Ended.{run_ended}
use ray_me.Calls.Flow.Owned.{Unknown, first_row}
use ray_me.Calls.Flow.Answer.{answer_flow, answered_row}
use ray_me.Calls.Duplicates.{terminalize_stale-repaired, reserve_call_turn_again, repaired}
use ray_me.Calls.Closing.{IsClosed, CancelsActive, end_call-IsClosed}

abbrev thread : Thread
thread = record { id = 3; deleted_at = none; last_message_at = 0; updated_at = 0 }

abbrev start : World
start = record {
  call = new_call 1 2 3;
  db = record { threads = thread ∷ []; messages = []; turns = [] };
}

abbrev nobody_done : TaskDone
nobody_done _ = some false

abbrev request : Request
request = record { turn_id = 7; request_sha256 = 55; task = some 4; new_id = 20; owner_token = 90 }

abbrev played : SpeechTurnTerminal
played = record { status = normal; playout_completed = true }

abbrev unplayed : SpeechTurnTerminal
unplayed = record { status = normal; playout_completed = false }

abbrev at : Action → TaskDone × Action
at a = (nobody_done, a)

abbrev turn_of_speech : List (TaskDone × Action)
turn_of_speech =
    at (reserves 10 request committed)
    ∷ at (hears 7 "hello" none 30 11 true)
    ∷ at (admits 7 played none)
    ∷ at (gates 7 (some 90))
    ∷ at (speaks 7 (some 90) "hi" 31 12 settled)
    ∷ []

-- A turn whose call ends between the gate and the commit.
abbrev cut_short : List (TaskDone × Action)
cut_short =
    at (reserves 10 request committed)
    ∷ at (hears 7 "hello" none 30 11 true)
    ∷ at (admits 7 played none)
    ∷ at (gates 7 (some 90))
    ∷ at (ends 12)
    ∷ at (speaks 7 (some 90) "hi" 31 13 settled)
    ∷ []

answered_once :
    (length (run start turn_of_speech).db.messages ≡ 2)
    × (spoken_count 1 7 (run start turn_of_speech).db.messages ≡ 1)
unfolding run step reserve_call_turn record_reserved_user_speech admit_completion gate_completion
    commit_completion spoken_count find_thread touch_thread
answered_once = (refl, refl)

cut_short_silent : spoken_count 1 7 (run start cut_short).db.messages ≡ 0
unfolding run step reserve_call_turn record_reserved_user_speech admit_completion gate_completion
    commit_completion begin_end spoken_count find_thread touch_thread
cut_short_silent = refl

start_once : SpokenOnce start.db
unfolding spoken_count
start_once c t = omega arith

start-IsRising : IsRising start.db
unfolding sequences
start-IsRising k = tt

abbrev row : CallTurn
row = new_turn 20 start.call 7 55 90 10

abbrev done_row : CallTurn
done_row = record row { state = completed; owner_token = none; lease_expires_at = none }

abbrev with_row : CallTurn → World
with_row r = record start { db = record start.db { turns = r ∷ [] } }

run_settled_example :
    find_turn 1 7 (run (with_row done_row) turn_of_speech).db.turns ≡ some done_row
unfolding find_turn
run_settled_example = run_settled (with_row done_row) turn_of_speech 1 7 done_row refl refl

run-SpokenOnce_example :
    spoken_count 1 7 (run start turn_of_speech).db.messages
    ≤ quota (find_turn 1 7 (run start turn_of_speech).db.turns)
run-SpokenOnce_example = run-SpokenOnce start turn_of_speech start_once 1 7

-- The answer is removed as stale, another thread is deleted, and the turn is asked for again.
abbrev pruned_speech : List HistoryEvent
pruned_speech =
    acts nobody_done (reserves 10 request committed)
    ∷ acts nobody_done (hears 7 "hello" none 30 11 true)
    ∷ acts nobody_done (admits 7 played none)
    ∷ acts nobody_done (gates 7 (some 90))
    ∷ acts nobody_done (speaks 7 (some 90) "hi" 31 12 settled)
    ∷ truncates 3 0 (λ m. m == 31)
    ∷ deletes 9
    ∷ acts nobody_done (reserves 20 request committed)
    ∷ []

pruned_once : length (happen start pruned_speech).db.messages ≡ 1
unfolding happen happens truncate_after delete_thread step reserve_call_turn
    record_reserved_user_speech admit_completion gate_completion commit_completion find_thread
    touch_thread terminalize_stale next_sequence
pruned_once = refl

happen-IsRising_example : IsRising (happen start pruned_speech).db
happen-IsRising_example = happen-IsRising start pruned_speech start-IsRising

abbrev ended : World
ended = record start { call = record start.call { ended_at = some 9 } }

run_ended_example :
    (is_some (run ended turn_of_speech).call.ended_at ≡ true)
    × ((c t : ℕ)
        → spoken_count c t (run ended turn_of_speech).db.messages
          ≡ spoken_count c t ended.db.messages)
run_ended_example = run_ended ended turn_of_speech refl

start-Unknown : Unknown start 7
unfolding find_turn find_thread
start-Unknown = record {
  live = refl;
  absent = refl;
  in_thread = refl;
  not_completed = refl;
  not_pending = refl;
}

answer_flow_example :
    let w₁ = (reserve_call_turn nobody_done 10 start request committed).0 in
    let w₂ = (record_reserved_user_speech w₁ 7 "hello" (some 90) 30 11 true).0 in
    let w₃ = (record_completed_ai_speech w₂ 7 "hi" played (some 90) 31 12 settled).0 in
    (find_turn 1 7 w₃.db.turns ≡ some (answered_row (first_row 10 start request) 30 31 11 12))
    × (get w₃.call.turn_states 7 ≡ some completed)
    × ((m : Message) × (n : Message) × (w₃.db.messages ≡ (start.db.messages ++ m ∷ []) ++ n ∷ [])
        × (m.content_text ≡ "hello")
        × (n.content_text ≡ "hi")
        × (n.call_turn_id ≡ some 7)
        × (n.sequence ≡ m.sequence + 1))
answer_flow_example =
    answer_flow nobody_done start request "hello" "hi" played 30 31 10 11 12 start-Unknown refl

-- Another process owns the row, and its lease ran out at 310.
terminalize_stale-repaired_example :
    find_turn 1 7 (terminalize_stale nobody_done 400 (with_row row) row).db.turns
    ≡ some (repaired nobody_done 400 start.call row)
unfolding find_turn
terminalize_stale-repaired_example =
    terminalize_stale-repaired nobody_done 400 (with_row row) row refl

orphan_fails : (repaired nobody_done 400 start.call row).state ≡ failed
unfolding turn_owner_is_live
orphan_fails = refl

leased_stays : repaired nobody_done 309 start.call row ≡ row
unfolding turn_owner_is_live
leased_stays = refl

reserve_call_turn_again_example :
    let (w', res) = reserve_call_turn nobody_done 20 (with_row row) request committed in
    ((v : CallTurnReservation) × (res ≡ ok v)
      × (v.created ≡ false)
      × (v.state ≡ (repaired nobody_done 20 start.call row).state)
      × (v.request_matches ≡ true))
    × (find_turn 1 7 w'.db.turns ≡ some (repaired nobody_done 20 start.call row))
    × (length w'.db.turns ≡ 1)
    × (w'.db.messages ≡ [])
unfolding find_turn
reserve_call_turn_again_example =
    reserve_call_turn_again nobody_done 20 (with_row row) request committed row refl refl

end_call-IsClosed_example :
    let (w', r) = end_call (with_row row) 40 50 in
    (r ≡ ok tt)
    × IsClosed w'
    × CancelsActive 50 (with_row row) w'
    × ((m : Message) × (w'.db.messages ≡ [] ++ m ∷ []) × (m.message_kind ≡ call_end))
unfolding find_thread
end_call-IsClosed_example = end_call-IsClosed (with_row row) 40 50 refl refl
