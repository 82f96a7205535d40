-- ===== src/Session/Scenarios.antt =====
-- Calls of a session of ai-backend/app/call/session.py on concrete inputs: tests of the definitions, and
-- one case of each result on the life of a call.
use ray_me.Base.{ℕ, Bool, true, false, none, some, List, [], ◌∷◌, ◌++◌, ◌≡◌, refl, map, length, get}
use ray_me.Session.Life.{
  ended, thinking, understanding, listening, Life, CallState, stable, broken, closed, other_event,
  OutboxEntry, deliver_event, transition_terminal, publish_terminal_outcome,
}
use ray_me.Session.Turns.{
  claim_inactive, claim_stt_finalization, stale_of, stale_stt_turn_response, release_held,
  release_stt_admission, finish_stt_finalization, commit_unless, commit_stt_event, settle_of,
  settle_stt_event,
}
use ray_me.Session.Transport.{Reasons, recover_active_transport}
use ray_me.Session.Calls.{
  new_life, life_run, life_step, LifeCall, frame_call, claim_turn, commit_turn, settle_call,
  finish_turn, emit_call, deliver_call, rejoin_call, end_call, fail_call, cancelled_speech,
  drops_frame, end,
}
use ray_me.Session.Outbox.{Counts}
use ray_me.Session.Drain.{life_run_in_order, publish_then_deliver, deliveries}
use ray_me.Session.Final.{ended_is_final}
use ray_me.Session.Recovery.{lost_and_recovered, report_losses}
use ray_me.Session.Manager.{Sessions, get_session, retain_session}
use ray_me.Session.Retention.{retained_until, retained_for_ever}
use ray_me.Session.Deaf.{turn_across_loss-deaf, turn_across_loss}

abbrev reasons : Reasons
reasons = record { connection_failed = 100; connection_closed = 101 }

-- A turn that is heard and understood, and the end.
abbrev a_turn : List LifeCall
a_turn =
    frame_call false 40
    ∷ claim_turn false
    ∷ emit_call 7
    ∷ commit_turn 1 8 true
    ∷ deliver_call
    ∷ deliver_call
    ∷ settle_call 2 true
    ∷ finish_turn 1
    ∷ end_call 5
    ∷ emit_call 9
    ∷ []

abbrev after_turn : Life
after_turn = life_run reasons (new_life 1) a_turn

after_turn_state : after_turn.state ≡ ended
unfolding life_run life_step claim_stt_finalization claim_inactive commit_stt_event commit_unless
    stale_stt_turn_response stale_of deliver_event settle_stt_event settle_of
    finish_stt_finalization release_stt_admission release_held end transition_terminal
after_turn_state = refl

after_turn_delivered :
    map (λ (x : OutboxEntry). x.event) after_turn.delivered
    ≡ some (other_event 7) ∷ some (other_event 8) ∷ []
unfolding life_run life_step claim_stt_finalization claim_inactive commit_stt_event commit_unless
    stale_stt_turn_response stale_of deliver_event settle_stt_event settle_of
    finish_stt_finalization release_stt_admission release_held end transition_terminal
after_turn_delivered = refl

after_turn_waits :
    map (λ (x : OutboxEntry). x.event) after_turn.outbox ≡ none ∷ some (other_event 9) ∷ []
unfolding life_run life_step claim_stt_finalization claim_inactive commit_stt_event commit_unless
    stale_stt_turn_response stale_of deliver_event settle_stt_event settle_of
    finish_stt_finalization release_stt_admission release_held end transition_terminal
after_turn_waits = refl

-- The end of a cancelled playback writes over the state of a call that has ended.
ended_reads_listening :
    (life_run reasons (new_life 1) (end_call 5 ∷ cancelled_speech ∷ [])).state ≡ listening
unfolding life_run life_step end transition_terminal
ended_reads_listening = refl

life_run_in_order_example :
    Counts 0 (after_turn.delivered ++ after_turn.outbox) after_turn.event_sequence
life_run_in_order_example = life_run_in_order reasons 1 a_turn

publish_then_deliver_example :
    (life_run reasons
        (publish_terminal_outcome after_turn)
        (deliveries (length (publish_terminal_outcome after_turn).outbox))).outbox
      ≡ []
    × Counts 0
        (life_run reasons
          (publish_terminal_outcome after_turn)
          (deliveries (length (publish_terminal_outcome after_turn).outbox))).delivered
        (publish_terminal_outcome after_turn).event_sequence
publish_then_deliver_example = publish_then_deliver reasons 1 a_turn

abbrev ended_call : Life
ended_call = life_run reasons (new_life 1) (frame_call false 3 ∷ end_call 5 ∷ [])

abbrev afterwards : List LifeCall
afterwards = cancelled_speech ∷ rejoin_call 2 ∷ fail_call 6 ∷ claim_turn false ∷ []

ended_is_final_example :
    (life_run reasons ended_call afterwards).is_ended ≡ true
    × (life_run reasons ended_call afterwards).end_reason ≡ ended_call.end_reason
    × (life_run reasons ended_call afterwards).outcome ≡ ended_call.outcome
    × ((allow : Bool)
        → (claim_stt_finalization (life_run reasons ended_call afterwards) allow).0
          ≡ life_run reasons ended_call afterwards)
    × ((token n : ℕ) (next : CallState)
        → (commit_stt_event (life_run reasons ended_call afterwards) token (other_event n) next).0
          ≡ life_run reasons ended_call afterwards)
unfolding life_run life_step end transition_terminal
ended_is_final_example = ended_is_final reasons ended_call 5 afterwards refl refl

abbrev thinking_call : Life
thinking_call = record (new_life 1) { state = thinking; epoch = 3 }

lost_and_recovered_example :
    (recover_active_transport (report_losses thinking_call 1 (closed ∷ broken ∷ [])) 1 none).0.state
      ≡ thinking
    × (recover_active_transport
        (report_losses thinking_call 1 (closed ∷ broken ∷ []))
        1
        none).0.phase
      ≡ stable
    × (recover_active_transport
        (report_losses thinking_call 1 (closed ∷ broken ∷ []))
        1
        none).0.terminal_state
      ≡ none
    × (recover_active_transport
        (report_losses thinking_call 1 (closed ∷ broken ∷ []))
        1
        none).0.grace_peer
      ≡ none
    × (recover_active_transport
        (report_losses thinking_call 1 (closed ∷ broken ∷ []))
        1
        none).0.epoch
      ≡ 4
    × (recover_active_transport (report_losses thinking_call 1 (closed ∷ broken ∷ [])) 1 none).1
      ≡ true
lost_and_recovered_example = lost_and_recovered thinking_call closed (broken ∷ []) refl refl

abbrev speaking_user : Life
speaking_user = record (new_life 1) { turn_frames = 40 ∷ 41 ∷ [] }

turn_across_loss-deaf_example :
    (turn_across_loss speaking_user closed).state ≡ understanding
    × (turn_across_loss speaking_user closed).phase ≡ stable
    × (turn_across_loss speaking_user closed).finalization ≡ none
    × (turn_across_loss speaking_user closed).admissions ≡ []
    × ((muted : Bool) → drops_frame (turn_across_loss speaking_user closed) muted ≡ true)
turn_across_loss-deaf_example =
    turn_across_loss-deaf speaking_user closed refl refl refl refl refl refl

-- A session that ended, and one whose playback wrote `listening` over its end.
abbrev retained_call : Life
retained_call = life_run reasons (new_life 1) (end_call 5 ∷ [])

abbrev overwritten_call : Life
overwritten_call = life_run reasons (new_life 1) (end_call 5 ∷ cancelled_speech ∷ [])

abbrev holding : Life → Sessions
holding l = record { sessions = (4, l) ∷ []; deadlines = [] }

retained_until_example :
    (get_session 30 (retain_session 10 (holding retained_call) 4 20) 4).1 ≡ none
unfolding life_run life_step end transition_terminal
retained_until_example =
    retained_until (holding retained_call) 4 10 20 30 retained_call refl refl refl

retained_for_ever_example :
    get (get_session 30 (retain_session 10 (holding overwritten_call) 4 20) 4).0.deadlines 4 ≡ none
    × ((later : ℕ)
        → (get_session later
            (get_session 30 (retain_session 10 (holding overwritten_call) 4 20) 4).0
            4).1
          ≡ some overwritten_call)
unfolding life_run life_step end transition_terminal
retained_for_ever_example =
    retained_for_ever (holding overwritten_call) 4 10 20 30 overwritten_call refl refl refl refl
      refl
