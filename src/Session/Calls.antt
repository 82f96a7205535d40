-- ===== src/Session/Calls.antt =====
-- The calls of one session in ai-backend/app/call/session.py as steps: each is a section under the
-- lifecycle lock, a round of the delivery of events, or a write of the state between two awaits. Any
-- sequence of them is a run, so an order of the sections of several requests is one too. The switch of
-- peers and the playback of speech are not among the steps, but for the end of a cancelled playback.
use ray_me.Base.{
  is_some, ℕ, Bool, false, not, ◌&&◌, Option, none, some, List, [], ◌∷◌, if◌then◌else◌, ◌++◌, ◌==◌,
  ◌||◌,
}
use ray_me.Session.Life.{
  understanding, speaking, rehearsing, ended, failed, interrupted, thinking, listening, Life,
  CallState, stable, TransportState, other_event, is_terminal_phase, same_state, is_over,
  commit_event, deliver_event, transition_terminal, publish_terminal_outcome, is_terminal_state,
}
use ray_me.Session.Turns.{
  claim_stt_finalization, finish_stt_finalization, commit_stt_event, settle_stt_event,
}
use ray_me.Session.Transport.{
  Reasons, begin_transport_reconnect, complete_transport_reconnect, recover_active_transport,
  resolve_deferred_connection_state,
}
use ray_me.Session.Segments.{cancel_tts_turn}

-- A new session: `CallSession.__init__`.
abbrev pub new_life : ℕ → Life
new_life peer = record {
  state = listening;
  is_ended = false;
  end_reason = none;
  phase = stable;
  epoch = 0;
  peer = peer;
  active_generation = 0;
  retiring_peer = none;
  retiring_generation = none;
  switch_tokens = none;
  terminal_state = none;
  state_before_reconnect = none;
  grace_peer = none;
  active_backfills = 0;
  turn_frames = [];
  admission_generation = 0;
  admissions = [];
  finalization = none;
  settlement = none;
  outbox = [];
  event_sequence = 0;
  delivered = [];
  outcome = none;
  turns = record { ledgers = []; playback = [] };
}

pub data LifeCall : Type 0 where
  frame_call : Bool → ℕ → LifeCall
  claim_turn : Bool → LifeCall
  commit_turn : ℕ → ℕ → Bool → LifeCall
  settle_call : ℕ → Bool → LifeCall
  finish_turn : ℕ → LifeCall
  emit_call : ℕ → LifeCall
  deliver_call : LifeCall
  loss_call : ℕ → TransportState → Option ℕ → LifeCall
  recover_call : ℕ → Option ℕ → LifeCall
  expire_call : Option ℕ → Option ℕ → LifeCall
  rejoin_call : ℕ → LifeCall
  end_call fail_call : ℕ → LifeCall
  publish_call : LifeCall
  interrupt_call : ℕ → LifeCall
  after_interrupt : LifeCall
  forget_speech : ℕ → LifeCall
  after_cancel : LifeCall
  cancelled_speech : LifeCall

-- The frames that `handle_inbound_audio_frame` Counts as dropped.
abbrev pub drops_frame : Life → Bool → Bool
drops_frame l muted =
    l.is_ended
    || is_terminal_phase l.phase
    || muted
    || is_terminal_state l.state
    || same_state l.state rehearsing
    || same_state l.state speaking
    || same_state l.state understanding
    || same_state l.state thinking

-- Any other frame is put to the turn, unless it is held back for a reconnect, which is left out.
abbrev pub handle_inbound_audio_frame : Life → Bool → ℕ → Life
handle_inbound_audio_frame l muted frame =
    if drops_frame l muted then l else record l { turn_frames = l.turn_frames ++ frame ∷ [] }

-- `emit_event` up to where the delivery is awaited.
abbrev pub emit_event : Life → ℕ → Life
emit_event l n = commit_event (some (other_event n)) l

abbrev pub next_state : Bool → CallState
next_state is_thinking = if is_thinking then thinking else listening

abbrev pub is_unexplained : Life → Bool
is_unexplained l = not (is_some l.outcome) && not (is_some l.end_reason)

abbrev pub keep_reason : Life → ℕ → Life
keep_reason l reason = if is_unexplained l then record l { end_reason = some reason } else l

-- `end` and `fail` up to where the terminal transaction is awaited.
unfoldable pub end : Life → ℕ → Life
unfolding transition_terminal
end l reason = keep_reason (transition_terminal ended reason l) reason

unfoldable pub fail : Life → ℕ → Life
unfolding transition_terminal
fail l reason = transition_terminal failed reason l

-- The second section of `interrupt`, behind `_ensure_control_mutable_locked`.
abbrev pub commit_interrupt : Life → ℕ → Life
commit_interrupt l n =
    if is_over l then l else record (commit_event (some (other_event n)) l) { state = interrupted }

abbrev pub is_interrupted : Life → Bool
is_interrupted l =
    not l.is_ended && not (is_terminal_phase l.phase) && same_state l.state interrupted

-- The third section of `interrupt`.
abbrev pub settle_interrupt : Life → Life
settle_interrupt l = if is_interrupted l then record l { state = listening } else l

-- `_cancel_speech_turn_once`, its first section for a turn that is not spoken, and its last.
abbrev pub cancel_speech_turn : Life → ℕ → Life
cancel_speech_turn l turn =
    if is_over l then l else record l { turns = cancel_tts_turn l.turns turn }

abbrev pub settle_cancel : Life → Life
settle_cancel l = if is_over l then l else record l { state = listening }

-- The end of a playback whose turn was cancelled, in `_speak_streaming_speech`: the state is written
-- whatever it is.
abbrev pub stop_speech : Life → Life
stop_speech l = record l { state = listening }

-- `create_session` for a session that is there, with another peer.
abbrev pub rejoin : Life → ℕ → Life
rejoin l peer =
    if peer == l.peer then l else complete_transport_reconnect (record l { peer = peer })

unfoldable pub life_step : Reasons → Life → LifeCall → Life
unfolding claim_stt_finalization commit_stt_event settle_stt_event finish_stt_finalization
    deliver_event begin_transport_reconnect recover_active_transport
    resolve_deferred_connection_state end fail publish_terminal_outcome complete_transport_reconnect
life_step reasons l (frame_call muted n) = handle_inbound_audio_frame l muted n
life_step reasons l (claim_turn allow) = (claim_stt_finalization l allow).0
life_step reasons l (commit_turn token n is_thinking) =
    (commit_stt_event l token (other_event n) (next_state is_thinking)).0
life_step reasons l (settle_call sequence delivered) = settle_stt_event l sequence delivered
life_step reasons l (finish_turn token) = finish_stt_finalization l token
life_step reasons l (emit_call n) = emit_event l n
life_step reasons l deliver_call = deliver_event l
life_step reasons l (loss_call peer t generation) = begin_transport_reconnect l peer t generation
life_step reasons l (recover_call peer generation) = (recover_active_transport l peer generation).0
life_step reasons l (expire_call epoch peer) =
    (resolve_deferred_connection_state reasons l epoch peer).0
life_step reasons l (rejoin_call peer) = rejoin l peer
life_step reasons l (end_call reason) = end l reason
life_step reasons l (fail_call reason) = fail l reason
life_step reasons l publish_call = publish_terminal_outcome l
life_step reasons l (interrupt_call n) = commit_interrupt l n
life_step reasons l after_interrupt = settle_interrupt l
life_step reasons l (forget_speech turn) = cancel_speech_turn l turn
life_step reasons l after_cancel = settle_cancel l
life_step reasons l cancelled_speech = stop_speech l

unfoldable pub life_run : Reasons → Life → List LifeCall → Life
unfolding life_step
life_run reasons l [] = l
life_run reasons l (c ∷ cs) = life_run reasons (life_step reasons l c) cs
