-- ===== src/Session/Invariants.antt =====
-- What every run of the calls of a session in ai-backend/app/call/session.py keeps, when it is a matter
-- of its events and of its end.
use ray_me.Base.{
  ℕ, Bool, true, Option, none, some, List, if_either, ◌+◌, refl, ltb, ◌==◌, is_empty, get, [], ◌∷◌,
  pop, false, not, if◌then◌else◌, ◌≡◌,
}
use ray_me.Session.Life.{
  ended, failed, Life, Event, CallState, TransportState, Admission, Settlement, is_over,
  commit_event, other_event, broken, closed, OutboxEntry, Outcome, deliver_event,
  transition_terminal, publish_terminal_outcome,
}
use ray_me.Session.Turns.{
  claim_inactive, SttClaim, admitted, StaleAnswer, admit_turn, release_held, release_stt_admission,
  is_finalized_by, finish_stt_finalization, settle_turn, commit_unless, settle_of,
  claim_stt_finalization, stale_stt_turn_response, gives_back, commit_stt_event, settle_stt_event,
}
use ray_me.Session.Transport.{
  Reasons, is_retiring, open_grace, begin_transport_reconnect, complete_transport_reconnect,
  recover_active_transport, resolve_loss, resolve_deferred_connection_state, has_grace, is_expired,
  end_lost, is_other_loss,
}
use ray_me.Session.Calls.{
  keep_reason, LifeCall, frame_call, claim_turn, commit_turn, settle_call, finish_turn, emit_call,
  deliver_call, loss_call, recover_call, expire_call, rejoin_call, end_call, fail_call,
  publish_call, interrupt_call, after_interrupt, forget_speech, after_cancel, cancelled_speech,
  next_state, end, fail, life_step, life_run, is_unexplained, is_interrupted, drops_frame,
}

pub record Events : Type 0 where
  pub outbox : List OutboxEntry
  pub event_sequence : ℕ
  pub delivered : List OutboxEntry
  pub outcome : Option Outcome
  pub end_reason : Option ℕ
  pub is_ended : Bool

abbrev pub events_of : Life → Events
events_of l = record {
  outbox = l.outbox;
  event_sequence = l.event_sequence;
  delivered = l.delivered;
  outcome = l.outcome;
  end_reason = l.end_reason;
  is_ended = l.is_ended;
}

-- A property of the events and the end of a call that the calls which write these keep.
pub record IsInvariant (P : Life → Type 0) : Type 0 where
  pub keeps : (l m : Life) → events_of l ≡ events_of m → P l → P m
  pub commits : (e : Event) (l : Life) → P l → P (commit_event (some e) l)
  pub ends :
      (target : CallState) (reason : ℕ) (l : Life) → P l → P (transition_terminal target reason l)
  pub delivers : (l : Life) → P l → P (deliver_event l)
  pub publishes : (l : Life) → P l → P (publish_terminal_outcome l)
  pub explains :
      (l : Life) (reason : ℕ)
      → is_unexplained l ≡ true
      → P l
      → P (record l { end_reason = some reason })

module _ (P : Life → Type 0) (i : IsInvariant P) where
  claim_inactive_keeps :
      (f : Option (ℕ × List ℕ)) (l : Life) (allow : Bool) → P l → P (claim_inactive f l allow).0
  unfolding claim_inactive
  claim_inactive_keeps (some (token, frames)) l allow g = g
  claim_inactive_keeps none l allow g =
      if_either (λ (p : Life × SttClaim). P p.0) (is_over l) (λ _. g)
        (λ _.
          if_either (λ (p : Life × SttClaim). P p.0) (is_empty l.turn_frames)
            {y = (admit_turn l allow, admitted (l.admission_generation + 1))} (λ _. g)
            (λ _. i.keeps l (admit_turn l allow) refl g))

  settle_turn_keeps :
      (l : Life) (token : ℕ) (e : Event) (next : CallState) → P l → P (settle_turn l token e next)
  settle_turn_keeps l token e next g =
      i.keeps (commit_event (some e) l) (settle_turn l token e next) refl (i.commits e l g)

  commit_unless_keeps :
      (a : Option StaleAnswer) (l : Life) (token : ℕ) (e : Event) (next : CallState)
      → P l
      → P (commit_unless a l token e next).0
  unfolding commit_unless
  commit_unless_keeps (some a) l token e next g = g
  commit_unless_keeps none l token e next g = settle_turn_keeps l token e next g

  settle_of_keeps :
      (s : Option Settlement) (l : Life) (n : ℕ) (b : Bool) → P l → P (settle_of s l n b)
  unfolding settle_of
  settle_of_keeps none l n b g = g
  settle_of_keeps (some s) l n b g =
      if_either P (s.sequence == n) (λ _. i.keeps l _ refl g) (λ _. g)

  release_of_keeps :
      (a : Option Admission) (l : Life) (token : ℕ) → P l → P (release_held a l token)
  unfolding release_held
  release_of_keeps none l token g = g
  release_of_keeps (some a) l token g =
      if_either P (gives_back l a (pop l.admissions token)) (λ _. i.keeps l _ refl g)
        (λ _. i.keeps l _ refl g)

  finish_stt_finalization_keeps : (l : Life) (token : ℕ) → P l → P (finish_stt_finalization l token)
  unfolding finish_stt_finalization release_stt_admission
  finish_stt_finalization_keeps l token g =
      let h = release_of_keeps (get l.admissions token) l token g in
      if_either P (is_finalized_by (release_stt_admission l token).finalization token)
        (λ _. i.keeps (release_stt_admission l token) _ refl h) (λ _. h)

  open_grace_keeps : (l : Life) (peer : ℕ) → P l → P (open_grace l peer)
  open_grace_keeps l peer g =
      if_either P (not (has_grace l peer)) (λ _. i.keeps l _ refl g) (λ _. g)

  begin_transport_reconnect_keeps :
      (l : Life) (peer : ℕ) (t : TransportState) (n : Option ℕ)
      → P l
      → P (begin_transport_reconnect l peer t n)
  unfolding begin_transport_reconnect
  begin_transport_reconnect_keeps l peer t n g =
      if_either P (is_retiring l peer n) (λ _. g)
        (λ _.
          if_either P (is_other_loss l peer n) (λ _. g)
            (λ _. i.keeps (open_grace l peer) _ refl (open_grace_keeps l peer g)))

  recover_active_transport_keeps :
      (l : Life) (peer : ℕ) (n : Option ℕ) → P l → P (recover_active_transport l peer n).0
  unfolding recover_active_transport complete_transport_reconnect
  recover_active_transport_keeps l peer n g =
      if_either (λ (p : Life × Bool). P p.0) _ {y = (complete_transport_reconnect l, true)} (λ _. g)
        (λ _. i.keeps l (complete_transport_reconnect l) refl g)

  end_lost_keeps :
      (t : TransportState) (reasons : Reasons) (l : Life) → P l → P (end_lost t reasons l)
  end_lost_keeps broken reasons l g = i.ends failed reasons.connection_failed l g
  end_lost_keeps closed reasons l g = i.ends ended reasons.connection_closed l g

  resolve_loss_keeps :
      (t : Option TransportState) (reasons : Reasons) (l : Life) (epoch peer : Option ℕ)
      → P l
      → P (resolve_loss t reasons l epoch peer).0
  unfolding resolve_loss
  resolve_loss_keeps none reasons l epoch peer g = g
  resolve_loss_keeps (some t) reasons l epoch peer g =
      if_either (λ (p : Life × Bool). P p.0) (not (is_expired l epoch peer)) {x = (l, false)}
        {y = if ltb 0 l.active_backfills then (l, false) else (end_lost t reasons l, true)} (λ _. g)
        (λ _.
          if_either (λ (p : Life × Bool). P p.0) (ltb 0 l.active_backfills) {x = (l, false)}
            {y = (end_lost t reasons l, true)} (λ _. g) (λ _. end_lost_keeps t reasons l g))

  keep_reason_keeps : (l : Life) (reason : ℕ) → P l → P (keep_reason l reason)
  keep_reason_keeps l reason g =
      if_either P (is_unexplained l) (λ h. i.explains l reason h g) (λ _. g)

  life_step_keeps : (reasons : Reasons) (l : Life) (c : LifeCall) → P l → P (life_step reasons l c)
  unfolding life_step claim_stt_finalization commit_stt_event settle_stt_event
      resolve_deferred_connection_state end fail complete_transport_reconnect
  life_step_keeps reasons l (frame_call muted n) g =
      if_either P (drops_frame l muted) (λ _. g) (λ _. i.keeps l _ refl g)
  life_step_keeps reasons l (claim_turn allow) g = claim_inactive_keeps l.finalization l allow g
  life_step_keeps reasons l (commit_turn token n b) g =
      commit_unless_keeps (stale_stt_turn_response l token) l token (other_event n) (next_state b) g
  life_step_keeps reasons l (settle_call n b) g = settle_of_keeps l.settlement l n b g
  life_step_keeps reasons l (finish_turn token) g = finish_stt_finalization_keeps l token g
  life_step_keeps reasons l (emit_call n) g = i.commits (other_event n) l g
  life_step_keeps reasons l deliver_call g = i.delivers l g
  life_step_keeps reasons l (loss_call peer t n) g = begin_transport_reconnect_keeps l peer t n g
  life_step_keeps reasons l (recover_call peer n) g = recover_active_transport_keeps l peer n g
  life_step_keeps reasons l (expire_call epoch peer) g =
      resolve_loss_keeps l.terminal_state reasons l epoch peer g
  life_step_keeps reasons l (rejoin_call peer) g =
      if_either P (peer == l.peer) (λ _. g) (λ _. i.keeps l _ refl g)
  life_step_keeps reasons l (end_call reason) g =
      keep_reason_keeps _ reason (i.ends ended reason l g)
  life_step_keeps reasons l (fail_call reason) g = i.ends failed reason l g
  life_step_keeps reasons l publish_call g = i.publishes l g
  life_step_keeps reasons l (interrupt_call n) g =
      if_either P (is_over l) (λ _. g) (λ _. i.keeps _ _ refl (i.commits (other_event n) l g))
  life_step_keeps reasons l after_interrupt g =
      if_either P (is_interrupted l) (λ _. i.keeps l _ refl g) (λ _. g)
  life_step_keeps reasons l (forget_speech turn) g =
      if_either P (is_over l) (λ _. g) (λ _. i.keeps l _ refl g)
  life_step_keeps reasons l after_cancel g =
      if_either P (is_over l) (λ _. g) (λ _. i.keeps l _ refl g)
  life_step_keeps reasons l cancelled_speech g = i.keeps l _ refl g

  pub life_run_keeps :
      (reasons : Reasons) (l : Life) (cs : List LifeCall) → P l → P (life_run reasons l cs)
  unfolding life_run
  life_run_keeps reasons l [] g = g
  life_run_keeps reasons l (c ∷ cs) g =
      life_run_keeps reasons (life_step reasons l c) cs (life_step_keeps reasons l c g)
