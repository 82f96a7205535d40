-- ===== src/Session/Deaf.antt =====
-- A microphone turn during which the transport is lost, in ai-backend/app/call/session.py.
use ray_me.Base.{
  ℕ, Bool, true, false, Option, none, some, List, [], ◌∷◌, if_either, if◌then◌else◌, get, pop, put,
  ◌+◌, ◌≡◌, refl, sym, ap, ◌∙◌, subst, not, ◌&&◌, arith, ◌==◌, ==_refl, is_empty, ◌||◌,
}
use ray_me.Session.Life.{
  understanding, Life, stable, TransportState, Admission, is_terminal_phase, is_over, is_rejoining,
}
use ray_me.Session.Turns.{
  claim_inactive, SttClaim, admitted, no_frames, over_answer, new_admission, admit_turn,
  claim_stt_finalization, resting_state, owns_state, release_in, release_held,
  release_stt_admission, is_finalized_by, forget_finalization, finish_stt_finalization,
}
use ray_me.Session.Transport.{
  begin_transport_reconnect, carry_epochs, graced, report_loss, complete_transport_reconnect,
  recover_active_transport, allows, is_peer,
}
use ray_me.Session.Calls.{drops_frame}
use ray_me.Session.Recovery.{begin-first}

release-single :
    (l : Life) (k : ℕ) (a : Admission)
    → l.admissions ≡ (k, a) ∷ []
    → owns_state a.state_ownership l.state ≡ false
    → release_stt_admission l k ≡ record l { admissions = [] }
unfolding release_stt_admission release_held
release-single l k a p o =
    let g : get l.admissions k ≡ some a =
      ap (λ (xs : List (ℕ × Admission)). get xs k) p ∙ ground arith in
    let q : pop l.admissions k ≡ [] =
      ap (λ (xs : List (ℕ × Admission)). pop xs k) p ∙ ground arith in
    subst (λ (x : Option Admission). release_held x l k ≡ record l { admissions = [] }) (sym g)
      (subst (λ (rest : List (ℕ × Admission)). release_in l a rest ≡ record l { admissions = [] })
        (sym q)
        (subst
          (λ (b : Bool).
            (if b && not l.is_ended && not (is_terminal_phase l.phase) && true
              then record l { admissions = []; state = resting_state l }
              else record l { admissions = [] })
            ≡ record l { admissions = [] })
          (sym o) refl))

forget_finalization-own :
    (l : Life) (k : ℕ) (fs : List ℕ)
    → l.finalization ≡ some (k, fs)
    → forget_finalization l k ≡ record l { finalization = none }
forget_finalization-own l k fs p =
    let h : is_finalized_by l.finalization k ≡ true = ap (λ f. is_finalized_by f k) p ∙ ==_refl k in
    subst
      (λ (b : Bool).
        (if b then record l { finalization = none } else l) ≡ record l { finalization = none })
      (sym h) refl

finish-single :
    (l : Life) (k : ℕ) (a : Admission) (fs : List ℕ)
    → l.admissions ≡ (k, a) ∷ []
    → l.finalization ≡ some (k, fs)
    → owns_state a.state_ownership l.state ≡ false
    → finish_stt_finalization l k ≡ record l { admissions = []; finalization = none }
unfolding finish_stt_finalization
finish-single l k a fs p f o =
    ap (λ (m : Life). forget_finalization m k) (release-single l k a p o)
    ∙ forget_finalization-own (record l { admissions = [] }) k fs f

claim-admits :
    (l : Life) (allow : Bool)
    → l.finalization ≡ none
    → is_over l ≡ false
    → is_empty l.turn_frames ≡ false
    → (claim_stt_finalization l allow).0 ≡ admit_turn l allow
unfolding claim_stt_finalization claim_inactive
claim-admits l allow f o e =
    subst (λ (x : Option (ℕ × List ℕ)). (claim_inactive x l allow).0 ≡ admit_turn l allow) (sym f)
      (if_either (λ (p : Life × SttClaim). p.0 ≡ admit_turn l allow) (is_over l)
        {x = (l, over_answer l.state)}
        {y = if is_empty l.turn_frames
          then (l, no_frames)
          else (admit_turn l allow, admitted (l.admission_generation + 1))}
        (λ h. ground (arith, h, o))
        (λ _.
          if_either (λ (p : Life × SttClaim). p.0 ≡ admit_turn l allow) (is_empty l.turn_frames)
            {x = (l, no_frames)} {y = (admit_turn l allow, admitted (l.admission_generation + 1))}
            (λ h. ground (arith, h, e)) (λ _. refl)))

-- The turn is claimed, the transport is lost and reported, the turn finishes, the transport recovers.
abbrev pub turn_across_loss : Life → TransportState → Life
turn_across_loss l t =
    let claimed_turn = (claim_stt_finalization l false).0 in
    let lost = begin_transport_reconnect claimed_turn l.peer t none in
    let finished = finish_stt_finalization lost (l.admission_generation + 1) in
    (recover_active_transport finished l.peer none).0

lost_turn-finished :
    (l : Life) (t : TransportState)
    → l.phase ≡ stable
    → l.is_ended ≡ false
    → is_over l ≡ false
    → l.finalization ≡ none
    → l.admissions ≡ []
    → is_empty l.turn_frames ≡ false
    → finish_stt_finalization
        (begin_transport_reconnect (claim_stt_finalization l false).0 l.peer t none)
        (l.admission_generation + 1)
      ≡ record (report_loss (graced (admit_turn l false) l.peer) t) {
        admissions = [];
        finalization = none;
      }
lost_turn-finished l t h e o f p n =
    let k = l.admission_generation + 1 in
    let m = report_loss (graced (admit_turn l false) l.peer) t in
    ap (λ (c : Life). finish_stt_finalization (begin_transport_reconnect c l.peer t none) k)
      (claim-admits l false f o n)
    ∙ ap (λ (c : Life). finish_stt_finalization c k) (begin-first (admit_turn l false) t h e)
    ∙ finish-single m k (new_admission l false) l.turn_frames
        (ap
          (λ (xs : List (ℕ × Admission)).
            carry_epochs (l.epoch + 1) (put xs k (new_admission l false)))
          p)
        refl refl

abbrev IsDeaf : Life → Type 0
IsDeaf m =
    m.state ≡ understanding
    × m.phase ≡ stable
    × m.finalization ≡ none
    × m.admissions ≡ []
    × ((muted : Bool) → drops_frame m muted ≡ true)

-- A turn is claimed by the live microphone, its transport is lost, the turn finishes meanwhile, and the
-- transport recovers: the call then reads `understanding` although no turn is under way, and drops
-- every frame of the microphone.
pub turn_across_loss-deaf :
    (l : Life) (t : TransportState)
    → l.phase ≡ stable
    → l.is_ended ≡ false
    → is_over l ≡ false
    → l.finalization ≡ none
    → l.admissions ≡ []
    → is_empty l.turn_frames ≡ false
    → let m = turn_across_loss l t in
      m.state ≡ understanding
      × m.phase ≡ stable
      × m.finalization ≡ none
      × m.admissions ≡ []
      × ((muted : Bool) → drops_frame m muted ≡ true)
unfolding recover_active_transport complete_transport_reconnect
turn_across_loss-deaf l t h e o f p n =
    let m = record (report_loss (graced (admit_turn l false) l.peer) t) {
      admissions = [];
      finalization = none;
    } in
    subst (λ (c : Life). IsDeaf (recover_active_transport c l.peer none).0)
      (sym (lost_turn-finished l t h e o f p n))
      (if_either (λ (r : Life × Bool). IsDeaf r.0)
        (not (is_rejoining m.phase)
          || not (is_peer m.grace_peer l.peer)
          || not (l.peer == m.peer)
          || not (allows none m.active_generation))
        {x = (m, false)} {y = (complete_transport_reconnect m, true)} (λ k. ground (arith, k))
        (λ _. (refl, refl, refl, refl, λ muted. ground arith)))
