-- ===== src/Session/Retention.antt =====
-- How long an ended session is retained, in ai-backend/app/call/session.py.
use ray_me.Base.{
  by_cases, ℕ, ◌+◌, Bool, true, false, not, Option, none, some, List, [], ◌∷◌, ltb, if◌then◌else◌,
  get, put, pop, get-pop, if_either, ◌≡◌, refl, sym, ap, ◌∙◌, subst, ◌&&◌, ◌||◌, arith, ◌==◌,
}
use ray_me.Session.Life.{Life, is_terminal_state}
use ray_me.Session.Manager.{
  Sessions, reads_over, forget_session, expire_from, expire_retained_sessions, get_session,
  retain_session,
}

-- Whether a deadline of the session is over.
abbrev pub is_due : ℕ → List (ℕ × ℕ) → ℕ → Bool
is_due now [] i = false
is_due now ((j, deadline) ∷ ds) i = (j == i && not (ltb now deadline)) || is_due now ds i

is_due-none : (now i : ℕ) (ds : List (ℕ × ℕ)) → get ds i ≡ none → is_due now ds i ≡ false
is_due-none now i [] h = refl
is_due-none now i ((j, d) ∷ ds) h =
    by_cases (j == i) (λ q. ground (arith, h, q))
      (λ q. ground (arith, q, is_due-none now i ds (ground (arith, h, q))))

is_due-put :
    (now i deadline : ℕ) (ds : List (ℕ × ℕ))
    → get ds i ≡ none
    → is_due now (put ds i deadline) i ≡ not (ltb now deadline)
is_due-put now i deadline [] h = ground arith
is_due-put now i deadline ((j, d) ∷ ds) h =
    by_cases (j == i) (λ q. ground (arith, h, q))
      (λ q. ground (arith, q, is_due-put now i deadline ds (ground (arith, h, q))))

-- What the loop leaves of a session.
abbrev kept : Bool → Option Life → Option Life
kept due o = if due && reads_over o then none else o

get-forget_session :
    (m : Sessions) (j i : ℕ)
    → get (forget_session m j).sessions i ≡ kept (j == i) (get m.sessions i)
get-forget_session m j i =
    by_cases (j == i)
      (λ q.
        let e : j ≡ i = ground (arith, q) in
        subst (λ (k : ℕ). get (forget_session m j).sessions k ≡ kept (j == k) (get m.sessions k)) e
          (if_either (λ (s : List (ℕ × Life)). get s j ≡ kept (j == j) (get m.sessions j))
            (reads_over (get m.sessions j)) (λ h. ground (arith, h, get-pop m.sessions j j))
            (λ h. ground (arith, h))))
      (λ q.
        if_either (λ (s : List (ℕ × Life)). get s i ≡ kept (j == i) (get m.sessions i))
          (reads_over (get m.sessions j)) (λ h. ground (arith, q, get-pop m.sessions j i))
          (λ h. ground (arith, q)))

kept-kept : (a b : Bool) (o : Option Life) → kept a (kept b o) ≡ kept (b || a) o
kept-kept a true none = by_cases a (λ _. ground arith) (λ _. ground arith)
kept-kept a true (some l) = ground arith
kept-kept a false o = refl

get-expire_from :
    (now : ℕ) (ds : List (ℕ × ℕ)) (m : Sessions) (i : ℕ)
    → get (expire_from now ds m).sessions i ≡ kept (is_due now ds i) (get m.sessions i)
unfolding expire_from
get-expire_from now [] m i = refl
get-expire_from now ((j, d) ∷ ds) m i =
    get-expire_from now ds (if ltb now d then m else forget_session m j) i
    ∙ if_either
        (λ (e : Sessions).
          kept (is_due now ds i) (get e.sessions i)
          ≡ kept ((j == i && not (ltb now d)) || is_due now ds i) (get m.sessions i))
        (ltb now d) (λ h. ap (λ b. kept b (get m.sessions i)) (ground (arith, h)))
        (λ h.
          ap (kept (is_due now ds i)) (get-forget_session m j i)
          ∙ kept-kept (is_due now ds i) (j == i) (get m.sessions i)
          ∙ ap (λ b. kept b (get m.sessions i)) (ground (arith, h)))

-- A session that is retained for a time, and not before, is answered by the next call up to its
-- deadline and, if it reads terminal, not from then on; if it does not, it is answered at any time.
pub retained_until :
    (m : Sessions) (i t grace now : ℕ) (l : Life)
    → get m.sessions i ≡ some l
    → get m.deadlines i ≡ none
    → ltb 0 grace ≡ true
    → (get_session now (retain_session t m i grace) i).1
      ≡ (if not (ltb now (t + grace)) && is_terminal_state l.state then none else some l)
unfolding get_session expire_retained_sessions retain_session
retained_until m i t grace now l p h g =
    let w = record m { deadlines = put m.deadlines i (t + grace) } in
    subst
      (λ (b : Bool).
        (get_session now
          (if b then w else record { sessions = pop m.sessions i; deadlines = pop m.deadlines i })
          i).1
        ≡ (if not (ltb now (t + grace)) && is_terminal_state l.state then none else some l))
      (sym g)
      (get-expire_from now w.deadlines w i
        ∙ ap (λ b. kept b (get m.sessions i)) (is_due-put now i (t + grace) m.deadlines h)
        ∙ ap (kept (not (ltb now (t + grace)))) p)

get-forget_deadline :
    (m : Sessions) (j i : ℕ) (b : Bool)
    → get (if b then m else forget_session m j).deadlines i
      ≡ (if j == i && not b then none else get m.deadlines i)
get-forget_deadline m j i true = ground arith
get-forget_deadline m j i false = ground (arith, get-pop m.deadlines j i)

get-expire_deadline :
    (now : ℕ) (ds : List (ℕ × ℕ)) (m : Sessions) (i : ℕ)
    → get (expire_from now ds m).deadlines i ≡ (if is_due now ds i then none else get m.deadlines i)
unfolding expire_from
get-expire_deadline now [] m i = refl
get-expire_deadline now ((j, d) ∷ ds) m i =
    get-expire_deadline now ds (if ltb now d then m else forget_session m j) i
    ∙ ground (arith, get-forget_deadline m j i (ltb now d))

kept-live : (b : Bool) (l : Life) → is_terminal_state l.state ≡ false → kept b (some l) ≡ some l
kept-live b l h = ground (arith, h)

-- A session that does not read terminal when a call comes after its deadline loses the deadline, and
-- the call after that still finds it, however late it is.
pub retained_for_ever :
    (m : Sessions) (i t grace now : ℕ) (l : Life)
    → get m.sessions i ≡ some l
    → get m.deadlines i ≡ none
    → ltb 0 grace ≡ true
    → is_terminal_state l.state ≡ false
    → ltb now (t + grace) ≡ false
    → let w = (get_session now (retain_session t m i grace) i).0 in
      get w.deadlines i ≡ none × ((later : ℕ) → (get_session later w i).1 ≡ some l)
unfolding get_session expire_retained_sessions retain_session
retained_for_ever m i t grace now l p h g live k =
    let r = record m { deadlines = put m.deadlines i (t + grace) } in
    let w = expire_from now r.deadlines r in
    let due : is_due now r.deadlines i ≡ true =
      is_due-put now i (t + grace) m.deadlines h ∙ ap not k in
    let here : get w.sessions i ≡ some l =
      get-expire_from now r.deadlines r i
      ∙ ap (kept (is_due now r.deadlines i)) p
      ∙ kept-live (is_due now r.deadlines i) l live in
    subst
      (λ (b : Bool).
        let v =
          expire_from now
            (if b
              then r
              else record { sessions = pop m.sessions i; deadlines = pop m.deadlines i }).deadlines
            (if b
              then r
              else record { sessions = pop m.sessions i; deadlines = pop m.deadlines i }) in
        get v.deadlines i ≡ none × ((later : ℕ) → (get_session later v i).1 ≡ some l))
      (sym g)
      (
        get-expire_deadline now r.deadlines r i
            ∙ ap (λ b. if b then none else get r.deadlines i) due,
        λ later.
            get-expire_from later w.deadlines w i
            ∙ ap (kept (is_due later w.deadlines i)) here
            ∙ kept-live (is_due later w.deadlines i) l live,
      )
