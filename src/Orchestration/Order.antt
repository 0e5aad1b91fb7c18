-- ===== src/Orchestration/Order.antt =====
-- The order of the calls in a log, by what must have happened before each.
use pg_agent_rs.Prelude.{◌≡◌, refl, String, Bool, true, List, [], ◌∷◌, In, inl, Result, ok, err}
use pg_agent_rs.Orchestration.{
  Action, Env, World, try, call, or_fail, succeeded, failed, action_failed,
}
use pg_agent_rs.Orchestration.Rules.{Triple, Triple-pure, Triple-raise, Triple-bind}

abbrev pub Calls : Type 0
Calls = List (Action × Bool)

-- the call has succeeded
abbrev pub Did : Action → World → Type 0
Did a w = In (a, true) w.log

-- `before a older` must hold of the calls that preceded call `a`
module _ (before : Action → Calls → Type 0) where
  abbrev pub Ordered : Calls → Type 0
  Ordered [] = Unit
  Ordered ((a, b) ∷ older) = before a older × Ordered older

  abbrev pub InOrder : World → Type 0
  InOrder w = Ordered w.log

  -- a call whose answer is judged: what held of the older calls holds still
  pub try-Ordered :
      (env : Env) (a : Action) (P : Calls → Type 0)
      → ((b : Bool) (older : Calls) → P older → P ((a, b) ∷ older))
      → ((older : Calls) → P older → before a older)
      → Triple
          (λ w. P w.log × InOrder w)
          (try env a)
          (λ r w. P w.log × InOrder w × (r ≡ ok tt → Did a w))
          InOrder
  unfolding try
  try-Ordered env a P grows first = record {
    at = λ w (p, o).
        (grows (succeeded (env.act a)) w.log p, (first w.log p, o), by_answer w (env.act a));
  }
    where
      by_answer :
          (w : World) (r : Result String (Unit {0}))
          → r ≡ ok tt
          → In (a, true) ((a, succeeded r) ∷ w.log)
      by_answer w (ok u) e = inl refl
      by_answer w (err x) e = absurd (cc e)

  -- a call that has to succeed
  pub call-Ordered :
      (env : Env) (a : Action) (P : Calls → Type 0)
      → ((b : Bool) (older : Calls) → P older → P ((a, b) ∷ older))
      → ((older : Calls) → P older → before a older)
      → Triple
          (λ w. P w.log × InOrder w)
          (call env a)
          (λ u w. P w.log × InOrder w × Did a w)
          InOrder
  unfolding call
  call-Ordered env a P grows first =
      Triple-bind (try env a) (or_fail a) (try-Ordered env a P grows first) judged
    where
      judged :
          (r : Result String (Unit {0}))
          → Triple
              (λ w. P w.log × InOrder w × (r ≡ ok tt → Did a w))
              (or_fail a r)
              (λ u w. P w.log × InOrder w × Did a w)
              InOrder
      judged (ok u) = Triple-pure tt (λ w (p, o, d). (p, o, d refl))
      judged (err e) = Triple-raise (failed (action_failed a e)) (λ w (p, o, d). o)
