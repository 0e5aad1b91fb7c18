-- ===== src/RoleExec/Actions.antt =====
-- Which actions the parts of the executor ask for
-- (crates/pg-agent-core/src/roleexec.rs): the bookkeeping around a promotion, and arming.
use pg_agent_rs.Prelude.{
  ℕ, String, ◌≡◌, refl, Bool, true, false, not, ◌&&◌, List, [], ◌∷◌, ◌++◌, arith, any, Bool-cases,
  inl, inr, Result, ok, err,
}
use pg_agent_rs.RoleExec.{
  SyncNames, unarmed, any_one, other_names, names_eqb, Action, create_slot, set_sync_names,
  probe_pgpool, ExecConfig, ExecInput, RoleExecutor, too_soon,
}
use pg_agent_rs.RoleExec.QuorumCommit.{arm, arm_members, ensure_quorum_commit, somebody}
use pg_agent_rs.RoleExec.Attach.{ensure_self_attached}
use pg_agent_rs.RoleExec.Promote.{reserve_slots}

any-append {ℓ} :
    {A : Type ℓ} (p : A → Bool) (xs ys : List A)
    → any p xs ≡ false
    → any p ys ≡ false
    → any p (xs ++ ys) ≡ false
any-append p [] ys h k = k
any-append p (x ∷ xs) ys h k = elim (Bool-cases (p x)) [
  | inl e ↦ absurd (cc (rw e at h))
  | inr e ↦ rw e (any-append p xs ys (rw e at h) k)
]

-- A test that no background duty meets: slots, arming, and the probe.
pub record IsForeground (p : Action → Bool) : Type 0 where
  pub no_slot : (n : ℕ) → p (create_slot n) ≡ false
  pub no_arm : (ids : List ℕ) → p (set_sync_names ids) ≡ false
  pub no_probe : p probe_pgpool ≡ false

module _ (p : Action → Bool) (fg : IsForeground p) where
  any-reserve_slots : (made : ℕ → Bool) (ns : List ℕ) → any p (reserve_slots made ns) ≡ false
  unfolding reserve_slots
  any-reserve_slots made [] = refl
  any-reserve_slots made (n ∷ ns) = elim (Bool-cases (made n)) [
    | inl e ↦ rw (fg.no_slot n) (rw e (any-reserve_slots made ns))
    | inr e ↦ rw (fg.no_slot n) (rw e refl)
  ]

  any-arm :
      (ids : List ℕ) (names : Result (Unit {0}) SyncNames)
      (connected : Result (Unit {0}) (List String))
      → any p (arm ids names connected) ≡ false
  unfolding arm
  any-arm ids (err e) connected = refl
  any-arm ids (ok unarmed) connected = elim (Bool-cases (somebody connected)) [
    | inl e ↦ rw e (rw (fg.no_arm ids) refl)
    | inr e ↦ rw e refl
  ]
  any-arm ids (ok (any_one xs)) connected = elim (Bool-cases (names_eqb (any_one xs) ids)) [
    | inl e ↦ rw e refl
    | inr e ↦ rw e (rw (fg.no_arm ids) refl)
  ]
  any-arm ids (ok (other_names t)) connected = rw (fg.no_arm ids) refl

  any-arm_members :
      (ids : List ℕ) (names : Result (Unit {0}) SyncNames)
      (connected : Result (Unit {0}) (List String))
      → any p (arm_members ids names connected) ≡ false
  unfolding arm_members
  any-arm_members [] names connected = refl
  any-arm_members (n ∷ ns) names connected = any-arm (n ∷ ns) names connected

  any-ensure_quorum_commit :
      (cfg : ExecConfig) (i : ExecInput) (force : Bool) (now : ℕ) (x : RoleExecutor)
      → any p (ensure_quorum_commit cfg i force now x).0 ≡ false
  unfolding ensure_quorum_commit
  any-ensure_quorum_commit cfg i force now x =
      elim (Bool-cases (not force && too_soon now x.sync_arm_last_probe)) [
        | inl e ↦ rw e refl
        | inr e ↦ rw e (any-arm_members _ i.sync_names i.connected)
      ]

  any-ensure_self_attached :
      (now : ℕ) (x : RoleExecutor) → any p (ensure_self_attached now x).0 ≡ false
  unfolding ensure_self_attached
  any-ensure_self_attached now x = ground (arith, fg.no_probe)

  -- what follows a promotion, and a primary's steady state, do none of it
  pub any_duties :
      (cfg : ExecConfig) (i : ExecInput) (force : Bool) (now : ℕ) (x y : RoleExecutor)
      → any p ((ensure_quorum_commit cfg i force now x).0 ++ (ensure_self_attached now y).0) ≡ false
  any_duties cfg i force now x y =
      any-append p _ _ (any-ensure_quorum_commit cfg i force now x) (any-ensure_self_attached now y)

  pub any_after_promotion :
      (cfg : ExecConfig) (i : ExecInput) (made : ℕ → Bool) (ns : List ℕ) (now : ℕ)
      (x y : RoleExecutor)
      → any p (
          reserve_slots made ns
          ++ ((ensure_quorum_commit cfg i true now x).0 ++ (ensure_self_attached now y).0))
        ≡ false
  any_after_promotion cfg i made ns now x y =
      any-append p _ _ (any-reserve_slots made ns) (any_duties cfg i true now x y)
