-- ===== src/RoleExec/Arming.antt =====
-- What the executor writes to `synchronous_standby_names` (`ensure_quorum_commit` of
-- crates/pg-agent-core/src/roleexec.rs).
use pg_agent_rs.Prelude.{
  ℕ, String, ◌≡◌, ◌≢◌, refl, Bool, true, false, not, ◌&&◌, Option, none, List, [], ◌∷◌, ◌++◌, All,
  Bool-cases, inl, inr, arith, Result, ok, err,
}
use pg_agent_rs.Inflight.{OpId}
use pg_agent_rs.Maintenance.Queue.{sort_by}
use pg_agent_rs.Ha.{
  HaDecision, is_paused, store_unknown, would_demote, retained_lease, awaiting_promotion, following,
  would_follow_new_holder, holder_unhealthy, detaching_from_deposed, stood_down, took_over,
  lost_takeover,
}
use pg_agent_rs.RoleExec.{
  InstanceState, primary, standby, down, unknown, SyncNames, unarmed, any_one, other_names,
  names_eqb, Action, set_sync_names, ExecConfig, ExecInput, RoleExecutor, too_soon,
}
use pg_agent_rs.RoleExec.QuorumCommit.{
  other_members, somebody, arm, arm_members, ensure_quorum_commit,
}
use pg_agent_rs.RoleExec.Attach.{ensure_self_attached}
use pg_agent_rs.RoleExec.Promote.{
  reserve_slots, ensure_primary, promote_now, promote_ended, close_done,
}
use pg_agent_rs.RoleExec.Follow.{
  converge_follow, fence, follow, follow_again, follow_known, is_confirmed,
}
use pg_agent_rs.RoleExec.Apply.{apply, steady}

-- A write of the value names every other member, and at least one; where the value was empty, a
-- standby is attached, and where it named members, it named others.
abbrev pub Arms : ExecConfig → ExecInput → Action → Type 0
Arms cfg i (set_sync_names ids) =
    (ids ≡ sort_by cfg.slot_leb (other_members cfg))
    × (ids ≢ [])
    × (i.sync_names ≡ ok unarmed → somebody i.connected ≡ true)
    × ((old : List ℕ) → i.sync_names ≡ ok (any_one old) → names_eqb (any_one old) ids ≡ false)
Arms cfg i _ = Unit

All-append {ℓ κ} :
    {A : Type ℓ} (P : A → Type κ) (xs ys : List A) → All P xs → All P ys → All P (xs ++ ys)
All-append P [] ys h k = k
All-append P (x ∷ xs) ys h k = (h.0, All-append P xs ys h.1 k)

module _ (cfg : ExecConfig) (i : ExecInput) where
  arm-Arms :
      (ids : List ℕ) (names : Result (Unit {0}) SyncNames)
      → ids ≡ sort_by cfg.slot_leb (other_members cfg)
      → ids ≢ []
      → i.sync_names ≡ names
      → All (Arms cfg i) (arm ids names i.connected)
  unfolding arm
  arm-Arms ids (err e) p n q = tt
  arm-Arms ids (ok unarmed) p n q = elim (Bool-cases (somebody i.connected)) [
    | inl e ↦ rw e ((p, n, λ h. e, λ old h. absurd (cc (q, h))), tt)
    | inr e ↦ rw e tt
  ]
  arm-Arms ids (ok (any_one xs)) p n q = elim (Bool-cases (names_eqb (any_one xs) ids)) [
    | inl e ↦ rw e tt
    | inr e ↦ rw e (
      (p, n, λ h. absurd (cc (q, h)), λ old h. let same : xs ≡ old = cc (q, h) in rw (← same) e),
      tt,
    )
  ]
  arm-Arms ids (ok (other_names t)) p n q =
      ((p, n, λ h. absurd (cc (q, h)), λ old h. absurd (cc (q, h))), tt)

  arm_members-Arms :
      (ids : List ℕ)
      → ids ≡ sort_by cfg.slot_leb (other_members cfg)
      → All (Arms cfg i) (arm_members ids i.sync_names i.connected)
  unfolding arm_members
  arm_members-Arms [] p = tt
  arm_members-Arms (x ∷ xs) p = arm-Arms (x ∷ xs) i.sync_names p (λ h. cc h) refl

  quorum-Arms :
      (force : Bool) (now : ℕ) (x : RoleExecutor)
      → All (Arms cfg i) (ensure_quorum_commit cfg i force now x).0
  unfolding ensure_quorum_commit
  quorum-Arms force now x = elim (Bool-cases (not force && too_soon now x.sync_arm_last_probe)) [
    | inl e ↦ rw e tt
    | inr e ↦ rw e (arm_members-Arms (sort_by cfg.slot_leb (other_members cfg)) refl)
  ]

  attached-Arms : (now : ℕ) (x : RoleExecutor) → All (Arms cfg i) (ensure_self_attached now x).0
  unfolding ensure_self_attached
  attached-Arms now x = elim (Bool-cases (too_soon now x.self_attach_last_probe)) [
    | inl e ↦ rw e tt
    | inr e ↦ elim (Bool-cases x.self_attach_in_flight) [
      | inl f ↦ rw (e) (rw f tt)
      | inr f ↦ rw (e) (rw f (tt, tt))
    ]
  ]

  slots-Arms : (made : ℕ → Bool) (ns : List ℕ) → All (Arms cfg i) (reserve_slots made ns)
  unfolding reserve_slots
  slots-Arms made [] = tt
  slots-Arms made (n ∷ ns) = elim (Bool-cases (made n)) [
    | inl e ↦ rw e (tt, slots-Arms made ns)
    | inr e ↦ rw e (tt, tt)
  ]

  promoted-Arms :
      (op : Option OpId) (answer : Result String (Unit {0})) (x : RoleExecutor)
      → All (Arms cfg i) (promote_ended cfg i op answer x).0
  unfolding promote_ended
  promoted-Arms op (err why) x = tt
  promoted-Arms op (ok u) x =
      let x1 = record x { confirmed_upstream = none; journal = close_done i op x.journal } in
      All-append (Arms cfg i) _ _ (slots-Arms i.slot_made (other_members cfg)) (
        All-append (Arms cfg i) _ _ (quorum-Arms true i.later x1)
          (attached-Arms i.later (ensure_quorum_commit cfg i true i.later x1).1))

  steady-Arms : (x : RoleExecutor) → All (Arms cfg i) (steady cfg i x).0
  unfolding steady
  steady-Arms x =
      let x1 = record x {
        confirmed_upstream = none;
        follow_stalled_since = none;
        follow_wedged = false;
      } in
      All-append (Arms cfg i) _ _ (quorum-Arms false i.now x1)
        (attached-Arms i.now (ensure_quorum_commit cfg i false i.now x1).1)

  primary-Arms :
      (term : ℕ) (s : InstanceState) (x : RoleExecutor)
      → All (Arms cfg i) (ensure_primary cfg i term s x).0
  unfolding ensure_primary promote_now
  primary-Arms term primary x = tt
  primary-Arms term (standby b) x = (tt, promoted-Arms _ i.promoted _)
  primary-Arms term down x = (tt, promoted-Arms _ i.promoted _)
  primary-Arms term unknown x = (tt, promoted-Arms _ i.promoted _)

  follow-Arms : (holder : ℕ) → All (Arms cfg i) (follow cfg i holder).0
  unfolding follow follow_known
  follow-Arms holder = ground arith

  converge-Arms :
      (holder : ℕ) (s : InstanceState) (x : RoleExecutor)
      → All (Arms cfg i) (converge_follow cfg i holder s x).0
  unfolding converge_follow fence follow_again
  converge-Arms holder primary x = (tt, tt)
  converge-Arms holder (standby b) x =
      elim (Bool-cases (is_confirmed x.confirmed_upstream holder)) [
        | inl e ↦ rw e tt
        | inr e ↦ rw e (follow-Arms holder)
      ]
  converge-Arms holder down x = tt
  converge-Arms holder unknown x = tt

  -- Whatever decision is executed, the executor never empties `synchronous_standby_names`: each
  -- write names exactly the other members, at least one, in their texts' order; an empty value is
  -- armed only when a standby is attached, and a value that already names the members is left alone.
  pub apply-Arms : (d : HaDecision) (x : RoleExecutor) → All (Arms cfg i) (apply cfg i d x).0
  unfolding apply fence
  apply-Arms (took_over term false) x = primary-Arms term i.state x
  apply-Arms (awaiting_promotion term held_for) x = primary-Arms term i.state x
  apply-Arms (would_demote reason) x = (tt, tt)
  apply-Arms (following holder) x = converge-Arms holder i.state x
  apply-Arms (would_follow_new_holder previous holder) x = converge-Arms holder i.state x
  apply-Arms (detaching_from_deposed holder) x = (tt, tt)
  apply-Arms (retained_lease term) x = steady-Arms x
  apply-Arms (took_over term true) x = steady-Arms x
  apply-Arms is_paused x = tt
  apply-Arms (store_unknown d) x = tt
  apply-Arms (holder_unhealthy holder d) x = tt
  apply-Arms (stood_down why) x = tt
  apply-Arms (lost_takeover current) x = tt
