-- ===== src/ClusterInit/Seeded.antt =====
-- What the seeding of the lease does to the document (crates/pg-agent-core/src/localserver.rs,
-- `cluster_init`).
use pg_agent_rs.Prelude.{
  ap, ℕ, String, ◌≡◌, refl, Option, none, some, inl, inr, arith, Option-cases, Result, ok, err,
}
use pg_agent_rs.Consensus.{Lease, ClusterState, TakeoverOutcome, won, lost}
use pg_agent_rs.Raft.Machine.{takeover, apply_command, takeover_response, observed_holds}
use pg_agent_rs.Raft.Takeover.{takeover-won, takeover-lost}
use pg_agent_rs.Store.{ConsensusStore, IsLinearizable, MaybeApplied}
use pg_agent_rs.ClusterInit.{RaftNote, seed_lease}

-- what the note on consensus says of the committed document: only a seeding that was tried changes it,
-- and one that answered leaves a holder, which is the primary where it won
abbrev pub Noted : {E : Type 0} → ℕ → ℕ → ClusterState → ClusterState → RaftNote E → Type 0
Noted here now before after (some (ok (ok (won l)))) = (after.lease ≡ some l) × (l.holder ≡ here)
Noted here now before after (some (ok (ok (lost o)))) =
    (after ≡ before) × ((l : Lease) × (before.lease ≡ some l))
Noted here now before after (some (ok (err e))) = MaybeApplied (takeover here none now) before after
Noted here now before after _ = after ≡ before

module _ {S E : Type 0} (store : ConsensusStore S E) (view : S → ClusterState)
    (lin : IsLinearizable store view) (now : ℕ) (state : S) where
  lost-held :
      (c d : ClusterState) (x : ℕ) (o : Option Lease)
      → apply_command c (takeover x none now) ≡ (d, takeover_response (lost o))
      → (l : Lease) × (c.lease ≡ some l)
  unfolding apply_command observed_holds
  lost-held c d x o h = elim (Option-cases c.lease) [
    | inl e ↦ absurd (ground (arith, e, h))
    | inr (l, e) ↦ (l, e)
  ]

  try_takeover-Noted :
      (here : ℕ) (r : Result E TakeoverOutcome) (s : S)
      → store.try_takeover now here none state ≡ (r, s)
      → Noted here now (view state) (view s) (some (ok r))
  try_takeover-Noted here (ok (won l)) s e =
      let applied =
        lin.takeover_applied now here none state (won l)
          (ap (λ (x : Result E TakeoverOutcome × S). x.0) e) in
      let (seen, held, holder, since) =
        takeover-won (view state) (view s) here now none l (rw e at applied) in
      (held, holder)
  try_takeover-Noted here (ok (lost o)) s e =
      let applied =
        lin.takeover_applied now here none state (lost o)
          (ap (λ (x : Result E TakeoverOutcome × S). x.0) e) in
      (
        (takeover-lost (view state) (view s) here now none o (rw e at applied)).0,
        lost-held (view state) (view s) here o (rw e at applied),
      )
  try_takeover-Noted here (err x) s e =
      let failed =
        lin.takeover_failed now here none state x
          (ap (λ (y : Result E TakeoverOutcome × S). y.0) e) in
      rw e at failed

  pub seed-Noted :
      (here : ℕ) (b : Option (Result String (Unit {0})))
      → Noted here now
          (view state)
          (view (seed_lease store now b state here b).1)
          (seed_lease store now b state here b).0
  seed-Noted here none = refl
  seed-Noted here (some (err e)) = refl
  seed-Noted here (some (ok u)) =
      try_takeover-Noted here (store.try_takeover now here none state).0
        (store.try_takeover now here none state).1 refl
