-- ===== src/FollowPrimary/Resumed.antt =====
-- What a resumed rebasing leaves behind (crates/pg-agent-core/src/localserver.rs,
-- `resume_follow_primary`).
use text.Mathlib.Text.{◌==◌}
use pg_agent_rs.Prelude.{
  ℕ, String, ◌≡◌, ◌⊎◌, refl, true, Option, none, some, [], inl, inr, Bool-cases, Result, ok, err,
}
use pg_agent_rs.Inflight.{follow_primary, OpId, InflightOp}
use pg_agent_rs.Inflight.Journal.{JournalError, FileInflightOpStore, complete, abandon}
use pg_agent_rs.Maintenance.Queue.{FileMaintenanceStore}
use pg_agent_rs.Pool.{NodeConfig, NodePool, node_by_id}
use pg_agent_rs.Orchestration.{
  followed, pure, continue, Env, World, Early, OpResult, ◌>>=◌, journal_or_fail, journal_complete,
  journal_abandon,
}
use pg_agent_rs.Orchestration.Rules.{Ends}
use pg_agent_rs.Failover.Refired.{Succeeded}
use pg_agent_rs.FollowPrimary.{drive_follow_primary}
use pg_agent_rs.FollowPrimary.Resume.{named, concluded, drive_and_conclude, resume_follow_primary}
use pg_agent_rs.FollowPrimary.Slot.{Kept, GivenUp, drive_follow_primary-Slot}

-- the node of the pool has the id and the name that were recorded
abbrev pub Named : NodePool → ℕ → String → NodeConfig → Type 0
Named pool id host n = (node_by_id pool id ≡ some n) × ((n.hostname == host) ≡ true)

-- a good answer kept the slot; any answer kept it or gave it up
abbrev pub Resumed :
    Env
    → OpId
    → NodeConfig
    → NodeConfig
    → FileMaintenanceStore
    → Result Early OpResult × World
    → Type 0
Resumed env id d n q (r, v) =
    (Kept env id d n q v ⊎ GivenUp env id d n q v) × (Succeeded r → Kept env id d n q v)

module _ (env : Env) (id : OpId) (d n : NodeConfig) (q : FileMaintenanceStore) where
  -- the journal is not looked at
  GivenUp-journal :
      (w : World) (j : FileInflightOpStore)
      → GivenUp env id d n q w
      → GivenUp env id d n q (record w { journal = j })
  GivenUp-journal w j g = record {
    given = g.given;
    because = g.because;
    dropped = g.dropped;
    earlier = g.earlier;
    calls = g.calls;
    unstarted = g.unstarted;
    cause = g.cause;
    why = g.why;
    settled = g.settled;
  }

  either_journal :
      (w : World) (j : FileInflightOpStore)
      → Kept env id d n q w ⊎ GivenUp env id d n q w
      → Kept env id d n q (record w { journal = j })
        ⊎ GivenUp env id d n q (record w { journal = j })
  either_journal w j (inl k) = inl k
  either_journal w j (inr g) = inr (GivenUp-journal w j g)

  concluded-Resumed :
      (r : Result Early (Unit {0})) (w : World)
      → Ends (λ u v. Kept env id d n q v) (λ v. Kept env id d n q v ⊎ GivenUp env id d n q v) (r, w)
      → Resumed env id d n q (concluded env id r w)
  unfolding journal_complete journal_abandon ◌>>=◌
  concluded-Resumed (ok u) w h =
      let (r, j) = complete (env.io "done") (env.clock "done") id w.journal in by_answer r j
    where
      by_answer :
          (r : Result JournalError (Unit {0})) (j : FileInflightOpStore)
          → Resumed env id d n q (
              continue
                (journal_or_fail r (record w { journal = j })).0
                (λ u. pure (record { ok = true; message = followed }))
                (journal_or_fail r (record w { journal = j })).1)
      by_answer (ok u) j = (inl h, λ s. h)
      by_answer (err e) j = (inl h, λ s. absurd s)
  concluded-Resumed (err e) w h =
      let (r, j) =
        abandon (env.io "abandoned") (env.clock "abandoned") id "driver failed" w.journal in
      (either_journal w j h, λ s. absurd (cc s))

-- A resumed rebasing goes on with the recorded nodes or not at all: from an empty log, either
-- nothing changes, or both nodes are in the pool with the ids and host names of the op, and the slot was
-- kept, or given up as in a plain run. Where the answer is good, it was kept.
pub resume_follow_primary-Resumed :
    (pool : NodePool) (env : Env) (op : InflightOp) (i k : ℕ) (host new_host : String) (w : World)
    → w.log ≡ []
    → ((resume_follow_primary pool env op (follow_primary i host k new_host) w).1 ≡ w)
      ⊎ ((d : NodeConfig) × (n : NodeConfig) × Named pool i host d
          × Named pool k new_host n
          × Resumed env op.id d n w.queue
              (resume_follow_primary pool env op (follow_primary i host k new_host) w))
unfolding resume_follow_primary drive_and_conclude ◌>>=◌
resume_follow_primary-Resumed pool env op i k host new_host w e =
    by_detached (node_by_id pool i) refl
  where
    Goal : Result Early OpResult × World → Type 0
    Goal (r, v) =
        (v ≡ w)
        ⊎ ((d : NodeConfig) × (n : NodeConfig) × Named pool i host d
            × Named pool k new_host n
            × Resumed env op.id d n w.queue (r, v))

    driven :
        (d n : NodeConfig)
        → Named pool i host d
        → Named pool k new_host n
        → Goal (drive_and_conclude env op.id op.phase d n w)
    driven d n p q =
        let (r, v) = drive_follow_primary env op.id d n op.phase w in
        inr (
          d,
          n,
          p,
          q,
          concluded-Resumed env op.id d n w.queue r v
              (drive_follow_primary-Slot env op.id d n op.phase w e),
        )

    by_new_primary :
        (d : NodeConfig) (o : Option NodeConfig)
        → Named pool i host d
        → node_by_id pool k ≡ o
        → Goal ((named new_host o >>= drive_and_conclude env op.id op.phase d) w)
    by_new_primary d none p q = inl refl
    by_new_primary d (some n) p q = elim (Bool-cases (n.hostname == new_host)) [
      | inl h ↦ rw h (driven d n p (q, h))
      | inr h ↦ rw h (inl refl)
    ]

    by_detached :
        (o : Option NodeConfig)
        → node_by_id pool i ≡ o
        → Goal (
            (named host o >>= (λ d.
                named new_host (node_by_id pool k) >>= drive_and_conclude env op.id op.phase d))
              w)
    by_detached none p = inl refl
    by_detached (some d) p = elim (Bool-cases (d.hostname == host)) [
      | inl h ↦ rw h (by_new_primary d (node_by_id pool k) (p, h) refl)
      | inr h ↦ rw h (inl refl)
    ]
