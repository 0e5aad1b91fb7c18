-- ===== src/ClusterInit/Started.antt =====
-- What an initialisation leaves (crates/pg-agent-core/src/localserver.rs, `cluster_init`).
use mathlib.Core.Path.{subst}
use pg_agent_rs.Prelude.{
  lift, sym, ◌⊎◌, ℕ, suc, String, ◌≡◌, refl, Bool, true, false, Option, none, some, List, [], ◌∷◌,
  length, In, inl, inr, arith, Result,
}
use pg_agent_rs.Pool.{NodeConfig, NodePool, local_node}
use pg_agent_rs.Consensus.{ClusterState}
use pg_agent_rs.Store.{ConsensusStore, IsLinearizable}
use pg_agent_rs.Orchestration.{
  Action, start, create_role, Env, World, pure, ◌>>=◌, ◌>>◌, call, local_or_fail,
}
use pg_agent_rs.Orchestration.Order.{Calls, call-Ordered}
use pg_agent_rs.Orchestration.Rules.{
  Ends, Triple, Triple-pure, Triple-before, Triple-after, Triple-if, Triple-bind,
}
use pg_agent_rs.Recovery.Order.{RebuildFirst, Tidy}
use pg_agent_rs.Recovery.Gate.{asked-Tidy}
use pg_agent_rs.Handoff.Request.{node_or_fail}
use pg_agent_rs.ClusterInit.{
  ClusterInitStandbyResult, ClusterInitResponse, RaftNote, seed_lease, conclude, init_standby,
  chosen, init_all, failures, verdict, respond, init_unless, cluster_init,
}
use pg_agent_rs.ClusterInit.Standby.{init_standby-Triple}
use pg_agent_rs.ClusterInit.Seeded.{Noted, seed-Noted}

module _ (env : Env) (here : ℕ) (host : String) (only : Option ℕ) where
  -- where no standby failed, each chosen one was started
  abbrev AllStarted : List NodeConfig → List ClusterInitStandbyResult → Calls → Type 0
  AllStarted ms rs log =
      (m : NodeConfig)
      → In m ms
      → chosen here only m ≡ true
      → failures rs ≡ 0
      → In (start m.id, true) log

  none_failed :
      (r : ClusterInitStandbyResult) (rs : List ClusterInitStandbyResult)
      → failures (r ∷ rs) ≡ 0
      → (r.ok ≡ true) × (failures rs ≡ 0)
  unfolding failures
  none_failed r rs h = ground (arith, h)

  nobody : {A : Type 0} (m : NodeConfig) → In m [] → A
  nobody m (lift h) = absurd h

  init_all-Triple :
      (K : Calls → Type 0) (ms : List NodeConfig)
      → ((a : Action) (b : Bool) (older : Calls) → K older → K ((a, b) ∷ older))
      → Triple
          (λ w. K w.log × Tidy w)
          (init_all env here host only ms)
          (λ rs w. K w.log × Tidy w × AllStarted ms rs w.log)
          Tidy
  unfolding init_all
  init_all-Triple K [] grows = Triple-pure [] (λ w (k, o). (k, o, λ m h c f. nobody m h))
  init_all-Triple K (m ∷ ms) grows =
      Triple-if (chosen here only m)
        (init_standby env here m.id host
          >>= (λ r. init_all env here host only ms >>= (λ rs. pure (r ∷ rs))))
        (init_all env here host only ms)
        (λ e.
          Triple-bind (init_standby env here m.id host) _
            (init_standby-Triple env here m.id host K grows)
            (λ r.
              Triple-bind (init_all env here host only ms) _
                (Triple-before (init_all env here host only ms) (λ w (i, (k, o, h)). ((k, h), o))
                  (init_all-Triple (λ c. K c × (r.ok ≡ true → In (start m.id, true) c)) ms
                    (λ a b older (k, h). (grows a b older k, λ q. inr (h q)))))
                (λ rs. Triple-pure _ (λ w ((k, h), o, l). (k, o, with_first r rs w.log h l)))))
        (λ e.
          Triple-after (init_all env here host only ms)
            (λ rs w (k, o, l). (k, o, without_first e rs w.log l)) (init_all-Triple K ms grows))
    where
      with_first :
          (r : ClusterInitStandbyResult) (rs : List ClusterInitStandbyResult) (log : Calls)
          → (r.ok ≡ true → In (start m.id, true) log)
          → AllStarted ms rs log
          → AllStarted (m ∷ ms) (r ∷ rs) log
      with_first r rs log h l n (inl p) c f =
          subst (λ (x : NodeConfig). In (start x.id, true) log) (sym p) (h (none_failed r rs f).0)
      with_first r rs log h l n (inr i) c f = l n i c (none_failed r rs f).1

      without_first :
          chosen here only m ≡ false
          → (rs : List ClusterInitStandbyResult) (log : Calls) → AllStarted ms rs log
          → AllStarted (m ∷ ms) rs log
      without_first e rs log l n (inl p) c f =
          absurd (cc (subst (λ (x : NodeConfig). chosen here only x ≡ true) p c, e))
      without_first e rs log l n (inr i) c f = l n i c f

  -- a good answer has no failure
  respond-ok :
      {E : Type 0} (note : RaftNote E) (rs : List ClusterInitStandbyResult)
      → (respond note rs).ok ≡ true
      → failures rs ≡ 0
  unfolding respond failures
  respond-ok said [] h = refl
  respond-ok said (r ∷ rs) h = by_count (failures (r ∷ rs)) h
    where
      by_count : (f : ℕ) → (verdict (suc (length rs)) f).0 ≡ true → f ≡ 0
      by_count f h = ground (arith, h)

module _ {S E : Type 0} (store : ConsensusStore S E) (view : S → ClusterState)
    (lin : IsLinearizable store view) (now : ℕ) (bootstrap : Option (Result String (Unit {0})))
    (state : S) (pool : NodePool) (env : Env) (only : Option ℕ) where
  -- each chosen standby was started
  abbrev pub EachStarted : NodeConfig → World → Type 0
  EachStarted p v =
      (m : NodeConfig) → In m pool.members → chosen p.id only m ≡ true → In (start m.id, true) v.log

  abbrev pub Initialised : ClusterInitResponse E × S → World → Type 0
  Initialised (a, s) v =
      Tidy v
      × (((a.ok ≡ false) × (a.standbys ≡ []) × (view s ≡ view state))
          ⊎ ((p : NodeConfig) × (local_node pool ≡ some p)
              × Noted p.id now (view state) (view s) a.raft_note
              × (a.ok ≡ true → EachStarted p v)))

  on_primary :
      (p : NodeConfig)
      → local_node pool ≡ some p
      → Triple Tidy
          (call env (create_role p.id)
            >> (init_all env p.id p.hostname only pool.members >>= (λ rs. pure (
                conclude store now bootstrap state rs
                  (seed_lease store now bootstrap state p.id bootstrap)))))
          Initialised
          Tidy
  unfolding respond
  on_primary p e =
      Triple-bind (call env (create_role p.id)) _
        (Triple-before (call env (create_role p.id)) (λ w o. (tt, o))
          (call-Ordered RebuildFirst env (create_role p.id) (λ c. Unit) (λ b older h. tt)
            (λ older h. tt)))
        (λ u.
          Triple-bind (init_all env p.id p.hostname only pool.members) _
            (Triple-before (init_all env p.id p.hostname only pool.members) (λ w (h, o, d). (tt, o))
              (init_all-Triple env p.id p.hostname only (λ c. Unit) pool.members
                (λ a b older h. tt)))
            (λ rs. Triple-pure _ (λ w (k, o, l). (
              o,
              inr (
                p,
                e,
                seed-Noted store view lin now state p.id bootstrap,
                λ h m i c. l m i c (
                    respond-ok env p.id p.hostname only
                      (seed_lease store now bootstrap state p.id bootstrap).0 rs h),
              ),
            ))))

  by_role :
      (b : Bool)
      → Triple Tidy (init_unless store now bootstrap state pool env only b) Initialised Tidy
  unfolding ◌>>=◌
  by_role true = Triple-pure _ (λ w o. (o, inl (refl, refl, refl)))
  by_role false = by_local (local_node pool) refl
    where
      by_local :
          (o : Option NodeConfig)
          → local_node pool ≡ o
          → Triple Tidy
              (node_or_fail o >>= (λ p.
                call env (create_role p.id)
                >> (init_all env p.id p.hostname only pool.members >>= (λ rs. pure (
                    conclude store now bootstrap state rs
                      (seed_lease store now bootstrap state p.id bootstrap))))))
              Initialised
              Tidy
      by_local none e = record { at = λ w o. o }
      by_local (some p) e = record { at = λ w o. (on_primary p e).at w o }

-- What an initialisation leaves, from an empty log and over a linearizable store. A standby was copied
-- only after its slot was made, configured only after it was copied, and started only after it was
-- configured, whatever the answer is. A good answer means that the node is in the pool and that each
-- other node that was asked for was started. The document is changed only by a seeding that was tried:
-- one that won has committed a lease of the primary, one that lost found a holder and changed nothing,
-- and after one that failed the document is as it was or has the lease applied.
pub cluster_init-Initialised :
    {S E : Type 0} (store : ConsensusStore S E) (view : S → ClusterState)
    (lin : IsLinearizable store view) (now : ℕ) (bootstrap : Option (Result String (Unit {0})))
    (state : S) (pool : NodePool) (env : Env) (only : Option ℕ) (w : World)
    → w.log ≡ []
    → Ends
        (Initialised store view lin now bootstrap state pool env only)
        Tidy
        (cluster_init store now bootstrap state pool env only w)
unfolding cluster_init ◌>>=◌
cluster_init-Initialised store view lin now bootstrap state pool env only w empty =
    (Triple-bind (local_or_fail env.in_recovery) _ (asked-Tidy env.in_recovery)
        (by_role store view lin now bootstrap state pool env only)).at
      w (rw empty tt)
