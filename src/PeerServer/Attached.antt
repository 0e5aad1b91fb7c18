-- ===== src/PeerServer/Attached.antt =====
-- Which backends an attach attaches, and in which order, and which slots a drop leaves alone
-- (crates/pg-agent-core/src/peerserver.rs, `attach_node` and `drop_slot`).
use pg_agent_rs.Prelude.{
  ℕ, String, ◌≡◌, ◌⊎◌, refl, Bool, true, false, not, ◌&&◌, ◌==◌, List, [], In, inl, inr, Bool-cases,
  Result, arith, ok, err,
}
use pg_agent_rs.Inflight.{OpId, InflightOp}
use pg_agent_rs.Inflight.Journal.{seen, Io, FileInflightOpStore}
use pg_agent_rs.Inflight.Owner.Found.{Busy, owner_of_slot-Busy}
use pg_agent_rs.Maintenance.{node_slot, node_id_from_slot}
use pg_agent_rs.Maintenance.Worker.{cross_op_grace}
use pg_agent_rs.Pcp.{NodeInfo}
use pg_agent_rs.Orchestration.{Action, attach_node, Env, World, try}
use pg_agent_rs.Orchestration.Order.{Calls, Did, InOrder, try-Ordered}
use pg_agent_rs.Orchestration.Rules.{Ends, Triple, Triple-pure, Triple-before, Triple-bind}
use pg_agent_rs.PeerServer.{
  AttachAnswer, primary_first_failed, already_up, attached, attach_failed, is_down, attach_answer,
  attach_if_down, after_primary, attach_with, peer_attach_node, Patterns, retained, peer_drop_slot,
}

module _ (infos : List NodeInfo) (node primary : ℕ) where
  -- a backend is attached only where it is down; the requested one, where the primary is another
  -- that is down, only once the primary was attached
  abbrev pub PrimaryFirst : Action → Calls → Type 0
  PrimaryFirst (attach_node x) older =
      (is_down infos x ≡ true)
      × ((x ≡ primary)
          ⊎ ((not (primary == node) && is_down infos primary) ≡ true
              → In (attach_node primary, true) older))
  PrimaryFirst _ older = Unit

  abbrev Guarded : World → Type 0
  Guarded = InOrder PrimaryFirst

  -- what an answer means
  abbrev pub Attaches : AttachAnswer → World → Type 0
  Attaches a w = Guarded w × (a ≡ attached → Did (attach_node node) w)

  module _ (env : Env) where
    answer-Triple :
        (r : Result String (Unit {0}))
        → Triple
            (λ w. Unit × Guarded w × (r ≡ ok tt → Did (attach_node node) w))
            (attach_answer env node primary r)
            Attaches
            Guarded
    answer-Triple (ok u) = Triple-pure attached (λ w (p, o, d). (o, λ q. d refl))
    answer-Triple (err e) = Triple-pure attach_failed (λ w (p, o, d). (o, λ q. absurd (cc q)))

    -- the requested backend, where its turn has come
    abbrev Turn : Calls → Type 0
    Turn older =
        (not (primary == node) && is_down infos primary) ≡ true
        → In (attach_node primary, true) older

    requested-Triple :
        Triple
          (λ w. Turn w.log × Guarded w)
          (attach_if_down env node primary infos)
          Attaches
          Guarded
    unfolding attach_if_down
    requested-Triple = elim (Bool-cases (is_down infos node)) [
      | inr e ↦ rw e (Triple-pure already_up (λ w (t, o). (o, λ q. absurd (cc q))))
      | inl e ↦ rw e (
          Triple-bind (try env (attach_node node)) (attach_answer env node primary)
            (try-Ordered PrimaryFirst env (attach_node node) Turn (λ b older t. λ q. inr (t q))
              (λ older t. (e, inr t)))
            (λ r.
              Triple-before (attach_answer env node primary r) (λ w (t, o, d). (tt, o, d))
                (answer-Triple r)))
    ]

    first-Triple :
        (r : Result String (Unit {0}))
        → Triple
            (λ w. Unit × Guarded w × (r ≡ ok tt → Did (attach_node primary) w))
            (after_primary env node primary infos r)
            Attaches
            Guarded
    first-Triple (err e) = Triple-pure primary_first_failed (λ w (p, o, d). (o, λ q. absurd (cc q)))
    first-Triple (ok u) =
        Triple-before (attach_if_down env node primary infos) (λ w (p, o, d). (λ q. d refl, o))
          requested-Triple

    attach_with-Triple : Triple Guarded (attach_with env node primary (ok infos)) Attaches Guarded
    attach_with-Triple = elim (Bool-cases (not (primary == node) && is_down infos primary)) [
      | inr e ↦ rw e (
          Triple-before (attach_if_down env node primary infos)
            (λ w o. (λ q. absurd (cc (e, q)), o)) requested-Triple)
      | inl e ↦ rw e (
          Triple-bind (try env (attach_node primary)) (after_primary env node primary infos)
            (Triple-before (try env (attach_node primary)) (λ w o. (tt, o))
              (try-Ordered PrimaryFirst env (attach_node primary) (λ older. Unit) (λ b older p. tt)
                (λ older p. (down e, inl refl))))
            first-Triple)
    ]
      where
        down :
            (not (primary == node) && is_down infos primary) ≡ true → is_down infos primary ≡ true
        down e = ground (arith, e)

-- What a peer attaches: where the map of its pgpool is read, a backend is attached only where the
-- map shows it down, and the requested one, where the primary is another backend that is down, only
-- after the primary was attached. The answer that the backend is attached means that its attach has
-- succeeded.
pub peer_attach_node-Attaches :
    (infos : List NodeInfo) (node primary : ℕ) (env : Env) (w : World)
    → w.log ≡ []
    → Ends
        (Attaches infos node primary)
        (InOrder (PrimaryFirst infos node primary))
        (peer_attach_node env node primary (ok infos) w)
unfolding peer_attach_node
peer_attach_node-Attaches infos node primary env w empty =
    (attach_with-Triple infos node primary env).at w (rw empty tt)

-- A slot of a node under reconstruction is not dropped: while the journal is read, with a file
-- of an op in progress on the node of the slot that can be read, and no completed op that is read is
-- still in its grace window on that node, the
-- peer answers that the slot is retained, the database is not asked to drop it, and the journal is left
-- as it was, whatever the evidence about the slot is.
pub peer_drop_slot-Busy :
    (pat : Patterns) (id_leb : OpId → OpId → Bool) (io : Io) (now n : ℕ)
    (active : Result (Unit {0}) Bool) (drop : Result String (Unit {0})) (j : FileInflightOpStore)
    → io.reads ≡ true
    → Busy now cross_op_grace n (seen io j.ops)
    → (o : InflightOp) × (peer_drop_slot pat id_leb io now active drop (node_slot n) j
        ≡ (retained o, false, j))
unfolding peer_drop_slot node_id_from_slot
peer_drop_slot-Busy pat id_leb io now n active drop j reads busy =
    let (o, e) = owner_of_slot-Busy id_leb io now n cross_op_grace active j reads busy in
    (o, rw e refl)
