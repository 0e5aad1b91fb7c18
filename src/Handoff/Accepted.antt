-- ===== src/Handoff/Accepted.antt =====
-- What the preflight of a handoff makes sure of, and what it leaves behind when it declines
-- (crates/pg-agent-core/src/localserver.rs, `cluster_handoff`).
use pg_agent_rs.Prelude.{
  ℕ, String, ◌+◌, ◌-◌, ◌≤◌, ◌<◌, ◌≡◌, ◌⊎◌, refl, Bool, true, false, ◌||◌, Option, none, some, ◌∷◌,
  arith, ltb, ◌==◌, Bool-cases, Result-cases, inl, inr, Result, ok, err,
}
use pg_agent_rs.Inflight.{
  InflightStatus, abandoned, in_progress, done, InflightPayload, handoff, handoff_op, from_to, OpId,
  InflightOp,
}
use pg_agent_rs.Inflight.Journal.{JournalError, FileInflightOpStore, begin}
use pg_agent_rs.Inflight.Begun.{Begun, Outcome, begin-Outcome}
use pg_agent_rs.Pool.{NodeConfig, NodePool, node_by_id, local_node, is_local}
use pg_agent_rs.Orchestration.{
  dial, Env, PeerStatus, World, Task, ◌>>=◌, ◌>>◌, try, call, ask, status_or_fail, local_or_fail,
}
use pg_agent_rs.Orchestration.Rules.{Ends}
use pg_agent_rs.Handoff.Request.{
  find_op, unless_known, max_handoff_lag, check_lag, check_target, not_recovering, node_or_fail,
  peer_or_fail, begun, begin_op, look_up, preflight,
}

-- the only call in the log was to reach a peer, and no op was begun
pub record Declined (w v : World) : Type 0 where
  pub ops_kept : v.journal.ops ≡ w.journal.ops
  pub only_dialled : (v.log ≡ w.log) ⊎ ((n : ℕ) × (b : Bool) × (v.log ≡ (dial n, b) ∷ w.log))

-- the target is not behind by more than a WAL segment, as far as that is known
pub record CaughtUp (env : Env) (s : PeerStatus) : Type 0 where
  pub lsn : ℕ
  pub local_lsn : env.wal_lsn ≡ ok lsn
  pub local_known : 0 < lsn
  pub target_known : 0 < s.current_wal_lsn
  pub not_behind : lsn ≤ s.current_wal_lsn + max_handoff_lag

-- the target runs as a standby, caught up unless the lag is allowed
pub record Fit (env : Env) (allow_lag : Bool) (s : PeerStatus) : Type 0 where
  pub running : s.is_postgres_running ≡ true
  pub standby : s.is_in_recovery ≡ true
  pub lag : (allow_lag ≡ true) ⊎ CaughtUp env s

-- The local node is the primary, the target is another node of the pool that answered as a fit
-- standby, nothing else was in progress, and the op was begun for these two.
pub record Accepted (slot_text : ℕ → String) (pool : NodePool) (env : Env) (to : ℕ)
    (allow_lag : Bool) (w : World) (id : OpId) (local target : NodeConfig) (v : World)
    : Type 0 where
  pub primary : env.in_recovery ≡ ok false
  pub here : local_node pool ≡ some local
  pub asked : node_by_id pool to ≡ some target
  pub a_peer : is_local pool target ≡ false
  pub reached : env.act (dial target.id) ≡ ok tt
  pub answer : PeerStatus
  pub answered : env.status target.id ≡ ok answer
  pub fit : Fit env allow_lag answer
  pub op : InflightOp
  pub named : op.id ≡ id
  pub begins :
      Begun
        (env.io "begin")
        (handoff local.id target.id target.hostname (slot_text local.id) allow_lag)
        "preflight_done"
        true
        w.journal
        v.journal
        op
  pub dialled : v.log ≡ (dial target.id, true) ∷ w.log

module _ {A : Type 0} (R : A → World → Type 0) (F : World → Type 0) (w : World) where
  asked-Ends :
      {B : Type 0} (r : Result String B) (f : B → Task A)
      → F w
      → ((b : B) → r ≡ ok b → Ends R F (f b w))
      → Ends R F ((local_or_fail r >>= f) w)
  unfolding ◌>>=◌
  asked-Ends (ok b) f d h = h b refl
  asked-Ends (err e) f d h = d

  status-Ends :
      (n : ℕ) (r : Result String PeerStatus) (f : PeerStatus → Task A)
      → F w
      → ((s : PeerStatus) → r ≡ ok s → Ends R F (f s w))
      → Ends R F ((status_or_fail n r >>= f) w)
  unfolding ◌>>=◌
  status-Ends n (ok s) f d h = h s refl
  status-Ends n (err e) f d h = d

  primary-Ends :
      (b : Bool) (m : Task A)
      → F w
      → (b ≡ false → Ends R F (m w))
      → Ends R F ((not_recovering b >> m) w)
  unfolding ◌>>=◌
  primary-Ends true m d h = d
  primary-Ends false m d h = h refl

  node-Ends :
      (o : Option NodeConfig) (f : NodeConfig → Task A)
      → F w
      → ((n : NodeConfig) → o ≡ some n → Ends R F (f n w))
      → Ends R F ((node_or_fail o >>= f) w)
  unfolding ◌>>=◌
  node-Ends none f d h = d
  node-Ends (some n) f d h = h n refl

  peer-Ends :
      (pool : NodePool) (o : Option NodeConfig) (f : NodeConfig → Task A)
      → F w
      → ((n : NodeConfig) → o ≡ some n → is_local pool n ≡ false → Ends R F (f n w))
      → Ends R F ((peer_or_fail pool o >>= f) w)
  unfolding ◌>>=◌
  peer-Ends pool none f d h = d
  peer-Ends pool (some n) f d h = elim (Bool-cases (is_local pool n)) [
    | inl e ↦ rw e d
    | inr e ↦ rw e (h n refl e)
  ]

  known-Ends :
      (r : Result JournalError (Option InflightOp)) (m : Task A)
      → F w
      → Ends R F (m w)
      → Ends R F ((unless_known r >> m) w)
  unfolding unless_known ◌>>=◌
  known-Ends (err e) m d h = d
  known-Ends (ok none) m d h = h
  known-Ends (ok (some op)) m d h = by_status op.status refl
    where
      by_status :
          (s : InflightStatus) → op.status ≡ s → Ends R F ((unless_known (ok (some op)) >> m) w)
      by_status in_progress e = rw e d
      by_status done e = rw e d
      by_status abandoned e = rw e h

  dial-Ends :
      (env : Env) (n : ℕ) (m : Task A)
      → F (record w { log = (dial n, false) ∷ w.log })
      → (env.act (dial n) ≡ ok tt → Ends R F (m (record w { log = (dial n, true) ∷ w.log })))
      → Ends R F ((call env (dial n) >> m) w)
  unfolding call try ◌>>=◌
  dial-Ends env n m d h = by_answer (env.act (dial n)) refl
    where
      by_answer :
          (r : Result String (Unit {0}))
          → env.act (dial n) ≡ r
          → Ends R F ((call env (dial n) >> m) w)
      by_answer (ok u) e = rw e (h e)
      by_answer (err x) e = rw e d

  lag-Ends :
      (env : Env) (s : PeerStatus) (lsn : ℕ) (m : Task A)
      → env.wal_lsn ≡ ok lsn
      → F w
      → (CaughtUp env s → Ends R F (m w))
      → Ends R F ((check_lag lsn s.current_wal_lsn >> m) w)
  unfolding check_lag ◌>>=◌
  lag-Ends env s lsn m e d h = elim (Bool-cases (lsn == 0 || s.current_wal_lsn == 0)) [
    | inl z ↦ rw z d
    | inr z ↦ elim (Bool-cases (ltb max_handoff_lag (lsn - s.current_wal_lsn))) [
      | inl l ↦ rw (z, l) d
      | inr l ↦
          rw (z, l)
            (h (record {
              lsn = lsn;
              local_lsn = e;
              local_known = ground (arith, z);
              target_known = ground (arith, z);
              not_behind = ground (arith, l);
            }))
    ]
  ]

  target-Ends :
      (env : Env) (allow_lag : Bool) (s : PeerStatus) (m : Task A)
      → F w
      → (Fit env allow_lag s → Ends R F (m w))
      → Ends R F ((check_target env allow_lag s >> m) w)
  unfolding check_target ◌>>=◌
  target-Ends env allow_lag s m d h = elim (Bool-cases s.is_postgres_running) [
    | inr r ↦ rw r d
    | inl r ↦ elim (Bool-cases s.is_in_recovery) [
      | inr i ↦ rw (r, i) d
      | inl i ↦ elim (Bool-cases allow_lag) [
        | inl a ↦ rw (r, i, a) (h (record { running = r; standby = i; lag = inl a }))
        | inr a ↦ elim (Result-cases env.wal_lsn) [
          | inr (e, q) ↦ rw (r, i, a) (rw q d)
          | inl (lsn, q) ↦
              rw (r, i, a)
                (rw q (
                  lag-Ends env s lsn m q d
                    (λ c. h (record { running = r; standby = i; lag = inr c }))))
        ]
      ]
    ]
  ]

  begin-Ends :
      (env : Env) (p : InflightPayload) (phase : String) (exclusive : Bool) (f : OpId → Task A)
      → ((j : FileInflightOpStore) → j.ops ≡ w.journal.ops → F (record w { journal = j }))
      → ((op : InflightOp) (j : FileInflightOpStore)
          → Begun (env.io "begin") p phase exclusive w.journal j op
          → Ends R F (f op.id (record w { journal = j })))
      → Ends R F ((begin_op env p phase exclusive >>= f) w)
  unfolding begin_op ◌>>=◌
  begin-Ends env p phase exclusive f d h =
      let (r, j) = begin (env.io "begin") (env.clock "begin") p phase exclusive w.journal in
      by_answer r j (begin-Outcome (env.io "begin") (env.clock "begin") p phase exclusive w.journal)
    where
      by_answer :
          (r : Result JournalError InflightOp) (j : FileInflightOpStore)
          → Outcome (env.io "begin") p phase exclusive w.journal (r, j)
          → Ends R F ((begun r >>= f) (record w { journal = j }))
      by_answer (ok op) j o = h op j o
      by_answer (err e) j o = d j o

-- an accepted request was fit and its op was begun; a declined one did nothing
pub preflight-Ends :
    (slot_text : ℕ → String) (pool : NodePool) (env : Env) (to : ℕ) (allow_lag : Bool) (w : World)
    → Ends
        (λ (id, local, target) v. Accepted slot_text pool env to allow_lag w id local target v)
        (Declined w)
        (preflight slot_text pool env to allow_lag w)
unfolding preflight look_up ask ◌>>=◌
preflight-Ends slot_text pool env to allow_lag w =
    let untouched : Declined w w = record { ops_kept = refl; only_dialled = inl refl } in
    asked-Ends R (Declined w) w env.in_recovery _ untouched (λ recovers e0.
      primary-Ends R (Declined w) w recovers _ untouched (λ e1.
        node-Ends R (Declined w) w (local_node pool) _ untouched (λ local e2.
          peer-Ends R (Declined w) w pool (node_by_id pool to) _ untouched (λ target e3 e4.
            known-Ends R (Declined w) w
              (find_op (env.io "find") handoff_op (from_to local.id target.id) w.journal) _
              untouched
              (dial-Ends R (Declined w) w env target.id _
                (dialled_only target.id false w.journal refl)
                (λ e5.
                  status-Ends R (Declined w) (after target.id) target.id (env.status target.id) _
                    (dialled_only target.id true w.journal refl)
                    (λ s e6.
                      target-Ends R (Declined w) (after target.id) env allow_lag s _
                        (dialled_only target.id true w.journal refl)
                        (λ e7.
                          begin-Ends R (Declined w) (after target.id) env
                            (handoff local.id target.id target.hostname (slot_text local.id)
                              allow_lag)
                            "preflight_done" true _ (λ j q. dialled_only target.id true j q)
                            (λ op j b. record {
                              primary = rw e1 at e0;
                              here = e2;
                              asked = e3;
                              a_peer = e4;
                              reached = e5;
                              answer = s;
                              answered = e6;
                              fit = e7;
                              op = op;
                              named = refl;
                              begins = b;
                              dialled = refl;
                            })))))))))
  where
    R : OpId × NodeConfig × NodeConfig → World → Type 0
    R (id, local, target) v = Accepted slot_text pool env to allow_lag w id local target v

    after : ℕ → World
    after n = record w { log = (dial n, true) ∷ w.log }

    dialled_only :
        (n : ℕ) (b : Bool) (j : FileInflightOpStore)
        → j.ops ≡ w.journal.ops
        → Declined w (record w { journal = j; log = (dial n, b) ∷ w.log })
    dialled_only n b j q = record { ops_kept = q; only_dialled = inr (n, b, refl) }
