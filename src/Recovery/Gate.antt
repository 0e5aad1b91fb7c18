-- ===== src/Recovery/Gate.antt =====
-- The start is the gate of an operator's reclone (crates/pg-agent-core/src/localserver.rs,
-- `cluster_recover`).
use pg_agent_rs.Prelude.{
  ℕ, String, ◌≡◌, refl, Bool, true, false, Option, none, some, List, [], ◌∷◌, In, inl, inr,
  Bool-cases, Result, ok, err,
}
use pg_agent_rs.Inflight.{recovery, InflightOp}
use pg_agent_rs.Inflight.Journal.{JournalError, begin}
use pg_agent_rs.Pool.{
  NodeConfig, NodePool, NodeRef, node_by_id, local_node, is_local, resolve_node, resolve_local_node,
}
use pg_agent_rs.Orchestration.{
  Action, dial, stop, start, start_pgpool, attach_node, peer_attach, configure, get_status, Env,
  PeerStatus, World, failed, replied, OpResult, Task, pure, ◌>>=◌, try, call, ask, status_or_fail,
  local_or_fail, internal, action_failed, not_primary, target_runs,
}
use pg_agent_rs.Orchestration.Order.{Calls, try-Ordered, call-Ordered}
use pg_agent_rs.Orchestration.Rules.{
  Ends, Triple, Triple-pure, Triple-raise, Triple-before, Triple-after, Triple-if, Triple-bind,
}
use pg_agent_rs.Failover.{given}
use pg_agent_rs.Handoff.Request.{not_recovering, node_or_fail, peer_or_fail}
use pg_agent_rs.Recovery.{
  begun_or_fail, begin_recovery, run_recovery, recover_standby, recovery_first_stage, ref_of,
  stop_target, attach_at, fan_out_attach, back_online, finish_recover, cluster_recover,
}
use pg_agent_rs.Recovery.Order.{RebuildFirst, Tidy, run_recovery-Triple}

module _ {A B : Type 0} (R : B → World → Type 0) where
  given-Tidy :
      (o : Option A) (f : A → Task B)
      → ((a : A) → o ≡ some a → Triple Tidy (f a) R Tidy)
      → Triple Tidy (given o >>= f) R Tidy
  unfolding ◌>>=◌
  given-Tidy none f h = record { at = λ w o. o }
  given-Tidy (some a) f h = record { at = λ w o. (h a refl).at w o }

module _ {B : Type 0} (R : B → World → Type 0) where
  peer-Tidy :
      (pool : NodePool) (o : Option NodeConfig) (f : NodeConfig → Task B)
      → ((n : NodeConfig) → o ≡ some n → Triple Tidy (f n) R Tidy)
      → Triple Tidy (peer_or_fail pool o >>= f) R Tidy
  unfolding ◌>>=◌
  peer-Tidy pool none f h = record { at = λ w o. o }
  peer-Tidy pool (some n) f h = elim (Bool-cases (is_local pool n)) [
    | inl e ↦ record { at = λ w o. rw e o }
    | inr e ↦ record { at = λ w o. rw e ((h n refl).at w o) }
  ]

pub node-Tidy : (o : Option NodeConfig) → Triple Tidy (node_or_fail o) (λ n w. Tidy w) Tidy
node-Tidy none = Triple-raise (failed internal) (λ w o. o)
node-Tidy (some n) = Triple-pure n (λ w o. o)

pub asked-Tidy :
    {A : Type 0} (r : Result String A) → Triple Tidy (local_or_fail r) (λ a w. Tidy w) Tidy
asked-Tidy (ok a) = Triple-pure a (λ w o. o)
asked-Tidy (err e) = Triple-raise (failed internal) (λ w o. o)

primary-Tidy : (b : Bool) → Triple Tidy (not_recovering b) (λ u w. Tidy w) Tidy
primary-Tidy true = Triple-raise (replied (record { ok = false; message = not_primary })) (λ w o. o)
primary-Tidy false = Triple-pure tt (λ w o. o)

status-Tidy :
    (n : ℕ) (r : Result String PeerStatus) → Triple Tidy (status_or_fail n r) (λ s w. Tidy w) Tidy
status-Tidy n (ok s) = Triple-pure s (λ w o. o)
status-Tidy n (err e) = Triple-raise (failed (action_failed (get_status n) e)) (λ w o. o)

abbrev Anything : Calls → Type 0
Anything older = Unit

dial-Tidy : (env : Env) (n : ℕ) → Triple Tidy (call env (dial n)) (λ u w. Tidy w) Tidy
dial-Tidy env n =
    Triple-after (call env (dial n)) (λ u w (h, o, d). o)
      (Triple-before (call env (dial n)) (λ w o. (tt, o))
        (call-Ordered RebuildFirst env (dial n) Anything (λ b older h. tt) (λ older h. tt)))

stop-Tidy :
    (env : Env) (asked : Bool) (n : ℕ) (running : Bool)
    → Triple Tidy (stop_target env asked n running) (λ u w. Tidy w) Tidy
stop-Tidy env asked n false = Triple-pure tt (λ w o. o)
stop-Tidy env false n true =
    Triple-raise (replied (record { ok = false; message = target_runs })) (λ w o. o)
stop-Tidy env true n true =
    Triple-after (call env (stop n)) (λ u w (h, o, d). o)
      (Triple-before (call env (stop n)) (λ w o. (tt, o))
        (call-Ordered RebuildFirst env (stop n) Anything (λ b older h. tt) (λ older h. tt)))

-- the recovery configures the standby that the reference names
begin-Tidy :
    (slot_text : ℕ → String) (env : Env) (p s : NodeConfig)
    → Triple Tidy (begin_recovery slot_text env p s) (λ id w. Tidy w) Tidy
unfolding begin_recovery
begin-Tidy slot_text env p s = record {
  at = λ w o.
      let (r, j) =
        begin (env.io "begin") (env.clock "begin") (recovery p.id s.id s.hostname (slot_text s.id))
          "started" false w.journal in
      by_answer r (record w { journal = j }) o;
}
  where
    by_answer :
        (r : Result JournalError InflightOp) (w : World)
        → Tidy w
        → Ends (λ id v. Tidy v) Tidy (begun_or_fail r w)
    by_answer (ok op) w o = o
    by_answer (err e) w o = o

recover_standby-Triple :
    (slot_text : ℕ → String) (pool : NodePool) (env : Env) (r : NodeRef) (s : NodeConfig)
    → resolve_node pool (ref_of s) ≡ some s
    → Triple Tidy
        (recover_standby slot_text pool env r (ref_of s))
        (λ a w. Tidy w × In (configure s.id, true) w.log)
        Tidy
unfolding recover_standby ◌>>=◌
recover_standby-Triple slot_text pool env r s e =
    given-Tidy Q (resolve_local_node pool r) _
      (λ p q. rw e (record { at = λ w o. (from p s).at w o }))
  where
    Q : OpResult → World → Type 0
    Q a w = Tidy w × In (configure s.id, true) w.log

    from :
        (p s' : NodeConfig)
        → Triple Tidy
            (begin_recovery slot_text env p s' >>= (λ id. run_recovery env id p s'))
            (λ a w. Tidy w × In (configure s'.id, true) w.log)
            Tidy
    from p s' =
        Triple-bind _ _ (begin-Tidy slot_text env p s') (λ id. run_recovery-Triple env id p s')

module _ (env : Env) (s : ℕ) where
  Started : Calls → Type 0
  Started older = In (start s, true) older

  -- the calls after the gate
  after_start-Triple :
      (a : Action)
      → ((older : Calls) → Started older → RebuildFirst a older)
      → Triple (λ w. Started w.log × Tidy w) (try env a) (λ r w. Started w.log × Tidy w) Tidy
  unfolding Started
  after_start-Triple a f =
      Triple-after (try env a) (λ r w (h, o, d). (h, o))
        (try-Ordered RebuildFirst env a Started (λ b older h. inr h) f)

  attach_at-Triple :
      (m : ℕ) (r : Result String (Unit {0}))
      → Triple
          (λ w. Started w.log × Tidy w)
          (attach_at env m s r)
          (λ r w. Started w.log × Tidy w)
          Tidy
  unfolding Started
  attach_at-Triple m (ok u) = after_start-Triple (peer_attach m s) (λ older h. h)
  attach_at-Triple m (err e) = Triple-pure (err e) (λ w h. h)

  fan_out-Triple :
      (pool : NodePool) (ms : List NodeConfig)
      → Triple
          (λ w. Started w.log × Tidy w)
          (fan_out_attach pool env s ms)
          (λ rs w. Started w.log × Tidy w)
          Tidy
  unfolding fan_out_attach
  fan_out-Triple pool [] = Triple-pure [] (λ w h. h)
  fan_out-Triple pool (m ∷ ms) = elim (Bool-cases (is_local pool m)) [
    | inl e ↦ rw e (fan_out-Triple pool ms)
    | inr e ↦ rw e (
        Triple-bind _ _
          (Triple-bind (try env (dial m.id)) (attach_at env m.id s)
            (after_start-Triple (dial m.id) (λ older h. tt)) (attach_at-Triple m.id))
          (λ r. Triple-bind _ _ (fan_out-Triple pool ms) (λ rs. Triple-pure _ (λ w h. h))))
  ]

  back_online-Triple :
      (pool : NodePool) (r : Result String (Unit {0}))
      → Triple
          (λ w. Unit × Tidy w × (r ≡ ok tt → Started w.log))
          (back_online pool env s r)
          (λ a w. Tidy w × (a.ok ≡ true → Started w.log))
          Tidy
  unfolding Started
  back_online-Triple pool (err e) = Triple-pure _ (λ w (u, o, h). (o, λ q. absurd (cc q)))
  back_online-Triple pool (ok u) =
      Triple-before (back_online pool env s (ok u)) (λ w (v, o, h). (h refl, o))
        (Triple-bind _ _ (after_start-Triple (start_pgpool s) (λ older h. h)) (λ a.
          Triple-bind _ _ (after_start-Triple (attach_node s) (λ older h. h)) (λ b.
            Triple-bind _ _ (fan_out-Triple pool pool.members)
              (λ rs. Triple-pure _ (λ w (h, o). (o, λ q. h))))))

  finish-Triple :
      (pool : NodePool) (a : OpResult)
      → Triple
          (λ w. Tidy w × In (configure s, true) w.log)
          (finish_recover pool env s a)
          (λ a w. Tidy w × (a.ok ≡ true → Started w.log))
          Tidy
  finish-Triple pool a =
      Triple-if a.ok (try env (start s) >>= back_online pool env s) (pure a)
        (λ e.
          Triple-bind (try env (start s)) (back_online pool env s)
            (Triple-after (try env (start s)) (λ r w (c, o, d). (tt, o, λ q. unfold Started in d q))
              (Triple-before (try env (start s)) (λ w (o, c). (c, o))
                (try-Ordered RebuildFirst env (start s) (λ older. In (configure s, true) older)
                  (λ b older h. inr h) (λ older h. h))))
            (back_online-Triple pool))
        (λ e. Triple-pure a (λ w (o, c). (o, λ q. absurd (cc (e, q)))))

-- the answer of a reclone, with what it means
abbrev pub Recovered : NodePool → ℕ → OpResult → World → Type 0
Recovered pool to a w =
    Tidy w
    × (a.ok ≡ true → (n : NodeConfig) × (node_by_id pool to ≡ some n) × In (start n.id, true) w.log)

module _ (slot_text : ℕ → String) (pool : NodePool) (before during after : Env) (to : ℕ)
    (stop_asked : Bool) where
  recover-Triple :
      ((n : NodeConfig) → node_by_id pool to ≡ some n → resolve_node pool (ref_of n) ≡ some n)
      → Triple Tidy
          (cluster_recover slot_text pool before during after to stop_asked)
          (λ a w. Recovered pool to a w)
          Tidy
  unfolding cluster_recover Started recovery_first_stage ask
  recover-Triple each = Triple-bind _ _ (asked-Tidy before.in_recovery) (λ b.
      Triple-bind _ _ (primary-Tidy b) (λ u. Triple-bind _ _ (node-Tidy (local_node pool)) (λ p.
        peer-Tidy (Recovered pool to) pool (node_by_id pool to) _ (λ s e.
          Triple-bind _ _ (dial-Tidy before s.id) (λ u.
            Triple-bind _ _ (status-Tidy s.id (before.status s.id)) (λ st.
              Triple-bind _ _ (stop-Tidy before stop_asked s.id st.is_postgres_running) (λ u.
                Triple-bind _ _
                  (record {
                    at = λ w o.
                        (recover_standby-Triple slot_text pool during (ref_of p) s (each s e)).at w
                          o;
                  })
                  (λ a.
                    Triple-after (finish_recover pool after s.id a)
                      (λ a w (o, h). (o, λ q. (s, e, h q)))
                      (finish-Triple after s.id pool a)))))))))

-- A reclone is done in order, and its start is the gate: from an empty log, whatever fails, the
-- standby was copied only after its slot was made, configured only after it was copied, started
-- only after it was configured, and neither its pgpool was started nor was it attached anywhere
-- before it had started; a slot was dropped only after it was made. An answer at the end that all
-- is well means that the target, which the pool has under the asked id, was started. The condition is
-- that the target's host name and id name the target in the pool.
pub cluster_recover-Recovered :
    (slot_text : ℕ → String) (pool : NodePool) (before during after : Env) (to : ℕ)
    (stop_asked : Bool) (w : World)
    → ((n : NodeConfig) → node_by_id pool to ≡ some n → resolve_node pool (ref_of n) ≡ some n)
    → w.log ≡ []
    → Ends
        (Recovered pool to)
        Tidy
        (cluster_recover slot_text pool before during after to stop_asked w)
cluster_recover-Recovered slot_text pool before during after to stop_asked w each e =
    (recover-Triple slot_text pool before during after to stop_asked each).at w (rw e tt)
