-- ===== src/Maintenance/Budget.antt =====
-- The retry budget of the worker (`process_intent` and `fail` of
-- crates/pg-agent-core/src/maintenance.rs).
use mathlib.Core.Path.{subst}
use pg_agent_rs.Prelude.{
  sym, ℕ, suc, String, ◌+◌, ◌*◌, ◌<◌, ◌≤◌, ◌≡◌, refl, Bool, true, false, Option, none, some, List,
  [], ◌∷◌, ◌⊎◌, inl, inr, arith, leb, u32, length, All, Bool-cases, Result, ok, err, if◌then◌else◌,
}
use pg_agent_rs.Inflight.{OpId, InflightOp}
use pg_agent_rs.Maintenance.{
  MaintenanceStatus, pending, done, abandoned, status_eqb, SlotName, MaintenancePayload,
  drop_slot_cleanup, Failure, peer_client, peer_drop, local_drop, unresolved_host, IntentId,
  MaintenanceIntent,
}
use pg_agent_rs.Maintenance.Queue.{
  QueueError, FileMaintenanceStore, get, attempted, finished, given_up, mark_attempt, mark_done,
  mark_abandoned,
}
use pg_agent_rs.Maintenance.Backoff.{backoff}
use pg_agent_rs.Pool.{NodeConfig, NodePool, node_by_hostname, is_local}
use pg_agent_rs.Maintenance.Stored.{working, get-id, get-rewrite}
use pg_agent_rs.Maintenance.Worker.{
  World, Agent, second, fail, settle_drop, drop_on_peer, issue_drop, unless_owned, drop_resolved,
  process_drop_slot, process_payload, process_intent,
}

-- what one pass makes of an intent: done; or one attempt more, and the retry after the delay of that
-- attempt; or given up, on the fifth attempt
pub data Progress (now : ℕ) (i j : MaintenanceIntent) : Type 0 where
  cleaned : j.status ≡ done → Progress now i j
  retried :
      j.status ≡ pending
      → j.attempts ≡ suc i.attempts
      → suc i.attempts < 5
      → j.next_retry_at ≡ some (now + backoff (suc i.attempts) * second)
      → Progress now i j
  exhausted : j.status ≡ abandoned → suc i.attempts ≡ 5 → Progress now i j

-- the intent that the queue holds afterwards is such a one
abbrev pub Moves : ℕ → MaintenanceIntent → FileMaintenanceStore → Type 0
Moves now i q =
    (j : MaintenanceIntent) × (get working i.id q ≡ ok j) × (j.id ≡ i.id) × Progress now i j

module _ (w : World) (io : w.queue_io ≡ working) (i : MaintenanceIntent)
    (budget : i.attempts < 5) where
  mark_done-Moves :
      (q : FileMaintenanceStore)
      → get working i.id q ≡ ok i
      → Moves w.now i (mark_done w.queue_io w.now i.id q).1
  unfolding mark_done
  mark_done-Moves q h =
      rw io (finished w.now i, get-rewrite i (finished w.now) q h refl, refl, cleaned refl)

  fail-Moves :
      (why : Failure) (q : FileMaintenanceStore)
      → get working i.id q ≡ ok i
      → Moves w.now i (fail w i why q).1
  unfolding fail mark_attempt mark_abandoned
  fail-Moves why q h =
      let retry_at = w.now + backoff (u32 (i.attempts + 1)) * second in
      let n : u32 (i.attempts + 1) ≡ suc i.attempts = omega (arith, budget) in
      elim (Bool-cases (leb 5 (u32 (i.attempts + 1)))) [
        | inl e ↦
            rw (e, io)
              (
                given_up w.now why i,
                get-rewrite i (given_up w.now why) q h refl,
                refl,
                exhausted refl (ground (arith, e, budget)),
              )
        | inr e ↦
            rw (e, io)
              (
                attempted w.now why retry_at i,
                get-rewrite i (attempted w.now why retry_at) q h refl,
                refl,
                retried refl n (ground (arith, e, budget)) (rw n refl),
              )
      ]

  settle_drop-Moves :
      (slot : SlotName) (host : String) (why : String → Failure)
      (o : Option (Result String (Unit {0}))) (q : FileMaintenanceStore)
      → get working i.id q ≡ ok i
      → Moves w.now i (settle_drop w i slot host why o q).1
  unfolding settle_drop
  settle_drop-Moves slot host why none q h = fail-Moves _ q h
  settle_drop-Moves slot host why (some (ok u)) q h = mark_done-Moves q h
  settle_drop-Moves slot host why (some (err e)) q h = fail-Moves (why e) q h

  drop_on_peer-Moves :
      (pool : NodePool) (slot : SlotName) (host : String) (node : NodeConfig) (a : Agent)
      → get working i.id a.queue ≡ ok i
      → Moves w.now i (issue_drop pool w i slot host node a).1.queue
  unfolding issue_drop drop_on_peer
  drop_on_peer-Moves pool slot host node a h = elim (Bool-cases (is_local pool node)) [
    | inl e ↦ rw e (settle_drop-Moves slot host local_drop w.local_answer a.queue h)
    | inr e ↦ rw e (by_client w.client)
  ]
    where
      by_client :
          (c : Option (Result String (Unit {0})))
          → Moves w.now i (drop_on_peer w i slot host node.id c a).1.queue
      by_client none = settle_drop-Moves slot host (peer_client host) none a.queue h
      by_client (some (ok u)) =
          settle_drop-Moves slot host (peer_drop slot host) w.peer_answer a.queue h
      by_client (some (err e)) =
          settle_drop-Moves slot host (peer_client host) (some (err e)) a.queue h

  unless_owned-Moves :
      (pool : NodePool) (slot : SlotName) (host : String) (node : NodeConfig)
      (owner : Option InflightOp) (a : Agent)
      → get working i.id a.queue ≡ ok i
      → Moves w.now i (unless_owned pool w i slot host node owner a).1.queue
  unfolding unless_owned
  unless_owned-Moves pool slot host node none a h = drop_on_peer-Moves pool slot host node a h
  unless_owned-Moves pool slot host node (some op) a h = mark_done-Moves a.queue h

  drop_resolved-Moves :
      (op_leb : OpId → OpId → Bool) (pool : NodePool) (slot : SlotName) (host : String)
      (node : Option NodeConfig) (a : Agent)
      → get working i.id a.queue ≡ ok i
      → Moves w.now i (drop_resolved op_leb pool w i slot host node a).1.queue
  unfolding drop_resolved
  drop_resolved-Moves op_leb pool slot host none a h = fail-Moves (unresolved_host host) a.queue h
  drop_resolved-Moves op_leb pool slot host (some node) a h =
      unless_owned-Moves pool slot host node _ _ h

  -- Whatever the peers, the database and the journal answer, one pass over an intent that the queue
  -- holds with fewer than five attempts leaves it in the queue: done; or pending with one attempt
  -- more, still fewer than five, and the retry at the delay of that attempt; or abandoned, and this
  -- was the fifth attempt. The queue's directory answers.
  pub process_intent-Progress :
      (op_leb : OpId → OpId → Bool) (pool : NodePool) (a : Agent)
      → get working i.id a.queue ≡ ok i
      → Moves w.now i (process_intent op_leb pool w i a).1.queue
  unfolding process_intent process_payload process_drop_slot
  process_intent-Progress op_leb pool a h = by_payload i.payload
    where
      by_payload :
          (p : MaintenancePayload) → Moves w.now i (process_payload op_leb pool w i p a).1.queue
      by_payload (drop_slot_cleanup slot host cause initial) =
          drop_resolved-Moves op_leb pool slot host (node_by_hostname pool host) a h

-- done or abandoned
abbrev pub Over : MaintenanceIntent → Type 0
Over i = (i.status ≡ done) ⊎ (i.status ≡ abandoned)

over : (i : MaintenanceIntent) → status_eqb i.status pending ≡ false → Over i
over i s = status i.status s
  where
    status : (t : MaintenanceStatus) → status_eqb t pending ≡ false → (t ≡ done) ⊎ (t ≡ abandoned)
    status pending h = absurd (cc h)
    status done h = inl refl
    status abandoned h = inr refl

module _ (op_leb : OpId → OpId → Bool) (pool : NodePool) (id : IntentId) where
  pass : World → Result QueueError MaintenanceIntent → Agent → Agent
  unfolding process_intent
  pass w (err e) a = a
  pass w (ok i) a =
      let after = (process_intent op_leb pool w i a).1 in
      if status_eqb i.status pending then after else a

  -- the passes over one intent, each while it is pending
  unfoldable pub passes : List World → Agent → Agent
  unfolding pass
  passes [] a = a
  passes (w ∷ ws) a = passes ws (pass w (get working id a.queue) a)

  pass_settled :
      (w : World) (r : Result QueueError MaintenanceIntent) (a : Agent) (i : MaintenanceIntent)
      → r ≡ ok i
      → status_eqb i.status pending ≡ false
      → pass w r a ≡ a
  unfolding pass
  pass_settled w r a i h s = rw h (rw s refl)

  pass_pending :
      (w : World) (r : Result QueueError MaintenanceIntent) (a : Agent) (i : MaintenanceIntent)
      → r ≡ ok i
      → status_eqb i.status pending ≡ true
      → pass w r a ≡ (process_intent op_leb pool w i a).1
  unfolding pass
  pass_pending w r a i h s = rw h (rw s refl)

  settled-passes :
      (ws : List World) (a : Agent) (i : MaintenanceIntent)
      → get working id a.queue ≡ ok i
      → status_eqb i.status pending ≡ false
      → get working id (passes ws a).queue ≡ ok i
  unfolding passes
  settled-passes [] a i h s = h
  settled-passes (w ∷ ws) a i h s =
      subst (λ x. get working id (passes ws x).queue ≡ ok i) (sym (pass_settled w _ a i h s))
        (settled-passes ws a i h s)

  abbrev Ends : FileMaintenanceStore → Type 0
  Ends q = (j : MaintenanceIntent) × (get working id q ≡ ok j) × Over j

  settled-Ends :
      (ws : List World) (a : Agent) (i : MaintenanceIntent)
      → get working id a.queue ≡ ok i
      → status_eqb i.status pending ≡ false
      → Ends (passes ws a).queue
  settled-Ends ws a i h s = (i, settled-passes ws a i h s, over i s)

  by-Progress :
      (ws : List World) (next : Agent) (now : ℕ) (i j : MaintenanceIntent)
      → get working id next.queue ≡ ok j
      → Progress now i j
      → (j.attempts < 5 → 5 ≤ j.attempts + length ws → Ends (passes ws next).queue)
      → 5 ≤ i.attempts + suc (length ws)
      → Ends (passes ws next).queue
  by-Progress ws next now i j g (cleaned d) again enough = settled-Ends ws next j g (rw d refl)
  by-Progress ws next now i j g (exhausted d n) again enough = settled-Ends ws next j g (rw d refl)
  by-Progress ws next now i j g (retried d n lt at) again enough =
      again (omega (arith, n, lt)) (omega (arith, n, enough))

  -- An intent does not stay in the queue for ever: once there were five passes over it (the attempts
  -- already counted included), it is done or abandoned, whatever the peers, the database and the
  -- journal answered. The queue's directory answers.
  pub passes-Over :
      (ws : List World) (a : Agent) (i : MaintenanceIntent)
      → All (λ (w : World). w.queue_io ≡ working) ws
      → get working id a.queue ≡ ok i
      → i.attempts < 5
      → 5 ≤ i.attempts + length ws
      → (j : MaintenanceIntent) × (get working id (passes ws a).queue ≡ ok j) × Over j
  unfolding passes
  passes-Over [] a i good h below enough = absurd (omega (arith, below, enough))
  passes-Over (w ∷ ws) a i (io, good) h below enough =
      elim (Bool-cases (status_eqb i.status pending)) [
        | inr s ↦ settled-Ends (w ∷ ws) a i h s
        | inl s ↦
            let e = get-id id i a.queue h in
            let next = (process_intent op_leb pool w i a).1 in
            let (j, g, k, p) =
              process_intent-Progress w io i below op_leb pool a
                (subst (λ x. get working x a.queue ≡ ok i) (sym e) h) in
            let found = subst (λ x. get working x next.queue ≡ ok j) e g in
            subst (λ x. Ends (passes ws x).queue) (sym (pass_pending w _ a i h s))
              (by-Progress ws next w.now i j found p
                (λ lt more. passes-Over ws next j good found lt more) enough)
      ]
