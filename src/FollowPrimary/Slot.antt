-- ===== src/FollowPrimary/Slot.antt =====
-- What becomes of the replication slot when the rebasing of a standby fails
-- (crates/pg-agent-core/src/localserver.rs, `drive_follow_primary`).
use pg_agent_rs.Prelude.{
  ℕ, String, ◌≡◌, ◌⊎◌, refl, ap, Bool, true, false, none, List, [], ◌∷◌, All, leb, inl, inr,
  Option-cases, Result, ok, err, if◌then◌else◌,
}
use pg_agent_rs.Inflight.{OpId}
use pg_agent_rs.Inflight.Journal.{FileInflightOpStore, JournalError, update_phase}
use pg_agent_rs.Maintenance.{drop_slot_cleanup, node_slot}
use pg_agent_rs.Maintenance.Queue.{FileMaintenanceStore, append}
use pg_agent_rs.Pool.{NodeConfig}
use pg_agent_rs.Orchestration.{
  Action, dial, get_status, stop, start, rewind, basebackup, configure, attach_node, create_slot,
  drop_slot, Env, PeerStatus, World, failed, action_failed, invalid_argument, Task, pure, ◌>>=◌,
  ◌>>◌, when, fail, try, call, ask, status_or_fail, succeeded, or_fail, journal_or_fail,
  journal_phase, queue_drop, queue_unless_dropped, cleanup_slot_after_failure,
}
use pg_agent_rs.Orchestration.Rules.{Ends, Triple, Triple-pure, Triple-raise, Triple-bind}
use pg_agent_rs.FollowPrimary.{
  or_cleanup, guarded, stopped_if_running, stop_detached, make_standby_slot, clone_unless_rewound,
  copy_detached, configure_detached, start_detached, attach_detached, rebase, drive, fp_phase_index,
  drive_follow_primary,
}

-- the calls whose failure gives the slot up
abbrev pub gives_up : Action → Bool
gives_up (basebackup n) = true
gives_up (configure n) = true
gives_up (start n) = true
gives_up _ = false

-- no slot was dropped, and none of these calls failed
abbrev pub fine : Action × Bool → Bool
fine (drop_slot n s, b) = false
fine (basebackup n, b) = b
fine (configure n, b) = b
fine (start n, b) = b
fine _ = true

abbrev pub starts : Action → Bool
starts (start n) = true
starts _ = false

-- fine, with nothing started
abbrev pub Unstarted : List (Action × Bool) → Type 0
Unstarted log = All (λ (e : Action × Bool). (fine e ≡ true) × (starts e.0 ≡ false)) log

abbrev pub Fine : List (Action × Bool) → Type 0
Fine log = All (λ (e : Action × Bool). fine e ≡ true) log

pub Unstarted-Fine : (log : List (Action × Bool)) → Unstarted log → Fine log
Unstarted-Fine [] u = tt
Unstarted-Fine (e ∷ log) ((f, n), u) = (f, Unstarted-Fine log u)

module _ (env : Env) (id : OpId) (detached new_primary : NodeConfig)
    (q : FileMaintenanceStore) where
  -- The drop of the slot is the last call, right after the one that gave it up, before which nothing
  -- was started; a drop that failed was handed to the queue.
  pub record GivenUp (w : World) : Type 0 where
    pub given : Action
    pub because : gives_up given ≡ true
    pub dropped : Bool
    pub earlier : List (Action × Bool)
    pub calls : w.log ≡ (drop_slot new_primary.id detached.id, dropped) ∷ (given, false) ∷ earlier
    pub unstarted : Unstarted earlier
    pub cause : String
    pub why : String
    pub settled :
        ((dropped ≡ true) × (w.queue ≡ q))
        ⊎ ((env.act (drop_slot new_primary.id detached.id) ≡ err why)
            × (w.queue
                ≡ (append env.queue_io env.queue_clock
                    (drop_slot_cleanup (node_slot detached.id) new_primary.hostname cause why)
                    q).1))

  abbrev pub Before : World → Type 0
  Before w = Unstarted w.log × (w.queue ≡ q)

  abbrev pub Kept : World → Type 0
  Kept w = Fine w.log × (w.queue ≡ q)

  abbrev Over : World → Type 0
  Over w = Kept w ⊎ GivenUp w

  pub Before-Kept : (w : World) → Before w → Kept w
  Before-Kept w (u, e) = (Unstarted-Fine w.log u, e)

  journal-Triple :
      (P : World → Type 0) (phase : String)
      → ((w : World) → P w → Over w)
      → ((w : World) (j : FileInflightOpStore) → P w → P (record w { journal = j }))
      → Triple P (journal_phase env id phase) (λ u w. P w) Over
  unfolding journal_phase
  journal-Triple P phase f g = record {
    at = λ w p.
        let (r, j) = update_phase (env.io phase) (env.clock phase) id phase none w.journal in
        by_answer r (record w { journal = j }) (g w j p);
  }
    where
      by_answer :
          (r : Result JournalError (Unit {0})) (w : World)
          → P w
          → Ends (λ u v. P v) Over (journal_or_fail r w)
      by_answer (ok u) w p = p
      by_answer (err e) w p = f w p

  -- a call whose failure harms nothing
  pub try-Triple :
      (a : Action)
      → fine (a, true) ≡ true
      → fine (a, false) ≡ true
      → starts a ≡ false
      → Triple Before (try env a) (λ r w. Before w) Over
  unfolding try
  try-Triple a t f n = record { at = λ w (u, e). ((by_answer (env.act a), u), e) }
    where
      by_answer :
          (r : Result String (Unit {0})) → (fine (a, succeeded r) ≡ true) × (starts a ≡ false)
      by_answer (ok u) = (t, n)
      by_answer (err e) = (f, n)

  or_fail-Triple :
      (P : World → Type 0) (a : Action) (r : Result String (Unit {0}))
      → ((w : World) → P w → Over w)
      → Triple P (or_fail a r) (λ u w. P w) Over
  or_fail-Triple P a (ok u) f = Triple-pure tt (λ w h. h)
  or_fail-Triple P a (err e) f = Triple-raise (failed (action_failed a e)) f

  pub call-Triple :
      (a : Action)
      → fine (a, true) ≡ true
      → fine (a, false) ≡ true
      → starts a ≡ false
      → Triple Before (call env a) (λ u w. Before w) Over
  unfolding call
  call-Triple a t f n =
      Triple-bind (try env a) (or_fail a) (try-Triple a t f n)
        (λ r. or_fail-Triple Before a r (λ w h. inl (Before-Kept w h)))

  -- a call whose failure gives the slot up
  pub guarded-Triple :
      (Q : World → Type 0) (a : Action) (cause : String)
      → gives_up a ≡ true
      → ((w : World) → Before w → Q (record w { log = (a, true) ∷ w.log }))
      → Triple Before (guarded env id detached new_primary a cause) (λ u w. Q w) Over
  unfolding guarded try cleanup_slot_after_failure queue_drop ◌>>=◌
  guarded-Triple Q a cause g h = record { at = λ w p. by_answer w p (env.act a) }
    where
      slot : Action
      slot = drop_slot new_primary.id detached.id

      given_up :
          (w : World) (why : String)
          → Before w
          → (r : Result String (Unit {0})) → env.act slot ≡ r
          → Ends {A = Unit {0}}
              (λ u v. Q v)
              Over
              ((queue_unless_dropped env detached.id new_primary.hostname cause r
                  >> fail (action_failed a why))
                (record w { log = (slot, succeeded r) ∷ (a, false) ∷ w.log }))
      given_up w why (u, e) (ok t) i = inr (record {
        given = a;
        because = g;
        dropped = true;
        earlier = w.log;
        calls = refl;
        unstarted = u;
        cause = cause;
        why = why;
        settled = inl (refl, e);
      })
      given_up w why (u, e) (err x) i = inr (record {
        given = a;
        because = g;
        dropped = false;
        earlier = w.log;
        calls = refl;
        unstarted = u;
        cause = cause;
        why = x;
        settled = inr (
          i,
          ap
              (λ (st : FileMaintenanceStore).
                (append env.queue_io env.queue_clock
                  (drop_slot_cleanup (node_slot detached.id) new_primary.hostname cause x) st).1)
              e,
        );
      })

      by_answer :
          (w : World)
          → Before w
          → (r : Result String (Unit {0}))
          → Ends {A = Unit {0}}
              (λ u v. Q v)
              Over
              (or_cleanup env id detached new_primary a cause r
                (record w { log = (a, succeeded r) ∷ w.log }))
      by_answer w p (ok u) = h w p
      by_answer w p (err why) = given_up w why p (env.act slot) refl

  going : (w : World) → Before w → Over w
  going w h = inl (Before-Kept w h)

  recorded : (phase : String) → Triple Before (journal_phase env id phase) (λ u w. Before w) Over
  recorded phase = journal-Triple Before phase going (λ w j h. h)

  Kept-recorded : (phase : String) → Triple Kept (journal_phase env id phase) (λ u w. Kept w) Over
  Kept-recorded phase = journal-Triple Kept phase (λ w h. inl h) (λ w j h. h)

  make-Triple : Triple Before (make_standby_slot env id detached new_primary) (λ u w. Before w) Over
  unfolding make_standby_slot
  make-Triple =
      Triple-bind (call env (create_slot new_primary.id detached.id)) _
        (call-Triple (create_slot new_primary.id detached.id) refl refl refl)
        (λ u. recorded "slot_created")

  pub clone-Triple :
      (r : Result String (Unit {0}))
      → Triple Before (clone_unless_rewound env id detached new_primary r) (λ u w. Before w) Over
  clone-Triple (ok u) = Triple-pure tt (λ w h. h)
  clone-Triple (err e) =
      guarded-Triple Before (basebackup detached.id) "follow_primary_basebackup_failed" refl
        (λ w (u, e). (((refl, refl), u), e))

  copy-Triple : Triple Before (copy_detached env id detached new_primary) (λ u w. Before w) Over
  unfolding copy_detached
  copy-Triple =
      Triple-bind
        (try env (rewind detached.id) >>= clone_unless_rewound env id detached new_primary) _
        (Triple-bind (try env (rewind detached.id))
          (clone_unless_rewound env id detached new_primary)
          (try-Triple (rewind detached.id) refl refl refl) clone-Triple)
        (λ u. recorded "data_copied")

  configure-Triple :
      Triple Before (configure_detached env id detached new_primary) (λ u w. Before w) Over
  unfolding configure_detached
  configure-Triple =
      Triple-bind
        (guarded env id detached new_primary (configure detached.id)
          "follow_primary_configure_standby_failed")
        _
        (guarded-Triple Before (configure detached.id) "follow_primary_configure_standby_failed"
          refl (λ w (u, e). (((refl, refl), u), e)))
        (λ u. recorded "recovery_conf_written")

  start-Triple : Triple Before (start_detached env id detached new_primary) (λ u w. Kept w) Over
  unfolding start_detached
  start-Triple =
      Triple-bind
        (guarded env id detached new_primary (start detached.id) "follow_primary_start_failed") _
        (guarded-Triple Kept (start detached.id) "follow_primary_start_failed" refl
          (λ w (u, e). ((refl, Unstarted-Fine w.log u), e)))
        (λ u. Kept-recorded "detached_started")

  attach_try-Triple : Triple Kept (try env (attach_node detached.id)) (λ r w. Kept w) Over
  unfolding try
  attach_try-Triple = record { at = λ w (f, e). ((refl, f), e) }

  pub attach_call-Triple : Triple Kept (call env (attach_node detached.id)) (λ u w. Kept w) Over
  unfolding call
  attach_call-Triple =
      Triple-bind (try env (attach_node detached.id)) (or_fail (attach_node detached.id))
        attach_try-Triple (λ r. or_fail-Triple Kept (attach_node detached.id) r (λ w h. inl h))

  attach-Triple : Triple Kept (attach_detached env id detached new_primary) (λ u w. Kept w) Over
  unfolding attach_detached
  attach-Triple =
      Triple-bind (call env (attach_node detached.id)) _ attach_call-Triple
        (λ u. Kept-recorded "attached")

  when-Triple :
      (P : World → Type 0) (b : Bool) (m : Task (Unit {0}))
      → Triple P m (λ u w. P w) Over
      → Triple P (when b m) (λ u w. P w) Over
  when-Triple P true m t = t
  when-Triple P false m t = Triple-pure tt (λ w h. h)

  start_when-Triple :
      (b : Bool)
      → Triple Before (when b (start_detached env id detached new_primary)) (λ u w. Kept w) Over
  start_when-Triple true = start-Triple
  start_when-Triple false = Triple-pure tt Before-Kept

  rebase-Triple :
      (s : ℕ) → Triple Before (rebase env id detached new_primary s) (λ u w. Kept w) Over
  unfolding rebase
  rebase-Triple s = Triple-bind _ _ (when-Triple Before (leb s 2) _ make-Triple) (λ u.
      Triple-bind _ _ (when-Triple Before (leb s 3) _ copy-Triple) (λ u.
        Triple-bind _ _ (when-Triple Before (leb s 4) _ configure-Triple) (λ u.
          Triple-bind _ _ (start_when-Triple (leb s 5))
            (λ u. when-Triple Kept (leb s 6) _ attach-Triple))))

  stopped-Triple :
      (running : Bool)
      → Triple Before
          (stopped_if_running env id detached new_primary running)
          (λ b w. Before w)
          Over
  stopped-Triple false = Triple-pure false (λ w h. h)
  stopped-Triple true =
      Triple-bind (call env (stop detached.id)) _ (call-Triple (stop detached.id) refl refl refl)
        (λ u.
          Triple-bind (journal_phase env id "detached_stopped") _ (recorded "detached_stopped")
            (λ u. Triple-pure true (λ w h. h)))

  pub asked-Triple :
      (r : Result String PeerStatus)
      → Triple Before (status_or_fail detached.id r) (λ s w. Before w) Over
  asked-Triple (ok s) = Triple-pure s (λ w h. h)
  asked-Triple (err e) = Triple-raise (failed (action_failed (get_status detached.id) e)) going

  stop-Triple :
      (b : Bool)
      → Triple Before
          (if b then stop_detached env id detached new_primary else pure true)
          (λ b w. Before w)
          Over
  unfolding stop_detached ask
  stop-Triple true =
      Triple-bind (ask env detached.id) _ (asked-Triple (env.status detached.id))
        (λ s. stopped-Triple s.is_running)
  stop-Triple false = Triple-pure true (λ w h. h)

  rebase-when-Triple :
      (b : Bool) (s : ℕ)
      → Triple Before (when b (rebase env id detached new_primary s)) (λ u w. Kept w) Over
  rebase-when-Triple true s = rebase-Triple s
  rebase-when-Triple false s = Triple-pure tt Before-Kept

  drive-Triple : (s : ℕ) → Triple Before (drive env id detached new_primary s) (λ u w. Kept w) Over
  unfolding drive
  drive-Triple s = Triple-bind _ _ (when-Triple Before (leb s 0) _ (recorded "dialing")) (λ u.
      Triple-bind _ _ (call-Triple (dial detached.id) refl refl refl) (λ u.
        Triple-bind _ _ (call-Triple (dial new_primary.id) refl refl refl)
          (λ u. Triple-bind _ _ (stop-Triple (leb s 1)) (λ b. rebase-when-Triple b s))))

  phase-Triple :
      (phase : String)
      → Triple Before (drive_follow_primary env id detached new_primary phase) (λ u w. Kept w) Over
  unfolding drive_follow_primary
  phase-Triple phase = elim (Option-cases (fp_phase_index phase)) [
    | inl e ↦ rw e (Triple-raise (failed invalid_argument) going)
    | inr (s, e) ↦ rw e (drive-Triple s)
  ]

-- When the slot of a standby that is rebased is given up: from an empty log, a run from any phase that
-- succeeds dropped no slot, and none of its copies, configurations and starts failed except a
-- rewind. A run that fails either leaves the same, or its last two calls are such a failure and the
-- drop of the slot on the new primary, with nothing started before; and if the drop failed, its
-- cleanup was handed to the maintenance queue. The queue is otherwise as it was. So a run that fails
-- in no copy, configuration or start, but in the journal or an attach, leaves the slot in place.
pub drive_follow_primary-Slot :
    (env : Env) (id : OpId) (detached new_primary : NodeConfig) (phase : String) (w : World)
    → w.log ≡ []
    → Ends
        (λ u v. Kept env id detached new_primary w.queue v)
        (λ v.
          Kept env id detached new_primary w.queue v
          ⊎ GivenUp env id detached new_primary w.queue v)
        (drive_follow_primary env id detached new_primary phase w)
drive_follow_primary-Slot env id detached new_primary phase w e =
    (phase-Triple env id detached new_primary w.queue phase).at w (rw e tt, refl)
