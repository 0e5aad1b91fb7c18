-- ===== src/Handoff/Safe.antt =====
-- The ladder of a handoff is climbed in order, whatever fails on the way
-- (crates/pg-agent-core/src/localserver.rs, `run_handoff_from_phase`).
use pg_agent_rs.Prelude.{
  ℕ, suc, String, ◌≤◌, ◌≡◌, ◌⊎◌, refl, true, false, In, arith, leb, inl, inr, Result, ok, err,
  if◌then◌else◌,
}
use pg_agent_rs.Inflight.{OpId}
use pg_agent_rs.Orchestration.{
  checkpoint, promote, stop, start, rewind, basebackup, configure, attach_node, create_slot,
  drop_slot, Env, World, Copied, rewound, cloned, replied, both_copies_failed, Task, pure, ◌>>=◌,
  try, call, journal_phase, journal_abandon,
}
use pg_agent_rs.Orchestration.Rules.{
  Triple, Triple-pure, Triple-raise, Triple-before, Triple-after, Triple-if, Triple-bind,
}
use pg_agent_rs.Handoff.{
  handoff_phase_index, promote_target, make_slot, stop_local, give_up, cloned_or, rewound_or,
  copy_data, write_conf, start_local, attach_local, climb,
}
use pg_agent_rs.Handoff.Rungs.{
  Log, AllDone, AllDone-lower, Sound, At, Triple-try, Triple-call, Triple-journal, Triple-complete,
  Triple-abandon,
}

module _ (local target : ℕ) where
  -- one more step has succeeded
  promoted_done : (log : Log) → In (promote target, true) log → AllDone local target 1 log
  promoted_done log m = record {
    promoted = λ h. m;
    slot_made = λ h. absurd (omega (arith, h));
    stopped = λ h. absurd (omega (arith, h));
    copied = λ h. absurd (omega (arith, h));
    configured = λ h. absurd (omega (arith, h));
    started = λ h. absurd (omega (arith, h));
  }

  slot_done :
      (log : Log)
      → AllDone local target 1 log
      → In (create_slot target local, true) log
      → AllDone local target 2 log
  slot_done log d m = record {
    promoted = λ h. d.promoted (omega arith);
    slot_made = λ h. m;
    stopped = λ h. absurd (omega (arith, h));
    copied = λ h. absurd (omega (arith, h));
    configured = λ h. absurd (omega (arith, h));
    started = λ h. absurd (omega (arith, h));
  }

  stop_done :
      (log : Log)
      → AllDone local target 2 log
      → In (stop local, true) log
      → AllDone local target 3 log
  stop_done log d m = record {
    promoted = λ h. d.promoted (omega arith);
    slot_made = λ h. d.slot_made (omega arith);
    stopped = λ h. m;
    copied = λ h. absurd (omega (arith, h));
    configured = λ h. absurd (omega (arith, h));
    started = λ h. absurd (omega (arith, h));
  }

  copy_done :
      (log : Log)
      → AllDone local target 3 log
      → In (rewind local, true) log ⊎ In (basebackup local, true) log
      → AllDone local target 4 log
  copy_done log d m = record {
    promoted = λ h. d.promoted (omega arith);
    slot_made = λ h. d.slot_made (omega arith);
    stopped = λ h. d.stopped (omega arith);
    copied = λ h. m;
    configured = λ h. absurd (omega (arith, h));
    started = λ h. absurd (omega (arith, h));
  }

  configure_done :
      (log : Log)
      → AllDone local target 4 log
      → In (configure local, true) log
      → AllDone local target 5 log
  configure_done log d m = record {
    promoted = λ h. d.promoted (omega arith);
    slot_made = λ h. d.slot_made (omega arith);
    stopped = λ h. d.stopped (omega arith);
    copied = λ h. d.copied (omega arith);
    configured = λ h. m;
    started = λ h. absurd (omega (arith, h));
  }

  start_done :
      (k : ℕ) (log : Log)
      → AllDone local target 5 log
      → In (start local, true) log
      → AllDone local target k log
  start_done k log d m = record {
    promoted = λ h. d.promoted (omega arith);
    slot_made = λ h. d.slot_made (omega arith);
    stopped = λ h. d.stopped (omega arith);
    copied = λ h. d.copied (omega arith);
    configured = λ h. d.configured (omega arith);
    started = λ h. m;
  }

  module _ (env : Env) (id : OpId) where
    promote_target-Triple :
        Triple
          (At local target id 0)
          (promote_target env id local target)
          (λ u w. At local target id 1 w)
          (Sound local target id)
    unfolding promote_target handoff_phase_index
    promote_target-Triple =
        Triple-bind (call env (checkpoint local)) _
          (Triple-call local target id env 0 (checkpoint local) (omega arith))
          (λ u.
            Triple-bind (call env (promote target)) _
              (Triple-before (call env (promote target)) (λ w h. h.0)
                (Triple-call local target id env 0 (promote target) (omega arith)))
              (λ v.
                Triple-before (journal_phase env id "target_promoted")
                  (λ w ((s, d), m). (s, promoted_done w.log m))
                  (Triple-journal local target id env 1 "target_promoted" refl)))

    make_slot-Triple :
        Triple
          (At local target id 1)
          (make_slot env id local target)
          (λ u w. At local target id 2 w)
          (Sound local target id)
    unfolding make_slot handoff_phase_index
    make_slot-Triple =
        Triple-bind (call env (create_slot target local)) _
          (Triple-call local target id env 1 (create_slot target local) (omega arith))
          (λ u.
            Triple-before (journal_phase env id "slot_created")
              (λ w ((s, d), m). (s, slot_done w.log d m))
              (Triple-journal local target id env 2 "slot_created" refl))

    stop_local-Triple :
        Triple
          (At local target id 2)
          (stop_local env id local target)
          (λ u w. At local target id 3 w)
          (Sound local target id)
    unfolding stop_local handoff_phase_index
    stop_local-Triple =
        Triple-bind (call env (stop local)) _
          (Triple-call local target id env 2 (stop local) (omega arith))
          (λ u.
            Triple-before (journal_phase env id "local_stopped")
              (λ w ((s, d), m). (s, stop_done w.log d m))
              (Triple-journal local target id env 3 "local_stopped" refl))

    -- the data is there, by one of the two ways
    Copies : Copied → World → Type 0
    Copies how w =
        At local target id 3 w × (In (rewind local, true) w.log ⊎ In (basebackup local, true) w.log)

    give_up-Triple :
        (why : String)
        → Triple
            (At local target id 3)
            (give_up env id local target why)
            Copies
            (Sound local target id)
    unfolding give_up
    give_up-Triple why =
        Triple-bind (try env (drop_slot target local)) _
          (Triple-try local target id env 3 (drop_slot target local) (omega arith))
          (λ r.
            Triple-bind (journal_abandon env id why) _
              (Triple-before (journal_abandon env id why) (λ w h. h.0)
                (Triple-abandon local target id env 3 why))
              (λ u.
                Triple-raise (replied (record { ok = false; message = both_copies_failed why }))
                  (λ w h. h.0)))

    rewound_or-Triple :
        (r : Result String (Unit {0}))
        → Triple
            (λ w. At local target id 3 w × (r ≡ ok tt → In (rewind local, true) w.log))
            (rewound_or env id local target r)
            Copies
            (Sound local target id)
    unfolding Copies
    rewound_or-Triple (ok tt) = Triple-pure rewound (λ w (h, m). (h, inl (m refl)))
    rewound_or-Triple (err e) =
        Triple-bind (try env (basebackup local)) (cloned_or env id local target)
          (Triple-before (try env (basebackup local)) (λ w h. h.0)
            (Triple-try local target id env 3 (basebackup local) (omega arith)))
          by_answer
      where
        by_answer :
            (r : Result String (Unit {0}))
            → Triple
                (λ w. At local target id 3 w × (r ≡ ok tt → In (basebackup local, true) w.log))
                (cloned_or env id local target r)
                Copies
                (Sound local target id)
        by_answer (ok tt) = Triple-pure cloned (λ w (h, m). (h, inr (m refl)))
        by_answer (err why) =
            Triple-before (give_up env id local target why) (λ w h. h.0) (give_up-Triple why)

    copy_data-Triple :
        Triple
          (At local target id 3)
          (copy_data env id local target)
          (λ how w. At local target id 4 w)
          (Sound local target id)
    unfolding copy_data handoff_phase_index Copies
    copy_data-Triple =
        Triple-bind (try env (rewind local) >>= rewound_or env id local target) _
          (Triple-bind (try env (rewind local)) (rewound_or env id local target)
            (Triple-try local target id env 3 (rewind local) (omega arith)) rewound_or-Triple)
          (λ how.
            Triple-bind (journal_phase env id "data_copied") _
              (Triple-before (journal_phase env id "data_copied")
                (λ w ((s, d), m). (s, copy_done w.log d m))
                (Triple-journal local target id env 4 "data_copied" refl))
              (λ u. Triple-pure how (λ w h. h)))

    write_conf-Triple :
        Triple
          (At local target id 4)
          (write_conf env id local target)
          (λ u w. At local target id 5 w)
          (Sound local target id)
    unfolding write_conf handoff_phase_index
    write_conf-Triple =
        Triple-bind (call env (configure local)) _
          (Triple-call local target id env 4 (configure local) (omega arith))
          (λ u.
            Triple-before (journal_phase env id "recovery_conf_written")
              (λ w ((s, d), m). (s, configure_done w.log d m))
              (Triple-journal local target id env 5 "recovery_conf_written" refl))

    start_local-Triple :
        Triple
          (At local target id 5)
          (start_local env id local target)
          (λ u w. At local target id 6 w)
          (Sound local target id)
    unfolding start_local handoff_phase_index
    start_local-Triple =
        Triple-bind (call env (start local)) _
          (Triple-call local target id env 5 (start local) (omega arith))
          (λ u.
            Triple-before (journal_phase env id "local_started")
              (λ w ((s, d), m). (s, start_done 6 w.log d m))
              (Triple-journal local target id env 6 "local_started" refl))

    attach_local-Triple :
        Triple
          (At local target id 6)
          (attach_local env id local target)
          (λ r w. At local target id 7 w)
          (Sound local target id)
    unfolding attach_local handoff_phase_index
    attach_local-Triple =
        Triple-bind (try env (attach_node local)) _
          (Triple-try local target id env 6 (attach_node local) (omega arith))
          (λ r.
            Triple-bind (journal_phase env id "attached") _
              (Triple-before (journal_phase env id "attached")
                (λ w ((s, d), m). (
                  s,
                  start_done 7 w.log (AllDone-lower local target 5 6 w.log (omega arith) d)
                      (d.started (omega arith)),
                ))
                (Triple-journal local target id env 7 "attached" refl))
              (λ u. Triple-pure r (λ w h. h)))

    -- the phase behind the run before its `k`th step, where it begins at phase `s`
    top : ℕ → ℕ → ℕ
    top s k = if leb s k then k else s

    top-ran : (s k : ℕ) → leb s k ≡ true → (top s k ≤ k) × (k ≤ top s k) × (top s (suc k) ≤ suc k)
    unfolding top
    top-ran s k h = ground (arith, h)

    top-skipped : (s k : ℕ) → leb s k ≡ false → top s (suc k) ≤ top s k
    unfolding top
    top-skipped s k h = ground (arith, h)

    -- a step runs from its phase on, and is skipped where the run begins later
    rung-Triple :
        {A : Type 0} (s k : ℕ) (m : Task A) (a : A)
        → Triple
            (At local target id k)
            m
            (λ r w. At local target id (suc k) w)
            (Sound local target id)
        → Triple
            (At local target id (top s k))
            (if leb s k then m else pure a)
            (λ r w. At local target id (top s (suc k)) w)
            (Sound local target id)
    rung-Triple s k m a t =
        Triple-if (leb s k) m (pure a)
          (λ e.
            let (below, above, after) = top-ran s k e in
            Triple-after m
              (λ r w (x, d). (x, AllDone-lower local target (top s (suc k)) (suc k) w.log after d))
              (Triple-before m
                (λ w (x, d). (x, AllDone-lower local target k (top s k) w.log above d)) t))
          (λ e. Triple-pure a (λ w (x, d).
            (x, AllDone-lower local target (top s (suc k)) (top s k) w.log (top-skipped s k e) d)))

    pub climb-Triple :
        (s : ℕ)
        → Triple
            (At local target id s)
            (climb env id local target s)
            (λ r w. Sound local target id w)
            (Sound local target id)
    unfolding climb
    climb-Triple s =
        Triple-before (climb env id local target s)
          (λ w (x, d). (x, AllDone-lower local target (top s 0) s w.log (top-zero s) d))
          (Triple-bind _ _
            (rung-Triple s 0 (promote_target env id local target) tt promote_target-Triple)
            (λ u.
              Triple-bind _ _ (rung-Triple s 1 (make_slot env id local target) tt make_slot-Triple)
                (λ u.
                  Triple-bind _ _
                    (rung-Triple s 2 (stop_local env id local target) tt stop_local-Triple)
                    (λ u.
                      Triple-bind _ _
                        (rung-Triple s 3 (copy_data env id local target) rewound copy_data-Triple)
                        (λ how.
                          Triple-bind _ _
                            (rung-Triple s 4 (write_conf env id local target) tt write_conf-Triple)
                            (λ u.
                              Triple-bind _ _
                                (rung-Triple s 5 (start_local env id local target) tt
                                  start_local-Triple)
                                (λ u.
                                  Triple-bind _ _
                                    (rung-Triple s 6 (attach_local env id local target) (ok tt)
                                      attach_local-Triple)
                                    (λ r.
                                      Triple-bind _ _
                                        (Triple-complete local target id env (top s 7))
                                        (λ u. Triple-pure _ (λ w h. h.0))))))))))
      where
        top-zero : (s : ℕ) → top s 0 ≤ s
        top-zero s = unfold top in ground arith
