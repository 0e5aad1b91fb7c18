-- ===== src/Handoff/Rungs.antt =====
-- What the log of a handoff must show before each step, and how the single calls keep it
-- (crates/pg-agent-core/src/localserver.rs, `run_handoff_from_phase`).
use pg_agent_rs.Prelude.{
  ℕ, String, ◌≤◌, ◌<◌, ◌≡◌, ◌⊎◌, refl, sym, ◌∙◌, Bool, true, false, none, some, List, [], ◌∷◌, In,
  arith, inl, inr, Result, ok, err,
}
use pg_agent_rs.Inflight.{InflightPayload, handoff, OpId, InflightOp}
use pg_agent_rs.Inflight.Journal.{
  JournalError, FileInflightOpStore, update_phase, complete, abandon,
}
use pg_agent_rs.Inflight.Phase.{
  op_at, Records, update_phase-Records, complete-Records, abandon-Records,
}
use pg_agent_rs.Orchestration.{
  Action, start_pgpool, create_role, peer_attach, dial, get_status, checkpoint, promote, stop,
  start, rewind, basebackup, configure, attach_node, create_slot, drop_slot, Env, World, ◌>>=◌, try,
  call, succeeded, journal_or_fail, journal_phase, journal_complete, journal_abandon,
}
use pg_agent_rs.Orchestration.Rules.{Ends, Triple}
use pg_agent_rs.Handoff.{handoff_phase_index}

abbrev pub Log : Type 0
Log = List (Action × Bool)

-- the payload is the handoff from `local` to `target`
abbrev pub Concerns : ℕ → ℕ → InflightPayload → Type 0
Concerns local target (handoff from to host slot lag) = (from ≡ local) × (to ≡ target)
Concerns local target _ = ⊥

-- the number of the phase from which a call is made
abbrev pub needs : Action → ℕ
needs (create_slot n s) = 1
needs (stop n) = 2
needs (rewind n) = 3
needs (basebackup n) = 3
needs (drop_slot n s) = 3
needs (configure n) = 4
needs (start n) = 5
needs (attach_node n) = 6
needs (checkpoint n) = 0
needs (promote n) = 0
needs (dial n) = 0
needs (get_status n) = 0
needs (start_pgpool n) = 0
needs (create_role n) = 0
needs (peer_attach n s) = 0

-- The steps below phase `k` have succeeded: the target was promoted, has the old primary's slot, and
-- so on up the ladder.
pub record AllDone (local target k : ℕ) (log : Log) : Type 0 where
  pub promoted : 0 < k → In (promote target, true) log
  pub slot_made : 1 < k → In (create_slot target local, true) log
  pub stopped : 2 < k → In (stop local, true) log
  pub copied : 3 < k → In (rewind local, true) log ⊎ In (basebackup local, true) log
  pub configured : 4 < k → In (configure local, true) log
  pub started : 5 < k → In (start local, true) log

-- each call of the log was made after the steps below its phase had succeeded
abbrev pub Safe : ℕ → ℕ → Log → Type 0
Safe local target [] = Unit
Safe local target ((a, b) ∷ older) = AllDone local target (needs a) older × Safe local target older

module _ (local target : ℕ) where
  pub AllDone-lower :
      (j k : ℕ) (log : Log) → j ≤ k → AllDone local target k log → AllDone local target j log
  AllDone-lower j k log l d = record {
    promoted = λ h. d.promoted (omega (arith, l, h));
    slot_made = λ h. d.slot_made (omega (arith, l, h));
    stopped = λ h. d.stopped (omega (arith, l, h));
    copied = λ h. d.copied (omega (arith, l, h));
    configured = λ h. d.configured (omega (arith, l, h));
    started = λ h. d.started (omega (arith, l, h));
  }

  older_copy :
      (e : Action × Bool) (log : Log)
      → In (rewind local, true) log ⊎ In (basebackup local, true) log
      → In (rewind local, true) (e ∷ log) ⊎ In (basebackup local, true) (e ∷ log)
  older_copy e log (inl m) = inl (inr m)
  older_copy e log (inr m) = inr (inr m)

  pub AllDone-later :
      (k : ℕ) (e : Action × Bool) (log : Log)
      → AllDone local target k log
      → AllDone local target k (e ∷ log)
  AllDone-later k e log d = record {
    promoted = λ h. inr (d.promoted h);
    slot_made = λ h. inr (d.slot_made h);
    stopped = λ h. inr (d.stopped h);
    copied = λ h. older_copy e log (d.copied h);
    configured = λ h. inr (d.configured h);
    started = λ h. inr (d.started h);
  }

  pub AllDone-nothing : (log : Log) → AllDone local target 0 log
  AllDone-nothing log = record {
    promoted = λ h. absurd (omega (arith, h));
    slot_made = λ h. absurd (omega (arith, h));
    stopped = λ h. absurd (omega (arith, h));
    copied = λ h. absurd (omega (arith, h));
    configured = λ h. absurd (omega (arith, h));
    started = λ h. absurd (omega (arith, h));
  }

  module _ (id : OpId) where
    -- The log is safe, the op is the handoff of these nodes, and the journal is not ahead of the log:
    -- the steps below the recorded phase have succeeded.
    pub record Sound (w : World) : Type 0 where
      pub safe : Safe local target w.log
      pub concerns :
          (op : InflightOp) → op_at id w.journal ≡ some op → Concerns local target op.payload
      pub behind :
          (op : InflightOp) (k : ℕ)
          → op_at id w.journal ≡ some op
          → handoff_phase_index op.phase ≡ some k
          → AllDone local target k w.log

    -- sound, with the steps below phase `k` behind
    abbrev pub At : ℕ → World → Type 0
    At k w = Sound w × AllDone local target k w.log

    pub Sound-call :
        (a : Action) (b : Bool) (w : World)
        → AllDone local target (needs a) w.log
        → Sound w
        → Sound (record w { log = (a, b) ∷ w.log })
    Sound-call a b w d s = record {
      safe = (d, s.safe);
      concerns = s.concerns;
      behind = λ op k e i. AllDone-later k (a, b) w.log (s.behind op k e i);
    }

    At-call :
        (k : ℕ) (a : Action) (b : Bool) (w : World)
        → needs a ≤ k
        → At k w
        → At k (record w { log = (a, b) ∷ w.log })
    At-call k a b w l (s, d) =
        (Sound-call a b w (AllDone-lower (needs a) k w.log l d) s, AllDone-later k (a, b) w.log d)

    -- a call whose answer is judged
    pub Triple-try :
        (env : Env) (k : ℕ) (a : Action)
        → needs a ≤ k
        → Triple (At k) (try env a) (λ r w. At k w × (r ≡ ok tt → In (a, true) w.log)) Sound
    unfolding try
    Triple-try env k a l = record { at = λ w h. by_answer w h (env.act a) }
      where
        by_answer :
            (w : World)
            → At k w
            → (r : Result String (Unit {0}))
            → At k (record w { log = (a, succeeded r) ∷ w.log })
              × (r ≡ ok tt → In (a, true) ((a, succeeded r) ∷ w.log))
        by_answer w h (ok tt) = (At-call k a true w l h, λ e. inl refl)
        by_answer w h (err x) = (At-call k a false w l h, λ e. absurd (cc e))

    -- a call that has to succeed
    pub Triple-call :
        (env : Env) (k : ℕ) (a : Action)
        → needs a ≤ k
        → Triple (At k) (call env a) (λ u w. At k w × In (a, true) w.log) Sound
    unfolding call try ◌>>=◌
    Triple-call env k a l = record { at = λ w h. by_answer w h (env.act a) refl }
      where
        by_answer :
            (w : World)
            → At k w
            → (r : Result String (Unit {0})) → env.act a ≡ r
            → Ends (λ u v. At k v × In (a, true) v.log) Sound (call env a w)
        by_answer w h (ok tt) e = rw e (At-call k a true w l h, inl refl)
        by_answer w h (err x) e = rw e (At-call k a false w l h).0

    -- a change of the journal that records nothing, or a phase whose lower steps have succeeded
    Sound-journal :
        (w : World) (j : FileInflightOpStore) (f : InflightOp → String)
        → Records id f w.journal j
        → ((op : InflightOp) (k : ℕ)
            → op_at id w.journal ≡ some op
            → handoff_phase_index (f op) ≡ some k
            → AllDone local target k w.log)
        → Sound w
        → Sound (record w { journal = j })
    Sound-journal w j f (inl e) d s = record {
      safe = s.safe;
      concerns = λ op h. s.concerns op (sym e ∙ h);
      behind = λ op k h i. s.behind op k (sym e ∙ h) i;
    }
    Sound-journal w j f (inr (old, (new, e, e', p, q))) d s = record {
      safe = s.safe;
      concerns = λ op h. let same : op ≡ new = cc (e', h) in rw same (rw p (s.concerns old e));
      behind = λ op k h i. let same : op ≡ new = cc (e', h) in d old k e (rw q at (rw same at i));
    }

    journal-Ends :
        (r : Result JournalError (Unit {0})) (k : ℕ) (w : World)
        → At k w
        → Ends (λ u v. At k v) Sound (journal_or_fail r w)
    journal-Ends (ok u) k w h = h
    journal-Ends (err e) k w h = h.0

    -- the next phase is recorded once the steps below it have succeeded
    pub Triple-journal :
        (env : Env) (k : ℕ) (phase : String)
        → handoff_phase_index phase ≡ some k
        → Triple (At k) (journal_phase env id phase) (λ u w. At k w) Sound
    unfolding journal_phase
    Triple-journal env k phase i = record {
      at = λ w (s, d).
          let (r, j) = update_phase (env.io phase) (env.clock phase) id phase none w.journal in
          journal-Ends r k (record w { journal = j })
            (
              Sound-journal w j (λ op. phase)
                  (update_phase-Records (env.io phase) (env.clock phase) id phase none w.journal)
                  (λ op m h e. let same : k ≡ m = cc (i, e) in rw (← same) d) s,
              d,
            );
    }

    pub Triple-complete :
        (env : Env) (k : ℕ) → Triple (At k) (journal_complete env id) (λ u w. At k w) Sound
    unfolding journal_complete handoff_phase_index
    Triple-complete env k = record {
      at = λ w (s, d).
          let (r, j) = complete (env.io "done") (env.clock "done") id w.journal in
          journal-Ends r k (record w { journal = j })
            (
              Sound-journal w j (λ op. "done")
                  (complete-Records (env.io "done") (env.clock "done") id w.journal)
                  (λ op m h e. absurd (cc e)) s,
              d,
            );
    }

    pub Triple-abandon :
        (env : Env) (k : ℕ) (why : String)
        → Triple (At k) (journal_abandon env id why) (λ u w. At k w) Sound
    unfolding journal_abandon
    Triple-abandon env k why = record {
      at = λ w (s, d).
          let (r, j) = abandon (env.io "abandoned") (env.clock "abandoned") id why w.journal in
          (
            Sound-journal w j (λ op. op.phase)
                (abandon-Records (env.io "abandoned") (env.clock "abandoned") id why w.journal)
                s.behind s,
            d,
          );
    }
