-- ===== src/Recovery/Order.antt =====
-- In which order a reclone makes its calls (crates/pg-agent-core/src/localserver.rs,
-- `recovery_first_stage` and `cluster_recover`).
use pg_agent_rs.Prelude.{ℕ, String, ◌≡◌, refl, true, ◌∷◌, In, inr, Result, ok, err}
use pg_agent_rs.Inflight.{OpId}
use pg_agent_rs.Inflight.Journal.{JournalError, complete}
use pg_agent_rs.Pool.{NodeConfig}
use pg_agent_rs.Orchestration.{
  Action, dial, checkpoint, basebackup, configure, start, start_pgpool, attach_node, peer_attach,
  create_slot, drop_slot, Env, World, failed, fail, ◌>>=◌, ◌>>◌, try, succeeded, journal_or_fail,
  journal_complete, journal_abandon, queue_drop, queue_unless_dropped, cleanup_slot_after_failure,
  action_failed,
}
use pg_agent_rs.Orchestration.Order.{Calls, Did, Ordered, InOrder, try-Ordered}
use pg_agent_rs.Orchestration.Rules.{
  Ends, Triple, Triple-pure, Triple-raise, Triple-before, Triple-bind,
}
use pg_agent_rs.Recovery.{
  note_phase, or_abandon, or_drop_slot, make_recovery_slot, clone_standby, configure_clone,
  run_recovery,
}

-- what must have succeeded before a call: a standby is copied once it has its slot, configured once
-- it is copied, started once it is configured, and put into rotation once it was started; a slot is
-- dropped only where it was made
abbrev pub RebuildFirst : Action → Calls → Type 0
RebuildFirst (basebackup s) older = (n : ℕ) × In (create_slot n s, true) older
RebuildFirst (configure s) older = In (basebackup s, true) older
RebuildFirst (start s) older = In (configure s, true) older
RebuildFirst (start_pgpool s) older = In (start s, true) older
RebuildFirst (attach_node s) older = In (start s, true) older
RebuildFirst (peer_attach m s) older = In (start s, true) older
RebuildFirst (drop_slot n s) older = In (create_slot n s, true) older
RebuildFirst _ older = Unit

abbrev Nothing : Calls → Type 0
Nothing older = Unit

abbrev pub Tidy : World → Type 0
Tidy = InOrder RebuildFirst

-- what only changes the journal or the queue leaves the log
module _ (Q : Calls → Type 0) (env : Env) (id : OpId) where
  pub note-Triple :
      (F : World → Type 0) (phase : String)
      → Triple (λ w. Q w.log) (note_phase env id phase) (λ u w. Q w.log) F
  unfolding note_phase
  note-Triple F phase = record { at = λ w h. h }

  abandon-Triple :
      (F : World → Type 0) (why : String)
      → Triple (λ w. Q w.log) (journal_abandon env id why) (λ u w. Q w.log) F
  unfolding journal_abandon
  abandon-Triple F why = record { at = λ w h. h }

  complete-Triple :
      (F : World → Type 0)
      → ((w : World) → Q w.log → F w)
      → Triple (λ w. Q w.log) (journal_complete env id) (λ u w. Q w.log) F
  unfolding journal_complete
  complete-Triple F f = record {
    at = λ w h.
        let (r, j) = complete (env.io "done") (env.clock "done") id w.journal in
        by_answer r (record w { journal = j }) h;
  }
    where
      by_answer :
          (r : Result JournalError (Unit {0})) (w : World)
          → Q w.log
          → Ends (λ u v. Q v.log) F (journal_or_fail r w)
      by_answer (ok u) w h = h
      by_answer (err e) w h = f w h

module _ (env : Env) (id : OpId) (p s : NodeConfig) where
  abbrev Made : Calls → Type 0
  Made older = In (create_slot p.id s.id, true) older

  abbrev Copied : Calls → Type 0
  Copied older = Made older × In (basebackup s.id, true) older

  -- after a call that was judged
  abbrev Judged : (Calls → Type 0) → Action → Result String (Unit {0}) → World → Type 0
  Judged P a r w = P w.log × Tidy w × (r ≡ ok tt → Did a w)

  abandoned-Triple :
      (P : Calls → Type 0) (a : Action) (r : Result String (Unit {0}))
      → Triple (Judged P a r) (or_abandon env id p s a r) (λ u w. P w.log × Tidy w × Did a w) Tidy
  abandoned-Triple P a (ok u) = Triple-pure tt (λ w (h, o, d). (h, o, d refl))
  abandoned-Triple P a (err why) =
      Triple-before (journal_abandon env id why >> fail (action_failed a why)) (λ w (h, o, d). o)
        (Triple-bind (journal_abandon env id why) _
          (abandon-Triple (Ordered RebuildFirst) env id Tidy why)
          (λ u. Triple-raise (failed (action_failed a why)) (λ w o. o)))

  -- the slot was made, so it may be dropped
  dropped-Triple :
      (cause : String)
      → Triple
          (λ w. Made w.log × Tidy w)
          (cleanup_slot_after_failure env p.id s.id p.hostname cause)
          (λ u w. Tidy w)
          Tidy
  unfolding cleanup_slot_after_failure try queue_drop ◌>>=◌
  dropped-Triple cause = record { at = λ w (m, o). by_answer (env.act (drop_slot p.id s.id)) w m o }
    where
      by_answer :
          (r : Result String (Unit {0})) (w : World)
          → Made w.log
          → Tidy w
          → Ends {A = Unit {0}}
              (λ u v. Tidy v)
              Tidy
              (queue_unless_dropped env s.id p.hostname cause r
                (record w { log = (drop_slot p.id s.id, succeeded r) ∷ w.log }))
      by_answer (ok u) w m o = (m, o)
      by_answer (err why) w m o = (m, o)

  guarded-Triple :
      (P : Calls → Type 0) (a : Action) (cause : String)
      → ((older : Calls) → P older → Made older)
      → (r : Result String (Unit {0}))
      → Triple
          (Judged P a r)
          (or_drop_slot env id p s a cause r)
          (λ u w. P w.log × Tidy w × Did a w)
          Tidy
  guarded-Triple P a cause f (ok u) = Triple-pure tt (λ w (h, o, d). (h, o, d refl))
  guarded-Triple P a cause f (err why) =
      Triple-before
        (cleanup_slot_after_failure env p.id s.id p.hostname cause
          >> (journal_abandon env id why >> fail (action_failed a why)))
        (λ w (h, o, d). (f w.log h, o))
        (Triple-bind (cleanup_slot_after_failure env p.id s.id p.hostname cause) _
          (dropped-Triple cause)
          (λ u.
            Triple-bind (journal_abandon env id why) _
              (abandon-Triple (Ordered RebuildFirst) env id Tidy why)
              (λ u. Triple-raise (failed (action_failed a why)) (λ w o. o))))

  slot-Triple : Triple Tidy (make_recovery_slot env id p s) (λ u w. Made w.log × Tidy w) Tidy
  unfolding make_recovery_slot
  slot-Triple =
      Triple-bind _ _
        (Triple-bind (try env (checkpoint p.id)) _
          (Triple-before (try env (checkpoint p.id)) (λ w o. (tt, o))
            (try-Ordered RebuildFirst env (checkpoint p.id) Nothing (λ b older h. tt)
              (λ older h. tt)))
          (abandoned-Triple Nothing (checkpoint p.id)))
        (λ u.
          Triple-bind _ _
            (Triple-bind (try env (create_slot p.id s.id)) _
              (Triple-before (try env (create_slot p.id s.id)) (λ w (h, o, d). (tt, o))
                (try-Ordered RebuildFirst env (create_slot p.id s.id) Nothing (λ b older h. tt)
                  (λ older h. tt)))
              (abandoned-Triple Nothing (create_slot p.id s.id)))
            (λ u.
              Triple-before (note_phase env id "slot_created") (λ w (h, o, d). (d, o))
                (note-Triple (λ c. Made c × Ordered RebuildFirst c) env id Tidy "slot_created")))

  clone-Triple :
      Triple
        (λ w. Made w.log × Tidy w)
        (clone_standby env id p s)
        (λ u w. Copied w.log × Tidy w)
        Tidy
  unfolding clone_standby
  clone-Triple =
      Triple-bind _ _
        (Triple-bind (try env (dial s.id)) _
          (try-Ordered RebuildFirst env (dial s.id) Made (λ b older m. inr m) (λ older m. tt))
          (guarded-Triple Made (dial s.id) "recovery_1st_stage_peer_dial_failed" (λ older m. m)))
        (λ u.
          Triple-bind _ _
            (Triple-bind (try env (basebackup s.id)) _
              (Triple-before (try env (basebackup s.id)) (λ w (m, o, d). (m, o))
                (try-Ordered RebuildFirst env (basebackup s.id) Made (λ b older m. inr m)
                  (λ older m. (p.id, m))))
              (guarded-Triple Made (basebackup s.id) "recovery_1st_stage_basebackup_failed"
                (λ older m. m)))
            (λ u.
              Triple-before (note_phase env id "data_copied") (λ w (m, o, d). ((m, d), o))
                (note-Triple (λ c. Copied c × Ordered RebuildFirst c) env id Tidy "data_copied")))

  Configured : Calls → Type 0
  Configured older = Ordered RebuildFirst older × In (configure s.id, true) older

  configure-Triple :
      Triple
        (λ w. Copied w.log × Tidy w)
        (configure_clone env id p s)
        (λ u w. Configured w.log)
        Tidy
  unfolding configure_clone Configured
  configure-Triple =
      Triple-bind _ _
        (Triple-bind (try env (configure s.id)) _
          (try-Ordered RebuildFirst env (configure s.id) Copied (λ b older (m, c). (inr m, inr c))
            (λ older (m, c). c))
          (guarded-Triple Copied (configure s.id) "recovery_1st_stage_configure_standby_failed"
            (λ older (m, c). m)))
        (λ u.
          Triple-before (note_phase env id "standby_configured") (λ w (h, o, d). (o, d))
            (note-Triple (λ c. Ordered RebuildFirst c × In (configure s.id, true) c) env id Tidy
              "standby_configured"))

  pub run_recovery-Triple :
      Triple Tidy (run_recovery env id p s) (λ a w. Tidy w × In (configure s.id, true) w.log) Tidy
  unfolding run_recovery Configured
  run_recovery-Triple = Triple-bind (make_recovery_slot env id p s) _ slot-Triple (λ u.
      Triple-bind (clone_standby env id p s) _ clone-Triple (λ u.
        Triple-bind (configure_clone env id p s) _ configure-Triple (λ u.
          Triple-bind (journal_complete env id) _
            (complete-Triple (λ c. Ordered RebuildFirst c × In (configure s.id, true) c) env id Tidy
              (λ w (o, d). o))
            (λ u. Triple-pure _ (λ w h. h)))))
