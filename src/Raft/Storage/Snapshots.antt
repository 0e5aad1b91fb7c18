-- ===== src/Raft/Storage/Snapshots.antt =====
-- A snapshot that one node builds and another installs (crates/pg-agent-core/src/raftstore.rs).
use pg_agent_rs.Prelude.{◌≡◌, refl, sym, ap, ◌∙◌, some, [], ◌∷◌, Result, ok, err}
use pg_agent_rs.Raft.Redb.{state_machine, snapshot, put_meta, meta_after, Redb, Codec}
use pg_agent_rs.Raft.Log.{write_meta}
use pg_agent_rs.Raft.Storage.{
  StateMachineData, StoredSnapshot, RedbStateMachine, open_machine, persist, responses, meta_of,
  build_snapshot, keep_snapshot, install_snapshot, get_current_snapshot,
}
use pg_agent_rs.Raft.Storage.Durable.{written, persisted, stored_back, reopened}

module _ {Bytes Error M : Type 0} (redb : Redb Bytes Error)
    (codec : Codec Bytes Error (StateMachineData M))
    (stored : Codec Bytes Error (StoredSnapshot Bytes M)) where
  -- the bytes of a snapshot that was built are the machine's
  built-bytes :
      (sm : RedbStateMachine M) (db : redb.Db) (taken : StoredSnapshot Bytes M)
      → (build_snapshot redb codec stored sm db).0 ≡ ok taken
      → codec.encode sm.applied ≡ ok taken.bytes
  unfolding build_snapshot
  built-bytes sm db taken h = by_encoding (codec.encode sm.applied) refl
    where
      by_answer :
          (b : Bytes) (t : StoredSnapshot Bytes M) (r : Result Error (Unit {0}))
          → t.bytes ≡ b
          → responses redb codec r t ≡ ok taken
          → taken.bytes ≡ b
      by_answer b t (err e) q k = absurd (cc k)
      by_answer b t (ok u) q k = let same : t ≡ taken = cc k in rw (← same) q

      by_encoding :
          (r : Result Error Bytes)
          → codec.encode sm.applied ≡ r
          → codec.encode sm.applied ≡ ok taken.bytes
      by_encoding (err x) e = absurd (cc (rw (e, build_snapshot) at h))
      by_encoding (ok b) e =
          e
          ∙ ap ok (
              sym (
                by_answer b (record { meta = meta_of redb codec stored sm; bytes = b }) _ refl
                  (rw (e, build_snapshot) at h)))

  -- an install that is answered decoded the bytes, and both of its writes were answered
  installed :
      (taken : StoredSnapshot Bytes M) (d : StateMachineData M) (sm : RedbStateMachine M)
      (db : redb.Db)
      → codec.decode taken.bytes ≡ ok d
      → install_snapshot redb codec stored taken sm db ≡ (
        (keep_snapshot redb codec stored taken
            (persist redb codec (record sm { applied = d }) db).0
            (persist redb codec (record sm { applied = d }) db).1).0,
        record sm { applied = d },
        (keep_snapshot redb codec stored taken
            (persist redb codec (record sm { applied = d }) db).0
            (persist redb codec (record sm { applied = d }) db).1).1,
      )
  unfolding install_snapshot
  installed taken d sm db e = rw (e, install_snapshot) refl

  kept_both :
      (taken : StoredSnapshot Bytes M) (r : Result Error (Unit {0})) (db : redb.Db)
      → (keep_snapshot redb codec stored taken r db).0 ≡ ok tt
      → (r ≡ ok tt)
        × ((b : Bytes) × (stored.encode taken ≡ ok b)
            × (redb.meta (keep_snapshot redb codec stored taken r db).1 snapshot ≡ some b)
            × (redb.meta (keep_snapshot redb codec stored taken r db).1 state_machine
                ≡ redb.meta db state_machine))
  unfolding keep_snapshot meta_after
  kept_both taken (err e) db h = absurd (cc h)
  kept_both taken (ok u) db h =
      let (b, e, s) = written redb codec snapshot (stored.encode taken) db h in
      (refl, (b, e, s, other (stored.encode taken) h))
    where
      other :
          (r : Result Error Bytes)
          → (write_meta redb snapshot r db).0 ≡ ok tt
          → redb.meta (write_meta redb snapshot r db).1 state_machine ≡ redb.meta db state_machine
      other (err e) k = absurd (cc k)
      other (ok b) k = redb.meta_committed db (put_meta snapshot b ∷ []) state_machine k

  -- A snapshot carries the whole machine: where one node's build and another's install are answered,
  -- the second node's machine holds what the first's held, a machine that is opened from its
  -- database holds the same, and its current snapshot is the one that was sent.
  pub install-build_snapshot :
      (m : M) (source sink : RedbStateMachine M) (db db2 : redb.Db) (taken : StoredSnapshot Bytes M)
      → (build_snapshot redb codec stored source db).0 ≡ ok taken
      → (install_snapshot redb codec stored taken sink db2).0 ≡ ok tt
      → redb.begin_read (install_snapshot redb codec stored taken sink db2).2 ≡ ok tt
      → ((install_snapshot redb codec stored taken sink db2).1.applied ≡ source.applied)
        × (open_machine redb codec m (install_snapshot redb codec stored taken sink db2).2
            ≡ ok (record { applied = source.applied; snapshot_idx = 0 }))
        × (get_current_snapshot redb codec stored
              (install_snapshot redb codec stored taken sink db2).2
            ≡ ok (some taken))
  unfolding get_current_snapshot
  install-build_snapshot m source sink db db2 taken h k r =
      let e = built-bytes source db taken h in
      let d = codec.decode-encode source.applied taken.bytes e in
      let q = installed taken source.applied sink db2 d in
      let sm' = record sink { applied = source.applied } in
      let p = persist redb codec sm' db2 in
      let (a, (b, f, s, o)) = kept_both taken p.0 p.1 (rw q at k) in
      let (c, g, t) = persisted redb codec sm' db2 a in
      let last = (keep_snapshot redb codec stored taken p.0 p.1).1 in
      rw q (
        refl,
        (reopened redb codec m source.applied c last (rw q at r) (o ∙ t) g).0,
        stored_back redb codec stored snapshot taken b last (rw q at r) s f,
      )
