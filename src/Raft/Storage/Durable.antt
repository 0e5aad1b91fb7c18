-- ===== src/Raft/Storage/Durable.antt =====
-- What is on disk after a batch and after a snapshot (`apply`, `build_snapshot` and
-- `install_snapshot` of crates/pg-agent-core/src/raftstore.rs).
use pg_agent_rs.Prelude.{◌≡◌, refl, sym, ap, ◌∙◌, some, List, [], ◌∷◌, Result, ok, err}
use pg_agent_rs.Raft.Machine.{ConsensusCommand, CommandResponse, apply_all}
use pg_agent_rs.Raft.Redb.{MetaKey, state_machine, put_meta, meta_after, Redb, Codec}
use pg_agent_rs.Raft.Log.{
  LogId, EntryPayload, blank, normal, membership, Entry, read_meta, write_meta, decoded,
}
use pg_agent_rs.Raft.Storage.{
  StateMachineData, RedbStateMachine, apply_payload, apply_entries, open_machine, read_cluster,
  persist, responses, apply,
}

-- the command of a payload, before those of the rest of the batch
unfoldable pub command_then :
    {M : Type 0} → EntryPayload M → List ConsensusCommand → List ConsensusCommand
command_then blank cs = cs
command_then (normal c) cs = c ∷ cs
command_then (membership m) cs = cs

-- the commands of a batch
unfoldable pub commands : {M : Type 0} → List (Entry M) → List ConsensusCommand
unfolding command_then
commands [] = []
commands (e ∷ es) = command_then e.payload (commands es)

payload-cluster :
    {M : Type 0} (id : LogId) (p : EntryPayload M) (d : StateMachineData M)
    (cs : List ConsensusCommand)
    → (apply_all d.cluster (command_then p cs)).0
      ≡ (apply_all (apply_payload id p d).1.cluster cs).0
unfolding apply_payload apply_all command_then
payload-cluster id blank d cs = refl
payload-cluster id (normal c) d cs = refl
payload-cluster id (membership m) d cs = refl

apply_entries-cluster :
    {M : Type 0} (es : List (Entry M)) (d : StateMachineData M)
    → (apply_entries es d).1.cluster ≡ (apply_all d.cluster (commands es)).0
unfolding apply_entries commands
apply_entries-cluster [] d = unfold apply_all in refl
apply_entries-cluster (e ∷ es) d =
    let d' = record d { last_applied = some e.log_id } in
    apply_entries-cluster es (apply_payload e.log_id e.payload d').1
    ∙ sym (payload-cluster e.log_id e.payload d' (commands es))

module _ {Bytes Error M : Type 0} (redb : Redb Bytes Error)
    (codec : Codec Bytes Error (StateMachineData M)) where
  -- a write of one metadata value that is answered was encoded, and is what is stored
  pub written :
      (key : MetaKey) (r : Result Error Bytes) (db : redb.Db)
      → (write_meta redb key r db).0 ≡ ok tt
      → (b : Bytes) × (r ≡ ok b)
        × (redb.meta (write_meta redb key r db).1 key
            ≡ meta_after (put_meta key b ∷ []) key (redb.meta db key))
  unfolding write_meta
  written key (err e) db h = absurd (cc h)
  written key (ok b) db h = (b, refl, redb.meta_committed db (put_meta key b ∷ []) key h)

  pub persisted :
      (sm : RedbStateMachine M) (db : redb.Db)
      → (persist redb codec sm db).0 ≡ ok tt
      → (b : Bytes) × (codec.encode sm.applied ≡ ok b)
        × (redb.meta (persist redb codec sm db).1 state_machine ≡ some b)
  unfolding persist meta_after
  persisted sm db h = written state_machine (codec.encode sm.applied) db h

  -- a stored value is read back as what was encoded
  pub stored_back :
      {A : Type 0} (c : Codec Bytes Error A) (key : MetaKey) (a : A) (b : Bytes) (db : redb.Db)
      → redb.begin_read db ≡ ok tt
      → redb.meta db key ≡ some b
      → c.encode a ≡ ok b
      → decoded redb c (read_meta redb key db) ≡ ok (some a)
  unfolding decoded read_meta
  stored_back c key a b db r s e =
      rw (r, read_meta) (rw s (rw (c.decode-encode a b e, decoded) refl))

  pub reopened :
      (m : M) (d : StateMachineData M) (b : Bytes) (db : redb.Db)
      → redb.begin_read db ≡ ok tt
      → redb.meta db state_machine ≡ some b
      → codec.encode d ≡ ok b
      → (open_machine redb codec m db ≡ ok (record { applied = d; snapshot_idx = 0 }))
        × (read_cluster redb codec m db ≡ ok d.cluster)
  unfolding open_machine read_cluster
  reopened m d b db r s e =
      let t = stored_back codec state_machine d b db r s e in
      (rw (t, open_machine) refl, rw (t, read_cluster) refl)

  persist-answer :
      (es : List (Entry M)) (sm : RedbStateMachine M) (db : redb.Db) (rs : List CommandResponse)
      → (apply redb codec es sm db).0 ≡ ok rs
      → (persist redb codec (record sm { applied = (apply_entries es sm.applied).1 }) db).0 ≡ ok tt
  unfolding apply
  persist-answer es sm db rs h =
      by_answer (persist redb codec (record sm { applied = (apply_entries es sm.applied).1 }) db).0
        h
    where
      by_answer :
          (r : Result Error (Unit {0}))
          → responses redb codec r (apply_entries es sm.applied).0 ≡ ok rs
          → r ≡ ok tt
      by_answer (ok u) k = refl
      by_answer (err e) k = absurd (cc k)

  -- A batch that is answered is durable: a machine that is opened from the database afterwards holds
  -- exactly what the running machine holds, and the cluster state that is read back is the one
  -- before the batch with the batch's commands applied to it in log order.
  pub apply_durable :
      (m : M) (es : List (Entry M)) (sm : RedbStateMachine M) (db : redb.Db)
      (rs : List CommandResponse)
      → (apply redb codec es sm db).0 ≡ ok rs
      → redb.begin_read (apply redb codec es sm db).2 ≡ ok tt
      → (open_machine redb codec m (apply redb codec es sm db).2
          ≡ ok (record { applied = (apply redb codec es sm db).1.applied; snapshot_idx = 0 }))
        × (read_cluster redb codec m (apply redb codec es sm db).2
            ≡ ok (apply_all sm.applied.cluster (commands es)).0)
  unfolding apply
  apply_durable m es sm db rs h r =
      let sm' = record sm { applied = (apply_entries es sm.applied).1 } in
      let (b, e, s) = persisted sm' db (persist-answer es sm db rs h) in
      let (o, c) = reopened m sm'.applied b (persist redb codec sm' db).1 r s e in
      (o, c ∙ ap ok (apply_entries-cluster es sm.applied))

  untouched :
      (key : MetaKey) (r : Result Error Bytes) (db : redb.Db) (x : Error)
      → (write_meta redb key r db).0 ≡ err x
      → redb.meta (write_meta redb key r db).1 key ≡ redb.meta db key
  unfolding write_meta
  untouched key (err e) db x h = refl
  untouched key (ok b) db x h = redb.meta_aborted db (put_meta key b ∷ []) key x h

  persist-error :
      (es : List (Entry M)) (sm : RedbStateMachine M) (db : redb.Db) (x : Error)
      → (apply redb codec es sm db).0 ≡ err x
      → (persist redb codec (record sm { applied = (apply_entries es sm.applied).1 }) db).0 ≡ err x
  unfolding apply
  persist-error es sm db x h =
      by_answer (persist redb codec (record sm { applied = (apply_entries es sm.applied).1 }) db).0
        h
    where
      by_answer :
          (r : Result Error (Unit {0}))
          → responses redb codec r (apply_entries es sm.applied).0 ≡ err x
          → r ≡ err x
      by_answer (ok u) k = absurd (cc k)
      by_answer (err e) k = cc k

  pub read_meta_ok :
      (key : MetaKey) (db : redb.Db)
      → redb.begin_read db ≡ ok tt
      → read_meta redb key db ≡ ok (redb.meta db key)
  unfolding read_meta
  read_meta_ok key db r = rw (r, read_meta) refl

  same_reads :
      (m : M) (db db' : redb.Db)
      → redb.begin_read db ≡ ok tt
      → redb.begin_read db' ≡ ok tt
      → redb.meta db' state_machine ≡ redb.meta db state_machine
      → open_machine redb codec m db' ≡ open_machine redb codec m db
  unfolding open_machine
  same_reads m db db' r r' s =
      let t : read_meta redb state_machine db' ≡ read_meta redb state_machine db =
        read_meta_ok state_machine db' r' ∙ ap ok s ∙ sym (read_meta_ok state_machine db r) in
      rw (t, open_machine) refl

  -- A batch that fails leaves nothing of itself on disk: a machine that is opened afterwards is the
  -- one that would have been opened before.
  pub apply_aborted :
      (m : M) (es : List (Entry M)) (sm : RedbStateMachine M) (db : redb.Db) (x : Error)
      → (apply redb codec es sm db).0 ≡ err x
      → redb.begin_read db ≡ ok tt
      → redb.begin_read (apply redb codec es sm db).2 ≡ ok tt
      → open_machine redb codec m (apply redb codec es sm db).2 ≡ open_machine redb codec m db
  unfolding apply
  apply_aborted m es sm db x h r r' =
      let sm' = record sm { applied = (apply_entries es sm.applied).1 } in
      same_reads m db (persist redb codec sm' db).1 r r' (
        unfold persist in
        untouched state_machine (codec.encode sm'.applied) db x (persist-error es sm db x h))
