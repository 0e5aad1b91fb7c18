-- ===== src/Raft/Storage.antt =====
-- The persistent state machine `RedbStateMachine` of crates/pg-agent-core/src/raftstore.rs: batches
-- of entries, snapshots, and what is read back from the database.
pub mod Durable
pub mod Votes
pub mod Snapshots
use pg_agent_rs.Prelude.{ℕ, ◌+◌, Option, none, some, List, [], ◌∷◌, u64, Result, ok, err}
use pg_agent_rs.Consensus.{ClusterState, empty_state}
use pg_agent_rs.Raft.Machine.{CommandResponse, noop, apply_command}
use pg_agent_rs.Raft.Redb.{MetaKey, state_machine, snapshot, Redb, Codec}
use pg_agent_rs.Raft.Log.{
  LogId, EntryPayload, blank, normal, membership, Entry, read_meta, write_meta, decoded,
}

pub record StoredMembership (M : Type 0) : Type 0 where
  pub log_id : Option LogId
  pub nodes : M

pub record StateMachineData (M : Type 0) : Type 0 where
  pub last_applied : Option LogId
  pub last_membership : StoredMembership M
  pub cluster : ClusterState

-- the text `<leader>-<index>-<n>`, or `--<n>`
pub data SnapshotId : Type 0 where
  snapshot_of : Option LogId → ℕ → SnapshotId

pub record SnapshotMeta (M : Type 0) : Type 0 where
  pub last_log_id : Option LogId
  pub last_membership : StoredMembership M
  pub snapshot_id : SnapshotId

pub record StoredSnapshot (Bytes M : Type 0) : Type 0 where
  pub meta : SnapshotMeta M
  pub bytes : Bytes

-- the database is shared with the log store, and is passed beside it
pub record RedbStateMachine (M : Type 0) : Type 0 where
  pub applied : StateMachineData M
  pub snapshot_idx : ℕ

module _ {M : Type 0} where
  unfoldable pub apply_payload :
      LogId → EntryPayload M → StateMachineData M → CommandResponse × StateMachineData M
  apply_payload id blank d = (noop, d)
  apply_payload id (normal c) d =
      let (cluster', r) = apply_command d.cluster c in (r, record d { cluster = cluster' })
  apply_payload id (membership m) d =
      (noop, record d { last_membership = record { log_id = some id; nodes = m } })

  -- the loop of `apply`
  unfoldable pub apply_entries :
      List (Entry M) → StateMachineData M → List CommandResponse × StateMachineData M
  unfolding apply_payload
  apply_entries [] d = ([], d)
  apply_entries (e ∷ es) d =
      let (r, d') = apply_payload e.log_id e.payload (record d { last_applied = some e.log_id }) in
      let (rs, d'') = apply_entries es d' in (r ∷ rs, d'')

  -- `StateMachineData::default`, with openraft's empty membership
  abbrev pub empty_data : M → StateMachineData M
  empty_data m = record {
    last_applied = none;
    last_membership = record { log_id = none; nodes = m };
    cluster = empty_state;
  }

module _ {Bytes Error M : Type 0} (redb : Redb Bytes Error)
    (codec : Codec Bytes Error (StateMachineData M)) where
  abbrev pub or_empty : M → Option (StateMachineData M) → StateMachineData M
  or_empty m none = empty_data m
  or_empty m (some d) = d

  -- the persisted machine, or an empty one
  unfoldable pub open_machine : M → redb.Db → Result Error (RedbStateMachine M)
  unfolding read_meta decoded
  open_machine m db = elim (decoded redb codec (read_meta redb state_machine db)) [
    | err e ↦ err e
    | ok o ↦ ok (record { applied = or_empty m o; snapshot_idx = 0 })
  ]

  -- `ClusterStateReader::read`
  unfoldable pub read_cluster : M → redb.Db → Result Error ClusterState
  unfolding read_meta decoded
  read_cluster m db = elim (decoded redb codec (read_meta redb state_machine db)) [
    | err e ↦ err e
    | ok o ↦ ok (or_empty m o).cluster
  ]

  unfoldable pub persist : RedbStateMachine M → redb.Db → Result Error (Unit {0}) × redb.Db
  unfolding write_meta
  persist sm db = write_meta redb state_machine (codec.encode sm.applied) db

  abbrev pub responses : {A : Type 0} → Result Error (Unit {0}) → A → Result Error A
  responses (ok u) a = ok a
  responses (err e) a = err e

  -- one durable write for the whole batch
  unfoldable pub apply :
      List (Entry M)
      → RedbStateMachine M
      → redb.Db
      → Result Error (List CommandResponse) × RedbStateMachine M × redb.Db
  unfolding apply_entries persist
  apply es sm db =
      let (rs, d) = apply_entries es sm.applied in
      let sm' = record sm { applied = d } in
      let (answer, db') = persist sm' db in (responses answer rs, sm', db')

  -- the builder, with the counter moved on in both
  unfoldable pub get_snapshot_builder : RedbStateMachine M → RedbStateMachine M × RedbStateMachine M
  get_snapshot_builder sm =
      let sm' = record sm { snapshot_idx = u64 (sm.snapshot_idx + 1) } in (sm', sm')

  module _ (stored : Codec Bytes Error (StoredSnapshot Bytes M)) where
    abbrev pub meta_of : RedbStateMachine M → SnapshotMeta M
    meta_of sm = record {
      last_log_id = sm.applied.last_applied;
      last_membership = sm.applied.last_membership;
      snapshot_id = snapshot_of sm.applied.last_applied sm.snapshot_idx;
    }

    unfoldable pub build_snapshot :
        RedbStateMachine M → redb.Db → Result Error (StoredSnapshot Bytes M) × redb.Db
    unfolding write_meta
    build_snapshot sm db = elim (codec.encode sm.applied) [
      | err e ↦ (err e, db)
      | ok b ↦
          let taken : StoredSnapshot Bytes M = record { meta = meta_of sm; bytes = b } in
          let (answer, db') = write_meta redb snapshot (stored.encode taken) db in
          (responses answer taken, db')
    ]

    -- the machine is written before the snapshot, each in a transaction of its own
    unfoldable pub keep_snapshot :
        StoredSnapshot Bytes M
        → Result Error (Unit {0})
        → redb.Db
        → Result Error (Unit {0}) × redb.Db
    unfolding write_meta
    keep_snapshot taken (err e) db = (err e, db)
    keep_snapshot taken (ok u) db = write_meta redb snapshot (stored.encode taken) db

    unfoldable pub install_snapshot :
        StoredSnapshot Bytes M
        → RedbStateMachine M
        → redb.Db
        → Result Error (Unit {0}) × RedbStateMachine M × redb.Db
    unfolding persist keep_snapshot
    install_snapshot taken sm db = elim (codec.decode taken.bytes) [
      | err e ↦ (err e, sm, db)
      | ok d ↦
          let sm' = record sm { applied = d } in
          let (answer, db') = persist sm' db in
          let (answer', db'') = keep_snapshot taken answer db' in (answer', sm', db'')
    ]

    unfoldable pub get_current_snapshot : redb.Db → Result Error (Option (StoredSnapshot Bytes M))
    unfolding read_meta decoded
    get_current_snapshot db = decoded redb stored (read_meta redb snapshot db)
