-- ===== src/Raft/Storage/Votes.antt =====
-- That a vote outlives whatever the storage does afterwards
-- (crates/pg-agent-core/src/raftstore.rs).
use pg_agent_rs.Prelude.{
  ℕ, ◌≡◌, refl, ◌∙◌, false, Option, some, List, [], ◌∷◌, map, All, Result, ok, err,
}
use pg_agent_rs.Raft.Redb.{
  MetaKey, vote, committed, last_purged, state_machine, snapshot, key_eqb, Write, put_log,
  remove_log, put_meta, meta_after, Redb, Codec,
}
use pg_agent_rs.Raft.Log.{
  LogId, Entry, write_meta, save_vote, read_vote, save_committed, purge, truncate, append,
  encode_all,
}
use pg_agent_rs.Raft.Storage.{
  StateMachineData, StoredSnapshot, RedbStateMachine, persist, apply, build_snapshot, keep_snapshot,
  install_snapshot, apply_entries,
}
use pg_agent_rs.Raft.Storage.Durable.{written, stored_back}

-- a change that leaves the vote alone
abbrev SparesVote : {B : Type 0} → Write B → Type 0
SparesVote (put_log k b) = Unit
SparesVote (remove_log k) = Unit
SparesVote (put_meta key b) = key_eqb key vote ≡ false

spared :
    {B : Type 0} (ws : List (Write B)) (o : Option B) → All SparesVote ws → meta_after ws vote o ≡ o
unfolding meta_after
spared [] o h = refl
spared (put_log k b ∷ ws) o h = spared ws o h.1
spared (remove_log k ∷ ws) o h = spared ws o h.1
spared (put_meta key b ∷ ws) o h = rw (h.0, meta_after) (spared ws o h.1)

removals : (B : Type 0) (ks : List ℕ) → All (SparesVote {B = B}) (map remove_log ks)
removals B [] = tt
removals B (k ∷ ks) = (tt, removals B ks)

module _ {Bytes Error M : Type 0} (redb : Redb Bytes Error) (entries : Codec Bytes Error (Entry M))
    (ids : Codec Bytes Error (Option LogId)) (machine : Codec Bytes Error (StateMachineData M))
    (stored : Codec Bytes Error (StoredSnapshot Bytes M)) where
  -- what openraft asks of the storage, other than to save a vote
  pub data StorageCall : Type 0 where
    append_call : List (Entry M) → StorageCall
    truncate_call : LogId → StorageCall
    purge_call : LogId → StorageCall
    committed_call : Option LogId → StorageCall
    apply_call : List (Entry M) → StorageCall
    build_call : StorageCall
    install_call : StoredSnapshot Bytes M → StorageCall

  unfoldable pub call : StorageCall → RedbStateMachine M → redb.Db → RedbStateMachine M × redb.Db
  unfolding append truncate purge save_committed apply build_snapshot install_snapshot
  call (append_call es) sm db = (sm, (append redb entries es db).1)
  call (truncate_call id) sm db = (sm, (truncate redb id db).1)
  call (purge_call id) sm db = (sm, (purge redb ids id db).1)
  call (committed_call c) sm db = (sm, (save_committed redb ids c db).1)
  call (apply_call es) sm db = let (r, sm', db') = apply redb machine es sm db in (sm', db')
  call build_call sm db = (sm, (build_snapshot redb machine stored sm db).1)
  call (install_call taken) sm db =
      let (r, sm', db') = install_snapshot redb machine stored taken sm db in (sm', db')

  unfoldable pub calls :
      List StorageCall → RedbStateMachine M → redb.Db → RedbStateMachine M × redb.Db
  calls [] sm db = (sm, db)
  calls (c ∷ cs) sm db = let (sm', db') = call c sm db in calls cs sm' db'

  commit_spares :
      (ws : List (Write Bytes)) (db : redb.Db)
      → All SparesVote ws
      → redb.meta (redb.commit db ws).1 vote ≡ redb.meta db vote
  commit_spares ws db h = by_answer (redb.commit db ws).0 refl
    where
      by_answer :
          (r : Result Error (Unit {0}))
          → (redb.commit db ws).0 ≡ r
          → redb.meta (redb.commit db ws).1 vote ≡ redb.meta db vote
      by_answer (ok u) e = redb.meta_committed db ws vote e ∙ spared ws (redb.meta db vote) h
      by_answer (err x) e = redb.meta_aborted db ws vote x e

  write_spares :
      (key : MetaKey) (r : Result Error Bytes) (db : redb.Db)
      → key_eqb key vote ≡ false
      → redb.meta (write_meta redb key r db).1 vote ≡ redb.meta db vote
  unfolding write_meta
  write_spares key (err e) db h = refl
  write_spares key (ok b) db h = commit_spares (put_meta key b ∷ []) db (h, tt)

  encoded_spares :
      (es : List (Entry M)) (ws : List (Write Bytes))
      → encode_all redb entries es ≡ ok ws
      → All SparesVote ws
  unfolding encode_all
  encoded_spares [] ws h = let e : [] ≡ ws = cc h in rw (← e) tt
  encoded_spares (e ∷ es) ws h =
      by_encoding (encoded_spares es) (entries.encode e) (encode_all redb entries es) refl refl
    where
      by_encoding :
          ((vs : List (Write Bytes)) → encode_all redb entries es ≡ ok vs → All SparesVote vs)
          → (r : Result Error Bytes) (t : Result Error (List (Write Bytes))) → entries.encode e ≡ r
          → encode_all redb entries es ≡ t
          → All SparesVote ws
      by_encoding ih (err x) t q u = absurd (cc (rw (q, encode_all) at h))
      by_encoding ih (ok b) (err x) q u = absurd (cc (rw (q, u, encode_all) at h))
      by_encoding ih (ok b) (ok vs) q u =
          let same : put_log e.log_id.index b ∷ vs ≡ ws = cc (rw (q, u, encode_all) at h) in
          rw (← same) (tt, ih vs u)

  append_spares :
      (es : List (Entry M)) (db : redb.Db)
      → redb.meta (append redb entries es db).1 vote ≡ redb.meta db vote
  unfolding append
  append_spares es db = by_case (encode_all redb entries es) refl
    where
      by_case :
          (t : Result Error (List (Write Bytes)))
          → encode_all redb entries es ≡ t
          → redb.meta (append redb entries es db).1 vote ≡ redb.meta db vote
      by_case (err x) e = rw (e, append) refl
      by_case (ok ws) e = rw (e, append) (commit_spares ws db (encoded_spares es ws e))

  purge_spares :
      (id : LogId) (db : redb.Db) → redb.meta (purge redb ids id db).1 vote ≡ redb.meta db vote
  unfolding purge
  purge_spares id db = by_case (ids.encode (some id)) refl
    where
      by_case :
          (r : Result Error Bytes)
          → ids.encode (some id) ≡ r
          → redb.meta (purge redb ids id db).1 vote ≡ redb.meta db vote
      by_case (err x) e = rw (e, purge) refl
      by_case (ok b) e =
          rw (e, purge)
            (commit_spares (put_meta last_purged b ∷ map remove_log (redb.keys_to db id.index)) db
              (refl, removals Bytes (redb.keys_to db id.index)))

  build_spares :
      (sm : RedbStateMachine M) (db : redb.Db)
      → redb.meta (build_snapshot redb machine stored sm db).1 vote ≡ redb.meta db vote
  unfolding build_snapshot
  build_spares sm db = by_case (machine.encode sm.applied) refl
    where
      by_case :
          (r : Result Error Bytes)
          → machine.encode sm.applied ≡ r
          → redb.meta (build_snapshot redb machine stored sm db).1 vote ≡ redb.meta db vote
      by_case (err x) e = rw (e, build_snapshot) refl
      by_case (ok b) e = rw (e, build_snapshot) (write_spares snapshot _ db refl)

  keep_spares :
      (taken : StoredSnapshot Bytes M) (r : Result Error (Unit {0})) (db : redb.Db)
      → redb.meta (keep_snapshot redb machine stored taken r db).1 vote ≡ redb.meta db vote
  unfolding keep_snapshot
  keep_spares taken (err e) db = refl
  keep_spares taken (ok u) db = write_spares snapshot (stored.encode taken) db refl

  install_spares :
      (taken : StoredSnapshot Bytes M) (sm : RedbStateMachine M) (db : redb.Db)
      → redb.meta (install_snapshot redb machine stored taken sm db).2 vote ≡ redb.meta db vote
  unfolding install_snapshot persist
  install_spares taken sm db = by_case (machine.decode taken.bytes) refl
    where
      by_case :
          (r : Result Error (StateMachineData M))
          → machine.decode taken.bytes ≡ r
          → redb.meta (install_snapshot redb machine stored taken sm db).2 vote ≡ redb.meta db vote
      by_case (err x) e = rw (e, install_snapshot) refl
      by_case (ok d) e =
          rw (e, install_snapshot)
            (keep_spares taken _ _ ∙ write_spares state_machine (machine.encode d) db refl)

  call_spares :
      (c : StorageCall) (sm : RedbStateMachine M) (db : redb.Db)
      → redb.meta (call c sm db).1 vote ≡ redb.meta db vote
  unfolding call
  call_spares (append_call es) sm db = append_spares es db
  call_spares (truncate_call id) sm db =
      unfold truncate in
      commit_spares (map remove_log (redb.keys_from db id.index)) db
        (removals Bytes (redb.keys_from db id.index))
  call_spares (purge_call id) sm db = purge_spares id db
  call_spares (committed_call c) sm db =
      unfold save_committed in write_spares committed (ids.encode c) db refl
  call_spares (apply_call es) sm db =
      unfold apply in
      unfold persist in
      write_spares state_machine (machine.encode (apply_entries es sm.applied).1) db refl
  call_spares build_call sm db = build_spares sm db
  call_spares (install_call taken) sm db = install_spares taken sm db

  calls_spare :
      (cs : List StorageCall) (sm : RedbStateMachine M) (db : redb.Db)
      → redb.meta (calls cs sm db).1 vote ≡ redb.meta db vote
  unfolding calls
  calls_spare [] sm db = refl
  calls_spare (c ∷ cs) sm db =
      calls_spare cs (call c sm db).0 (call c sm db).1 ∙ call_spares c sm db

  -- A vote is never lost: once a vote was saved, and whatever appends, truncations, purges, committed
  -- pointers, batches and snapshots follow, each answered or failing, the vote that is read is the
  -- one that was saved.
  pub read_vote-save_vote :
      {V : Type 0} (votes : Codec Bytes Error V) (v : V) (db : redb.Db) (sm : RedbStateMachine M)
      (cs : List StorageCall)
      → (save_vote redb votes v db).0 ≡ ok tt
      → redb.begin_read (calls cs sm (save_vote redb votes v db).1).1 ≡ ok tt
      → read_vote redb votes (calls cs sm (save_vote redb votes v db).1).1 ≡ ok (some v)
  unfolding save_vote read_vote
  read_vote-save_vote votes v db sm cs h r =
      let (b, e, s) = written redb machine vote (votes.encode v) db h in
      stored_back redb machine votes vote v b (calls cs sm (save_vote redb votes v db).1).1 r
        (calls_spare cs sm (save_vote redb votes v db).1 ∙ unfold meta_after in s) e
