-- ===== src/Scenarios/StorageRuns.antt =====
-- The storage of the replicated state machine over a database in memory.
use mathlib.Core.Path.{subst}
use pg_agent_rs.Prelude.{
  ℕ, ◌≡◌, refl, true, false, Option, none, some, List, [], ◌∷◌, Result, ok, err, lookup, leb,
  if◌then◌else◌,
}
use pg_agent_rs.Consensus.{empty_state}
use pg_agent_rs.Raft.Machine.{takeover, apply_all}
use pg_agent_rs.Raft.Redb.{Codec}
use pg_agent_rs.Raft.Log.{
  LogId, blank, normal, membership, Entry, LogState, purge, append, save_vote, read_vote,
  read_last_purged, encode_all, write_meta,
}
use pg_agent_rs.Raft.Log.Entries.{purge_exact}
use pg_agent_rs.Raft.Log.Appends.{Appended, latest_at, append_exact}
use pg_agent_rs.Raft.Storage.{
  StateMachineData, SnapshotMeta, snapshot_of, StoredSnapshot, RedbStateMachine, empty_data, apply,
  open_machine, read_cluster, build_snapshot, install_snapshot, keep_snapshot, get_current_snapshot,
  persist, apply_entries,
}
use pg_agent_rs.Raft.Storage.Durable.{commands, apply_durable}
use pg_agent_rs.Raft.Storage.Snapshots.{install-build_snapshot}
use pg_agent_rs.Raft.Storage.Votes.{
  StorageCall, append_call, purge_call, apply_call, build_call, calls, read_vote-save_vote,
}
use pg_agent_rs.Scenarios.Table.{Table, table, commit_unless}

-- what is stored, each kind of value with a mark of its own; a membership is a number
data Stored : Type 0 where
  entry : Entry ℕ → Stored
  id : Option LogId → Stored
  machine : StateMachineData ℕ → Stored
  snapshot : SnapshotMeta ℕ → Stored → Stored
  vote : ℕ → Stored

read_entry : Stored → Result (Unit {0}) (Entry ℕ)
read_entry (entry e) = ok e
read_entry _ = err tt

read_id : Stored → Result (Unit {0}) (Option LogId)
read_id (id i) = ok i
read_id _ = err tt

read_machine : Stored → Result (Unit {0}) (StateMachineData ℕ)
read_machine (machine d) = ok d
read_machine _ = err tt

read_stored : Stored → Result (Unit {0}) (StoredSnapshot Stored ℕ)
read_stored (snapshot m b) = ok (record { meta = m; bytes = b })
read_stored _ = err tt

read_voted : Stored → Result (Unit {0}) ℕ
read_voted (vote v) = ok v
read_voted _ = err tt

read_entries_back :
    (a : Entry ℕ) (b : Stored)
    → ◌≡◌ {A = Result (Unit {0}) Stored} (ok (entry a)) (ok b)
    → read_entry b ≡ ok a
unfolding read_entry
read_entries_back a b h = subst (λ x. read_entry x ≡ ok a) (let q : entry a ≡ b = cc h in q) refl

abbrev entries : Codec Stored (Unit {0}) (Entry ℕ)
entries = record {
  encode = λ a. ok (entry a);
  decode = read_entry;
  decode-encode = read_entries_back;
}

read_ids_back :
    (a : Option LogId) (b : Stored)
    → ◌≡◌ {A = Result (Unit {0}) Stored} (ok (id a)) (ok b)
    → read_id b ≡ ok a
unfolding read_id
read_ids_back a b h = subst (λ x. read_id x ≡ ok a) (let q : id a ≡ b = cc h in q) refl

abbrev ids : Codec Stored (Unit {0}) (Option LogId)
ids = record { encode = λ a. ok (id a); decode = read_id; decode-encode = read_ids_back }

read_machines_back :
    (a : StateMachineData ℕ) (b : Stored)
    → ◌≡◌ {A = Result (Unit {0}) Stored} (ok (machine a)) (ok b)
    → read_machine b ≡ ok a
unfolding read_machine
read_machines_back a b h =
    subst (λ x. read_machine x ≡ ok a) (let q : machine a ≡ b = cc h in q) refl

abbrev machines : Codec Stored (Unit {0}) (StateMachineData ℕ)
machines = record {
  encode = λ a. ok (machine a);
  decode = read_machine;
  decode-encode = read_machines_back;
}

read_snapshots_back :
    (a : StoredSnapshot Stored ℕ) (b : Stored)
    → ◌≡◌ {A = Result (Unit {0}) Stored} (ok (snapshot a.meta a.bytes)) (ok b)
    → read_stored b ≡ ok a
unfolding read_stored
read_snapshots_back a b h =
    subst (λ x. read_stored x ≡ ok a) (let q : snapshot a.meta a.bytes ≡ b = cc h in q) refl

abbrev snapshots : Codec Stored (Unit {0}) (StoredSnapshot Stored ℕ)
snapshots = record {
  encode = λ a. ok (snapshot a.meta a.bytes);
  decode = read_stored;
  decode-encode = read_snapshots_back;
}

read_votes_back :
    (a : ℕ) (b : Stored)
    → ◌≡◌ {A = Result (Unit {0}) Stored} (ok (vote a)) (ok b)
    → read_voted b ≡ ok a
unfolding read_voted
read_votes_back a b h = subst (λ x. read_voted x ≡ ok a) (let q : vote a ≡ b = cc h in q) refl

abbrev votes : Codec Stored (Unit {0}) (ℕ)
votes = record { encode = λ a. ok (vote a); decode = read_voted; decode-encode = read_votes_back }

abbrev database : Table Stored
database = record { logs = []; metas = λ key. none; full = false }

abbrev at : ℕ → LogId
at n = record { term = 1; node = 0; index = n }

abbrev batch : List (Entry ℕ)
batch =
    record { log_id = at 1; payload = membership 3 }
    ∷ record { log_id = at 2; payload = normal (takeover 1 none 100) }
    ∷ record { log_id = at 3; payload = blank }
    ∷ []

abbrev with_log : Table Stored
with_log = (append table entries batch database).1

abbrev idle : RedbStateMachine ℕ
idle = record { applied = empty_data 0; snapshot_idx = 0 }

append_exact_example : Appended table entries 2 (latest_at table entries 2 batch) database with_log
unfolding append encode_all commit_unless
append_exact_example = append_exact table entries batch database 2 refl

purge_exact_example :
    ((k : ℕ)
      → lookup k (purge table ids (at 1) with_log).1.logs
        ≡ (if leb k 1 then none else lookup k with_log.logs))
    × (read_last_purged table ids (purge table ids (at 1) with_log).1 ≡ ok (some (at 1)))
unfolding purge commit_unless append encode_all
purge_exact_example = purge_exact table ids (at 1) with_log refl refl

abbrev reported : LogState
reported = record { last_purged_log_id = none; last_log_id = none }

apply_durable_example :
    (open_machine table machines 0 (apply table machines batch idle database).2
      ≡ ok (record {
        applied = (apply table machines batch idle database).1.applied;
        snapshot_idx = 0;
      }))
    × (read_cluster table machines 0 (apply table machines batch idle database).2
        ≡ ok (apply_all empty_state (commands batch)).0)
unfolding apply persist write_meta commit_unless
apply_durable_example =
    apply_durable table machines 0 batch idle database (apply_entries batch idle.applied).0 refl
      refl

abbrev full_disk : Table Stored
full_disk = record database { full = true }

abbrev source : RedbStateMachine ℕ
source = record { applied = (apply_entries batch idle.applied).1; snapshot_idx = 1 }

abbrev taken : StoredSnapshot Stored ℕ
taken = record {
  meta = record {
    last_log_id = source.applied.last_applied;
    last_membership = source.applied.last_membership;
    snapshot_id = snapshot_of source.applied.last_applied 1;
  };
  bytes = machine source.applied;
}

install-build_snapshot_example :
    ((install_snapshot table machines snapshots taken idle database).1.applied ≡ source.applied)
    × (open_machine table machines 0
          (install_snapshot table machines snapshots taken idle database).2
        ≡ ok (record { applied = source.applied; snapshot_idx = 0 }))
    × (get_current_snapshot table machines snapshots
          (install_snapshot table machines snapshots taken idle database).2
        ≡ ok (some taken))
unfolding build_snapshot install_snapshot keep_snapshot persist write_meta commit_unless
    read_machine
install-build_snapshot_example =
    install-build_snapshot table machines snapshots 0 source idle database database taken refl refl
      refl

abbrev later : List (StorageCall table entries ids machines snapshots)
later = append_call batch ∷ apply_call batch ∷ purge_call (at 2) ∷ build_call ∷ []

read_vote-save_vote_example :
    read_vote table votes
      (calls table entries ids machines snapshots later idle (save_vote table votes 7 database).1).1
    ≡ ok (some 7)
unfolding save_vote write_meta commit_unless
read_vote-save_vote_example =
    read_vote-save_vote table entries ids machines snapshots votes 7 database idle later refl refl
