-- ===== src/Raft/Redb.antt =====
-- What crates/pg-agent-core/src/raftstore.rs uses of the libraries redb and serde_json: a database of
-- two tables whose write transactions take effect whole or not at all, and encodings that can be
-- read back. Both are parameters of the storage.
use pg_agent_rs.Prelude.{
  ℕ, ◌≤◌, ◌≡◌, Bool, true, false, Option, none, some, List, [], ◌∷◌, ◌==◌, In, Result, ok, err,
  if◌then◌else◌,
}

-- the keys of the table `raft_meta`
pub data MetaKey : Type 0 where
  vote committed last_purged state_machine snapshot : MetaKey

abbrev pub key_eqb : MetaKey → MetaKey → Bool
key_eqb vote vote = true
key_eqb committed committed = true
key_eqb last_purged last_purged = true
key_eqb state_machine state_machine = true
key_eqb snapshot snapshot = true
key_eqb _ _ = false

-- one change of a write transaction
pub data Write (Bytes : Type 0) : Type 0 where
  put_log : ℕ → Bytes → Write Bytes
  remove_log : ℕ → Write Bytes
  put_meta : MetaKey → Bytes → Write Bytes

-- what the changes, in order, leave under a key
abbrev pub log_step : {Bytes : Type 0} → Write Bytes → ℕ → Option Bytes → Option Bytes
log_step (put_log j b) k o = if j == k then some b else o
log_step (remove_log j) k o = if j == k then none else o
log_step (put_meta m b) k o = o

unfoldable pub log_after : {Bytes : Type 0} → List (Write Bytes) → ℕ → Option Bytes → Option Bytes
log_after [] k o = o
log_after (w ∷ ws) k o = log_after ws k (log_step w k o)

abbrev pub meta_step : {Bytes : Type 0} → Write Bytes → MetaKey → Option Bytes → Option Bytes
meta_step (put_log j b) key o = o
meta_step (remove_log j) key o = o
meta_step (put_meta m b) key o = if key_eqb m key then some b else o

unfoldable pub meta_after :
    {Bytes : Type 0} → List (Write Bytes) → MetaKey → Option Bytes → Option Bytes
meta_after [] key o = o
meta_after (w ∷ ws) key o = meta_after ws key (meta_step w key o)

-- `begin_read` is the answer of a read transaction, `commit` a whole write transaction; `keys_from`
-- and `keys_to` are the keys of `range(n..)` and `range(..=n)`, `rows` the values of a range in key
-- order, `last` the value under the greatest key.
pub record Redb (Bytes Error : Type 0) : Type 1 where
  pub Db : Type 0
  pub begin_read : Db → Result Error (Unit {0})
  pub log_at : Db → ℕ → Option Bytes
  pub meta : Db → MetaKey → Option Bytes
  pub keys_from : Db → ℕ → List ℕ
  pub keys_to : Db → ℕ → List ℕ
  pub last : Db → Option Bytes
  pub rows : Db → ℕ → ℕ → List Bytes
  pub commit : Db → List (Write Bytes) → Result Error (Unit {0}) × Db
  pub log_committed :
      (db : Db) (ws : List (Write Bytes)) (k : ℕ)
      → (commit db ws).0 ≡ ok tt
      → log_at (commit db ws).1 k ≡ log_after ws k (log_at db k)
  pub meta_committed :
      (db : Db) (ws : List (Write Bytes)) (key : MetaKey)
      → (commit db ws).0 ≡ ok tt
      → meta (commit db ws).1 key ≡ meta_after ws key (meta db key)
  pub log_aborted :
      (db : Db) (ws : List (Write Bytes)) (k : ℕ) (e : Error)
      → (commit db ws).0 ≡ err e
      → log_at (commit db ws).1 k ≡ log_at db k
  pub meta_aborted :
      (db : Db) (ws : List (Write Bytes)) (key : MetaKey) (e : Error)
      → (commit db ws).0 ≡ err e
      → meta (commit db ws).1 key ≡ meta db key
  pub from_sound : (db : Db) (n k : ℕ) → In k (keys_from db n) → n ≤ k
  pub from_complete :
      (db : Db) (n k : ℕ) (b : Bytes) → n ≤ k → log_at db k ≡ some b → In k (keys_from db n)
  pub to_sound : (db : Db) (n k : ℕ) → In k (keys_to db n) → k ≤ n
  pub to_complete :
      (db : Db) (n k : ℕ) (b : Bytes) → k ≤ n → log_at db k ≡ some b → In k (keys_to db n)
  pub last_none : (db : Db) (k : ℕ) → last db ≡ none → log_at db k ≡ none
  pub last_some :
      (db : Db) (b : Bytes)
      → last db ≡ some b
      → (n : ℕ) × (log_at db n ≡ some b) × ((k : ℕ) (c : Bytes) → log_at db k ≡ some c → k ≤ n)

-- an encoding, and its law: what was encoded is what is decoded
pub record Codec (Bytes Error A : Type 0) : Type 0 where
  pub encode : A → Result Error Bytes
  pub decode : Bytes → Result Error A
  pub decode-encode : (a : A) (b : Bytes) → encode a ≡ ok b → decode b ≡ ok a
