-- ===== src/Raft/Log.antt =====
-- The log store `RedbLogStore` of crates/pg-agent-core/src/raftstore.rs: the log, the vote, the
-- committed pointer and the purge point. The types of openraft are given by the fields that are used.
pub mod Entries
pub mod Appends
use pg_agent_rs.Prelude.{ℕ, Option, none, some, List, [], ◌∷◌, map, Result, ok, err}
use pg_agent_rs.Raft.Machine.{ConsensusCommand}
use pg_agent_rs.Raft.Redb.{
  MetaKey, vote, committed, last_purged, Write, put_log, remove_log, put_meta, Redb, Codec,
}

pub record LogId : Type 0 where
  pub term : ℕ
  pub node : ℕ
  pub index : ℕ

-- `M` is openraft's membership
pub data EntryPayload (M : Type 0) : Type 0 where
  blank : EntryPayload M
  normal : ConsensusCommand → EntryPayload M
  membership : M → EntryPayload M

pub record Entry (M : Type 0) : Type 0 where
  pub log_id : LogId
  pub payload : EntryPayload M

pub record LogState : Type 0 where
  pub last_purged_log_id : Option LogId
  pub last_log_id : Option LogId

module _ {Bytes Error : Type 0} (redb : Redb Bytes Error) where
  unfoldable pub read_meta : MetaKey → redb.Db → Result Error (Option Bytes)
  read_meta key db = elim (redb.begin_read db) [ err e ↦ err e | ok u ↦ ok (redb.meta db key) ]

  unfoldable pub write_meta :
      MetaKey → Result Error Bytes → redb.Db → Result Error (Unit {0}) × redb.Db
  write_meta key (err e) db = (err e, db)
  write_meta key (ok b) db = redb.commit db (put_meta key b ∷ [])

  -- a decoded value, where one is stored
  unfoldable pub decoded :
      {A : Type 0} → Codec Bytes Error A → Result Error (Option Bytes) → Result Error (Option A)
  decoded codec (err e) = err e
  decoded codec (ok none) = ok none
  decoded codec (ok (some b)) = elim (codec.decode b) [ ok a ↦ ok (some a) | err e ↦ err e ]

  -- the same where the stored value is itself optional
  unfoldable pub decoded_option :
      {A : Type 0}
      → Codec Bytes Error (Option A)
      → Result Error (Option Bytes)
      → Result Error (Option A)
  decoded_option codec (err e) = err e
  decoded_option codec (ok none) = ok none
  decoded_option codec (ok (some b)) = codec.decode b

  unfoldable pub read_last_purged :
      Codec Bytes Error (Option LogId) → redb.Db → Result Error (Option LogId)
  unfolding read_meta decoded_option
  read_last_purged codec db = decoded_option codec (read_meta last_purged db)

  unfoldable pub save_vote :
      {V : Type 0} → Codec Bytes Error V → V → redb.Db → Result Error (Unit {0}) × redb.Db
  unfolding write_meta
  save_vote codec v db = write_meta vote (codec.encode v) db

  unfoldable pub read_vote : {V : Type 0} → Codec Bytes Error V → redb.Db → Result Error (Option V)
  unfolding read_meta decoded
  read_vote codec db = decoded codec (read_meta vote db)

  unfoldable pub save_committed :
      Codec Bytes Error (Option LogId) → Option LogId → redb.Db → Result Error (Unit {0}) × redb.Db
  unfolding write_meta
  save_committed codec c db = write_meta committed (codec.encode c) db

  unfoldable pub read_committed :
      Codec Bytes Error (Option LogId) → redb.Db → Result Error (Option LogId)
  unfolding read_meta decoded_option
  read_committed codec db = decoded_option codec (read_meta committed db)

  unfoldable pub purge :
      Codec Bytes Error (Option LogId) → LogId → redb.Db → Result Error (Unit {0}) × redb.Db
  purge codec id db = elim (codec.encode (some id)) [
    | err e ↦ (err e, db)
    | ok b ↦ redb.commit db (put_meta last_purged b ∷ map remove_log (redb.keys_to db id.index))
  ]

  unfoldable pub truncate : LogId → redb.Db → Result Error (Unit {0}) × redb.Db
  truncate id db = redb.commit db (map remove_log (redb.keys_from db id.index))

  module _ {M : Type 0} (codec : Codec Bytes Error (Entry M)) where
    -- the rows of the entries, or the first error of the encoding
    unfoldable pub encode_all : List (Entry M) → Result Error (List (Write Bytes))
    encode_all [] = ok []
    encode_all (e ∷ es) = elim (codec.encode e) [
      | err x ↦ err x
      | ok b ↦ elim (encode_all es) [ err x ↦ err x | ok ws ↦ ok (put_log e.log_id.index b ∷ ws) ]
    ]

    unfoldable pub append : List (Entry M) → redb.Db → Result Error (Unit {0}) × redb.Db
    unfolding encode_all
    append es db = elim (encode_all es) [ err x ↦ (err x, db) | ok ws ↦ redb.commit db ws ]

    unfoldable pub decode_all : List Bytes → Result Error (List (Entry M))
    decode_all [] = ok []
    decode_all (b ∷ bs) = elim (codec.decode b) [
      | err x ↦ err x
      | ok e ↦ elim (decode_all bs) [ err x ↦ err x | ok es ↦ ok (e ∷ es) ]
    ]

    -- the entries of a range
    unfoldable pub try_get_log_entries : ℕ → ℕ → redb.Db → Result Error (List (Entry M))
    unfolding decode_all
    try_get_log_entries lo hi db = elim (redb.begin_read db) [
      | err e ↦ err e
      | ok u ↦ decode_all (redb.rows db lo hi)
    ]

    unfoldable pub last_log : Option LogId → Option Bytes → Result Error (Option LogId)
    last_log purged none = ok purged
    last_log purged (some b) = elim (codec.decode b) [ err x ↦ err x | ok e ↦ ok (some e.log_id) ]

    -- where no entry is left the purge point is the last id
    unfoldable pub get_log_state :
        Codec Bytes Error (Option LogId) → redb.Db → Result Error LogState
    unfolding read_last_purged last_log
    get_log_state ids db = elim (read_last_purged ids db) [
      | err x ↦ err x
      | ok purged ↦ elim (last_log purged (redb.last db)) [
        | err x ↦ err x
        | ok id ↦ ok (record { last_purged_log_id = purged; last_log_id = id })
      ]
    ]
