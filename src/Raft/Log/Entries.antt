-- ===== src/Raft/Log/Entries.antt =====
-- What the log holds after an append, a truncation and a purge
-- (crates/pg-agent-core/src/raftstore.rs, `RedbLogStore`).
use pg_agent_rs.Prelude.{
  ℕ, ◌≡◌, refl, sym, ◌∙◌, Option, none, some, List, [], ◌∷◌, map, arith, ltb, leb, ◌==◌, ==_iff,
  ltb→lt, In, lift, Bool-cases, inl, inr, if◌then◌else◌, Result, ok, err,
}
use pg_agent_rs.Raft.Redb.{last_purged, remove_log, put_meta, log_after, meta_after, Redb, Codec}
use pg_agent_rs.Raft.Log.{LogId, truncate, purge, read_meta, decoded_option, read_last_purged}

removed_none :
    {B : Type 0} (ks : List ℕ) (k : ℕ) → log_after {Bytes = B} (map remove_log ks) k none ≡ none
unfolding log_after
removed_none [] k = refl
removed_none (j ∷ js) k = elim (Bool-cases (j == k)) [
  | inl e ↦ rw (e, log_after) (removed_none js k)
  | inr e ↦ rw (e, log_after) (removed_none js k)
]

removed :
    {B : Type 0} (ks : List ℕ) (k : ℕ) (o : Option B)
    → In k ks
    → log_after (map remove_log ks) k o ≡ none
unfolding log_after
removed [] k o (lift m) = absurd m
removed (j ∷ js) k o (inl p) = rw ((==_iff j k).1 (sym p), log_after) (removed_none js k)
removed (j ∷ js) k o (inr m) = removed js k _ m

kept :
    {B : Type 0} (ks : List ℕ) (k : ℕ) (o : Option B)
    → (In k ks → ⊥)
    → log_after (map remove_log ks) k o ≡ o
unfolding log_after
kept [] k o n = refl
kept (j ∷ js) k o n = elim (Bool-cases (j == k)) [
  | inl e ↦ absurd (n (inl (sym ((==_iff j k).0 e))))
  | inr e ↦ rw (e, log_after) (kept js k o (λ m. n (inr m)))
]

module _ {Bytes Error : Type 0} (redb : Redb Bytes Error) where
  -- all keys of a set are removed, where every key in use that satisfies the test is in the list
  removed_or_none :
      (ks : List ℕ) (k : ℕ) (o : Option Bytes)
      → ((b : Bytes) → o ≡ some b → In k ks)
      → log_after (map remove_log ks) k o ≡ none
  removed_or_none ks k none h = removed_none ks k
  removed_or_none ks k (some b) h = removed ks k (some b) (h b refl)

  -- A truncation that is answered drops the conflicting suffix whole: every index from the given one
  -- on is gone, and every index below it holds what it held.
  pub truncate_exact :
      (id : LogId) (db : redb.Db) (k : ℕ)
      → (truncate redb id db).0 ≡ ok tt
      → redb.log_at (truncate redb id db).1 k ≡ (if ltb k id.index then redb.log_at db k else none)
  unfolding truncate
  truncate_exact id db k h =
      redb.log_committed db (map remove_log (redb.keys_from db id.index)) k h
      ∙ elim (Bool-cases (ltb k id.index)) [
        | inl e ↦ rw e (
            kept (redb.keys_from db id.index) k (redb.log_at db k)
              (λ m. omega (arith, ltb→lt k id.index e, redb.from_sound db id.index k m)))
        | inr e ↦ rw e (
            removed_or_none (redb.keys_from db id.index) k (redb.log_at db k)
              (λ b q. redb.from_complete db id.index k b (ground (arith, e)) q))
      ]

  module _ (ids : Codec Bytes Error (Option LogId)) where
    purge_writes :
        (id : LogId) (db : redb.Db) (b : Bytes)
        → ids.encode (some id) ≡ ok b
        → purge redb ids id db
          ≡ redb.commit db (put_meta last_purged b ∷ map remove_log (redb.keys_to db id.index))
    unfolding purge
    purge_writes id db b e = rw (e, purge)

    purged_meta :
        (ks : List ℕ) (o : Option Bytes) → meta_after (map remove_log ks) last_purged o ≡ o
    unfolding meta_after
    purged_meta [] o = refl
    purged_meta (k ∷ ks) o = purged_meta ks o

    encoded :
        (id : LogId) (db : redb.Db)
        → (purge redb ids id db).0 ≡ ok tt
        → (b : Bytes) × (ids.encode (some id) ≡ ok b)
    unfolding purge
    encoded id db h = by_case (ids.encode (some id)) refl
      where
        by_case :
            (r : Result Error Bytes)
            → ids.encode (some id) ≡ r
            → (b : Bytes) × (ids.encode (some id) ≡ ok b)
        by_case (ok b) e = (b, e)
        by_case (err x) e = absurd (cc (rw (e, purge) at h))

    -- A purge that is answered moves the purge point and the entries together: every index up to the
    -- given one is gone, every index above it holds what it held, and the purge point that is read
    -- back is the given id.
    pub purge_exact :
        (id : LogId) (db : redb.Db)
        → (purge redb ids id db).0 ≡ ok tt
        → redb.begin_read (purge redb ids id db).1 ≡ ok tt
        → ((k : ℕ)
            → redb.log_at (purge redb ids id db).1 k
              ≡ (if leb k id.index then none else redb.log_at db k))
          × (read_last_purged redb ids (purge redb ids id db).1 ≡ ok (some id))
    unfolding read_last_purged read_meta decoded_option
    purge_exact id db h r =
        let (b, e) = encoded id db h in
        let w = purge_writes id db b e in
        let ks = redb.keys_to db id.index in
        let h' : (redb.commit db (put_meta last_purged b ∷ map remove_log ks)).0 ≡ ok tt =
          rw w at h in
        let point : redb.meta (purge redb ids id db).1 last_purged ≡ some b = rw w (
          redb.meta_committed db (put_meta last_purged b ∷ map remove_log ks) last_purged h'
          ∙ unfold meta_after in purged_meta ks (some b)) in
        (
          λ k. rw w (
              redb.log_committed db (put_meta last_purged b ∷ map remove_log ks) k h'
              ∙ unfold log_after in
                elim (Bool-cases (leb k id.index)) [
                  | inl l ↦ rw l (
                      removed_or_none ks k (redb.log_at db k)
                        (λ c q. redb.to_complete db id.index k c (ground (arith, l)) q))
                  | inr l ↦ rw l (
                      kept ks k (redb.log_at db k)
                        (λ m. absurd (ground (arith, l, redb.to_sound db id.index k m))))
                ]),
          rw (r, read_meta) (rw (point) (ids.decode-encode (some id) b e)),
        )
