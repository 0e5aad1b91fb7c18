-- ===== src/Raft/Log/Appends.antt =====
-- What the log holds after an append, and what it reports of itself
-- (crates/pg-agent-core/src/raftstore.rs, `RedbLogStore`).
use mathlib.Core.Path.{subst}
use pg_agent_rs.Prelude.{
  ap, ℕ, ◌≤◌, ◌≡◌, ◌⊎◌, refl, ◌∙◌, Option, none, some, List, [], ◌∷◌, ◌==◌, Bool-cases, inl, inr,
  if◌then◌else◌, Result, ok, err,
}
use pg_agent_rs.Raft.Redb.{Write, put_log, log_after, Redb, Codec}
use pg_agent_rs.Raft.Log.{
  LogId, Entry, LogState, append, encode_all, read_last_purged, last_log, get_log_state,
}

module _ {Bytes Error : Type 0} (redb : Redb Bytes Error) where
  module _ {M : Type 0} (codec : Codec Bytes Error (Entry M)) where
    -- the entry that an append leaves under an index: the last of the batch
    abbrev pub latest_at : ℕ → List (Entry M) → Option (Entry M)
    latest_at k [] = none
    latest_at k (e ∷ es) = elim (latest_at k es) [
      | some x ↦ some x
      | none ↦ if e.log_id.index == k then some e else none
    ]

    -- the log holds an entry under an index, readably
    abbrev pub Holds : redb.Db → ℕ → Entry M → Type 0
    Holds db k e = (b : Bytes) × (redb.log_at db k ≡ some b) × (codec.decode b ≡ ok e)

    -- what encoding a batch leaves under an index
    Leaves : ℕ → List (Write Bytes) → Option (Entry M) → Option Bytes → Type 0
    Leaves k ws (some e) o = (b : Bytes) × (log_after ws k o ≡ some b) × (codec.decode b ≡ ok e)
    Leaves k ws none o = log_after ws k o ≡ o

    -- one more row before those of a batch
    row_Leaves :
        (k : ℕ) (e : Entry M) (b : Bytes) (ws : List (Write Bytes)) (rest : Option (Entry M))
        (o : Option Bytes)
        → codec.encode e ≡ ok b
        → ((p : Option Bytes) → Leaves k ws rest p)
        → Leaves k
            (put_log e.log_id.index b ∷ ws)
            (elim rest [ some x ↦ some x | none ↦ if e.log_id.index == k then some e else none ])
            o
    unfolding Leaves log_after
    row_Leaves k e b ws (some x) o q ih = ih _
    row_Leaves k e b ws none o q ih = elim (Bool-cases (e.log_id.index == k)) [
      | inl t ↦ rw t (b, rw (t, log_after) (ih (some b)), codec.decode-encode e b q)
      | inr t ↦ rw t (rw (t, log_after) (ih o))
    ]

    encode_all-Leaves :
        (k : ℕ) (es : List (Entry M)) (ws : List (Write Bytes))
        → encode_all redb codec es ≡ ok ws
        → (o : Option Bytes) → Leaves k ws (latest_at k es) o
    unfolding encode_all Leaves log_after
    encode_all-Leaves k [] ws h o = let e : [] ≡ ws = cc h in rw (← e) refl
    encode_all-Leaves k (e ∷ es) ws h o =
        by_encoding (encode_all-Leaves k es) (codec.encode e) (encode_all redb codec es) refl refl
      where
        by_encoding :
            ((vs : List (Write Bytes))
              → encode_all redb codec es ≡ ok vs
              → (p : Option Bytes) → Leaves k vs (latest_at k es) p)
            → (r : Result Error Bytes) (t : Result Error (List (Write Bytes))) → codec.encode e ≡ r
            → encode_all redb codec es ≡ t
            → Leaves k ws (latest_at k (e ∷ es)) o
        by_encoding ih (err x) t q u = absurd (cc (rw (q, encode_all) at h))
        by_encoding ih (ok b) (err x) q u = absurd (cc (rw (q, u, encode_all) at h))
        by_encoding ih (ok b) (ok vs) q u =
            let same : put_log e.log_id.index b ∷ vs ≡ ws = cc (rw (q, u, encode_all) at h) in
            subst (λ x. Leaves k x (latest_at k (e ∷ es)) o) same
              (row_Leaves k e b vs (latest_at k es) o q (ih vs u))

    append-writes :
        (es : List (Entry M)) (db : redb.Db)
        → (append redb codec es db).0 ≡ ok tt
        → (ws : List (Write Bytes)) × (encode_all redb codec es ≡ ok ws)
          × (append redb codec es db ≡ redb.commit db ws)
    unfolding append
    append-writes es db h = by_case (encode_all redb codec es) refl
      where
        by_case :
            (t : Result Error (List (Write Bytes)))
            → encode_all redb codec es ≡ t
            → (ws : List (Write Bytes)) × (encode_all redb codec es ≡ ok ws)
              × (append redb codec es db ≡ redb.commit db ws)
        by_case (ok ws) e = (ws, e, rw (e, append))
        by_case (err x) e = absurd (cc (rw (e, append) at h))

    -- what an index holds after an append: the batch's last entry for it, or what it held
    abbrev pub Appended : ℕ → Option (Entry M) → redb.Db → redb.Db → Type 0
    Appended k (some e) db db' = Holds db' k e
    Appended k none db db' = redb.log_at db' k ≡ redb.log_at db k

    Leaves-Appended :
        (k : ℕ) (ws : List (Write Bytes)) (rest : Option (Entry M)) (db : redb.Db)
        → (redb.commit db ws).0 ≡ ok tt
        → Leaves k ws rest (redb.log_at db k)
        → Appended k rest db (redb.commit db ws).1
    unfolding Leaves
    Leaves-Appended k ws none db h l = redb.log_committed db ws k h ∙ l
    Leaves-Appended k ws (some e) db h (b, l, d) = (b, redb.log_committed db ws k h ∙ l, d)

    -- An append that is answered leaves under every index the batch's last entry for it, readably,
    -- and every index that the batch does not name as it was.
    pub append_exact :
        (es : List (Entry M)) (db : redb.Db) (k : ℕ)
        → (append redb codec es db).0 ≡ ok tt
        → Appended k (latest_at k es) db (append redb codec es db).1
    append_exact es db k h =
        let (ws, e, q) = append-writes es db h in
        rw q (
          Leaves-Appended k ws (latest_at k es) db (rw q at h)
            (encode_all-Leaves k es ws e (redb.log_at db k)))

    -- The last log id, for a purge point: the id of the entry under the greatest index, or the purge
    -- point where the log is empty.
    abbrev pub LastIs : redb.Db → Option LogId → Option LogId → Type 0
    LastIs db purged id =
        (((k : ℕ) → redb.log_at db k ≡ none) × (id ≡ purged))
        ⊎ ((n : ℕ) × ((e : Entry M) × Holds db n e
              × (id ≡ some e.log_id)
              × ((k : ℕ) (c : Bytes) → redb.log_at db k ≡ some c → k ≤ n)))

    last_log-LastIs :
        (db : redb.Db) (purged id : Option LogId) (o : Option Bytes)
        → redb.last db ≡ o
        → last_log redb codec purged o ≡ ok id
        → LastIs db purged id
    unfolding last_log
    last_log-LastIs db purged id none e h = inl (λ k. redb.last_none db k e, cc h)
    last_log-LastIs db purged id (some b) e h = by_case (codec.decode b) refl
      where
        by_case : (r : Result Error (Entry M)) → codec.decode b ≡ r → LastIs db purged id
        by_case (err x) q = absurd (cc (rw (q, last_log) at h))
        by_case (ok y) q =
            let (n, at_n, greatest) = redb.last_some db b e in
            inr (n, (y, (b, at_n, q), cc (rw (q, last_log) at h), greatest))

    -- A log state that is answered reports the purge point as it is read, and as the last id that of
    -- the entry under the greatest index, or the purge point where no entry is left.
    pub get_log_state-LastIs :
        (ids : Codec Bytes Error (Option LogId)) (db : redb.Db) (st : LogState)
        → get_log_state redb codec ids db ≡ ok st
        → (read_last_purged redb ids db ≡ ok st.last_purged_log_id)
          × LastIs db st.last_purged_log_id st.last_log_id
    unfolding get_log_state
    get_log_state-LastIs ids db st h = by_case (read_last_purged redb ids db) refl
      where
        by_last :
            (p : Option LogId) (r : Result Error (Option LogId))
            → read_last_purged redb ids db ≡ ok p
            → last_log redb codec p (redb.last db) ≡ r
            → (read_last_purged redb ids db ≡ ok st.last_purged_log_id)
              × LastIs db st.last_purged_log_id st.last_log_id
        by_last p (err x) q u = absurd (cc (rw (q, u, get_log_state) at h))
        by_last p (ok id) q u =
            let g = rw (q, u, get_log_state) at h in
            let a : p ≡ st.last_purged_log_id = cc g in
            let b : id ≡ st.last_log_id = cc g in
            (
              q ∙ ap ok a,
              subst (LastIs db st.last_purged_log_id) b
                  (subst (λ x. LastIs db x id) a (last_log-LastIs db p id (redb.last db) refl u)),
            )

        by_case :
            (r : Result Error (Option LogId))
            → read_last_purged redb ids db ≡ r
            → (read_last_purged redb ids db ≡ ok st.last_purged_log_id)
              × LastIs db st.last_purged_log_id st.last_log_id
        by_case (err x) q = absurd (cc (rw (q, get_log_state) at h))
        by_case (ok p) q = by_last p (last_log redb codec p (redb.last db)) q refl
