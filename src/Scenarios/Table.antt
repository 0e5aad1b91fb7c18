-- ===== src/Scenarios/Table.antt =====
-- A database with two tables in memory, which shows that what is asked of redb can be had.
use mathlib.Core.Path.{subst}
use pg_agent_rs.Prelude.{
  ℕ, ◌≤◌, ◌≡◌, refl, sym, ap, ◌∙◌, Bool, true, false, Option, none, some, List, [], ◌∷◌, map, arith,
  ◌==◌, leb, ==_iff, leb→le, le→leb, keep, keep-In, In-keep, In, Bool-cases, inl, inr,
  if◌then◌else◌, lookup, insert, lookup-insert, Result, ok, err, ◌&&◌,
}
use pg_agent_rs.Raft.Redb.{
  MetaKey, key_eqb, Write, put_log, remove_log, put_meta, log_step, log_after, meta_after, Redb,
}

module _ {B : Type 0} where
  remove : ℕ → List (ℕ × B) → List (ℕ × B)
  remove k [] = []
  remove k ((j, b) ∷ m) = let rest = remove k m in if j == k then rest else (j, b) ∷ rest

  lookup-remove :
      (k j : ℕ) (m : List (ℕ × B)) → lookup j (remove k m) ≡ (if k == j then none else lookup j m)
  unfolding lookup remove
  lookup-remove k j [] = ground arith
  lookup-remove k j ((i, b) ∷ m) = ground (arith, lookup-remove k j m)

  unfoldable pub keys : List (ℕ × B) → List ℕ
  keys [] = []
  keys ((k, b) ∷ m) = k ∷ keys m

  pub lookup-keys : (k : ℕ) (b : B) (m : List (ℕ × B)) → lookup k m ≡ some b → In k (keys m)
  unfolding lookup keys
  lookup-keys k b [] h = absurd (cc h)
  lookup-keys k b ((j, c) ∷ m) h = elim (Bool-cases (j == k)) [
    | inl e ↦ inl (sym ((==_iff j k).0 e))
    | inr e ↦ inr (lookup-keys k b m (rw (e, lookup) at h))
  ]

  -- the greatest key, with its value
  unfoldable pub top : List (ℕ × B) → Option (ℕ × B)
  top [] = none
  top ((k, b) ∷ m) = elim (top m) [
    | none ↦ some (k, b)
    | some (j, c) ↦ if leb j k then some (k, b) else some (j, c)
  ]

  IsTop : List (ℕ × B) → Option (ℕ × B) → Type 0
  IsTop m none = (k : ℕ) → lookup k m ≡ none
  IsTop m (some (n, b)) = (lookup n m ≡ some b) × ((k : ℕ) (c : B) → lookup k m ≡ some c → k ≤ n)

  IsTop-step :
      (k : ℕ) (b : B) (m : List (ℕ × B)) (o : Option (ℕ × B))
      → IsTop m o
      → IsTop ((k, b) ∷ m) (elim o [
        | none ↦ some (k, b)
        | some (j, c) ↦ if leb j k then some (k, b) else some (j, c)
      ])
  unfolding IsTop lookup
  IsTop-step k b m none h = (ground arith, λ j c q. ground (arith, q, h j))
  IsTop-step k b m (some (j, c)) h = elim (Bool-cases (leb j k)) [
    | inl e ↦ rw e (ground arith, λ i d q. ground (arith, e, q, h.1 i d))
    | inr e ↦ rw e (ground (arith, e, h.0), λ i d q. ground (arith, e, q, h.1 i d))
  ]

  top-IsTop : (m : List (ℕ × B)) → IsTop m (top m)
  unfolding top
  top-IsTop [] = unfold IsTop in unfold lookup in λ k. refl
  top-IsTop ((k, b) ∷ m) = IsTop-step k b m (top m) (top-IsTop m)

-- `full` makes every commit fail
pub record Table (B : Type 0) : Type 0 where
  pub logs : List (ℕ × B)
  pub metas : MetaKey → Option B
  pub full : Bool

module _ {B : Type 0} where
  unfoldable pub write : Write B → Table B → Table B
  unfolding remove
  write (put_log k b) t = record t { logs = insert k b t.logs }
  write (remove_log k) t = record t { logs = remove k t.logs }
  write (put_meta m b) t = record t { metas = λ key. if key_eqb m key then some b else t.metas key }

  unfoldable pub write_all : List (Write B) → Table B → Table B
  unfolding write
  write_all [] t = t
  write_all (w ∷ ws) t = write_all ws (write w t)

  unfoldable pub commit_unless :
      Bool → Table B → List (Write B) → Result (Unit {0}) (Unit {0}) × Table B
  unfolding write_all
  commit_unless true t ws = (err tt, t)
  commit_unless false t ws = (ok tt, write_all ws t)

  write-log :
      (w : Write B) (t : Table B) (k : ℕ)
      → lookup k (write w t).logs ≡ log_step w k (lookup k t.logs)
  unfolding write
  write-log (put_log j b) t k = lookup-insert j k b t.logs
  write-log (remove_log j) t k = lookup-remove j k t.logs
  write-log (put_meta m b) t k = refl

  write_all-log :
      (ws : List (Write B)) (t : Table B) (k : ℕ)
      → lookup k (write_all ws t).logs ≡ log_after ws k (lookup k t.logs)
  unfolding write_all log_after
  write_all-log [] t k = refl
  write_all-log (w ∷ ws) t k =
      write_all-log ws (write w t) k ∙ ap (log_after ws k) (write-log w t k)

  write_all-meta :
      (ws : List (Write B)) (t : Table B) (key : MetaKey)
      → (write_all ws t).metas key ≡ meta_after ws key (t.metas key)
  unfolding write_all write meta_after
  write_all-meta [] t key = refl
  write_all-meta (put_log j b ∷ ws) t key = write_all-meta ws _ key
  write_all-meta (remove_log j ∷ ws) t key = write_all-meta ws _ key
  write_all-meta (put_meta m b ∷ ws) t key = write_all-meta ws _ key

  pub log_committed :
      (full : Bool) (t : Table B) (ws : List (Write B)) (k : ℕ)
      → (commit_unless full t ws).0 ≡ ok tt
      → lookup k (commit_unless full t ws).1.logs ≡ log_after ws k (lookup k t.logs)
  unfolding commit_unless
  log_committed true t ws k h = absurd (cc h)
  log_committed false t ws k h = write_all-log ws t k

  pub meta_committed :
      (full : Bool) (t : Table B) (ws : List (Write B)) (key : MetaKey)
      → (commit_unless full t ws).0 ≡ ok tt
      → (commit_unless full t ws).1.metas key ≡ meta_after ws key (t.metas key)
  unfolding commit_unless
  meta_committed true t ws key h = absurd (cc h)
  meta_committed false t ws key h = write_all-meta ws t key

  pub aborted :
      (full : Bool) (t : Table B) (ws : List (Write B)) (e : Unit {0})
      → (commit_unless full t ws).0 ≡ err e
      → (commit_unless full t ws).1 ≡ t
  unfolding commit_unless
  aborted true t ws e h = refl
  aborted false t ws e h = absurd (cc h)

  unfoldable pub last_of : List (ℕ × B) → Option B
  unfolding top
  last_of m = elim (top m) [ none ↦ none | some (k, b) ↦ some b ]

  pub last_cases :
      (m : List (ℕ × B)) (o : Option (ℕ × B))
      → top m ≡ o
      → ((k : ℕ) → last_of m ≡ none → lookup k m ≡ none)
        × ((b : B)
            → last_of m ≡ some b
            → (n : ℕ) × (lookup n m ≡ some b) × ((k : ℕ) (c : B) → lookup k m ≡ some c → k ≤ n))
  unfolding last_of IsTop
  last_cases m none e =
      let t = subst (IsTop m) e (top-IsTop m) in
      (λ k h. t k, λ b h. absurd (cc (rw (e, last_of) at h)))
  last_cases m (some (n, c)) e =
      let t = subst (IsTop m) e (top-IsTop m) in
      (
        λ k h. absurd (cc (rw (e, last_of) at h)),
        λ b h. let q : c ≡ b = cc (rw (e, last_of) at h) in (n, rw (← q) t.0, t.1),
      )

  abbrev pub table : Redb B (Unit {0})
  table = record {
    Db = Table B;
    begin_read = λ t. ok tt;
    log_at = λ t k. lookup k t.logs;
    meta = λ t key. t.metas key;
    keys_from = λ t n. keep (leb n) (keys t.logs);
    keys_to = λ t n. keep (λ k. leb k n) (keys t.logs);
    last = λ t. last_of t.logs;
    rows =
        λ t lo hi. map (λ (r : ℕ × B). r.1) (keep (λ (r : ℕ × B). leb lo r.0 && leb r.0 hi) t.logs);
    commit = λ t ws. commit_unless t.full t ws;
    log_committed = λ t ws k h. log_committed t.full t ws k h;
    meta_committed = λ t ws key h. meta_committed t.full t ws key h;
    log_aborted = λ t ws k e h. ap (λ (x : Table B). lookup k x.logs) (aborted t.full t ws e h);
    meta_aborted = λ t ws key e h. ap (λ (x : Table B). x.metas key) (aborted t.full t ws e h);
    from_sound = λ t n k m. leb→le n k (keep-In (leb n) k (keys t.logs) m).1;
    from_complete =
        λ t n k b le h. In-keep (leb n) k (keys t.logs) (lookup-keys k b t.logs h) (le→leb n k le);
    to_sound = λ t n k m. leb→le k n (keep-In (λ j. leb j n) k (keys t.logs) m).1;
    to_complete = λ t n k b le h.
        In-keep (λ j. leb j n) k (keys t.logs) (lookup-keys k b t.logs h) (le→leb k n le);
    last_none = λ t k h. (last_cases t.logs (top t.logs) refl).0 k h;
    last_some = λ t b h. (last_cases t.logs (top t.logs) refl).1 b h;
  }
