-- ===== src/Maintenance/Stored.antt =====
-- What a look-up finds after a write (`get` and `write_atomic` of
-- crates/pg-agent-core/src/maintenance.rs).
use mathlib.Core.Path.{subst}
use pg_agent_rs.Prelude.{
  false, ◌≡◌, refl, true, Option, some, List, [], ◌∷◌, arith, find, Bool-cases, inl, inr, ok,
}
use pg_agent_rs.Inflight.Journal.{Io}
use pg_agent_rs.Maintenance.{
  IntentId, no_id, made, id_eqb, MaintenanceIntent, IntentFile, intent, corrupt, file_id,
}
use pg_agent_rs.Maintenance.Queue.{FileMaintenanceStore, put, get, read_file, rewrite, write_atomic}

-- the file system answers every call
abbrev pub working : Io
working = record { reads = true; skips = λ id. false; writes = true }

id_eqb_refl : (a : IntentId) → id_eqb a a ≡ true
id_eqb_refl no_id = refl
id_eqb_refl (made a n) = ground arith

abbrev find_id : IntentId → List IntentFile → Option IntentFile
find_id id fs = find (λ (f : IntentFile). id_eqb (file_id f) id) fs

find_id-put :
    (i : MaintenanceIntent) (fs : List IntentFile) → find_id i.id (put i fs) ≡ some (intent i)
unfolding put file_id
find_id-put i [] = rw (id_eqb_refl i.id) refl
find_id-put i (f ∷ fs) = elim (Bool-cases (id_eqb (file_id f) i.id)) [
  | inl e ↦ rw e (rw (id_eqb_refl i.id) refl)
  | inr e ↦ rw e (rw e (find_id-put i fs))
]

-- an intent that was just written is the one that is read
pub get-put :
    (id : IntentId) (i j : MaintenanceIntent) (st : FileMaintenanceStore)
    → get working id st ≡ ok i
    → j.id ≡ id
    → get working id (record st { files = put j st.files }) ≡ ok j
unfolding get read_file
get-put no_id i j st h e = absurd (cc h)
get-put (made a n) i j st h e =
    rw (subst (λ k. find_id k (put j st.files) ≡ some (intent j)) e (find_id-put j st.files)) refl

-- a change that keeps the id is what the next look-up reads
pub get-rewrite :
    (i : MaintenanceIntent) (change : MaintenanceIntent → MaintenanceIntent)
    (st : FileMaintenanceStore)
    → get working i.id st ≡ ok i
    → (change i).id ≡ i.id
    → get working i.id (rewrite working (get working i.id st) change st).1 ≡ ok (change i)
unfolding rewrite write_atomic
get-rewrite i change st h e = rw h (get-put i.id i (change i) st h e)

id_eqb→eq : (a b : IntentId) → id_eqb a b ≡ true → a ≡ b
id_eqb→eq no_id no_id h = refl
id_eqb→eq no_id (made b m) h = absurd (cc h)
id_eqb→eq (made a n) no_id h = absurd (cc h)
id_eqb→eq (made a n) (made b m) h =
    let p : a ≡ b = ground (arith, h) in let q : n ≡ m = ground (arith, h) in cc (p, q)

read_id :
    (id : IntentId) (fs : List IntentFile) (i : MaintenanceIntent)
    → read_file (find_id id fs) id ≡ ok i
    → i.id ≡ id
unfolding read_file file_id
read_id id [] i h = absurd (cc h)
read_id id (f ∷ fs) i h = elim (Bool-cases (id_eqb (file_id f) id)) [
  | inl e ↦ at_file f e (rw e at h)
  | inr e ↦ read_id id fs i (rw e at h)
]
  where
    at_file :
        (f : IntentFile) → id_eqb (file_id f) id ≡ true → read_file (some f) id ≡ ok i → i.id ≡ id
    at_file (corrupt s) e h = absurd (cc h)
    at_file (intent k) e h =
        let same : k ≡ i = cc h in subst (λ x. x.id ≡ id) same (id_eqb→eq k.id id e)

-- the intent that is read under an id has that id
pub get-id :
    (id : IntentId) (i : MaintenanceIntent) (st : FileMaintenanceStore)
    → get working id st ≡ ok i
    → i.id ≡ id
unfolding get
get-id no_id i st h = absurd (cc h)
get-id (made a n) i st h = read_id (made a n) st.files i h
