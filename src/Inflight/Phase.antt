-- ===== src/Inflight/Phase.antt =====
-- The phase that the journal records of an op, and what each call makes of it
-- (crates/pg-agent-core/src/inflight_ops.rs).
use mathlib.Core.Path.{subst}
use pg_agent_rs.Prelude.{
  String, ℕ, ◌≡◌, ◌⊎◌, refl, sym, ap, ◌∙◌, true, Option, some, List, [], ◌∷◌, arith, find,
  Bool-cases, Option-cases, Result-cases, inl, inr, ok,
}
use pg_agent_rs.Inflight.{
  OpName, handoff_op, follow_primary_op, recovery_op, promote_op, allow_async_op, name_eqb, OpId,
  no_id, made, id_eqb, is_terminal, InflightOp,
}
use pg_agent_rs.Inflight.Journal.{
  Io, FileInflightOpStore, put, write_atomic, get, update_phase, complete, abandon, completed,
  given_up, rewrite,
}

abbrev pub op_at : OpId → FileInflightOpStore → Option InflightOp
op_at id st = find (λ (o : InflightOp). id_eqb o.id id) st.ops

name_eqb→eq : (a b : OpName) → name_eqb a b ≡ true → a ≡ b
name_eqb→eq a b h = ground (arith, h)

name_eqb_refl : (a : OpName) → name_eqb a a ≡ true
name_eqb_refl handoff_op = refl
name_eqb_refl follow_primary_op = refl
name_eqb_refl recovery_op = refl
name_eqb_refl promote_op = refl
name_eqb_refl allow_async_op = refl

id_eqb→eq : (a b : OpId) → id_eqb a b ≡ true → a ≡ b
id_eqb→eq no_id no_id h = refl
id_eqb→eq no_id (made b m j) h = absurd (cc h)
id_eqb→eq (made a n i) no_id h = absurd (cc h)
id_eqb→eq (made a n i) (made b m j) h =
    let p : a ≡ b = ground (arith, h) in
    let q : i ≡ j = ground (arith, h) in
    let r : n ≡ m = name_eqb→eq n m (ground (arith, h)) in cc (p, q, r)

id_eqb_refl : (a : OpId) → id_eqb a a ≡ true
id_eqb_refl no_id = refl
id_eqb_refl (made a n i) = ground (arith, name_eqb_refl n)

pub find-put :
    (op : InflightOp) (ops : List InflightOp)
    → find (λ (o : InflightOp). id_eqb o.id op.id) (put op ops) ≡ some op
unfolding put
find-put op [] = rw (id_eqb_refl op.id) refl
find-put op (o ∷ os) = elim (Bool-cases (id_eqb o.id op.id)) [
  | inl e ↦ rw e (rw (id_eqb_refl op.id) refl)
  | inr e ↦ rw e (rw e (find-put op os))
]

pub find_id :
    (id : OpId) (ops : List InflightOp) (op : InflightOp)
    → find (λ (o : InflightOp). id_eqb o.id id) ops ≡ some op
    → op.id ≡ id
find_id id [] op h = absurd (cc h)
find_id id (o ∷ os) op h = elim (Bool-cases (id_eqb o.id id)) [
  | inl e ↦
      let same : o ≡ op = cc (rw e at h) in
      ap (λ (x : InflightOp). x.id) (sym same) ∙ id_eqb→eq o.id id e
  | inr e ↦ find_id id os op (rw e at h)
]

-- an op that is written under its id is the one that is found
pub op_at-put :
    (id : OpId) (op op' : InflightOp) (st : FileInflightOpStore)
    → op_at id st ≡ some op
    → op'.id ≡ op.id
    → op_at id (record st { ops = put op' st.ops }) ≡ some op'
op_at-put id op op' st h e =
    subst (λ k. find (λ (o : InflightOp). id_eqb o.id k) (put op' st.ops) ≡ some op')
      (e ∙ find_id id st.ops op h) (find-put op' st.ops)

-- what `get` answers is what the directory holds
pub get_ok :
    (io : Io) (id : OpId) (op : InflightOp) (st : FileInflightOpStore)
    → get io id st ≡ ok op
    → op_at id st ≡ some op
unfolding get
get_ok io no_id op st h = absurd (cc h)
get_ok io (made a n i) op st h = elim (Bool-cases io.reads) [
  | inr e ↦ absurd (cc (rw e at h))
  | inl e ↦ elim (Option-cases (op_at (made a n i) st)) [
    | inl f ↦ absurd (cc (rw (f, get) at (rw e at h)))
    | inr (o, f) ↦ let same : o ≡ op = cc (rw (f, get) at (rw e at h)) in f ∙ ap some same
  ]
]

-- A call leaves the op, or gives it the phase that `f` says and leaves its payload.
abbrev pub Records :
    OpId → (InflightOp → String) → FileInflightOpStore → FileInflightOpStore → Type 0
Records id f st st' =
    (op_at id st' ≡ op_at id st)
    ⊎ ((op : InflightOp) × ((op' : InflightOp) × (op_at id st ≡ some op)
          × (op_at id st' ≡ some op')
          × (op'.payload ≡ op.payload)
          × (op'.phase ≡ f op)))

write-Records :
    (io : Io) (id : OpId) (op op' : InflightOp) (f : InflightOp → String) (st : FileInflightOpStore)
    → op_at id st ≡ some op
    → op'.id ≡ op.id
    → op'.payload ≡ op.payload
    → op'.phase ≡ f op
    → Records id f st (write_atomic io op' st).1
unfolding write_atomic
write-Records io id op op' f st h e p q = elim (Bool-cases io.writes) [
  | inl w ↦ rw w (inr (op, (op', h, op_at-put id op op' st h e, p, q)))
  | inr w ↦ rw w (inl refl)
]

pub update_phase-Records :
    (io : Io) (now : ℕ) (id : OpId) (phase : String) (note : Option String)
    (st : FileInflightOpStore)
    → Records id (λ op. phase) st (update_phase io now id phase note st).1
unfolding update_phase
update_phase-Records io now id phase note st = elim (Result-cases (get io id st)) [
  | inr (x, e) ↦ rw (e, update_phase) (inl refl)
  | inl (op, e) ↦ elim (Bool-cases (is_terminal op.status)) [
    | inl t ↦ rw (e, t, update_phase) (inl refl)
    | inr t ↦
        rw (e, t, update_phase)
          (write-Records io id op (record op { phase = phase; updated_at = now; last_error = note })
            (λ op. phase) st (get_ok io id op st e) refl refl refl)
  ]
]

pub complete-Records :
    (io : Io) (now : ℕ) (id : OpId) (st : FileInflightOpStore)
    → Records id (λ op. "done") st (complete io now id st).1
unfolding complete
complete-Records io now id st = elim (Result-cases (get io id st)) [
  | inr (x, e) ↦ rw (e, rewrite) (inl refl)
  | inl (op, e) ↦
      rw (e, rewrite)
        (write-Records io id op (completed now op) (λ op. "done") st (get_ok io id op st e) refl
          refl refl)
]

pub abandon-Records :
    (io : Io) (now : ℕ) (id : OpId) (why : String) (st : FileInflightOpStore)
    → Records id (λ op. op.phase) st (abandon io now id why st).1
unfolding abandon
abandon-Records io now id why st = elim (Result-cases (get io id st)) [
  | inr (x, e) ↦ rw (e, rewrite) (inl refl)
  | inl (op, e) ↦
      rw (e, rewrite)
        (write-Records io id op (given_up now why op) (λ op. op.phase) st (get_ok io id op st e)
          refl refl refl)
]
