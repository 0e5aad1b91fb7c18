-- ===== src/Inflight/SingleFlight.antt =====
-- No two orchestrations of one kind and key are in progress at once.
pub mod Calls
use pg_agent_rs.Prelude.{
  ℕ, String, ◌≡◌, ◌⊎◌, refl, sym, Bool, true, false, not, Option, none, some, List, [], ◌∷◌, arith,
  All, find, keep, Bool-cases, Option-cases, inl, inr, Result, ok, err, if◌then◌else◌,
}
use pg_agent_rs.Inflight.{
  InflightPayload, is_terminal, OpName, name_eqb, OpId, no_id, made, id_eqb, InflightOp,
}
use mathlib.Core.Path.{subst}
use pg_agent_rs.Inflight.Journal.{
  Io, JournalError, FileInflightOpStore, is_active, put, write_atomic, same_op, blocker, new_op,
  begin, get, update_phase, complete, abandon, discharge, survives, sweep, completed, given_up,
}

-- `b` is no second run of what `a` runs
abbrev pub NoClash : InflightOp → InflightOp → Type 0
NoClash a b = is_active a ≡ true → is_active b ≡ true → same_op a.payload b.payload ≡ false

abbrev pub SingleFlight : List InflightOp → Type 0
SingleFlight [] = Unit
SingleFlight (op ∷ ops) = All (NoClash op) ops × SingleFlight ops

-- an op that takes the place of `old`: the same orchestration, not in progress where `old` is not
pub record Supersedes (op old : InflightOp) : Type 0 where
  pub same_payload : op.payload ≡ old.payload
  pub active_before : is_active op ≡ true → is_active old ≡ true

-- what a write meets under the op's id
abbrev Replaces : InflightOp → Option InflightOp → Type 0
Replaces op none = ⊥
Replaces op (some old) = Supersedes op old

found : OpId → List InflightOp → Option InflightOp
found id ops = find (λ (o : InflightOp). id_eqb o.id id) ops

NoClash-left : (op old q : InflightOp) → Supersedes op old → NoClash old q → NoClash op q
NoClash-left op old q w h a b = rw w.same_payload (h (w.active_before a) b)

NoClash-right : (op old q : InflightOp) → Supersedes op old → NoClash q old → NoClash q op
NoClash-right op old q w h a b = rw w.same_payload (h a (w.active_before b))

All-put :
    (op q : InflightOp) (ops : List InflightOp)
    → Replaces op (found op.id ops)
    → All (NoClash q) ops
    → All (NoClash q) (put op ops)
unfolding found put
All-put op q [] r h = absurd r
All-put op q (o ∷ os) r h = elim (Bool-cases (id_eqb o.id op.id)) [
  | inl e ↦ rw e (NoClash-right op o q (rw e at r) h.0, h.1)
  | inr e ↦ rw e (h.0, All-put op q os (rw e at r) h.1)
]

All-left :
    (op old : InflightOp) (ops : List InflightOp)
    → Supersedes op old
    → All (NoClash old) ops
    → All (NoClash op) ops
All-left op old [] w h = tt
All-left op old (q ∷ qs) w h = (NoClash-left op old q w h.0, All-left op old qs w h.1)

put-SingleFlight :
    (op : InflightOp) (ops : List InflightOp)
    → Replaces op (found op.id ops)
    → SingleFlight ops
    → SingleFlight (put op ops)
unfolding found put
put-SingleFlight op [] r h = absurd r
put-SingleFlight op (o ∷ os) r h = elim (Bool-cases (id_eqb o.id op.id)) [
  | inl e ↦ rw e (All-left op o os (rw e at r) h.0, h.1)
  | inr e ↦ rw e (All-put op o os (rw e at r) h.0, put-SingleFlight op os (rw e at r) h.1)
]

-- the outcome of a write that supersedes keeps the invariant
write-SingleFlight :
    (io : Io) (op : InflightOp) (st : FileInflightOpStore)
    → Replaces op (found op.id st.ops)
    → SingleFlight st.ops
    → SingleFlight (write_atomic io op st).1.ops
unfolding write_atomic
write-SingleFlight io op st r h = elim (Bool-cases io.writes) [
  | inl e ↦ rw e (put-SingleFlight op st.ops r h)
  | inr e ↦ rw e h
]

eq_of_name_eqb : (a b : OpName) → name_eqb a b ≡ true → a ≡ b
eq_of_name_eqb a b h = ground arith

eq_of_id_eqb : (a b : OpId) → id_eqb a b ≡ true → a ≡ b
eq_of_id_eqb no_id no_id h = refl
eq_of_id_eqb (made a n i) (made b m j) h = ground (arith, eq_of_name_eqb n m)
eq_of_id_eqb no_id (made b m j) h = cc
eq_of_id_eqb (made a n i) no_id h = cc

found-id :
    (id : OpId) (ops : List InflightOp) (op : InflightOp) → found id ops ≡ some op → op.id ≡ id
unfolding found
found-id id [] op h = cc
found-id id (o ∷ os) op h = ground (arith, eq_of_id_eqb o.id id, found-id id os op)

-- an op that `get` returns stands in the directory under its id
get-found :
    (io : Io) (id : OpId) (st : FileInflightOpStore) (op : InflightOp)
    → get io id st ≡ ok op
    → (found op.id st.ops ≡ some op)
unfolding get
get-found io no_id st op h = cc
get-found io (made a n i) st op h =
    let id : OpId = made a n i in
    let e : found id st.ops ≡ some op = unfold found in ground arith in
    subst (λ j. found j st.ops ≡ some op) (sym (found-id id st.ops op e)) e

-- A rewrite by a change that keeps the id and the orchestration, and starts none.
pub rewrite-SingleFlight :
    (io : Io) (id : OpId) (op new : InflightOp) (st : FileInflightOpStore)
    → get io id st ≡ ok op
    → new.id ≡ op.id
    → Supersedes new op
    → SingleFlight st.ops
    → SingleFlight (write_atomic io new st).1.ops
rewrite-SingleFlight io id op new st g e w h =
    write-SingleFlight io new st
      (subst (λ j. Replaces new (found j st.ops)) (sym e)
        (subst (Replaces new) (sym (get-found io id st op g)) w))
      h
