-- ===== src/Inflight/SingleFlight/Calls.antt =====
-- Every call of the journal keeps the single-flight invariant.
use pg_agent_rs.Prelude.{
  ℕ, ◌+◌, u64, String, ◌≡◌, ap, refl, Bool, true, false, Option, none, some, List, [], ◌∷◌, arith,
  All, keep, Bool-cases, Option-cases, inl, inr, Result-cases,
}
use pg_agent_rs.Inflight.{
  InflightPayload, is_terminal, OpName, name_eqb, OpKey, key_eqb, op_name, key, OpId, id_eqb,
  InflightOp,
}
use pg_agent_rs.Inflight.Journal.{
  seen, Io, FileInflightOpStore, is_active, put, write_atomic, same_op, blocker, new_op, begin, get,
  update_phase, complete, abandon, discharge, sweep, completed, given_up, rewrite, is_known,
}
use pg_agent_rs.Inflight.SingleFlight.{NoClash, SingleFlight, rewrite-SingleFlight}

update_phase-SingleFlight :
    (io : Io) (now : ℕ) (id : OpId) (phase : String) (note : Option String)
    (st : FileInflightOpStore)
    → SingleFlight st.ops
    → SingleFlight (update_phase io now id phase note st).1.ops
unfolding update_phase
update_phase-SingleFlight io now id phase note st h = elim (Result-cases (get io id st)) [
  | inr (x, e) ↦ rw (e, update_phase) h
  | inl (op, e) ↦ elim (Bool-cases (is_terminal op.status)) [
    | inl t ↦ rw (e, t, update_phase) h
    | inr t ↦
        rw (e, t, update_phase)
          (rewrite-SingleFlight io id op
            (record op { phase = phase; updated_at = now; last_error = note }) st e refl
            (record { same_payload = refl; active_before = λ a. unfold is_active in a }) h)
  ]
]

complete-SingleFlight :
    (io : Io) (now : ℕ) (id : OpId) (st : FileInflightOpStore)
    → SingleFlight st.ops
    → SingleFlight (complete io now id st).1.ops
unfolding complete
complete-SingleFlight io now id st h = elim (Result-cases (get io id st)) [
  | inr (x, e) ↦ rw (e, rewrite) h
  | inl (op, e) ↦
      rw (e, rewrite)
        (rewrite-SingleFlight io id op (completed now op) st e refl
          (record { same_payload = refl; active_before = λ a. unfold is_active in cc }) h)
]

abandon-SingleFlight :
    (io : Io) (now : ℕ) (id : OpId) (reason : String) (st : FileInflightOpStore)
    → SingleFlight st.ops
    → SingleFlight (abandon io now id reason st).1.ops
unfolding abandon
abandon-SingleFlight io now id reason st h = elim (Result-cases (get io id st)) [
  | inr (x, e) ↦ rw (e, rewrite) h
  | inl (op, e) ↦
      rw (e, rewrite)
        (rewrite-SingleFlight io id op (given_up now reason op) st e refl
          (record { same_payload = refl; active_before = λ a. unfold is_active in cc }) h)
]

discharge-SingleFlight :
    (io : Io) (now : ℕ) (id : OpId) (st : FileInflightOpStore)
    → SingleFlight st.ops
    → SingleFlight (discharge io now id st).1.ops
unfolding discharge
discharge-SingleFlight io now id st h = elim (Result-cases (get io id st)) [
  | inr (x, e) ↦ rw (e, discharge) h
  | inl (op, e) ↦ elim (Bool-cases (is_known op.discharged_at)) [
    | inl d ↦ rw (e, d, discharge) h
    | inr d ↦
        rw (e, d, discharge)
          (rewrite-SingleFlight io id op (record op { discharged_at = some now }) st e refl
            (record { same_payload = refl; active_before = λ a. unfold is_active in a }) h)
  ]
]

name_eqb_sym : (a b : OpName) → name_eqb a b ≡ name_eqb b a
name_eqb_sym a b = ground arith

key_eqb_sym : (a b : OpKey) → key_eqb a b ≡ key_eqb b a
key_eqb_sym a b = ground arith

same_op_sym : (p q : InflightPayload) → same_op p q ≡ same_op q p
unfolding same_op
same_op_sym p q = ground (arith, name_eqb_sym (op_name p) (op_name q), key_eqb_sym (key p) (key q))

-- nothing in progress is a run of `p`
abbrev pub NoRun : InflightPayload → List InflightOp → Type 0
NoRun p ops = All (λ (o : InflightOp). is_active o ≡ true → same_op o.payload p ≡ false) ops

blocker-NoRun :
    (p : InflightPayload) (exclusive : Bool) (ops : List InflightOp)
    → blocker p exclusive ops ≡ none
    → NoRun p ops
unfolding blocker
blocker-NoRun p exclusive [] h = tt
blocker-NoRun p exclusive (o ∷ os) h =
    (λ a. ground arith, blocker-NoRun p exclusive os (ground arith))

All-put-NoRun :
    (new q : InflightOp) (ops : List InflightOp)
    → NoClash q new
    → All (NoClash q) ops
    → All (NoClash q) (put new ops)
unfolding put
All-put-NoRun new q [] n h = (n, tt)
All-put-NoRun new q (o ∷ os) n h = elim (Bool-cases (id_eqb o.id new.id)) [
  | inl e ↦ rw e (n, h.1)
  | inr e ↦ rw e (h.0, All-put-NoRun new q os n h.1)
]

NoRun-All :
    (new : InflightOp) (ops : List InflightOp) → NoRun new.payload ops → All (NoClash new) ops
NoRun-All new [] n = tt
NoRun-All new (o ∷ os) n =
    (λ a b. rw (same_op_sym new.payload o.payload) (n.0 b), NoRun-All new os n.1)

add-SingleFlight :
    (new : InflightOp) (ops : List InflightOp)
    → NoRun new.payload ops
    → SingleFlight ops
    → SingleFlight (put new ops)
unfolding put
add-SingleFlight new [] n h = (tt, tt)
add-SingleFlight new (o ∷ os) n h = elim (Bool-cases (id_eqb o.id new.id)) [
  | inl e ↦ rw e (NoRun-All new os n.1, h.1)
  | inr e ↦ rw e (All-put-NoRun new o os (λ a b. n.0 a) h.0, add-SingleFlight new os n.1 h.1)
]

write_new-SingleFlight :
    (io : Io) (new : InflightOp) (st : FileInflightOpStore)
    → NoRun new.payload st.ops
    → SingleFlight st.ops
    → SingleFlight (write_atomic io new st).1.ops
unfolding write_atomic
write_new-SingleFlight io new st n h = elim (Bool-cases io.writes) [
  | inl e ↦ rw e (add-SingleFlight new st.ops n h)
  | inr e ↦ rw e h
]

-- every file that the call lists can be read
abbrev pub AllRead : Io → List InflightOp → Type 0
AllRead io ops = All (λ (o : InflightOp). io.skips o.id ≡ false) ops

seen-all : (io : Io) (ops : List InflightOp) → AllRead io ops → seen io ops ≡ ops
unfolding seen
seen-all io [] h = refl
seen-all io (o ∷ os) h =
    rw h.0 (ap (λ (xs : List InflightOp). o ∷ xs) (unfold seen in seen-all io os h.1))

begin-SingleFlight :
    (io : Io) (now : ℕ) (p : InflightPayload) (phase : String) (exclusive : Bool)
    (st : FileInflightOpStore)
    → AllRead io st.ops
    → SingleFlight st.ops
    → SingleFlight (begin io now p phase exclusive st).1.ops
unfolding begin
begin-SingleFlight io now p phase exclusive st k h = elim (Bool-cases io.reads) [
  | inr e ↦ rw (e, begin) h
  | inl e ↦ elim (Option-cases (blocker p exclusive (seen io st.ops))) [
    | inr (x, b) ↦ rw (e, b, begin) h
    | inl b ↦
        rw (e, b, begin)
          (write_new-SingleFlight io (new_op now st.seq p phase)
            (record st { seq = u64 (st.seq + 1) })
            (unfold new_op in blocker-NoRun p exclusive st.ops (rw (seen-all io st.ops k) at b)) h)
  ]
]

All-keep :
    (P : InflightOp → Type 0) (f : InflightOp → Bool) (ops : List InflightOp)
    → All P ops
    → All P (keep f ops)
All-keep P f [] h = tt
All-keep P f (o ∷ os) h = elim (Bool-cases (f o)) [
  | inl e ↦ rw e (h.0, All-keep P f os h.1)
  | inr e ↦ rw e (All-keep P f os h.1)
]

keep-SingleFlight :
    (f : InflightOp → Bool) (ops : List InflightOp) → SingleFlight ops → SingleFlight (keep f ops)
keep-SingleFlight f [] h = tt
keep-SingleFlight f (o ∷ os) h = elim (Bool-cases (f o)) [
  | inl e ↦ rw e (All-keep (NoClash o) f os h.0, keep-SingleFlight f os h.1)
  | inr e ↦ rw e (keep-SingleFlight f os h.1)
]

sweep-SingleFlight :
    (io : Io) (now : ℕ) (st : FileInflightOpStore)
    → SingleFlight st.ops
    → SingleFlight (sweep io now st).ops
unfolding sweep
sweep-SingleFlight io now st h = elim (Bool-cases io.reads) [
  | inl e ↦ rw e (keep-SingleFlight _ st.ops h)
  | inr e ↦ rw e h
]

-- The calls of the journal, with what the file system and the clock answer.
pub data Call : Type 0 where
  begin_call : Io → ℕ → InflightPayload → String → Bool → Call
  update_phase_call : Io → ℕ → OpId → String → Option String → Call
  complete_call : Io → ℕ → OpId → Call
  abandon_call : Io → ℕ → OpId → String → Call
  discharge_call : Io → ℕ → OpId → Call
  sweep_call : Io → ℕ → Call

abbrev pub perform : Call → FileInflightOpStore → FileInflightOpStore
perform (begin_call io now p phase exclusive) st = (begin io now p phase exclusive st).1
perform (update_phase_call io now id phase note) st = (update_phase io now id phase note st).1
perform (complete_call io now id) st = (complete io now id st).1
perform (abandon_call io now id reason) st = (abandon io now id reason st).1
perform (discharge_call io now id) st = (discharge io now id st).1
perform (sweep_call io now) st = sweep io now st

abbrev pub perform_all : List Call → FileInflightOpStore → FileInflightOpStore
perform_all [] st = st
perform_all (c ∷ cs) st = perform_all cs (perform c st)

-- a `begin` that meets files it cannot read passes them over, and may let a second run through
abbrev pub Lists : Call → FileInflightOpStore → Type 0
Lists (begin_call io now p phase exclusive) st = AllRead io st.ops
Lists _ st = Unit

abbrev pub ListsAll : List Call → FileInflightOpStore → Type 0
ListsAll [] st = Unit
ListsAll (c ∷ cs) st = Lists c st × ListsAll cs (perform c st)

perform-SingleFlight :
    (c : Call) (st : FileInflightOpStore)
    → Lists c st
    → SingleFlight st.ops
    → SingleFlight (perform c st).ops
perform-SingleFlight (begin_call io now p phase exclusive) st k h =
    begin-SingleFlight io now p phase exclusive st k h
perform-SingleFlight (update_phase_call io now id phase note) st k h =
    update_phase-SingleFlight io now id phase note st h
perform-SingleFlight (complete_call io now id) st k h = complete-SingleFlight io now id st h
perform-SingleFlight (abandon_call io now id reason) st k h =
    abandon-SingleFlight io now id reason st h
perform-SingleFlight (discharge_call io now id) st k h = discharge-SingleFlight io now id st h
perform-SingleFlight (sweep_call io now) st k h = sweep-SingleFlight io now st h

-- Single flight: from a journal in which no two orchestrations of one kind and key are in
-- progress, any sequence of calls, whatever the clock and the file system answer in each, leads to
-- a journal in which none are, provided that no `begin` meets a file that it cannot read. (Such a file
-- is skipped with a warning, and the run that it records does not stop a second one.)
pub perform_all-SingleFlight :
    (cs : List Call) (st : FileInflightOpStore)
    → ListsAll cs st
    → SingleFlight st.ops
    → SingleFlight (perform_all cs st).ops
perform_all-SingleFlight [] st k h = h
perform_all-SingleFlight (c ∷ cs) st k h =
    perform_all-SingleFlight cs (perform c st) k.1 (perform-SingleFlight c st k.0 h)
