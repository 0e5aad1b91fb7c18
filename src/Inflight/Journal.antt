-- ===== src/Inflight/Journal.antt =====
-- `FileInflightOpStore` of crates/pg-agent-core/src/inflight_ops.rs. The directory is the list of the
-- operations that its files hold, in the order in which they are read. A write goes through a
-- temporary file and a rename, so it takes effect whole or not at all.
use pg_agent_rs.Prelude.{
  ℕ, String, ◌+◌, Bool, true, false, not, ◌&&◌, Option, none, some, List, [], ◌∷◌, if◌then◌else◌,
  leb, u64, find, keep, Result, ok, err,
}
use pg_agent_rs.Inflight.{
  InflightStatus, in_progress, done, abandoned, is_terminal, InflightPayload, OpName, op_name, key,
  name_eqb, key_eqb, OpId, no_id, made, id_eqb, InflightOp,
}

-- What the file system answers in a call: whether the directory is read, or the one file of `get`;
-- which of the directory's files cannot be read, and are skipped with a warning; and whether the write
-- succeeds.
pub record Io : Type 0 where
  pub reads : Bool
  pub skips : OpId → Bool
  pub writes : Bool

pub data JournalError : Type 0 where
  duplicate_in_progress : OpId → String → JournalError
  exclusive_blocked : OpId → OpName → String → JournalError
  read_failed : JournalError
  write_failed : JournalError
  id_required : JournalError
  not_found : OpId → JournalError
  already_terminal : OpId → InflightStatus → JournalError

pub record FileInflightOpStore : Type 0 where
  pub ops : List InflightOp
  pub seq : ℕ
  pub retention : ℕ

unfoldable pub is_active : InflightOp → Bool
unfolding is_terminal
is_active op = not (is_terminal op.status)

-- the file of the op's id is replaced, or added
unfoldable pub put : InflightOp → List InflightOp → List InflightOp
put op [] = op ∷ []
put op (o ∷ os) = if id_eqb o.id op.id then op ∷ os else o ∷ put op os

unfoldable pub write_atomic :
    Io → InflightOp → FileInflightOpStore → Result JournalError (Unit {0}) × FileInflightOpStore
unfolding put
write_atomic io op st =
    if io.writes then (ok tt, record st { ops = put op st.ops }) else (err write_failed, st)

-- what `read_all` returns of the directory
unfoldable pub seen : Io → List InflightOp → List InflightOp
seen io ops = keep (λ (o : InflightOp). not (io.skips o.id)) ops

-- the same logical orchestration
unfoldable pub same_op : InflightPayload → InflightPayload → Bool
same_op p q = name_eqb (op_name p) (op_name q) && key_eqb (key p) (key q)

-- the first op of the directory that stops a `begin`
unfoldable pub blocker : InflightPayload → Bool → List InflightOp → Option JournalError
blocker p exclusive [] = none
blocker p exclusive (op ∷ ops) =
    let rest = blocker p exclusive ops in
    if not (is_active op)
    then rest
    else if same_op op.payload p
    then some (duplicate_in_progress op.id op.phase)
    else if exclusive
    then some (exclusive_blocked op.id (op_name op.payload) op.phase)
    else rest

unfoldable pub new_op : ℕ → ℕ → InflightPayload → String → InflightOp
new_op now seq p phase = record {
  id = made now (op_name p) seq;
  status = in_progress;
  payload = p;
  phase = phase;
  started_at = now;
  updated_at = now;
  completed_at = none;
  discharged_at = none;
  last_error = none;
}

-- the op that was written, or the write's error
answer : InflightOp → Result JournalError (Unit {0}) → Result JournalError InflightOp
answer op (ok u) = ok op
answer op (err e) = err e

unfoldable pub begin :
    Io
    → ℕ
    → InflightPayload
    → String
    → Bool
    → FileInflightOpStore
    → Result JournalError InflightOp × FileInflightOpStore
unfolding blocker seen new_op write_atomic answer
begin io now p phase exclusive st =
    let op = new_op now st.seq p phase in
    let (r, st') = write_atomic io op (record st { seq = u64 (st.seq + 1) }) in
    let written : Result JournalError InflightOp × FileInflightOpStore = (answer op r, st') in
    if io.reads
    then elim (blocker p exclusive (seen io st.ops)) [ some e ↦ (err e, st) | none ↦ written ]
    else (err read_failed, st)

unfoldable pub get : Io → OpId → FileInflightOpStore → Result JournalError InflightOp
get io no_id st = err id_required
get io (made a n i) st =
    if io.reads
    then elim (find (λ (o : InflightOp). id_eqb o.id (made a n i)) st.ops) [
      | some o ↦ ok o
      | none ↦ err (not_found (made a n i))
    ]
    else err read_failed

-- `get`, then a change that is written back
abbrev pub rewrite :
    Io
    → OpId
    → (InflightOp → InflightOp)
    → FileInflightOpStore
    → Result JournalError (Unit {0}) × FileInflightOpStore
rewrite io id change st = elim (get io id st) [
  | ok op ↦ write_atomic io (change op) st
  | err e ↦ (err e, st)
]

unfoldable pub update_phase :
    Io
    → ℕ
    → OpId
    → String
    → Option String
    → FileInflightOpStore
    → Result JournalError (Unit {0}) × FileInflightOpStore
update_phase io now id phase last_error st = elim (get io id st) [
  | err e ↦ (err e, st)
  | ok op ↦
      if is_terminal op.status
      then (err (already_terminal id op.status), st)
      else write_atomic io (record op { phase = phase; updated_at = now; last_error = last_error })
          st
]

abbrev pub completed : ℕ → InflightOp → InflightOp
completed now op = record op {
  status = done;
  phase = "done";
  updated_at = now;
  completed_at = some now;
  last_error = none;
}

unfoldable pub complete :
    Io → ℕ → OpId → FileInflightOpStore → Result JournalError (Unit {0}) × FileInflightOpStore
complete io now id st = rewrite io id (completed now) st

abbrev pub given_up : ℕ → String → InflightOp → InflightOp
given_up now reason op = record op {
  status = abandoned;
  updated_at = now;
  completed_at = some now;
  last_error = some reason;
}

unfoldable pub abandon :
    Io
    → ℕ
    → OpId
    → String
    → FileInflightOpStore
    → Result JournalError (Unit {0}) × FileInflightOpStore
abandon io now id reason st = rewrite io id (given_up now reason) st

abbrev pub is_known : Option ℕ → Bool
is_known none = false
is_known (some t) = true

unfoldable pub discharge :
    Io → ℕ → OpId → FileInflightOpStore → Result JournalError (Unit {0}) × FileInflightOpStore
discharge io now id st = elim (get io id st) [
  | err e ↦ (err e, st)
  | ok op ↦
      if is_known op.discharged_at
      then (ok tt, st)
      else write_atomic io (record op { discharged_at = some now }) st
]

abbrev pub finished_at : InflightOp → ℕ
finished_at op = elim op.completed_at [ some t ↦ t | none ↦ op.updated_at ]

-- is the op kept by a sweep? A difference of times is at most `retention` exactly when the later
-- one is at most the earlier plus `retention`.
unfoldable pub survives : ℕ → ℕ → InflightOp → Bool
survives now retention op =
    if not (is_terminal op.status) then true else leb now (finished_at op + retention)

-- every removal succeeds; one that fails leaves its file to the next sweep, as does a file that is
-- skipped
unfoldable pub sweep : Io → ℕ → FileInflightOpStore → FileInflightOpStore
unfolding survives
sweep io now st =
    if io.reads
    then record st {
      ops =
          keep (λ (o : InflightOp). if io.skips o.id then true else survives now st.retention o)
            st.ops;
    }
    else st
