-- ===== src/Inflight/Begun.antt =====
-- What `begin` leaves in the directory (crates/pg-agent-core/src/inflight_ops.rs).
use pg_agent_rs.Prelude.{
  String, ℕ, ◌≡◌, refl, Bool, some, All, Bool-cases, Option-cases, inl, inr, Result, ok, err,
}
use pg_agent_rs.Inflight.{InflightPayload, InflightOp}
use pg_agent_rs.Inflight.Journal.{
  seen, Io, FileInflightOpStore, JournalError, new_op, blocker, begin, write_atomic,
}
use pg_agent_rs.Inflight.Guards.{Clear, blocker-Clear}
use pg_agent_rs.Inflight.Phase.{op_at, find-put}

-- the op of an accepted call is found, with what was asked, and nothing that was read stood against it
pub record Begun (io : Io) (p : InflightPayload) (phase : String) (exclusive : Bool)
    (st st' : FileInflightOpStore) (op : InflightOp) : Type 0 where
  pub found : op_at op.id st' ≡ some op
  pub asked : op.payload ≡ p
  pub first : op.phase ≡ phase
  pub clear : All (Clear p exclusive) (seen io st.ops)

-- a refused call leaves the ops as they were
abbrev pub Outcome :
    Io
    → InflightPayload
    → String
    → Bool
    → FileInflightOpStore
    → Result JournalError InflightOp × FileInflightOpStore
    → Type 0
Outcome io p phase exclusive st (ok op, st') = Begun io p phase exclusive st st' op
Outcome io p phase exclusive st (err e, st') = st'.ops ≡ st.ops

pub begin-Outcome :
    (io : Io) (now : ℕ) (p : InflightPayload) (phase : String) (exclusive : Bool)
    (st : FileInflightOpStore)
    → Outcome io p phase exclusive st (begin io now p phase exclusive st)
unfolding begin write_atomic new_op
begin-Outcome io now p phase exclusive st = elim (Bool-cases io.reads) [
  | inr r ↦ rw r refl
  | inl r ↦ elim (Option-cases (blocker p exclusive (seen io st.ops))) [
    | inr (x, b) ↦ rw (r, b, begin) refl
    | inl b ↦ elim (Bool-cases io.writes) [
      | inr w ↦ rw (r, b, begin) (rw (w, write_atomic) refl)
      | inl w ↦
          rw (r, b, begin)
            (rw (w, write_atomic)
              (record {
                found = find-put (new_op now st.seq p phase) st.ops;
                asked = refl;
                first = refl;
                clear = (blocker-Clear p exclusive (seen io st.ops)).0 b;
              }))
    ]
  ]
]
