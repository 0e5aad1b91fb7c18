-- ===== src/Inflight/Guards.antt =====
-- What a `begin` that is let through, a refused call and a sweep guarantee.
use pg_agent_rs.Prelude.{
  ℕ, String, ◌+◌, ◌≡◌, ◌↔◌, refl, Bool, true, false, Option, none, List, [], ◌∷◌, arith, All, In,
  In-keep, keep-In, ◌≤◌, Option-cases, inl, inr, if◌then◌else◌, ok, err,
}
use pg_agent_rs.Inflight.{InflightPayload, is_terminal, OpId, InflightOp}
use pg_agent_rs.Inflight.Journal.{
  seen, Io, FileInflightOpStore, is_active, same_op, blocker, begin, update_phase, already_terminal,
  get, new_op, finished_at, survives, sweep,
}

-- an exclusive `begin` meets nothing in progress; any `begin` meets no run of the same orchestration
abbrev pub Clear : InflightPayload → Bool → InflightOp → Type 0
Clear p exclusive op = is_active op ≡ true → (same_op op.payload p ≡ false) × (exclusive ≡ false)

pub blocker-Clear :
    (p : InflightPayload) (exclusive : Bool) (ops : List InflightOp)
    → (blocker p exclusive ops ≡ none) ↔ All (Clear p exclusive) ops
unfolding blocker
blocker-Clear p exclusive [] = (λ h. tt, λ h. refl)
blocker-Clear p exclusive (o ∷ os) =
    let (f, g) = blocker-Clear p exclusive os in
    (λ h. (λ a. ground arith, f (ground arith)), λ h. ground (arith, g h.1, h.0))

-- The gate of `begin`: where the directory is read and the write succeeds, a `begin` is let through
-- exactly when no op in progress is a run of the same orchestration, and, for an exclusive one,
-- when no op is in progress at all, among the ops whose files can be read.
pub begin_gate :
    (io : Io) (now : ℕ) (p : InflightPayload) (phase : String) (exclusive : Bool)
    (st : FileInflightOpStore)
    → io.reads ≡ true
    → io.writes ≡ true
    → ((op : InflightOp) × ((begin io now p phase exclusive st).0 ≡ ok op))
      ↔ All (Clear p exclusive) (seen io st.ops)
unfolding begin
begin_gate io now p phase exclusive st r w = (
  λ (op, h). elim (Option-cases (blocker p exclusive (seen io st.ops))) [
    | inl b ↦ (blocker-Clear p exclusive (seen io st.ops)).0 b
    | inr (x, b) ↦ absurd (cc (rw (r, b, begin) at h))
  ],
  λ h. (
    new_op now st.seq p phase,
    rw (r, (blocker-Clear p exclusive (seen io st.ops)).1 h, begin) (rw w),
  ),
)

-- A phase change never moves an op that is done or abandoned: it is refused, and the journal stays
-- as it was.
pub update_phase-terminal :
    (io : Io) (now : ℕ) (id : OpId) (phase : String) (message : Option String)
    (st : FileInflightOpStore) (op : InflightOp)
    → get io id st ≡ ok op
    → is_terminal op.status ≡ true
    → update_phase io now id phase message st ≡ (err (already_terminal id op.status), st)
unfolding update_phase
update_phase-terminal io now id phase message st op e t = rw (e, t, update_phase)

-- A sweep keeps exactly the ops whose files it cannot read, those that are still in progress, and
-- those that are done or abandoned for no longer than the retention.
pub sweep_exact :
    (io : Io) (now : ℕ) (st : FileInflightOpStore) (op : InflightOp)
    → io.reads ≡ true
    → In op (sweep io now st).ops ↔ (
        In op st.ops
        × (io.skips op.id ≡ false
            → is_terminal op.status ≡ true
            → now ≤ finished_at op + st.retention))
unfolding sweep
sweep_exact io now st op r = rw r (
  λ m.
      let (n, h) = keep-In stays op st.ops m in (n, λ k t. unfold survives in ground (arith, k, h)),
  λ (n, h). In-keep stays op st.ops n (unfold survives in ground arith),
)
  where
    stays : InflightOp → Bool
    stays o = if io.skips o.id then true else survives now st.retention o
