-- ===== src/Timeline/Evidence.antt =====
-- What a verdict says of the history file, written without the order of the code's tests.
use pg_agent_rs.Prelude.{ℕ, ℤ, true, false, List, ◌≡◌, ◌⊎◌, ◌≤◌, ◌<◌, All, In}
use pg_agent_rs.Timeline.{
  leb_int, int_eqb, ControlPoint, is_known, TimelineSwitch, Reachable, yes, diverged,
  not_a_descendant, unknown,
}

-- the history says that our timeline ended in the given way
abbrev pub Ended : ℤ → List TimelineSwitch → (ℕ → Type 0) → Type 0
Ended tli history P =
    (e : TimelineSwitch) × In e history × (int_eqb e.tli tli ≡ true) × P e.switchpoint

-- `yes`: our own timeline or an earlier one, or a child that branched off at or after our checkpoint;
-- `diverged`: a child that branched off before it, at the point named; `not_a_descendant`: a later
-- timeline whose history has no line for ours; `unknown`: our own control point is not known
abbrev pub Evidence : ControlPoint → ℤ → List TimelineSwitch → Reachable → Type 0
Evidence c requested history yes =
    (is_known c ≡ true)
    × ((leb_int requested c.timeline_id ≡ true)
        ⊎ Ended c.timeline_id history (λ p. c.checkpoint_lsn ≤ p))
Evidence c requested history (diverged at) =
    (is_known c ≡ true)
    × (leb_int requested c.timeline_id ≡ false)
    × Ended c.timeline_id history (λ p. (at ≡ p) × (p < c.checkpoint_lsn))
Evidence c requested history not_a_descendant =
    (is_known c ≡ true)
    × (leb_int requested c.timeline_id ≡ false)
    × All (λ (e : TimelineSwitch). int_eqb e.tli c.timeline_id ≡ false) history
Evidence c requested history unknown = is_known c ≡ false
