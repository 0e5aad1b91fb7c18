-- ===== src/Timeline.antt =====
-- May an instance follow a timeline (crates/pgman/src/timeline.rs, `reachable`)? Timeline ids are
-- `i32`, and WAL positions `u64`.
pub mod Verdicts
pub mod Evidence
use pg_agent_rs.Prelude.{
  ℕ, ℤ, pos, negsuc, Bool, true, false, not, ◌&&◌, Option, none, some, List, ◌==◌, ltb, leb, find,
  if◌then◌else◌,
}

abbrev pub leb_int : ℤ → ℤ → Bool
leb_int (pos a) (pos b) = leb a b
leb_int (pos a) (negsuc b) = false
leb_int (negsuc a) (pos b) = true
leb_int (negsuc a) (negsuc b) = leb b a

abbrev pub int_eqb : ℤ → ℤ → Bool
int_eqb (pos a) (pos b) = a == b
int_eqb (negsuc a) (negsuc b) = a == b
int_eqb _ _ = false

pub record ControlPoint : Type 0 where
  pub timeline_id : ℤ
  pub checkpoint_lsn : ℕ

unfoldable pub is_known : ControlPoint → Bool
is_known c = not (leb_int c.timeline_id (pos 0)) && ltb 0 c.checkpoint_lsn

-- timeline `tli` ended at `switchpoint`
pub record TimelineSwitch : Type 0 where
  pub tli : ℤ
  pub switchpoint : ℕ

pub data Reachable : Type 0 where
  yes : Reachable
  diverged : ℕ → Reachable
  not_a_descendant : Reachable
  unknown : Reachable

-- the verdict on the switch off our own timeline
unfoldable pub judge : ℕ → Option TimelineSwitch → Reachable
judge checkpoint none = not_a_descendant
judge checkpoint (some e) = if ltb e.switchpoint checkpoint then diverged e.switchpoint else yes

unfoldable pub reachable : ControlPoint → ℤ → List TimelineSwitch → Reachable
unfolding is_known judge
reachable local requested history =
    if not (is_known local)
    then unknown
    else if leb_int requested local.timeline_id
    then yes
    else judge local.checkpoint_lsn
        (find (λ (e : TimelineSwitch). int_eqb e.tli local.timeline_id) history)
