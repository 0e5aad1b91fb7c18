-- ===== src/StartPrimary.antt =====
-- The operator's start of a primary (`cluster_start_primary` of
-- crates/pg-agent-core/src/localserver.rs), over any consensus store. What the files, the control file, the
-- peers and PostgreSQL answer is an argument.
pub mod Ahead
pub mod Asked
pub mod Claimed
use pg_agent_rs.Prelude.{
  ℕ, ℤ, pos, positive?, String, Bool, true, false, not, ◌&&◌, ◌==◌, ltb, Option, none, some, List,
  [], ◌∷◌, any, Result, ok, err, if◌then◌else◌,
}
use pg_agent_rs.Consensus.{Lease, ClusterState, TakeoverOutcome, won, lost}
use pg_agent_rs.ClusterView.{NodeStatus}
use pg_agent_rs.Pool.{NodeConfig, NodePool, local_node}
use pg_agent_rs.Store.{ConsensusStore}

-- `statuses` are the rows of `collect_statuses` over the other nodes
pub record StartInput : Type 0 where
  pub standby_signal : Bool
  pub pg_version : Bool
  pub has_consensus : Bool
  pub control_timeline : Result String ℤ
  pub statuses : List (Result String NodeStatus)
  pub start_postgres : Result String (Unit {0})
  pub is_in_recovery : Result String Bool
  pub now : ℕ
  pub force : Bool

pub data StartAnswer : Type 0 where
  no_local_node standby_shaped not_initialised no_consensus unreadable promoted_past start_failed :
      StartAnswer
  held_elsewhere : Lease → StartAnswer
  still_in_recovery unconfirmed claim_failed : StartAnswer
  taken : Option Lease → StartAnswer
  already_holder claimed : ℕ → StartAnswer

-- the answer, whether PostgreSQL was asked to start, and the store's new state
pub record StartOutcome (S : Type 0) : Type 0 where
  pub answer : StartAnswer
  pub asked_start : Bool
  pub store : S

-- `s.timeline_id > 0 && local_tl > 0 && s.timeline_id > local_tl`
abbrev pub beyond : Option ℕ → Option ℕ → Bool
beyond (some local) (some peer) = ltb local peer
beyond _ _ = false

abbrev pub row_ahead : ℤ → Result String NodeStatus → Bool
row_ahead local (ok s) = beyond (positive? local) (positive? s.timeline_id)
row_ahead local (err e) = false

-- `unwrap_or(0)`
abbrev pub local_timeline : Result String ℤ → ℤ
local_timeline (ok t) = t
local_timeline (err e) = pos 0

unfoldable pub anyone_ahead : StartInput → Bool
anyone_ahead i = any (row_ahead (local_timeline i.control_timeline)) i.statuses

module _ {S E : Type 0} (store : ConsensusStore S E) (i : StartInput) where
  abbrev pub refuse : StartAnswer → S → StartOutcome S
  refuse a s = record { answer = a; asked_start = false; store = s }

  abbrev pub ended : StartAnswer → S → StartOutcome S
  ended a s = record { answer = a; asked_start = true; store = s }

  abbrev pub judge_claim : Result E TakeoverOutcome × S → StartOutcome S
  judge_claim (ok (won l), s) = ended (claimed l.term) s
  judge_claim (ok (lost current), s) = ended (taken current) s
  judge_claim (err e, s) = ended claim_failed s

  -- a lease that is held already is not minted again
  abbrev pub claim : ℕ → Option ℕ → S → StartOutcome S
  claim local (some term) s = ended (already_holder term) s
  claim local none s = judge_claim (store.try_takeover i.now local none s)

  abbrev pub confirm : ℕ → Option ℕ → Result String Bool → S → StartOutcome S
  confirm local held (ok false) s = claim local held s
  confirm local held (ok true) s = ended still_in_recovery s
  confirm local held (err e) s = ended unconfirmed s

  abbrev pub begin_start : ℕ → Option ℕ → Result String (Unit {0}) → S → StartOutcome S
  begin_start local held (err e) s = ended start_failed s
  begin_start local held (ok u) s = confirm local held i.is_in_recovery s

  unfoldable pub start_unless_past : ℕ → Option ℕ → S → StartOutcome S
  unfolding anyone_ahead
  start_unless_past local held s =
      if anyone_ahead i && not i.force
      then refuse promoted_past s
      else begin_start local held i.start_postgres s

  abbrev pub by_lease : ℕ → Option Lease → S → StartOutcome S
  by_lease local none s = start_unless_past local none s
  by_lease local (some l) s =
      if l.holder == local
      then start_unless_past local (some l.term) s
      else refuse (held_elsewhere l) s

  abbrev pub by_state : ℕ → Result E ClusterState × S → StartOutcome S
  by_state local (err e, s) = refuse unreadable s
  by_state local (ok c, s) = by_lease local c.lease s

  abbrev pub start_here : ℕ → S → StartOutcome S
  start_here local s =
      if i.standby_signal
      then refuse standby_shaped s
      else if not i.pg_version
      then refuse not_initialised s
      else if not i.has_consensus
      then refuse no_consensus s
      else by_state local (store.read_state s)

  unfoldable pub cluster_start_primary : NodePool → S → StartOutcome S
  unfolding local_node start_unless_past
  cluster_start_primary pool s = elim (local_node pool) [
    | none ↦ refuse no_local_node s
    | some n ↦ start_here n.id s
  ]
