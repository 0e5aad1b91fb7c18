-- ===== src/PeerServer.antt =====
-- The handlers of the peer server that judge before they act (crates/pg-agent-core/src/peerserver.rs):
-- `attach_node`, `drop_slot` and `basebackup`, with the input checks of
-- crates/pgman/src/pgstandby.rs. The patterns of the regular expressions are parameters.
pub mod Attached
pub mod Settled
use text.Mathlib.Text.{◌==◌}
use pg_agent_rs.Prelude
use pg_agent_rs.Prelude.{
  ℕ, ℤ, pos, negsuc, suc, zero, ◌+◌, ◌^◌, String, Bool, true, false, not, ◌&&◌, Option, none, some,
  List, [], ◌∷◌, any, leb, ltb, Result, ok, err, if◌then◌else◌,
}
use pg_agent_rs.Inflight.{OpId, InflightOp}
use pg_agent_rs.Inflight.Journal.{Io, FileInflightOpStore}
use pg_agent_rs.Inflight.Owner.{owner_of_slot_observing}
use pg_agent_rs.Maintenance.{SlotName, node_slot, other_slot, node_id_from_slot}
use pg_agent_rs.Maintenance.Worker.{cross_op_grace}
use pg_agent_rs.Pcp.{NodeInfo, is_up}
use pg_agent_rs.Orchestration.{attach_node, Env, Task, pure, ◌>>=◌, try}

-- what an `attach_node` answers
pub data AttachAnswer : Type 0 where
  map_unavailable primary_first_failed already_up attached attach_failed : AttachAnswer

abbrev pub is_down : List NodeInfo → ℕ → Bool
is_down infos id = any (λ (n : NodeInfo). Prelude.◌==◌ n.id id && not (is_up n)) infos

module _ (env : Env) (node primary : ℕ) where
  abbrev pub attach_answer : Result String (Unit {0}) → Task AttachAnswer
  attach_answer (ok u) = pure attached
  attach_answer (err e) = pure attach_failed

  unfoldable pub attach_if_down : List NodeInfo → Task AttachAnswer
  unfolding try ◌>>=◌
  attach_if_down infos =
      if not (is_down infos node)
      then pure already_up
      else try env (attach_node node) >>= attach_answer

  abbrev pub after_primary : List NodeInfo → Result String (Unit {0}) → Task AttachAnswer
  after_primary infos (ok u) = attach_if_down infos
  after_primary infos (err e) = pure primary_first_failed

  abbrev pub attach_with : Result String (List NodeInfo) → Task AttachAnswer
  attach_with (err e) = pure map_unavailable
  attach_with (ok infos) =
      if not (Prelude.◌==◌ primary node) && is_down infos primary
      then try env (attach_node primary) >>= after_primary infos
      else attach_if_down infos

  -- `infos` is the answer of `node_info_all`
  unfoldable pub peer_attach_node : Result String (List NodeInfo) → Task AttachAnswer
  unfolding attach_if_down try ◌>>=◌
  peer_attach_node infos = attach_with infos

-- the patterns of `allowed_primary_host`, `allowed_repl_user` and `allowed_slot_name`
pub record Patterns : Type 0 where
  pub host : String → Bool
  pub user : String → Bool
  pub slot : String → Bool

pub data DropAnswer : Type 0 where
  invalid_slot_name dropped drop_failed : DropAnswer
  retained : InflightOp → DropAnswer

-- a name of the form `node<id>` is allowed
abbrev pub slot_name_allowed : Patterns → SlotName → Bool
slot_name_allowed pat (node_slot n) = true
slot_name_allowed pat (other_slot s) = not (s == "") && pat.slot s

abbrev pub answer_drop : Result String (Unit {0}) → DropAnswer
answer_drop (ok u) = dropped
answer_drop (err e) = drop_failed

-- the answer, whether the slot was asked to be dropped, and the journal
abbrev pub unless_owned :
    Result String (Unit {0})
    → Option InflightOp × FileInflightOpStore
    → DropAnswer × Bool × FileInflightOpStore
unless_owned drop (some op, j) = (retained op, false, j)
unless_owned drop (none, j) = (answer_drop drop, true, j)

-- `drop` is what the database would answer
unfoldable pub peer_drop_slot :
    Patterns
    → (OpId → OpId → Bool)
    → Io
    → ℕ
    → Result (Unit {0}) Bool
    → Result String (Unit {0})
    → SlotName
    → FileInflightOpStore
    → DropAnswer × Bool × FileInflightOpStore
unfolding owner_of_slot_observing node_id_from_slot
peer_drop_slot pat id_leb io now active drop slot j =
    if slot_name_allowed pat slot
    then unless_owned drop
        (owner_of_slot_observing id_leb io now (node_id_from_slot slot) cross_op_grace active j)
    else (invalid_slot_name, false, j)

pub record BasebackupRequest : Type 0 where
  pub primary_host : String
  pub primary_port : ℤ
  pub repl_user : String
  pub slot_name : String

pub record BasebackupOpts : Type 0 where
  pub primary_host : String
  pub primary_port : ℕ
  pub repl_user : String
  pub slot_name : String

-- `u16::try_from`
unfoldable pub to_u16 : ℤ → Option ℕ
to_u16 (pos n) = if ltb n (2 ^ 16) then some n else none
to_u16 (negsuc n) = none

abbrev pub opts_of : BasebackupRequest → ℕ → BasebackupOpts
opts_of r port = record {
  primary_host = r.primary_host;
  primary_port = port;
  repl_user = r.repl_user;
  slot_name = r.slot_name;
}

pub data BasebackupAnswer : Type 0 where
  port_out_of_range invalid_options settle_failed stuck status_failed running started :
      BasebackupAnswer

-- `validate_connection`
unfoldable pub connection_valid : Patterns → String → ℕ → String → Bool
connection_valid pat host port user =
    not (host == "")
    && pat.host host
    && not (Prelude.◌==◌ port 0)
    && not (user == "")
    && pat.user user

-- `BasebackupOpts::validate`
unfoldable pub basebackup_valid : Patterns → BasebackupOpts → Bool
unfolding connection_valid
basebackup_valid pat r =
    connection_valid pat r.primary_host r.primary_port r.repl_user
    && not (r.slot_name == "")
    && pat.slot r.slot_name

-- The polls of `postgres_settling`: what the `k`th answers, and the time after it, in milliseconds.
pub record Polls : Type 0 where
  pub settling : ℕ → Result String Bool
  pub time : ℕ → ℕ

-- how the wait ended: none, where the fuel did
abbrev pub Wait : Type 0
Wait = Option (Result BasebackupAnswer (Unit {0}))

-- the loop, from the `k`th poll
unfoldable pub settle : Polls → ℕ → ℕ → ℕ → Wait
settle polls deadline zero k = none
settle polls deadline (suc fuel) k =
    let rest = settle polls deadline fuel (suc k) in
    elim (polls.settling k) [
      | err e ↦ some (err settle_failed)
      | ok settling ↦
          if settling
          then (if leb deadline (polls.time k) then some (err stuck) else rest)
          else some (ok tt)
    ]

abbrev pub judge_running : Result String Bool → BasebackupAnswer
judge_running (err e) = status_failed
judge_running (ok true) = running
judge_running (ok false) = started

abbrev pub after_wait : Result String Bool → Wait → Option BasebackupAnswer
after_wait status none = none
after_wait status (some (err a)) = some a
after_wait status (some (ok u)) = some (judge_running status)

-- from time `begun`; `started` is the answer with the stream of the copy
abbrev pub copy_at :
    Patterns
    → ℕ
    → Polls
    → Result String Bool
    → ℕ
    → BasebackupRequest
    → Option ℕ
    → Option BasebackupAnswer
copy_at pat fuel polls status begun r none = some port_out_of_range
copy_at pat fuel polls status begun r (some port) =
    if basebackup_valid pat (opts_of r port)
    then after_wait status (settle polls (begun + 30000) fuel 0)
    else some invalid_options

unfoldable pub peer_basebackup :
    Patterns → ℕ → Polls → Result String Bool → ℕ → BasebackupRequest → Option BasebackupAnswer
unfolding basebackup_valid settle to_u16
peer_basebackup pat fuel polls status begun r =
    copy_at pat fuel polls status begun r (to_u16 r.primary_port)
