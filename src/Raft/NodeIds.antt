-- ===== src/Raft/NodeIds.antt =====
-- The seam between the agent's `i32` node ids and Raft's `u64` ones
-- (crates/pg-agent-core/src/raftstore.rs).
use pg_agent_rs.Prelude.{
  ℕ, ℤ, pos, negsuc, String, ◌^◌, ◌<◌, List, [], ◌∷◌, ltb, if◌then◌else◌, insert, Result, ok, err,
}

pub data NodeIdError : Type 0 where
  is_negative : ℤ → NodeIdError
  too_large : ℕ → NodeIdError

unfoldable pub to_raft_node_id : ℤ → Result NodeIdError ℕ
to_raft_node_id (pos n) = ok n
to_raft_node_id (negsuc n) = err (is_negative (negsuc n))

unfoldable pub from_raft_node_id : ℕ → Result NodeIdError ℤ
from_raft_node_id n = if ltb n (2 ^ 31) then ok (pos n) else err (too_large n)

-- the loop, from the map so far; a `BTreeMap` keeps the last address under an id
unfoldable pub membership_from :
    List (ℕ × String) → List (ℤ × String) → Result NodeIdError (List (ℕ × String))
membership_from out [] = ok out
membership_from out ((id, addr) ∷ nodes) = elim (to_raft_node_id id) [
  | err e ↦ err e
  | ok n ↦ membership_from (insert n addr out) nodes
]

unfoldable pub membership_map : List (ℤ × String) → Result NodeIdError (List (ℕ × String))
unfolding membership_from to_raft_node_id
membership_map nodes = membership_from [] nodes

-- the values of an `i32`
abbrev pub IsInt32 : ℤ → Type 0
IsInt32 (pos n) = n < 2 ^ 31
IsInt32 (negsuc n) = n < 2 ^ 31
