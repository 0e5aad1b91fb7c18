-- ===== src/Pool.antt =====
-- The pool's look-ups (crates/pg-agent-core/src/config.rs, `NodePool`).
use text.Mathlib.Text.{◌==◌}
use pg_agent_rs.Prelude.{
  ℕ, ℤ, pos, negsuc, String, Bool, true, false, Option, none, some, List, find, if◌then◌else◌,
}
use pg_agent_rs.Prelude

pub record NodeConfig : Type 0 where
  pub id : ℕ
  pub hostname : String

pub record NodePool : Type 0 where
  pub members : List NodeConfig
  pub local_node_id : ℤ

unfoldable pub node_by_hostname : NodePool → String → Option NodeConfig
node_by_hostname pool host = find (λ (n : NodeConfig). n.hostname == host) pool.members

unfoldable pub node_by_id : NodePool → ℕ → Option NodeConfig
node_by_id pool id = find (λ (n : NodeConfig). Prelude.◌==◌ n.id id) pool.members

unfoldable pub is_local : NodePool → NodeConfig → Bool
is_local pool node = elim pool.local_node_id [ pos n ↦ Prelude.◌==◌ node.id n | negsuc n ↦ false ]

unfoldable pub local_node : NodePool → Option NodeConfig
unfolding node_by_id
local_node pool = elim pool.local_node_id [ pos n ↦ node_by_id pool n | negsuc n ↦ none ]

-- what a hook names a node by
pub record NodeRef : Type 0 where
  pub id : ℤ
  pub hostname : String

abbrev pub by_ref_id : NodePool → ℤ → Option NodeConfig
by_ref_id pool (pos n) = node_by_id pool n
by_ref_id pool (negsuc n) = none

-- the host name decides; the id does only where it is empty
unfoldable pub resolve_node : NodePool → NodeRef → Option NodeConfig
unfolding node_by_hostname node_by_id
resolve_node pool r =
    if r.hostname == "" then by_ref_id pool r.id else node_by_hostname pool r.hostname

-- the node, where it is the local one
unfoldable pub resolve_local_node : NodePool → NodeRef → Option NodeConfig
unfolding resolve_node is_local
resolve_local_node pool r = elim (resolve_node pool r) [
  | none ↦ none
  | some n ↦ if is_local pool n then some n else none
]
