-- ===== src/FollowPrimary/Hooked.antt =====
-- What the hook leaves behind (crates/pg-agent-core/src/localserver.rs, `follow_primary`).
use pg_agent_rs.Prelude.{ℕ, ◌≡◌, ◌⊎◌, true, some, In}
use pg_agent_rs.Pool.{NodeConfig, NodePool, NodeRef, resolve_node}
use pg_agent_rs.Orchestration.{
  Action, stop, create_slot, rewind, basebackup, configure, start, attach_node, Env, World,
}
use pg_agent_rs.Orchestration.Order.{Calls, Did}
use pg_agent_rs.FollowPrimary.Hook.{FollowPrimaryRequest, slot_host}

-- the standby was stopped, got its slot, was copied, configured and started, and was attached
abbrev pub Rebased : ℕ → NodeConfig → World → Type 0
Rebased here d w =
    Did (stop d.id) w
    × Did (create_slot here d.id) w
    × (Did (rewind d.id) w ⊎ Did (basebackup d.id) w)
    × Did (configure d.id) w
    × Did (start d.id) w
    × Did (attach_node d.id) w

abbrev pub Anywhere : World → Type 0
Anywhere w = Unit

module _ (here : ℕ) (env : Env) (d new_primary : NodeConfig) where
  abbrev host : NodeConfig
  host = slot_host here new_primary

  abbrev Has : Action → Calls → Type 0
  Has a older = In (a, true) older

  abbrev CopiedFrom : Calls → Type 0
  CopiedFrom c = Has (stop d.id) c × Has (create_slot here d.id) c

  abbrev Copied : Calls → Type 0
  Copied c =
      Has (stop d.id) c
      × Has (create_slot here d.id) c
      × (Has (rewind d.id) c ⊎ Has (basebackup d.id) c)

-- the request's detached node was rebased
abbrev pub OneRebased : ℕ → NodePool → FollowPrimaryRequest → World → Type 0
OneRebased here pool req v =
    (r : NodeRef) × (d : NodeConfig) × (req.detached ≡ some r)
    × (resolve_node pool r ≡ some d)
    × Rebased here d v
