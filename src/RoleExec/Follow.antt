-- ===== src/RoleExec/Follow.antt =====
-- Fencing, and following the lease's holder (`fence`, `follow` and `converge_follow` of
-- crates/pg-agent-core/src/roleexec.rs).
use pg_agent_rs.Prelude.{
  ℕ, ◌-◌, Bool, true, false, ◌&&◌, Option, none, some, List, [], ◌∷◌, ◌==◌, leb, find,
  if◌then◌else◌,
}
use pg_agent_rs.Pool.{NodeConfig}
use pg_agent_rs.RoleExec.{
  InstanceState, primary, standby, down, unknown, Action, ensure_stopped, follow_upstream,
  create_slot_on, ExecConfig, ExecInput, RoleExecutor,
}

unfoldable pub fence : RoleExecutor → List Action × RoleExecutor
fence x = (
  ensure_stopped ∷ [],
  record x { confirmed_upstream = none; follow_stalled_since = none; follow_wedged = false },
)

-- the slot on the holder, then the re-pointed standby; and whether all of it succeeded
unfoldable pub follow_known : ExecConfig → ExecInput → ℕ → List Action × Bool
follow_known cfg i holder =
    if i.client_made
    then if i.upstream_slot_made
      then (create_slot_on holder cfg.local_id ∷ follow_upstream holder ∷ [], i.followed)
      else (create_slot_on holder cfg.local_id ∷ [], false)
    else ([], false)

abbrev pub is_member : List NodeConfig → ℕ → Bool
is_member nodes id = elim (find (λ (n : NodeConfig). n.id == id) nodes) [
  | some n ↦ true
  | none ↦ false
]

-- a node that the pool does not name is not followed
unfoldable pub follow : ExecConfig → ExecInput → ℕ → List Action × Bool
unfolding follow_known
follow cfg i holder =
    if is_member cfg.members cfg.local_id && is_member cfg.members holder
    then follow_known cfg i holder
    else ([], false)

abbrev pub is_confirmed : Option ℕ → ℕ → Bool
is_confirmed none holder = false
is_confirmed (some h) holder = h == holder

abbrev pub stalled_since : Option ℕ → ℕ → ℕ
stalled_since none now = now
stalled_since (some t) now = t

-- a confirmed follow is watched: it streams, or it is wedged after the grace and runs again
unfoldable pub watch_stream : ExecConfig → ℕ → Bool → RoleExecutor → RoleExecutor
watch_stream cfg now true x = record x { follow_stalled_since = none; follow_wedged = false }
watch_stream cfg now false x =
    let since = stalled_since x.follow_stalled_since now in
    if leb cfg.promote_deadline (now - since)
    then record x { follow_wedged = true; confirmed_upstream = none; follow_stalled_since = none }
    else record x { follow_stalled_since = some since }

unfoldable pub follow_again : ExecConfig → ExecInput → ℕ → RoleExecutor → List Action × RoleExecutor
unfolding follow
follow_again cfg i holder x =
    let (done, succeeded) = follow cfg i holder in
    (
      done,
      if succeeded
          then record x { confirmed_upstream = some holder; follow_stalled_since = none }
          else x,
    )

unfoldable pub converge_follow :
    ExecConfig → ExecInput → ℕ → InstanceState → RoleExecutor → List Action × RoleExecutor
unfolding fence watch_stream follow_again
converge_follow cfg i holder primary x = fence x
converge_follow cfg i holder (standby streaming) x =
    if is_confirmed x.confirmed_upstream holder
    then ([], watch_stream cfg i.now streaming x)
    else follow_again cfg i holder x
converge_follow cfg i holder down x = ([], x)
converge_follow cfg i holder unknown x = ([], x)
