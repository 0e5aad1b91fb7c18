-- ===== src/Config/Load.antt =====
-- The resolution of the local node's id and the validation of the pool
-- (crates/pg-agent-core/src/config.rs, `Config::resolve_local_node_id_with_pgpool_files` and
-- `Config::validate`), as `Config::load_from_str` runs them, and `PgReplicationConfig::validate` of
-- crates/pgman/src/pgstandby.rs.
use text.Mathlib.Text.{◌==◌}
use pg_agent_rs.Prelude.{
  ℤ, negsuc, String, Bool, true, false, Option, none, some, List, [], ◌∷◌, any, find, Result, ok,
  err, if◌then◌else◌,
}
use pg_agent_rs.Config.{
  PoolEntry, IdFile, missing, broken, holds, Config, AgentError, no_pool, no_local_node,
  replication_ssl_mode, id_file_broken, negative_id, duplicate_id, node_not_found,
  local_node_missing_from_pool, duplicate_host, validate_raft,
}
use pg_agent_rs.Config.Ids.{id_eqb, is_negative}

abbrev pub is_id : ℤ → PoolEntry → Bool
is_id id n = id_eqb n.id id

unfoldable pub set_local_node_by_id : ℤ → Config → Result AgentError (Unit {0}) × Config
set_local_node_by_id id c =
    if any (is_id id) c.pool
    then (ok tt, record c { local_node_id = id })
    else (err (local_node_missing_from_pool id), c)

abbrev pub read_node_id_file : IdFile → Result AgentError ℤ
read_node_id_file missing = err id_file_broken
read_node_id_file broken = err id_file_broken
read_node_id_file (holds id) = ok id

abbrev pub try_read_node_id_file : IdFile → Result AgentError (Option ℤ)
try_read_node_id_file missing = ok none
try_read_node_id_file broken = err id_file_broken
try_read_node_id_file (holds id) = ok (some id)

-- the host name of the system, or `none` where it has none
unfoldable pub by_hostname : Option String → Config → Result AgentError (Unit {0}) × Config
by_hostname none c = (ok tt, c)
by_hostname (some host) c = elim (find (λ (n : PoolEntry). n.hostname == host) c.pool) [
  | none ↦ (ok tt, c)
  | some n ↦ (ok tt, record c { local_node_id = n.id })
]

unfoldable pub by_pgpool_files :
    List IdFile → Option String → Config → Result AgentError (Unit {0}) × Config
unfolding by_hostname set_local_node_by_id
by_pgpool_files [] host c = by_hostname host c
by_pgpool_files (f ∷ fs) host c = elim (try_read_node_id_file f) [
  | err e ↦ (err e, c)
  | ok o ↦ elim o [ none ↦ by_pgpool_files fs host c | some id ↦ set_local_node_by_id id c ]
]

unfoldable pub by_file :
    Option IdFile → List IdFile → Option String → Config → Result AgentError (Unit {0}) × Config
unfolding by_pgpool_files set_local_node_by_id
by_file none files host c = by_pgpool_files files host c
by_file (some f) files host c = elim (read_node_id_file f) [
  | err e ↦ (err e, c)
  | ok id ↦ set_local_node_by_id id c
]

abbrev pub unresolved : Config → Config
unresolved c = record c { local_node_id = negsuc 0 }

unfoldable pub by_config :
    Option ℤ → List IdFile → Option String → Config → Result AgentError (Unit {0}) × Config
unfolding by_file set_local_node_by_id
by_config (some id) files host c = set_local_node_by_id id c
by_config none files host c = by_file c.node_id_file files host c

unfoldable pub resolve_local_node_id :
    List IdFile → Option String → Config → Result AgentError (Unit {0}) × Config
unfolding by_config
resolve_local_node_id files host c = by_config c.node_id files host (unresolved c)

-- the loop of `validate`, from the ids and the host names seen so far
unfoldable pub check_nodes : List ℤ → List String → List PoolEntry → Result AgentError (Unit {0})
check_nodes ids hosts [] = ok tt
check_nodes ids hosts (n ∷ ns) =
    let rest = check_nodes (n.id ∷ ids) (n.hostname ∷ hosts) ns in
    if is_negative n.id
    then err (negative_id n.id)
    else if any (id_eqb n.id) ids
    then err (duplicate_id n.id)
    else if any (λ (h : String). n.hostname == h) hosts
    then err (duplicate_host n.hostname)
    else rest

unfoldable pub node_by_id : ℤ → List PoolEntry → Result AgentError PoolEntry
node_by_id id nodes = elim (find (is_id id) nodes) [
  | some n ↦ ok n
  | none ↦ err (node_not_found id)
]

unfoldable pub local_node : Config → Result AgentError PoolEntry
unfolding node_by_id
local_node c =
    if is_negative c.local_node_id then err no_local_node else node_by_id c.local_node_id c.pool

-- `ALLOWED_SSLMODES`
abbrev pub allowed_sslmodes : List String
allowed_sslmodes = "disable" ∷ "allow" ∷ "prefer" ∷ "require" ∷ "verify-ca" ∷ "verify-full" ∷ []

-- `PgReplicationConfig::validate`
abbrev pub is_sslmode : Option String → Bool
is_sslmode none = true
is_sslmode (some mode) = any (λ (s : String). s == mode) allowed_sslmodes

abbrev pub and_then :
    {A : Type 0} → Result AgentError A → Result AgentError (Unit {0}) → Result AgentError (Unit {0})
and_then (err e) next = err e
and_then (ok a) next = next

abbrev pub validate_sslmode : Option String → Result AgentError (Unit {0})
validate_sslmode mode = if is_sslmode mode then ok tt else err replication_ssl_mode

-- what `validate` asks after the pool is found not empty
unfoldable pub validate_parts : Config → Result AgentError (Unit {0})
unfolding check_nodes local_node validate_raft
validate_parts c =
    and_then (check_nodes [] [] c.pool)
      (and_then (local_node c) (and_then (validate_sslmode c.sslmode) (validate_raft c.raft)))

abbrev pub is_empty : List PoolEntry → Bool
is_empty [] = true
is_empty (n ∷ ns) = false

unfoldable pub validate : Config → Result AgentError (Unit {0})
unfolding validate_parts
validate c = if is_empty c.pool then err no_pool else validate_parts c

-- the steps of `load_from_str` after the text is parsed and the defaults are set
unfoldable pub load : List IdFile → Option String → Config → Result AgentError Config
unfolding resolve_local_node_id validate
load files host c =
    let (answer, c') = resolve_local_node_id files host c in
    elim answer [ err e ↦ err e | ok u ↦ elim (validate c') [ err e ↦ err e | ok v ↦ ok c' ] ]
