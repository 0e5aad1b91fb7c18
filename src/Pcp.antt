-- ===== src/Pcp.antt =====
-- The rows that pgpool's control port answers (crates/pg-agent-core/src/pcp.rs), with the fields that
-- the executor and the health endpoint read.
use pg_agent_rs.Prelude.{ℕ, String, Bool, ◌&&◌, ltb}

-- a row of `pcp_node_info`
pub record NodeInfo : Type 0 where
  pub id : ℕ
  pub hostname : String
  pub status_code : ℕ
  pub status_name : String
  pub role : String
  pub replication_state : String

abbrev pub is_up : NodeInfo → Bool
is_up n = ltb 0 n.status_code && ltb n.status_code 3
