-- ===== src/Config/Accepted.antt =====
-- Which configurations are accepted (crates/pg-agent-core/src/config.rs, `Config::validate`).
use text.Mathlib.Text.{◌==◌}
use text.Mathlib.TextEquality.{eq_iff}
use pg_agent_rs.Prelude.{
  ℕ, ℤ, String, ◌^◌, ◌+◌, ◌*◌, ◌≤◌, ◌<◌, ◌≡◌, ◌≢◌, ◌↔◌, ◌⊎◌, refl, sym, true, false, Option, none,
  some, List, [], ◌∷◌, In, lift, All, Bool-cases, inl, inr, Result, ok, err,
}
use pg_agent_rs.Config.{
  PoolEntry, Config, AgentError, effective_loop_wait, effective_retry_timeout, effective_leader_ttl,
  effective_election_timeout, validate_raft,
}
use pg_agent_rs.Config.Timing.{validate_raft_iff}
use pg_agent_rs.Config.Ids.{id_eqb, is_negative, id_eqb_iff, Distinct, Unseen-nothing, any_iff}
use pg_agent_rs.Config.Nodes.{IsNatural, ids, hostnames, IsNatural-iff, check_nodes_iff}
use pg_agent_rs.Config.Load.{
  check_nodes, node_by_id, local_node, is_sslmode, allowed_sslmodes, and_then, validate_sslmode,
  validate_parts, is_empty, validate,
}

and_then_iff :
    {A : Type 0} (r : Result AgentError A) (next : Result AgentError (Unit {0}))
    → (and_then r next ≡ ok tt) ↔ (((a : A) × (r ≡ ok a)) × (next ≡ ok tt))
and_then_iff (ok a) next = (λ h. ((a, refl), h), λ (p, q). q)
and_then_iff (err e) next = (λ h. absurd (cc h), λ ((a, p), q). absurd (cc p))

-- an entry with the given id is found where one stands in the pool
node_by_id_iff :
    (id : ℤ) (ns : List PoolEntry) → ((n : PoolEntry) × (node_by_id id ns ≡ ok n)) ↔ In id (ids ns)
unfolding node_by_id
node_by_id_iff id [] = (λ (n, h). absurd (cc h), λ m. elim m [ lift z ↦ absurd z ])
node_by_id_iff id (m ∷ ms) = elim (Bool-cases (id_eqb m.id id)) [
  | inl e ↦ (λ (n, h). inl (sym ((id_eqb_iff m.id id).0 e)), λ i. (m, rw (e, node_by_id) refl))
  | inr e ↦ (
    λ (n, h). inr ((node_by_id_iff id ms).0 (n, rw (e, node_by_id) at h)),
    λ i. elim i [
      | inl q ↦ absurd (cc (e, (id_eqb_iff m.id id).1 (sym q)))
      | inr j ↦ let (n, h) = (node_by_id_iff id ms).1 j in (n, rw (e, node_by_id) h)
    ],
  )
]

local_node_iff :
    (c : Config)
    → ((n : PoolEntry) × (local_node c ≡ ok n))
      ↔ (IsNatural c.local_node_id × In c.local_node_id (ids c.pool))
unfolding local_node
local_node_iff c = elim (Bool-cases (is_negative c.local_node_id)) [
  | inl e ↦ (
    λ (n, h). absurd (cc (rw e at h)),
    λ (p, i). absurd (cc (e, (IsNatural-iff c.local_node_id).1 p)),
  )
  | inr e ↦ rw e (
    λ h. ((IsNatural-iff c.local_node_id).0 e, (node_by_id_iff c.local_node_id c.pool).0 h),
    λ (p, i). (node_by_id_iff c.local_node_id c.pool).1 i,
  )
]

-- no setting, or one of libpq's
abbrev pub SslmodeKnown : Option String → Type 0
SslmodeKnown none = Unit
SslmodeKnown (some mode) = In mode allowed_sslmodes

validate_sslmode_iff :
    (mode : Option String) → ((a : Unit {0}) × (validate_sslmode mode ≡ ok a)) ↔ SslmodeKnown mode
validate_sslmode_iff none = (λ p. tt, λ p. (tt, refl))
validate_sslmode_iff (some mode) =
    let listed =
      any_iff (λ (s : String). s == mode) mode allowed_sslmodes
        (λ s. (λ h. sym ((eq_iff s mode).0 h), λ h. (eq_iff s mode).1 (sym h))) in
    elim (Bool-cases (is_sslmode (some mode))) [
      | inl e ↦ (λ p. listed.0 e, λ p. (tt, rw e refl))
      | inr e ↦ (λ (a, h). absurd (cc (rw e at h)), λ p. absurd (cc (e, listed.1 p)))
    ]

-- What a configuration must be.
pub record Acceptable (c : Config) : Type 0 where
  pub not_empty : c.pool ≢ []
  pub natural : All IsNatural (ids c.pool)
  pub distinct_ids : Distinct (ids c.pool)
  pub distinct_hostnames : Distinct (hostnames c.pool)
  pub local_natural : IsNatural c.local_node_id
  pub local_member : In c.local_node_id (ids c.pool)
  pub known_sslmode : SslmodeKnown c.sslmode
  pub consensus : c.raft.obsolete_enabled ≢ some false
  pub hysteresis :
      effective_loop_wait c.raft + 2 * effective_retry_timeout c.raft ≤ effective_leader_ttl c.raft
  pub outlives_election : effective_election_timeout c.raft < effective_retry_timeout c.raft

is_empty_cases :
    (ns : List PoolEntry) → ((is_empty ns ≡ true) × (ns ≡ [])) ⊎ ((is_empty ns ≡ false) × (ns ≢ []))
is_empty_cases [] = inl (refl, refl)
is_empty_cases (n ∷ ns) = inr (refl, λ h. cc h)

parts_accept :
    (c : Config)
    → ((n : ℕ) → c.raft.leader_ttl_secs ≡ some n → n < 2 ^ 64)
    → c.pool ≢ []
    → validate_parts c ≡ ok tt
    → Acceptable c
unfolding validate_parts
parts_accept c u n h =
    let raft = validate_raft c.raft in
    let ssl = and_then (validate_sslmode c.sslmode) raft in
    let (nodes, h1) = (and_then_iff (check_nodes [] [] c.pool) (and_then (local_node c) ssl)).0 h in
    let (found, h2) = (and_then_iff (local_node c) ssl).0 h1 in
    let (mode, h3) = (and_then_iff (validate_sslmode c.sslmode) raft).0 h2 in
    let (p, q, r) = (check_nodes_iff [] [] c.pool).0 nodes.1 in
    let (natural_id, member) = (local_node_iff c).0 found in
    let (on, hysteresis_holds, outlives) = (validate_raft_iff c.raft u).0 h3 in
    record {
      not_empty = n;
      natural = p;
      distinct_ids = q.0;
      distinct_hostnames = r.0;
      local_natural = natural_id;
      local_member = member;
      known_sslmode = (validate_sslmode_iff c.sslmode).0 mode;
      consensus = on;
      hysteresis = hysteresis_holds;
      outlives_election = outlives;
    }

accept_parts :
    (c : Config)
    → ((n : ℕ) → c.raft.leader_ttl_secs ≡ some n → n < 2 ^ 64)
    → Acceptable c
    → validate_parts c ≡ ok tt
unfolding validate_parts
accept_parts c u a =
    let raft = validate_raft c.raft in
    let ssl = and_then (validate_sslmode c.sslmode) raft in
    (and_then_iff (check_nodes [] [] c.pool) (and_then (local_node c) ssl)).1 (
      (
        tt,
        (check_nodes_iff [] [] c.pool).1 (
          a.natural,
          Unseen-nothing (ids c.pool) a.distinct_ids,
          Unseen-nothing (hostnames c.pool) a.distinct_hostnames,
        ),
      ),
      (and_then_iff (local_node c) ssl).1 (
        (local_node_iff c).1 (a.local_natural, a.local_member),
        (and_then_iff (validate_sslmode c.sslmode) raft).1 (
          (validate_sslmode_iff c.sslmode).1 a.known_sslmode,
          (validate_raft_iff c.raft u).1 (a.consensus, a.hysteresis, a.outlives_election),
        ),
      ),
    )

-- A configuration is accepted exactly when it is what it must be, where `leader_ttl_secs` is a `u64`:
-- the pool is not empty, its ids are not negative and like its host names distinct, the local node is
-- one of them, the `sslmode` is one of libpq's, and the consensus timing fits.
pub validate_iff :
    (c : Config)
    → ((n : ℕ) → c.raft.leader_ttl_secs ≡ some n → n < 2 ^ 64)
    → (validate c ≡ ok tt) ↔ Acceptable c
unfolding validate validate_parts
validate_iff c u = elim (is_empty_cases c.pool) [
  | inl (e, q) ↦ (λ h. absurd (cc (rw e at h)), λ a. absurd (a.not_empty q))
  | inr (e, n) ↦ rw e (parts_accept c u n, accept_parts c u)
]
