-- ===== src/Config/Loaded.antt =====
-- What a loaded configuration is (crates/pg-agent-core/src/config.rs, `load_from_str`).
use text.Mathlib.Text.{◌==◌}
use pg_agent_rs.Prelude.{
  ℕ, ℤ, negsuc, String, ◌^◌, ◌<◌, ◌≡◌, refl, sym, ◌∙◌, Option, none, some, List, [], ◌∷◌, any, find,
  Bool-cases, Option-cases, inl, inr, Result, ok, err,
}
use pg_agent_rs.Config.{PoolEntry, IdFile, missing, broken, holds, Config, AgentError}
use pg_agent_rs.Config.Load.{
  is_id, set_local_node_by_id, by_hostname, by_pgpool_files, by_file, by_config, unresolved,
  resolve_local_node_id, validate, load,
}
use pg_agent_rs.Config.Accepted.{Acceptable, validate_iff}

-- pgpool's files, in their order: one that is missing is passed over, a broken one ends the search
abbrev pub first_in : List IdFile → ℤ → Option ℤ
first_in [] next = some next
first_in (missing ∷ fs) next = first_in fs next
first_in (broken ∷ fs) next = none
first_in (holds id ∷ fs) next = some id

-- the file that the setting names, which has to hold an id, or what comes after it
abbrev pub named_in : Option IdFile → Option ℤ → Option ℤ
named_in none next = next
named_in (some (holds id)) next = some id
named_in (some missing) next = none
named_in (some broken) next = none

abbrev pub set_in : Option ℤ → Option ℤ → Option ℤ
set_in none next = next
set_in (some id) next = some id

abbrev pub host_id : Option String → List PoolEntry → ℤ
host_id none pool = negsuc 0
host_id (some host) pool = elim (find (λ (n : PoolEntry). n.hostname == host) pool) [
  | some n ↦ n.id
  | none ↦ negsuc 0
]

-- The id that the sources speak of, in the documented order: the setting, its file, pgpool's files,
-- and the host name; and -1 where none of them speaks. None where a file was broken, or the named
-- one missing, before a source spoke.
abbrev pub spoken : List IdFile → Option String → Config → Option ℤ
spoken files host c =
    set_in c.node_id (named_in c.node_id_file (first_in files (host_id host c.pool)))

-- a resolution that is answered leaves the configuration with the id that was spoken of
Gives : Config → Option ℤ → Result AgentError (Unit {0}) × Config → Type 0
Gives c said (answer, c') =
    answer ≡ ok tt → (id : ℤ) × (said ≡ some id) × (c' ≡ record c { local_node_id = id })

set-Gives : (id : ℤ) (c : Config) → Gives c (some id) (set_local_node_by_id id c)
unfolding Gives set_local_node_by_id
set-Gives id c = elim (Bool-cases (any (is_id id) c.pool)) [
  | inl e ↦ rw e (λ h. (id, refl, refl))
  | inr e ↦ rw e (λ h. absurd (cc h))
]

by_hostname-Gives :
    (host : Option String) (c : Config)
    → c.local_node_id ≡ negsuc 0
    → Gives c (some (host_id host c.pool)) (by_hostname host c)
unfolding Gives by_hostname
by_hostname-Gives none c u = λ h. (negsuc 0, refl, rw (← u) refl)
by_hostname-Gives (some host) c u =
    elim (Option-cases (find (λ (n : PoolEntry). n.hostname == host) c.pool)) [
      | inl e ↦ rw (e, by_hostname, host_id) (λ h. (negsuc 0, refl, rw (← u) refl))
      | inr (n, e) ↦ rw (e, by_hostname, host_id) (λ h. (n.id, refl, refl))
    ]

by_pgpool_files-Gives :
    (files : List IdFile) (host : Option String) (c : Config)
    → c.local_node_id ≡ negsuc 0
    → Gives c (first_in files (host_id host c.pool)) (by_pgpool_files files host c)
unfolding by_pgpool_files
by_pgpool_files-Gives [] host c u = by_hostname-Gives host c u
by_pgpool_files-Gives (missing ∷ fs) host c u = by_pgpool_files-Gives fs host c u
by_pgpool_files-Gives (broken ∷ fs) host c u = unfold Gives in λ h. absurd (cc h)
by_pgpool_files-Gives (holds id ∷ fs) host c u = set-Gives id c

by_file-Gives :
    (f : Option IdFile) (files : List IdFile) (host : Option String) (c : Config)
    → c.local_node_id ≡ negsuc 0
    → Gives c (named_in f (first_in files (host_id host c.pool))) (by_file f files host c)
unfolding by_file
by_file-Gives none files host c u = by_pgpool_files-Gives files host c u
by_file-Gives (some missing) files host c u = unfold Gives in λ h. absurd (cc h)
by_file-Gives (some broken) files host c u = unfold Gives in λ h. absurd (cc h)
by_file-Gives (some (holds id)) files host c u = set-Gives id c

by_config-Gives :
    (o : Option ℤ) (files : List IdFile) (host : Option String) (c : Config)
    → c.local_node_id ≡ negsuc 0
    → Gives c
        (set_in o (named_in c.node_id_file (first_in files (host_id host c.pool))))
        (by_config o files host c)
unfolding by_config
by_config-Gives (some id) files host c u = set-Gives id c
by_config-Gives none files host c u = by_file-Gives c.node_id_file files host c u

resolved :
    (files : List IdFile) (host : Option String) (c : Config)
    → (resolve_local_node_id files host c).0 ≡ ok tt
    → (id : ℤ) × (spoken files host c ≡ some id)
      × ((resolve_local_node_id files host c).1 ≡ record c { local_node_id = id })
unfolding resolve_local_node_id Gives
resolved files host c = by_config-Gives c.node_id files host (unresolved c) refl

-- A configuration that loads is the parsed one with the local id that the sources speak of in their
-- documented order, and it is what a configuration must be, where `leader_ttl_secs` is a `u64`. So a
-- file that is present and broken is never passed over for a later source: where one comes before
-- the source that speaks, or the file that the setting names is missing, nothing loads.
pub load-Acceptable :
    (files : List IdFile) (host : Option String) (c c' : Config)
    → ((n : ℕ) → c.raft.leader_ttl_secs ≡ some n → n < 2 ^ 64)
    → load files host c ≡ ok c'
    → ((id : ℤ) × (spoken files host c ≡ some id) × (c' ≡ record c { local_node_id = id }))
      × Acceptable c'
unfolding load
load-Acceptable files host c c' u h = by_answer (resolve_local_node_id files host c).0 refl
  where
    by_valid :
        (v : Result AgentError (Unit {0}))
        → (resolve_local_node_id files host c).0 ≡ ok tt
        → validate (resolve_local_node_id files host c).1 ≡ v
        → ((id : ℤ) × (spoken files host c ≡ some id) × (c' ≡ record c { local_node_id = id }))
          × Acceptable c'
    by_valid (err x) e q = absurd (cc (rw (e, q, load) at h))
    by_valid (ok tt) e q =
        let same : (resolve_local_node_id files host c).1 ≡ c' = cc (rw (e, q, load) at h) in
        let (id, said, p) = resolved files host c e in
        let r : c' ≡ record c { local_node_id = id } = sym same ∙ p in
        ((id, said, r), rw r ((validate_iff (record c { local_node_id = id }) u).0 (rw p at q)))

    by_answer :
        (a : Result AgentError (Unit {0}))
        → (resolve_local_node_id files host c).0 ≡ a
        → ((id : ℤ) × (spoken files host c ≡ some id) × (c' ≡ record c { local_node_id = id }))
          × Acceptable c'
    by_answer (err x) e = absurd (cc (rw (e, load) at h))
    by_answer (ok tt) e = by_valid (validate (resolve_local_node_id files host c).1) e refl
