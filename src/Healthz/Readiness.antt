-- ===== src/Healthz/Readiness.antt =====
-- When the health endpoint answers 200, and what it says of quorum commit
-- (crates/pg-agent-core/src/healthz.rs).
use text.Mathlib.Text.{◌==◌}
use text.Mathlib.TextEquality.{eq_iff}
use pg_agent_rs.Prelude.{
  ℕ, String, ◌+◌, ◌<◌, ◌≡◌, ◌↔◌, ◌⊎◌, refl, ap, Bool, true, false, Option, none, some, List, [],
  ◌∷◌, ◌++◌, map, any, In, lift, inl, inr, arith, Bool-cases, Result, ok, err,
}
use pg_agent_rs.Pcp.{NodeInfo}
use pg_agent_rs.Healthz.{
  BackendStatus, not_applicable, armed, blocked, HealthSnapshot, ProbeInput, from_node_info,
  is_blank, probe_sync_commit, probe_postgres, probe_pgpool, build_snapshot, probe_once, run,
  status_ok, backend_is_up, stale_bound, is_fresh, any_up, compute_health, handle_healthz,
}

-- a row that pgpool may route to
abbrev pub Routable : NodeInfo → Type 0
Routable n = (n.status_name ≡ "up") ⊎ (n.status_name ≡ "waiting")

-- a round whose pgpool answered in time, with a routable row
abbrev pub Routes : ProbeInput → Type 0
Routes i =
    (nodes : List NodeInfo) × (i.node_info_all ≡ some (ok nodes))
    × ((n : NodeInfo) × In n nodes × Routable n)

backend_is_up-Routable : (t : String) → backend_is_up t ≡ true → (t ≡ "up") ⊎ (t ≡ "waiting")
backend_is_up-Routable t h = elim (Bool-cases (t == "up")) [
  | inl e ↦ inl ((eq_iff t "up").0 e)
  | inr e ↦ inr ((eq_iff t "waiting").0 (rw e at h))
]

Routable-backend_is_up : (t : String) → (t ≡ "up") ⊎ (t ≡ "waiting") → backend_is_up t ≡ true
Routable-backend_is_up t (inl e) = rw e refl
Routable-backend_is_up t (inr e) = rw e refl

any-rows :
    (nodes : List NodeInfo)
    → any (λ (b : BackendStatus). backend_is_up b.status) (map from_node_info nodes) ≡ true
    → (n : NodeInfo) × In n nodes × Routable n
any-rows [] h = absurd (cc h)
any-rows (m ∷ ms) h = elim (Bool-cases (backend_is_up m.status_name)) [
  | inl e ↦ (m, inl refl, backend_is_up-Routable m.status_name e)
  | inr e ↦ let (n, i, r) = any-rows ms (rw e at h) in (n, inr i, r)
]

rows-any :
    (nodes : List NodeInfo) (n : NodeInfo)
    → In n nodes
    → Routable n
    → any (λ (b : BackendStatus). backend_is_up b.status) (map from_node_info nodes) ≡ true
rows-any [] n (lift m) r = absurd m
rows-any (m ∷ ms) n (inl e) r =
    rw (Routable-backend_is_up m.status_name (rw (ap (λ (x : NodeInfo). x.status_name) e) at r))
      refl
rows-any (m ∷ ms) n (inr i) r = elim (Bool-cases (backend_is_up m.status_name)) [
  | inl e ↦ rw e refl
  | inr e ↦ rw e (rows-any ms n i r)
]

any_up-Routes :
    (i : ProbeInput) (a : Option (Result (Unit {0}) (List NodeInfo)))
    → i.node_info_all ≡ a
    → (any_up (probe_pgpool a) ≡ true) ↔ Routes i
unfolding probe_pgpool
any_up-Routes i none e = (λ h. absurd (cc h), λ (nodes, q, r). absurd (cc (e, q)))
any_up-Routes i (some (err x)) e = (λ h. absurd (cc h), λ (nodes, q, r). absurd (cc (e, q)))
any_up-Routes i (some (ok ns)) e = (
  λ h. (ns, e, any-rows ns h),
  λ (nodes, q, (n, m, r)). let same : nodes ≡ ns = cc (e, q) in rows-any ns n (rw same at m) r,
)

run-last :
    (is : List ProbeInput) (i : ProbeInput) (snap : Option HealthSnapshot)
    → run (is ++ (i ∷ [])) snap ≡ some (build_snapshot i)
unfolding run probe_once
run-last [] i snap = refl
run-last (j ∷ is) i snap = run-last is i (some (build_snapshot j))

compute_health_iff :
    (from_std : ℕ → Option ℕ) (i : ProbeInput) (stale_after now : ℕ)
    → ((compute_health from_std (some (build_snapshot i)) stale_after now).0 ≡ status_ok)
      ↔ ((now < i.ended + stale_bound from_std stale_after) × Routes i)
unfolding compute_health build_snapshot
compute_health_iff from_std i stale_after now =
    elim (Bool-cases (is_fresh (stale_bound from_std stale_after) now i.ended)) [
      | inr e ↦ (λ h. absurd (cc (rw e at h)), λ (f, r). absurd (ground (arith, e, f)))
      | inl e ↦ elim (Bool-cases (any_up (probe_pgpool i.node_info_all))) [
        | inl f ↦ (
          λ h. (ground (arith, e), (any_up-Routes i i.node_info_all refl).0 f),
          λ r. rw (e) (rw f refl),
        )
        | inr f ↦ (
          λ h. absurd (cc (rw f at (rw e at h))),
          λ (l, r). absurd (cc (f, (any_up-Routes i i.node_info_all refl).1 r)),
        )
      ]
    ]

-- The load balancer routes to this node exactly when it may: whatever the earlier rounds of probes
-- answered, a request is answered 200 exactly when the node's role was verified at start-up, the last
-- round is younger than the bound, and in that round pgpool answered in time with a row that is up or
-- waiting.
pub handle_healthz_iff :
    (from_std : ℕ → Option ℕ) (startup_verified : Bool) (is : List ProbeInput) (i : ProbeInput)
    (snap : Option HealthSnapshot) (stale_after now : ℕ)
    → ((handle_healthz from_std startup_verified (run (is ++ (i ∷ [])) snap) stale_after now).0
        ≡ status_ok)
      ↔ ((startup_verified ≡ true) × (now < i.ended + stale_bound from_std stale_after) × Routes i)
unfolding handle_healthz
handle_healthz_iff from_std true is i snap stale_after now = rw (run-last is i snap) (
  λ h. let (l, r) = (compute_health_iff from_std i stale_after now).0 h in (refl, l, r),
  λ (v, l, r). (compute_health_iff from_std i stale_after now).1 (l, r),
)
handle_healthz_iff from_std false is i snap stale_after now =
    (λ h. absurd (cc h), λ (v, l, r). absurd (cc v))

-- the page: commits hang
abbrev pub Hangs : ProbeInput → Type 0
Hangs i =
    (i.is_in_recovery ≡ some (ok false))
    × ((names : String) × (i.setting ≡ some (ok names)) × (is_blank names ≡ false))
    × (i.connected ≡ some (ok []))

sync_blocked :
    (i : ProbeInput) (s : Option (Result (Unit {0}) String))
    (c : Option (Result (Unit {0}) (List String)))
    → i.setting ≡ s
    → i.connected ≡ c
    → (probe_sync_commit s c ≡ blocked) ↔ (
        ((names : String) × (i.setting ≡ some (ok names)) × (is_blank names ≡ false))
        × (i.connected ≡ some (ok [])))
unfolding probe_sync_commit
sync_blocked i none c e f = (λ h. absurd (cc h), λ ((n, p, q), r). absurd (cc (e, p)))
sync_blocked i (some (err x)) c e f = (λ h. absurd (cc h), λ ((n, p, q), r). absurd (cc (e, p)))
sync_blocked i (some (ok names)) c e f = elim (Bool-cases (is_blank names)) [
  | inl b ↦ (
    λ h. absurd (cc (rw b at h)),
    λ ((n, p, q), r). let same : n ≡ names = cc (e, p) in absurd (cc (b, rw same at q)),
  )
  | inr b ↦ rw b (by_standbys c f b)
]
  where
    by_standbys :
        (c : Option (Result (Unit {0}) (List String)))
        → i.connected ≡ c
        → is_blank names ≡ false
        → (elim c [
          | none ↦ not_applicable
          | some r ↦ elim r [
            | err x ↦ not_applicable
            | ok standbys ↦ elim standbys [ [] ↦ blocked | x ∷ xs ↦ armed ]
          ]
        ]
            ≡ blocked)
          ↔ (((n : String) × (i.setting ≡ some (ok n)) × (is_blank n ≡ false))
              × (i.connected ≡ some (ok [])))
    by_standbys none f b = (λ h. absurd (cc h), λ (p, r). absurd (cc (f, r)))
    by_standbys (some (err x)) f b = (λ h. absurd (cc h), λ (p, r). absurd (cc (f, r)))
    by_standbys (some (ok [])) f b = (λ h. ((names, e, b), f), λ p. refl)
    by_standbys (some (ok (x ∷ xs))) f b = (λ h. absurd (cc h), λ (p, r). absurd (cc (f, r)))

-- A page is never false: a snapshot says that commits hang exactly when the database answered in time
-- that it is a primary, its `synchronous_standby_names` is not blank, and no standby is connected.
pub blocked_iff : (i : ProbeInput) → ((build_snapshot i).sync_commit ≡ blocked) ↔ Hangs i
unfolding build_snapshot probe_postgres
blocked_iff i = by_role i.is_in_recovery refl
  where
    by_role :
        (r : Option (Result (Unit {0}) Bool))
        → i.is_in_recovery ≡ r
        → ((build_snapshot i).sync_commit ≡ blocked) ↔ Hangs i
    by_role none e = (
      λ h. absurd (cc (rw (e, build_snapshot, probe_postgres) at h)),
      λ (p, q, t). absurd (cc (e, p)),
    )
    by_role (some (err x)) e = (
      λ h. absurd (cc (rw (e, build_snapshot, probe_postgres) at h)),
      λ (p, q, t). absurd (cc (e, p)),
    )
    by_role (some (ok true)) e = (
      λ h. absurd (cc (rw (e, build_snapshot, probe_postgres) at h)),
      λ (p, q, t). absurd (cc (e, p)),
    )
    by_role (some (ok false)) e = (
      λ h.
          let (q, t) =
            (sync_blocked i i.setting i.connected refl refl).0
              (rw (e, build_snapshot, probe_postgres) at h) in
          (e, q, t),
      λ (p, q, t).
          rw (e, build_snapshot, probe_postgres)
            ((sync_blocked i i.setting i.connected refl refl).1 (q, t)),
    )
