-- ===== src/Config/Nodes.antt =====
-- Which pools pass the loop of `Config::validate` (crates/pg-agent-core/src/config.rs).
use text.Mathlib.Text.{◌==◌}
use text.Mathlib.TextEquality.{eq_iff}
use pg_agent_rs.Prelude.{
  ℕ, ℤ, pos, negsuc, String, ◌≡◌, ◌↔◌, refl, true, false, List, [], ◌∷◌, map, any, In, lift, All,
  Bool-cases, inl, inr, ok,
}
use pg_agent_rs.Config.{PoolEntry}
use pg_agent_rs.Config.Ids.{id_eqb, is_negative, id_eqb_iff, Unseen, Unseen-step, any_iff}
use pg_agent_rs.Config.Load.{check_nodes}

-- an id that pgpool and Raft can represent
abbrev pub IsNatural : ℤ → Type 0
IsNatural z = (n : ℕ) × (z ≡ pos n)

abbrev pub ids : List PoolEntry → List ℤ
ids ns = map (λ (n : PoolEntry). n.id) ns

abbrev pub hostnames : List PoolEntry → List String
hostnames ns = map (λ (n : PoolEntry). n.hostname) ns

pub IsNatural-iff : (z : ℤ) → (is_negative z ≡ false) ↔ IsNatural z
IsNatural-iff (pos n) = (λ h. (n, refl), λ p. refl)
IsNatural-iff (negsuc n) = (λ h. absurd (cc h), λ (m, e). absurd (cc e))

id_seen : (z : ℤ) (zs : List ℤ) → (any (id_eqb z) zs ≡ true) ↔ In z zs
id_seen z zs = any_iff (id_eqb z) z zs (id_eqb_iff z)

host_seen : (t : String) (ts : List String) → (any (λ (h : String). t == h) ts ≡ true) ↔ In t ts
host_seen t ts = any_iff (λ (h : String). t == h) t ts (eq_iff t)

pub check_nodes_iff :
    (seen : List ℤ) (hosts : List String) (ns : List PoolEntry)
    → (check_nodes seen hosts ns ≡ ok tt)
      ↔ (All IsNatural (ids ns) × Unseen seen (ids ns) × Unseen hosts (hostnames ns))
unfolding check_nodes
check_nodes_iff seen hosts [] = (
  λ h. (tt, (tt, λ y m s. elim m [ lift z ↦ z ]), (tt, λ y m s. elim m [ lift z ↦ z ])),
  λ p. refl,
)
check_nodes_iff seen hosts (n ∷ ns) = elim (Bool-cases (is_negative n.id)) [
  | inl e ↦ (λ h. absurd (cc (rw e at h)), λ (p, q, r). absurd (cc (e, (IsNatural-iff n.id).1 p.0)))
  | inr e ↦ elim (Bool-cases (any (id_eqb n.id) seen)) [
    | inl f ↦ (
      λ h. absurd (cc (rw f at (rw e at h))),
      λ (p, q, r). absurd (((Unseen-step seen n.id (ids ns)).0 q).0 ((id_seen n.id seen).0 f)),
    )
    | inr f ↦ elim (Bool-cases (any (λ (h : String). n.hostname == h) hosts)) [
      | inl g ↦ (
        λ h. absurd (cc (rw g at (rw f at (rw e at h)))),
        λ (p, q, r). absurd (
            ((Unseen-step hosts n.hostname (hostnames ns)).0 r).0
              ((host_seen n.hostname hosts).0 g)),
      )
      | inr g ↦
          let ih = check_nodes_iff (n.id ∷ seen) (n.hostname ∷ hosts) ns in
          (
            λ h.
                let (p, q, r) = ih.0 (rw g at (rw f at (rw e at h))) in
                (
                  ((IsNatural-iff n.id).0 e, p),
                  (Unseen-step seen n.id (ids ns)).1
                      (λ m. absurd (cc (f, (id_seen n.id seen).1 m)), q),
                  (Unseen-step hosts n.hostname (hostnames ns)).1
                      (λ m. absurd (cc (g, (host_seen n.hostname hosts).1 m)), r),
                ),
            λ (p, q, r). rw (e) (
                rw (f) (
                  rw g (
                    ih.1 (
                      p.1,
                      ((Unseen-step seen n.id (ids ns)).0 q).1,
                      ((Unseen-step hosts n.hostname (hostnames ns)).0 r).1,
                    )))),
          )
    ]
  ]
]
