-- ===== src/StartPrimary/Ahead.antt =====
-- Which peers a start by hand finds ahead (crates/pg-agent-core/src/localserver.rs,
-- `cluster_start_primary`).
use mathlib.Core.Path.{subst}
use pg_agent_rs.Prelude.{
  ℕ, zero, suc, ◌<◌, ℤ, pos, negsuc, positive?, List, [], ◌∷◌, In, any, ltb→lt, lt→ltb, lift, arith,
  String, ◌≡◌, ◌↔◌, refl, true, false, inl, inr, Bool-cases, Result, ok, err,
}
use pg_agent_rs.ClusterView.{NodeStatus}
use pg_agent_rs.StartPrimary.{StartInput, beyond, row_ahead, local_timeline, anyone_ahead}

-- a peer that answered has a known timeline past the one of the local control file, where that is known
abbrev pub Ahead : StartInput → Type 0
Ahead i =
    (t : ℕ) × (i.control_timeline ≡ ok (pos t))
    × (0 < t)
    × ((st : NodeStatus) × In (ok st) i.statuses × ((u : ℕ) × (st.timeline_id ≡ pos u) × (t < u)))

beyond_lem :
    (l p : ℤ)
    → beyond (positive? l) (positive? p) ≡ true
    → (t : ℕ) × (l ≡ pos t) × (0 < t) × ((u : ℕ) × (p ≡ pos u) × (t < u))
beyond_lem (pos zero) p h = absurd (cc h)
beyond_lem (negsuc n) p h = absurd (cc h)
beyond_lem (pos (suc t)) (pos zero) h = absurd (cc h)
beyond_lem (pos (suc t)) (negsuc n) h = absurd (cc h)
beyond_lem (pos (suc t)) (pos (suc u)) h =
    (suc t, refl, omega arith, (suc u, refl, ltb→lt (suc t) (suc u) h))

beyond-lt : (t u : ℕ) → 0 < t → t < u → beyond (positive? (pos t)) (positive? (pos u)) ≡ true
beyond-lt zero u p l = absurd (omega arith)
beyond-lt (suc t) zero p l = absurd (omega arith)
beyond-lt (suc t) (suc u) p l = lt→ltb (suc t) (suc u) l

any-Ahead :
    (l : ℤ) (rows : List (Result String NodeStatus))
    → any (row_ahead l) rows ≡ true
    → (st : NodeStatus) × In (ok st) rows × (beyond (positive? l) (positive? st.timeline_id) ≡ true)
any-Ahead l [] h = absurd (cc h)
any-Ahead l (err e ∷ rows) h = let (st, m, b) = any-Ahead l rows h in (st, inr m, b)
any-Ahead l (ok s ∷ rows) h = elim (Bool-cases (beyond (positive? l) (positive? s.timeline_id))) [
  | inl b ↦ (s, inl refl, b)
  | inr b ↦ let (st, m, q) = any-Ahead l rows (rw b at h) in (st, inr m, q)
]

Ahead-any :
    (l : ℤ) (rows : List (Result String NodeStatus)) (st : NodeStatus)
    → In (ok st) rows
    → beyond (positive? l) (positive? st.timeline_id) ≡ true
    → any (row_ahead l) rows ≡ true
Ahead-any l [] st (lift m) b = absurd m
Ahead-any l (r ∷ rows) st (inl e) b =
    let q : row_ahead l r ≡ true = subst (λ x. row_ahead l x ≡ true) e b in rw q refl
Ahead-any l (r ∷ rows) st (inr m) b = elim (Bool-cases (row_ahead l r)) [
  | inl q ↦ rw q refl
  | inr q ↦ rw q (Ahead-any l rows st m b)
]

-- an unknown timeline of the local control file is past by none
unknown : (rows : List (Result String NodeStatus)) → any (row_ahead (pos 0)) rows ≡ false
unknown [] = refl
unknown (err e ∷ rows) = unknown rows
unknown (ok s ∷ rows) = unknown rows

pub anyone_ahead_iff : (i : StartInput) → (anyone_ahead i ≡ true) ↔ Ahead i
unfolding anyone_ahead
anyone_ahead_iff i = (
  λ h. forth i.control_timeline refl h,
  λ (t, q, k, (st, m, (u, p, l))).
      rw q (Ahead-any (pos t) i.statuses st m (rw p (beyond-lt t u k l))),
)
  where
    forth :
        (r : Result String ℤ)
        → i.control_timeline ≡ r
        → any (row_ahead (local_timeline r)) i.statuses ≡ true
        → Ahead i
    forth (err e) q h = absurd (cc (unknown i.statuses, h))
    forth (ok local) q h =
        let (st, m, b) = any-Ahead local i.statuses h in
        let (t, e, k, past) = beyond_lem local st.timeline_id b in (t, rw e at q, k, (st, m, past))
