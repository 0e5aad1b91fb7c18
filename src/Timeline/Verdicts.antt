-- ===== src/Timeline/Verdicts.antt =====
-- The verdicts of `reachable` (crates/pgman/src/timeline.rs) rest on the history file.
use mathlib.Core.Path.{subst}
use pg_agent_rs.Prelude.{
  ℕ, ℤ, pos, true, false, Option, none, some, List, [], ◌∷◌, ◌≡◌, refl, inl, inr, ltb, ◌≤◌, ◌<◌,
  All, In, find, Bool-cases, arith,
}
use pg_agent_rs.Timeline.{
  leb_int, int_eqb, ControlPoint, is_known, TimelineSwitch, yes, judge, reachable,
}
use pg_agent_rs.Timeline.Evidence.{Evidence}

abbrev ours : ℤ → List TimelineSwitch → Option TimelineSwitch
ours tli history = find (λ (e : TimelineSwitch). int_eqb e.tli tli) history

find_some :
    (tli : ℤ) (history : List TimelineSwitch) (e : TimelineSwitch)
    → ours tli history ≡ some e
    → In e history × (int_eqb e.tli tli ≡ true)
find_some tli [] e h = absurd (cc h)
find_some tli (x ∷ xs) e h = elim (Bool-cases (int_eqb x.tli tli)) [
  | inl b ↦
      let same : x ≡ e = cc (rw b at h) in
      (inl (cc same), subst (λ y. int_eqb y.tli tli ≡ true) same b)
  | inr b ↦ let (m, k) = find_some tli xs e (rw b at h) in (inr m, k)
]

find_none :
    (tli : ℤ) (history : List TimelineSwitch)
    → ours tli history ≡ none
    → All (λ (e : TimelineSwitch). int_eqb e.tli tli ≡ false) history
find_none tli [] h = tt
find_none tli (x ∷ xs) h = elim (Bool-cases (int_eqb x.tli tli)) [
  | inl b ↦ absurd (cc (rw b at h))
  | inr b ↦ (b, find_none tli xs (rw b at h))
]

judge-Evidence :
    (c : ControlPoint) (requested : ℤ) (history : List TimelineSwitch) (o : Option TimelineSwitch)
    → is_known c ≡ true
    → leb_int requested c.timeline_id ≡ false
    → ours c.timeline_id history ≡ o
    → Evidence c requested history (judge c.checkpoint_lsn o)
unfolding judge
judge-Evidence c requested history none k later e = (k, later, find_none c.timeline_id history e)
judge-Evidence c requested history (some x) k later e =
    let (m, t) = find_some c.timeline_id history x e in
    elim (Bool-cases (ltb x.switchpoint c.checkpoint_lsn)) [
      | inl b ↦ rw b (k, later, (x, m, t, (refl, ground (arith, b))))
      | inr b ↦ rw b (k, inr (x, m, t, ground (arith, b)))
    ]

-- Every verdict rests on evidence: a timeline is followed only where it is ours or earlier, or its
-- history says that ours ended at or after our checkpoint; it is refused as diverged only where the
-- history says that ours ended before our checkpoint, at the point named, and as no descendant only
-- where it has no line for ours; the verdict is unknown only where our control point is not known.
pub reachable-Evidence :
    (c : ControlPoint) (requested : ℤ) (history : List TimelineSwitch)
    → Evidence c requested history (reachable c requested history)
unfolding reachable
reachable-Evidence c requested history = elim (Bool-cases (is_known c)) [
  | inr k ↦ rw (k, reachable) k
  | inl k ↦ elim (Bool-cases (leb_int requested c.timeline_id)) [
    | inl b ↦ rw (k, reachable) (rw b (k, inl b))
    | inr b ↦ rw (k, reachable) (rw b (judge-Evidence c requested history _ k b refl))
  ]
]

judge-earlier :
    (now before : ℕ) (o : Option TimelineSwitch)
    → before ≤ now
    → judge now o ≡ yes
    → judge before o ≡ yes
unfolding judge
judge-earlier now before none le h = h
judge-earlier now before (some e) le h = ground (arith, le, h)

-- What an instance may follow, it could have followed at every earlier known checkpoint of its
-- timeline: more WAL of its own never makes a timeline reachable.
pub reachable-earlier :
    (tli : ℤ) (now before : ℕ) (requested : ℤ) (history : List TimelineSwitch)
    → before ≤ now
    → 0 < before
    → reachable (record { timeline_id = tli; checkpoint_lsn = now }) requested history ≡ yes
    → reachable (record { timeline_id = tli; checkpoint_lsn = before }) requested history ≡ yes
unfolding reachable is_known
reachable-earlier tli now before requested history le some_wal h =
    elim (Bool-cases (leb_int tli (pos 0))) [
      | inl b ↦ absurd (ground (arith, rw b at h))
      | inr b ↦ ground (arith, b, le, some_wal, h, judge-earlier now before (ours tli history) le)
    ]
