-- ===== src/StartPrimary/Asked.antt =====
-- When a start by hand asks PostgreSQL to start (crates/pg-agent-core/src/localserver.rs,
-- `cluster_start_primary`).
use mathlib.Core.Path.{subst}
use pg_agent_rs.Prelude.{
  ℕ, ◌⊎◌, ◌↔◌, ==_iff, String, ◌≡◌, refl, sym, ◌∙◌, arith, Bool, true, false, not, ◌&&◌, ◌==◌,
  Option, none, some, inl, inr, Bool-cases, Result, ok, err, if◌then◌else◌,
}
use pg_agent_rs.Consensus.{Lease, ClusterState, TakeoverOutcome, won, lost}
use pg_agent_rs.Store.{ConsensusStore}
use pg_agent_rs.StartPrimary.Ahead.{Ahead, anyone_ahead_iff}
use pg_agent_rs.StartPrimary.{
  StartInput, StartOutcome, anyone_ahead, promoted_past, refuse, judge_claim, claim, confirm,
  begin_start, start_unless_past, by_lease, by_state, start_here,
}

-- the lease is free or the node's own
abbrev pub free_for : ℕ → Option Lease → Bool
free_for local none = true
free_for local (some l) = l.holder == local

abbrev pub leased : {E : Type 0} → StartInput → ℕ → Result E ClusterState → Bool
leased i local (err e) = false
leased i local (ok c) = free_for local c.lease && not (anyone_ahead i && not i.force)

-- may the node be started, with what the store answers to a read?
abbrev pub may_ask : {E : Type 0} → StartInput → ℕ → Result E ClusterState → Bool
may_ask i local r = not i.standby_signal && (i.pg_version && (i.has_consensus && leased i local r))

module _ {S : Type 0} where
  if_asked :
      (b t : Bool) (x y : StartOutcome S)
      → x.asked_start ≡ false
      → y.asked_start ≡ t
      → (if b then x else y).asked_start ≡ (not b && t)
  if_asked true t x y p q = p
  if_asked false t x y p q = q

  if_present :
      (b t : Bool) (x y : StartOutcome S)
      → x.asked_start ≡ false
      → y.asked_start ≡ t
      → (if not b then x else y).asked_start ≡ (b && t)
  if_present true t x y p q = q
  if_present false t x y p q = p

module _ {S E : Type 0} (store : ConsensusStore S E) (i : StartInput) (local : ℕ) where
  judge_asked :
      (r : Result E TakeoverOutcome) (s : S) → (judge_claim store i (r, s)).asked_start ≡ true
  judge_asked (ok (won l)) s = refl
  judge_asked (ok (lost current)) s = refl
  judge_asked (err e) s = refl

  claim_asked : (held : Option ℕ) (s : S) → (claim store i local held s).asked_start ≡ true
  claim_asked (some term) s = refl
  claim_asked none s =
      judge_asked (store.try_takeover i.now local none s).0
        (store.try_takeover i.now local none s).1

  confirm_asked :
      (held : Option ℕ) (r : Result String Bool) (s : S)
      → (confirm store i local held r s).asked_start ≡ true
  confirm_asked held (ok false) s = claim_asked held s
  confirm_asked held (ok true) s = refl
  confirm_asked held (err e) s = refl

  begin_asked :
      (held : Option ℕ) (r : Result String (Unit {0})) (s : S)
      → (begin_start store i local held r s).asked_start ≡ true
  begin_asked held (ok u) s = confirm_asked held i.is_in_recovery s
  begin_asked held (err e) s = refl

  past_asked :
      (held : Option ℕ) (s : S)
      → (start_unless_past store i local held s).asked_start ≡ not (anyone_ahead i && not i.force)
  unfolding start_unless_past
  past_asked held s =
      unless (anyone_ahead i && not i.force) (refuse store i promoted_past s)
        (begin_start store i local held i.start_postgres s) refl
        (begin_asked held i.start_postgres s)
    where
      unless :
          (b : Bool) (x y : StartOutcome S)
          → x.asked_start ≡ false
          → y.asked_start ≡ true
          → (if b then x else y).asked_start ≡ not b
      unless true x y p q = p
      unless false x y p q = q

  lease_asked :
      (l : Option Lease) (s : S)
      → (by_lease store i local l s).asked_start
        ≡ (free_for local l && not (anyone_ahead i && not i.force))
  lease_asked none s = past_asked none s
  lease_asked (some l) s = elim (Bool-cases (l.holder == local)) [
    | inl e ↦ rw e (past_asked (some l.term) s)
    | inr e ↦ rw e refl
  ]

  -- after the checks of the data directory
  state_asked :
      (r : Result E ClusterState) (s : S)
      → (by_state store i local (r, s)).asked_start ≡ leased i local r
  state_asked (err e) s = refl
  state_asked (ok c) s = lease_asked c.lease s

  here_asked :
      (s : S) → (start_here store i local s).asked_start ≡ may_ask i local (store.read_state s).0
  here_asked s = if_asked i.standby_signal _ _ _ refl (
      if_present i.pg_version _ _ _ refl (
        if_present i.has_consensus _ _ _ refl
          (state_asked (store.read_state s).0 (store.read_state s).1)))

  -- the lease is free or the node's own
  abbrev pub MayStart : Option Lease → Type 0
  MayStart none = Unit
  MayStart (some l) = l.holder ≡ local

  -- the lease, and no peer ahead, unless forced
  abbrev pub MayAsk : Result E ClusterState → Type 0
  MayAsk r =
      (i.standby_signal ≡ false)
      × (i.pg_version ≡ true)
      × (i.has_consensus ≡ true)
      × ((c : ClusterState) × (r ≡ ok c) × MayStart c.lease)
      × ((i.force ≡ true) ⊎ (Ahead i → ⊥))

  free_iff : (l : Option Lease) → (free_for local l ≡ true) ↔ MayStart l
  free_iff none = (λ h. tt, λ h. refl)
  free_iff (some l) = ==_iff l.holder local

  forced_iff : (not (anyone_ahead i && not i.force) ≡ true) ↔ ((i.force ≡ true) ⊎ (Ahead i → ⊥))
  forced_iff = (λ h. forth (Bool-cases i.force) h, λ h. back h)
    where
      forth :
          (i.force ≡ true) ⊎ (i.force ≡ false)
          → not (anyone_ahead i && not i.force) ≡ true
          → (i.force ≡ true) ⊎ (Ahead i → ⊥)
      forth (inl f) h = inl f
      forth (inr f) h = inr (λ a. ground (arith, (anyone_ahead_iff i).1 a, f, h))

      back : (i.force ≡ true) ⊎ (Ahead i → ⊥) → not (anyone_ahead i && not i.force) ≡ true
      back (inl f) = rw f (ground arith)
      back (inr n) = elim (Bool-cases (anyone_ahead i)) [
        | inl a ↦ absurd (n ((anyone_ahead_iff i).0 a))
        | inr a ↦ rw a refl
      ]

  may_ask_iff : (r : Result E ClusterState) → (may_ask i local r ≡ true) ↔ MayAsk r
  unfolding anyone_ahead
  may_ask_iff (err e) = (λ h. absurd (ground (arith, h)), λ (a, b, d, (c, q, m), f). absurd (cc q))
  may_ask_iff (ok c) = (
    λ h. (
      ground (arith, h),
      ground (arith, h),
      ground (arith, h),
      (c, refl, (free_iff c.lease).0 (ground (arith, h))),
      forced_iff.0 (ground (arith, h)),
    ),
    λ (a, b, d, (c', q, m), f).
        let same : c ≡ c' = cc q in
        let free : free_for local c.lease ≡ true =
          (free_iff c.lease).1 (subst (λ (x : ClusterState). MayStart x.lease) (sym same) m) in
        rw (a, b, d) (rw (free, forced_iff.1 f) refl),
  )

  -- PostgreSQL is asked to start exactly where it may be
  pub here_asked_iff :
      (s : S) → ((start_here store i local s).asked_start ≡ true) ↔ MayAsk (store.read_state s).0
  here_asked_iff s =
      let (f, g) = may_ask_iff (store.read_state s).0 in
      (λ h. f (sym (here_asked s) ∙ h), λ h. here_asked s ∙ g h)
