-- ===== src/StartPrimary/Claimed.antt =====
-- When a primary is started by hand, and what it may claim (crates/pg-agent-core/src/localserver.rs,
-- `cluster_start_primary`).
use mathlib.Core.Path.{subst}
use pg_agent_rs.Prelude.{
  ℕ, String, ◌≡◌, ◌⊎◌, ◌↔◌, refl, sym, ap, ◌∙◌, Bool, true, false, not, ◌&&◌, ◌==◌, ==_iff, Option,
  none, some, inl, inr, Bool-cases, Result, ok, err, if◌then◌else◌,
}
use pg_agent_rs.Consensus.{Lease, ClusterState, TakeoverOutcome, won, lost}
use pg_agent_rs.Raft.Machine.{takeover}
use pg_agent_rs.Raft.Takeover.{takeover-won, takeover-lost}
use pg_agent_rs.Pool.{NodeConfig, NodePool, local_node}
use pg_agent_rs.Store.{ConsensusStore, IsLinearizable, MaybeApplied}
use pg_agent_rs.StartPrimary.Asked.{MayAsk, here_asked_iff}
use pg_agent_rs.StartPrimary.{
  StartInput, StartAnswer, standby_shaped, not_initialised, no_consensus, unreadable, promoted_past,
  start_failed, held_elsewhere, still_in_recovery, unconfirmed, claim_failed, taken, already_holder,
  claimed, StartOutcome, anyone_ahead, refuse, ended, judge_claim, claim, confirm, begin_start,
  start_unless_past, by_lease, by_state, start_here, cluster_start_primary,
}

-- the lease is free or the node's own
abbrev pub MayStart : ℕ → Option Lease → Type 0
MayStart local none = Unit
MayStart local (some l) = l.holder ≡ local

-- who holds the lease, and with which term
abbrev pub HeldBy : ℕ → ℕ → Option Lease → Type 0
HeldBy local term none = ⊥
HeldBy local term (some l) = (l.holder ≡ local) × (l.term ≡ term)

-- the committed document after an answer
abbrev pub Leaves : ℕ → ℕ → ClusterState → ClusterState → StartAnswer → Type 0
Leaves local now before after (claimed term) = HeldBy local term after.lease
Leaves local now before after (already_holder term) =
    (after ≡ before) × HeldBy local term after.lease
Leaves local now before after claim_failed = MaybeApplied (takeover local none now) before after
Leaves local now before after _ = after ≡ before

module _ {S E : Type 0} (store : ConsensusStore S E) (view : S → ClusterState)
    (lin : IsLinearizable store view) (i : StartInput) where
  -- PostgreSQL was asked to start only where that forks nothing
  pub record Guarded (local : ℕ) (before : ClusterState) (out : StartOutcome S) : Type 0 where
    pub no_signal : out.asked_start ≡ true → i.standby_signal ≡ false
    pub initialised : out.asked_start ≡ true → i.pg_version ≡ true
    pub free : out.asked_start ≡ true → MayStart local before.lease
    pub newest : out.asked_start ≡ true → (i.force ≡ true) ⊎ (anyone_ahead i ≡ false)
    pub leaves : Leaves local i.now before (view out.store) out.answer

  either :
      (local : ℕ) (before : ClusterState) (b : Bool) (x y : StartOutcome S)
      → (b ≡ true → Guarded local before x)
      → (b ≡ false → Guarded local before y)
      → Guarded local before (if b then x else y)
  either local before true x y f g = f refl
  either local before false x y f g = g refl

  refused :
      (local : ℕ) (before : ClusterState) (a : StartAnswer) (s : S)
      → Leaves local i.now before (view s) a
      → Guarded local before (refuse store i a s)
  refused local before a s l = record {
    no_signal = λ h. absurd (cc h);
    initialised = λ h. absurd (cc h);
    free = λ h. absurd (cc h);
    newest = λ h. absurd (cc h);
    leaves = l;
  }

  module _ (local : ℕ) (before : ClusterState) (signal : i.standby_signal ≡ false)
      (version : i.pg_version ≡ true) (may : MayStart local before.lease) where
    Newest : Type 0
    Newest = (i.force ≡ true) ⊎ (anyone_ahead i ≡ false)

    started :
        (a : StartAnswer) (s : S)
        → Newest
        → Leaves local i.now before (view s) a
        → Guarded local before (ended store i a s)
    unfolding Newest
    started a s n l = record {
      no_signal = λ h. signal;
      initialised = λ h. version;
      free = λ h. may;
      newest = λ h. n;
      leaves = l;
    }

    judged :
        (r : Result E TakeoverOutcome) (s s' : S)
        → view s ≡ before
        → Newest
        → store.try_takeover i.now local none s ≡ (r, s')
        → Guarded local before (judge_claim store i (r, s'))
    judged (ok (won l)) s s' v n e =
        let applied =
          lin.takeover_applied i.now local none s (won l)
            (ap (λ (x : Result E TakeoverOutcome × S). x.0) e) in
        let (seen, held, holder, since) =
          takeover-won (view s) (view s') local i.now none l (rw e at applied) in
        started (claimed l.term) s' n (rw held (holder, refl))
    judged (ok (lost current)) s s' v n e =
        let applied =
          lin.takeover_applied i.now local none s (lost current)
            (ap (λ (x : Result E TakeoverOutcome × S). x.0) e) in
        started (taken current) s' n
          ((takeover-lost (view s) (view s') local i.now none current (rw e at applied)).0 ∙ v)
    judged (err x) s s' v n e =
        let failed =
          lin.takeover_failed i.now local none s x
            (ap (λ (y : Result E TakeoverOutcome × S). y.0) e) in
        started claim_failed s' n (rw v at (rw e at failed))

    claim-Guarded :
        (held : Option ℕ) (s : S)
        → view s ≡ before
        → ((term : ℕ) → held ≡ some term → HeldBy local term before.lease)
        → Newest
        → Guarded local before (claim store i local held s)
    claim-Guarded (some term) s v h n =
        started (already_holder term) s n
          (v, subst (λ (c : ClusterState). HeldBy local term c.lease) (sym v) (h term refl))
    claim-Guarded none s v h n =
        judged (store.try_takeover i.now local none s).0 s (store.try_takeover i.now local none s).1
          v n refl

    confirm-Guarded :
        (held : Option ℕ) (s : S) (r : Result String Bool)
        → view s ≡ before
        → ((term : ℕ) → held ≡ some term → HeldBy local term before.lease)
        → Newest
        → Guarded local before (confirm store i local held r s)
    confirm-Guarded held s (ok false) v h n = claim-Guarded held s v h n
    confirm-Guarded held s (ok true) v h n = started still_in_recovery s n v
    confirm-Guarded held s (err e) v h n = started unconfirmed s n v

    start-Guarded :
        (held : Option ℕ) (s : S) (r : Result String (Unit {0}))
        → view s ≡ before
        → ((term : ℕ) → held ≡ some term → HeldBy local term before.lease)
        → Newest
        → Guarded local before (begin_start store i local held r s)
    start-Guarded held s (ok u) v h n = confirm-Guarded held s i.is_in_recovery v h n
    start-Guarded held s (err e) v h n = started start_failed s n v

    unless_past-Guarded :
        (held : Option ℕ) (s : S)
        → view s ≡ before
        → ((term : ℕ) → held ≡ some term → HeldBy local term before.lease)
        → Guarded local before (start_unless_past store i local held s)
    unfolding start_unless_past Newest
    unless_past-Guarded held s v h =
        either local before (anyone_ahead i && not i.force) (refuse store i promoted_past s)
          (begin_start store i local held i.start_postgres s)
          (λ a. refused local before promoted_past s v)
          (λ a. start-Guarded held s i.start_postgres v h (forced (anyone_ahead i) i.force a))
      where
        forced : (a f : Bool) → a && not f ≡ false → (f ≡ true) ⊎ (a ≡ false)
        forced true true h = inl refl
        forced true false h = absurd (cc h)
        forced false f h = inr refl

  lease-Guarded :
      (local : ℕ) (before : ClusterState) (l : Option Lease) (s : S)
      → before.lease ≡ l
      → view s ≡ before
      → i.standby_signal ≡ false
      → i.pg_version ≡ true
      → Guarded local before (by_lease store i local l s)
  lease-Guarded local before none s e v g p =
      unless_past-Guarded local before g p (rw e tt) none s v (λ t q. absurd (cc q))
  lease-Guarded local before (some l) s e v g p = elim (Bool-cases (l.holder == local)) [
    | inr h ↦ rw h (refused local before (held_elsewhere l) s v)
    | inl h ↦
        let own : l.holder ≡ local = (==_iff l.holder local).0 h in
        rw h (
          unless_past-Guarded local before g p (rw e own) (some l.term) s v
            (λ t q. rw e (own, cc q)))
  ]

  state-Guarded :
      (local : ℕ) (s : S)
      → i.standby_signal ≡ false
      → i.pg_version ≡ true
      → Guarded local (view s) (by_state store i local (store.read_state s))
  state-Guarded local s g p = by_answer (store.read_state s).0 refl
    where
      by_answer :
          (r : Result E ClusterState)
          → (store.read_state s).0 ≡ r
          → Guarded local (view s) (by_state store i local (r, (store.read_state s).1))
      by_answer (err e) q =
          refused local (view s) unreadable (store.read_state s).1 (lin.read_quiet s)
      by_answer (ok c) q =
          lease-Guarded local (view s) c.lease (store.read_state s).1
            (ap (λ (x : ClusterState). x.lease) (sym (lin.read_current s c q))) (lin.read_quiet s) g
            p

  here-Guarded : (local : ℕ) (s : S) → Guarded local (view s) (start_here store i local s)
  here-Guarded local s =
      either local (view s) i.standby_signal _ _ (λ g. refused local (view s) standby_shaped s refl)
        (λ g.
          either local (view s) (not i.pg_version) _ _
            (λ p. refused local (view s) not_initialised s refl)
            (λ p.
              either local (view s) (not i.has_consensus) _ _
                (λ c. refused local (view s) no_consensus s refl)
                (λ c. state-Guarded local s g (present i.pg_version p))))
    where
      present : (b : Bool) → not b ≡ false → b ≡ true
      present true h = refl
      present false h = absurd (cc h)

-- When a primary is started by hand, and what it may claim: PostgreSQL is asked to start where the
-- data directory is initialised and not a standby's, consensus is there and its state is read, the lease
-- read is free or the node's own, and the start is forced or no peer that answered has a known timeline
-- above the one of the local control file, and nowhere else; a control file that is not read, or
-- has no timeline, counts as behind no one. Over a linearizable store the committed lease was then
-- free or the node's own; a claimed lease is committed for the node with the answered term; a lease
-- that the node holds already is not minted again; an answer that the claim failed leaves the
-- document as it was or with the claim applied; any other answer leaves it as it was.
pub cluster_start_primary-Guarded :
    {S E : Type 0} (store : ConsensusStore S E) (view : S → ClusterState)
    (lin : IsLinearizable store view) (i : StartInput) (pool : NodePool) (n : NodeConfig) (s : S)
    → local_node pool ≡ some n
    → (((cluster_start_primary store i pool s).asked_start ≡ true)
        ↔ MayAsk store i n.id (store.read_state s).0)
      × Guarded store view lin i n.id (view s) (cluster_start_primary store i pool s)
unfolding cluster_start_primary
cluster_start_primary-Guarded store view lin i pool n s e = (
  rw (e, cluster_start_primary) (here_asked_iff store i n.id s),
  rw (e, cluster_start_primary) (here-Guarded store view lin i n.id s),
)
