-- ===== src/Ha/Candidacy/Stability.antt =====
-- The stability gate lets a candidacy pass only on two equal samples.
use mathlib.Core.Path.{subst}
use pg_agent_rs.Prelude.{
  ℕ, ◌≡◌, ◌≢◌, refl, sym, ◌∙◌, Bool, true, ◌&&◌, Option, none, some, List, [], ◌∷◌, arith, lookup,
  insert, lookup-insert, Option-cases, inl, inr,
}
use pg_agent_rs.ClusterView.{WalPosition}
use pg_agent_rs.ClusterView.Order.{eq_of_pos_eqb}
use pg_agent_rs.Ha.{PeerView}
use pg_agent_rs.Ha.Candidacy.Settle.{
  record_pos, sample_peers, sample, is_at, unsettled, vanished, is_empty,
}

abbrev Samples : Type 0
Samples = List (ℕ × WalPosition)

eq_of_is_at : (o : Option WalPosition) (x : WalPosition) → is_at o x ≡ true → o ≡ some x
eq_of_is_at none x h = cc
eq_of_is_at (some y) x h = ground (arith, eq_of_pos_eqb y x)

-- an entry that is found was sampled before at the same position
settled_entry :
    (old cur : Samples) (k : ℕ) (x : WalPosition)
    → is_empty (unsettled old cur) ≡ true
    → lookup k cur ≡ some x
    → lookup k old ≡ some x
unfolding unsettled lookup
settled_entry old [] k x h l = cc
settled_entry old ((j, y) ∷ cur) k x h l =
    ground (arith, settled_entry old cur k x, eq_of_is_at (lookup j old) y)

present_entry :
    (local_id : ℕ) (old cur : Samples) (k : ℕ)
    → is_empty (vanished local_id old cur) ≡ true
    → k ≢ local_id
    → lookup k cur ≡ none
    → lookup k old ≡ none
unfolding vanished lookup
present_entry local_id [] cur k h n l = refl
present_entry local_id ((j, y) ∷ old) cur k h n l = ground (arith, present_entry local_id old cur k)

abbrev pub stable : ℕ → Samples → Samples → Bool
stable local_id old cur = is_empty (unsettled old cur) && is_empty (vanished local_id old cur)

-- The gate's answer on the samples of two ticks.
abbrev pub IsStable : ℕ → Samples → Samples → Type 0
IsStable local_id old cur = stable local_id old cur ≡ true

sample_peers-local :
    (m : Samples) (ps : List PeerView) (k : ℕ)
    → lookup k m ≢ none
    → lookup k (sample_peers m ps) ≢ none
unfolding sample_peers
sample_peers-local m [] k h = h
sample_peers-local m (p ∷ ps) k h = sample_peers-local (record_pos m p.node p.pos) ps k (kept p.pos)
  where
    kept : (o : Option WalPosition) → lookup k (record_pos m p.node o) ≢ none
    kept none = h
    kept (some x) = λ e. ground (arith, lookup-insert p.node k x m, h)

local_sampled :
    (local_id : ℕ) (my : WalPosition) (ps : List PeerView)
    → lookup local_id (sample local_id my ps) ≢ none
unfolding sample
local_sampled local_id my ps =
    sample_peers-local (insert local_id my []) ps local_id
      (λ e. ground (arith, lookup-insert local_id local_id my []))

-- If the gate passes a sample of this tick, the previous tick's sample holds the same position for
-- every node, and no position for a node that has none now: nothing moved, came or went.
pub stable_samples_equal :
    (local_id : ℕ) (my_pos : WalPosition) (ps : List PeerView) (old : Samples)
    → IsStable local_id old (sample local_id my_pos ps)
    → (k : ℕ) → lookup k old ≡ lookup k (sample local_id my_pos ps)
stable_samples_equal local_id my ps old h k =
    let cur : Samples = sample local_id my ps in
    elim (Option-cases (lookup k (sample local_id my ps))) [
      | inr (x, e) ↦ settled_entry old cur k x (ground arith) e ∙ sym e
      | inl e ↦
          present_entry local_id old cur k (ground arith)
            (λ q. local_sampled local_id my ps (subst (λ j. lookup j cur ≡ none) q e)) e
          ∙ sym e
    ]
