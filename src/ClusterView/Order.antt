-- ===== src/ClusterView/Order.antt =====
-- The order of WAL positions is a strict total order, and `lag_behind` measures it.
use pg_agent_rs.Prelude.{ℕ, ◌+◌, ◌<◌, ◌≡◌, ◌↔◌, ◌⊎◌, true, some, arith}
use pg_agent_rs.ClusterView.{WalPosition, pos_ltb, pos_eqb, lag_behind}

infix 50 ◌≺◌
abbrev pub ◌≺◌ : WalPosition → WalPosition → Type 0
a ≺ b = pos_ltb a b ≡ true

pub eq_of_pos_eqb : (a b : WalPosition) → pos_eqb a b ≡ true → a ≡ b
eq_of_pos_eqb a b h = ground arith

pub pos_eqb_refl : (a : WalPosition) → pos_eqb a a ≡ true
pos_eqb_refl a = ground arith

pub ≺_irrefl : (a : WalPosition) → ¬ (a ≺ a)
≺_irrefl a h = ground arith

pub ≺_trans : (a b c : WalPosition) → a ≺ b → b ≺ c → a ≺ c
≺_trans a b c h k = ground arith

-- any two positions are ordered one way or are equal
pub ≺_total : (a b : WalPosition) → (a ≺ b) ⊎ (a ≡ b) ⊎ (b ≺ a)
≺_total a b = ground arith

-- A positive lag says exactly that the other position is ahead on the same timeline, by that many
-- bytes; no lag is given exactly across timelines.
pub lag_behind-pos :
    (a b : WalPosition) (n : ℕ)
    → 0 < n
    → (lag_behind a b ≡ some n) ↔ ((a ≺ b) × (a.timeline ≡ b.timeline) × (b.lsn ≡ a.lsn + n))
unfolding lag_behind
lag_behind-pos a b n h = (λ e. ground arith, λ e. ground arith)
