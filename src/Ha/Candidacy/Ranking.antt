-- ===== src/Ha/Candidacy/Ranking.antt =====
-- The most-advanced check looks at every peer's position.
use pg_agent_rs.Prelude.{
  ℕ, ◌≤◌, ◌≡◌, refl, ◌↔◌, false, Option, none, some, List, [], ◌∷◌, arith, All, Bool-cases, inl,
  inr,
}
use pg_agent_rs.ClusterView.{WalPosition, pos_ltb}
use pg_agent_rs.Ha.{PeerView}
use pg_agent_rs.Ha.Candidacy.Choice.{key_ltb, better, compete, best_from, best_other, outranked}

-- the key of `r` is at least that of `e`
abbrev AtLeast : ℕ × WalPosition → ℕ × WalPosition → Type 0
AtLeast r e = key_ltb r e ≡ false

AtLeast-trans : (a b c : ℕ × WalPosition) → AtLeast a b → AtLeast b c → AtLeast a c
AtLeast-trans (i, x) (j, y) (k, z) h l = ground arith

abbrev AtLeast? : Option (ℕ × WalPosition) → ℕ × WalPosition → Type 0
AtLeast? none e = ⊥
AtLeast? (some r) e = AtLeast r e

better_mono :
    (b : Option (ℕ × WalPosition)) (e f : ℕ × WalPosition) → AtLeast? b f → AtLeast? (better b e) f
better_mono none e f h = absurd h
better_mono (some (i, x)) (j, y) (k, z) h = ground arith

better_new : (b : Option (ℕ × WalPosition)) (e : ℕ × WalPosition) → AtLeast? (better b e) e
better_new none (j, y) = ground arith
better_new (some (i, x)) (j, y) = ground arith

compete_mono :
    (b : Option (ℕ × WalPosition)) (n : ℕ) (o : Option WalPosition) (f : ℕ × WalPosition)
    → AtLeast? b f
    → AtLeast? (compete b n o) f
compete_mono b n none f h = h
compete_mono b n (some x) f h = better_mono b (n, x) f h

best_from_mono :
    (b : Option (ℕ × WalPosition)) (ps : List PeerView) (f : ℕ × WalPosition)
    → AtLeast? b f
    → AtLeast? (best_from b ps) f
unfolding best_from
best_from_mono b [] f h = h
best_from_mono b (p ∷ ps) f h =
    best_from_mono (compete b p.node p.pos) ps f (compete_mono b p.node p.pos f h)

-- `best` is at least the position of a peer, if it has one
abbrev Covers : Option (ℕ × WalPosition) → ℕ → Option WalPosition → Type 0
Covers best n none = Unit
Covers best n (some x) = AtLeast? best (n, x)

compete-Covers :
    (b : Option (ℕ × WalPosition)) (n : ℕ) (o : Option WalPosition) (ps : List PeerView)
    → Covers (best_from (compete b n o) ps) n o
compete-Covers b n none ps = tt
compete-Covers b n (some x) ps = best_from_mono (better b (n, x)) ps (n, x) (better_new b (n, x))

best_from-Covers :
    (b : Option (ℕ × WalPosition)) (ps : List PeerView)
    → All (λ (p : PeerView). Covers (best_from b ps) p.node p.pos) ps
unfolding best_from
best_from-Covers b [] = tt
best_from-Covers b (p ∷ ps) =
    (compete-Covers b p.node p.pos ps, best_from-Covers (compete b p.node p.pos) ps)

-- A peer's position does not outrank `my_pos` at node `id`: it is not ahead, and a peer that is
-- level has no lower node id.
abbrev pub Yields : ℕ → WalPosition → ℕ → Option WalPosition → Type 0
Yields id my_pos n none = Unit
Yields id my_pos n (some x) = (pos_ltb my_pos x ≡ false) × (x ≡ my_pos → id ≤ n)

Covers-Yields :
    (id : ℕ) (my_pos : WalPosition) (best : Option (ℕ × WalPosition)) (n : ℕ)
    (o : Option WalPosition)
    → outranked id my_pos best ≡ none
    → Covers best n o
    → Yields id my_pos n o
unfolding outranked
Covers-Yields id my best n none h c = tt
Covers-Yields id my none n (some x) h c = absurd c
Covers-Yields id my (some (j, y)) n (some x) h c = ground arith

All-map {ℓ κ μ} :
    {A : Type ℓ} (P : A → Type κ) (Q : A → Type μ) (xs : List A)
    → ((x : A) → P x → Q x)
    → All P xs
    → All Q xs
All-map P Q [] f h = tt
All-map P Q (x ∷ xs) f h = (f x h.0, All-map P Q xs f h.1)

abbrev Yields? : ℕ → WalPosition → Option (ℕ × WalPosition) → Type 0
Yields? id my none = Unit
Yields? id my (some (n, x)) = Yields id my n (some x)

better-Yields :
    (id : ℕ) (my : WalPosition) (b : Option (ℕ × WalPosition)) (n : ℕ) (x : WalPosition)
    → Yields? id my b
    → Yields id my n (some x)
    → Yields? id my (better b (n, x))
better-Yields id my none n x h k = k
better-Yields id my (some (j, y)) n x h k = elim (Bool-cases (key_ltb (n, x) (j, y))) [
  | inl q ↦ rw q h
  | inr q ↦ rw q k
]

compete-Yields :
    (id : ℕ) (my : WalPosition) (b : Option (ℕ × WalPosition)) (n : ℕ) (o : Option WalPosition)
    → Yields? id my b
    → Yields id my n o
    → Yields? id my (compete b n o)
compete-Yields id my b n none h k = h
compete-Yields id my b n (some x) h k = better-Yields id my b n x h k

best_from-Yields :
    (id : ℕ) (my : WalPosition) (b : Option (ℕ × WalPosition)) (ps : List PeerView)
    → Yields? id my b
    → All (λ (p : PeerView). Yields id my p.node p.pos) ps
    → Yields? id my (best_from b ps)
unfolding best_from
best_from-Yields id my b [] h k = h
best_from-Yields id my b (p ∷ ps) h k =
    best_from-Yields id my (compete b p.node p.pos) ps (compete-Yields id my b p.node p.pos h k.0)
      k.1

yields_none :
    (id : ℕ) (my : WalPosition) (b : Option (ℕ × WalPosition))
    → Yields? id my b
    → outranked id my b ≡ none
unfolding outranked
yields_none id my none h = refl
yields_none id my (some (n, x)) h = ground arith

-- The most-advanced check over the best rival lets a candidate pass exactly when every peer with a
-- position yields to it: no peer is ahead of it, and no peer that is level has a lower node id.
pub outranked_iff :
    (id : ℕ) (my_pos : WalPosition) (ps : List PeerView)
    → (outranked id my_pos (best_other ps) ≡ none)
      ↔ All (λ (p : PeerView). Yields id my_pos p.node p.pos) ps
unfolding best_other
outranked_iff id my ps = (
  λ h.
      All-map (λ (p : PeerView). Covers (best_other ps) p.node p.pos)
        (λ (p : PeerView). Yields id my p.node p.pos) ps
        (λ p c. Covers-Yields id my (best_other ps) p.node p.pos h c) (best_from-Covers none ps),
  λ k. yields_none id my (best_other ps) (best_from-Yields id my none ps tt k),
)
