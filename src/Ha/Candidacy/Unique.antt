-- ===== src/Ha/Candidacy/Unique.antt =====
-- Two candidates that see each other's positions cannot both win.
use mathlib.Core.List.{Memᴰ}
use mathlib.Core.Path.{subst}
use pg_agent_rs.Prelude.{ℕ, ◌≡◌, ◌≢◌, sym, ◌∙◌, Bool, Option, some, List, [], ◌∷◌, arith, All}
use pg_agent_rs.Store.{ConsensusStore}
use pg_agent_rs.ClusterView.{WalPosition}
use pg_agent_rs.Ha.{HaConfig, took_over, LocalView, PeerView, TickState}
use pg_agent_rs.Ha.Candidacy.{Env, consider_candidacy}
use pg_agent_rs.Ha.Candidacy.Ranking.{Yields}
use pg_agent_rs.Ha.Candidacy.Elected.{consider_candidacy-IsElected}

All-Memᴰ {ℓ κ} : {A : Type ℓ} (P : A → Type κ) (x : A) (xs : List A) → All P xs → Memᴰ x xs → P x
All-Memᴰ P x [] h m = elim m [ ]
All-Memᴰ P x (y ∷ ys) h (Memᴰ.head e) = subst P (sym e) h.0
All-Memᴰ P x (y ∷ ys) h (Memᴰ.tail m) = All-Memᴰ P x ys h.1 m

-- `peers` shows the other candidate, at the position that it compares
pub record Shows (other : HaConfig) (view : LocalView) (peers : List PeerView) : Type 0 where
  pub peer : PeerView
  pub listed : Memᴰ peer peers
  pub is_other : peer.node ≡ other.local_id
  pub position : peer.pos ≡ view.pos

Yields-to :
    (a b : HaConfig) (x y : WalPosition) (vb : LocalView) (peers : List PeerView)
    → All (λ (p : PeerView). Yields a.local_id x p.node p.pos) peers
    → Shows b vb peers
    → vb.pos ≡ some y
    → Yields a.local_id x b.local_id (some y)
Yields-to a b x y vb peers h w e =
    subst (λ n. Yields a.local_id x n (some y)) w.is_other
      (subst (λ o. Yields a.local_id x w.peer.node o) (w.position ∙ e)
        (All-Memᴰ (λ (p : PeerView). Yields a.local_id x p.node p.pos) w.peer peers h w.listed))

level : (i j : ℕ) (x y : WalPosition) → Yields i x j (some y) → Yields j y i (some x) → i ≡ j
level i j x y h k = ground arith

module _ {S E T F : Type 0} (sa : ConsensusStore S E) (sb : ConsensusStore T F) where
  -- Two candidacies of different nodes, in any stores and at any times, each of which saw the other
  -- node at the position that the other compared, do not both take a lease over: if the first
  -- does, the second decides otherwise.
  pub election_unique :
      (a b : HaConfig) (ea eb : Env) (xa xb : Option (ℕ × ℕ)) (va vb : LocalView)
      (pa pb : List PeerView) (ta tb : TickState) (s : S) (t : T) (m n : ℕ) (f g : Bool)
      → a.local_id ≢ b.local_id
      → Shows b vb pa
      → Shows a va pb
      → (consider_candidacy sa a ea xa va pa ta s).0 ≡ took_over m f
      → (consider_candidacy sb b eb xb vb pb tb t).0 ≢ took_over n g
  election_unique a b ea eb xa xb va vb pa pb ta tb s t m n f g ne wa wb h k =
      let (x, ex) = consider_candidacy-IsElected sa a ea xa va pa ta s m f h in
      let (y, ey) = consider_candidacy-IsElected sb b eb xb vb pb tb t n g k in
      ne (
        level a.local_id b.local_id x y (Yields-to a b x y vb pa ex.most_advanced wa ey.position)
          (Yields-to b a y x va pb ey.most_advanced wb ex.position))
