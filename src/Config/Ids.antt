-- ===== src/Config/Ids.antt =====
-- Comparisons of `i32` ids, and lists without repetition, for crates/pg-agent-core/src/config.rs.
use pg_agent_rs.Prelude.{
  ℤ, pos, negsuc, ◌≡◌, ◌↔◌, refl, ap, Bool, true, false, List, [], ◌∷◌, ◌==◌, any, In, lift, inl,
  inr, ==_iff, Bool-cases,
}

abbrev pub id_eqb : ℤ → ℤ → Bool
id_eqb (pos m) (pos n) = m == n
id_eqb (negsuc m) (negsuc n) = m == n
id_eqb _ _ = false

abbrev pub is_negative : ℤ → Bool
is_negative (pos n) = false
is_negative (negsuc n) = true

pub id_eqb_iff : (x y : ℤ) → (id_eqb x y ≡ true) ↔ (x ≡ y)
id_eqb_iff (pos m) (pos n) = (λ h. ap pos ((==_iff m n).0 h), λ e. (==_iff m n).1 (cc e))
id_eqb_iff (negsuc m) (negsuc n) = (λ h. ap negsuc ((==_iff m n).0 h), λ e. (==_iff m n).1 (cc e))
id_eqb_iff (pos m) (negsuc n) = (λ h. absurd (cc h), λ e. absurd (cc e))
id_eqb_iff (negsuc m) (pos n) = (λ h. absurd (cc h), λ e. absurd (cc e))

module _ {ℓ} {A : Type ℓ} where
  -- no member stands twice
  abbrev pub Distinct : List A → Type ℓ
  Distinct [] = Unit
  Distinct (x ∷ xs) = (In x xs → ⊥) × Distinct xs

  -- no member stands twice, and none is among those seen
  abbrev pub Unseen : List A → List A → Type ℓ
  Unseen seen xs = Distinct xs × ((y : A) → In y xs → In y seen → ⊥)

  pub Unseen-step :
      (seen : List A) (x : A) (xs : List A)
      → Unseen seen (x ∷ xs) ↔ ((In x seen → ⊥) × Unseen (x ∷ seen) xs)
  Unseen-step seen x xs = (
    λ ((a, d), f). (f x (inl refl), (d, later a f)),
    λ (a, (d, f)). ((λ m. f x m (inl refl), d), earlier a f),
  )
    where
      later :
          (In x xs → ⊥)
          → ((y : A) → In y (x ∷ xs) → In y seen → ⊥)
          → (y : A) → In y xs
          → In y (x ∷ seen)
          → ⊥
      later a f y m (inl e) = a (rw e at m)
      later a f y m (inr s) = f y (inr m) s

      earlier :
          (In x seen → ⊥)
          → ((y : A) → In y xs → In y (x ∷ seen) → ⊥)
          → (y : A) → In y (x ∷ xs)
          → In y seen
          → ⊥
      earlier a f y (inl e) s = a (rw e at s)
      earlier a f y (inr m) s = f y m (inr s)

  pub Unseen-nothing : (xs : List A) → Distinct xs → Unseen [] xs
  Unseen-nothing xs d = (d, λ y m n. elim n [ lift x ↦ x ])

  -- a Boolean search among the members, by a test that decides equality
  pub any_iff :
      (p : A → Bool) (x : A) (ys : List A)
      → ((y : A) → (p y ≡ true) ↔ (x ≡ y))
      → (any p ys ≡ true) ↔ In x ys
  any_iff p x [] h = (λ e. absurd (cc e), λ m. elim m [ lift z ↦ absurd z ])
  any_iff p x (y ∷ ys) h = elim (Bool-cases (p y)) [
    | inl e ↦ rw e (λ q. inl ((h y).0 e), λ m. refl)
    | inr e ↦ rw e (
      λ q. inr ((any_iff p x ys h).0 q),
      λ m. elim m [ inl q ↦ absurd (cc (e, (h y).1 q)) | inr n ↦ (any_iff p x ys h).1 n ],
    )
  ]
