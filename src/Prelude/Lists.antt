-- ===== src/Prelude/Lists.antt =====
-- Lists measured by native numbers, with Boolean searches and predicates by recursion.
use Prim.Native.Nat.{ℕ, suc, ◌+◌}
use mathlib.Core.Path.{◌≡◌, sym, ap, ◌∙◌}
use mathlib.Core.Logic.{◌⊎◌, inl, inr}
use mathlib.Core.Bool.{Bool, true, false}
use mathlib.Core.Option.{Option, none, some}
use mathlib.Core.List.{List, [], ◌∷◌, ◌++◌}
use native.Mathlib.Omega.{arith}
use pg_agent_rs.Prelude.Tests.{if◌then◌else◌, Bool-cases}

module _ {ℓ} {A : Type ℓ} where
  abbrev pub length : List A → ℕ
  length [] = 0
  length (x ∷ xs) = suc (length xs)

  pub length-append : (xs ys : List A) → length (xs ++ ys) ≡ length xs + length ys
  length-append [] ys = omega arith
  length-append (x ∷ xs) ys = omega (arith, length-append xs ys)

  -- `iter().find(p)`
  abbrev pub find : (A → Bool) → List A → Option A
  find p [] = none
  find p (x ∷ xs) = if p x then some x else find p xs

  -- `iter().filter(p)`
  abbrev pub keep : (A → Bool) → List A → List A
  keep p [] = []
  keep p (x ∷ xs) = let rest = keep p xs in if p x then x ∷ rest else rest

  -- `iter().any(p)`
  abbrev pub any : (A → Bool) → List A → Bool
  any p [] = false
  any p (x ∷ xs) = if p x then true else any p xs

module _ {ℓ κ} {A : Type ℓ} where
  -- every member satisfies `P`
  abbrev pub All : (A → Type κ) → List A → Type κ
  All P [] = Unit
  All P (x ∷ xs) = P x × All P xs

module _ {ℓ κ} {A : Type ℓ} {B : Type κ} where
  -- `iter().filter_map(f)`
  abbrev pub keep_some : (A → Option B) → List A → List B
  keep_some f [] = []
  keep_some f (x ∷ xs) = let rest = keep_some f xs in elim (f x) [ none ↦ rest | some y ↦ y ∷ rest ]

-- no member
pub data Never {ℓ} : Type ℓ where
  lift : ⊥ → Never

module _ {ℓ} {A : Type ℓ} where
  -- a member, at the place where it stands
  abbrev pub In : A → List A → Type ℓ
  In x [] = Never
  In x (y ∷ ys) = (x ≡ y) ⊎ In x ys

  pub In-keep : (f : A → Bool) (x : A) (xs : List A) → In x xs → f x ≡ true → In x (keep f xs)
  In-keep f x [] (lift m) h = absurd m
  In-keep f x (y ∷ ys) (inl e) h = rw (ap f (sym e) ∙ h) (inl e)
  In-keep f x (y ∷ ys) (inr m) h = elim (Bool-cases (f y)) [
    | inl e ↦ rw e (inr (In-keep f x ys m h))
    | inr e ↦ rw e (In-keep f x ys m h)
  ]

  pub keep-In : (f : A → Bool) (x : A) (xs : List A) → In x (keep f xs) → In x xs × (f x ≡ true)
  keep-In f x [] (lift m) = absurd m
  keep-In f x (y ∷ ys) m = elim (Bool-cases (f y)) [
    | inr e ↦ let (n, h) = keep-In f x ys (rw e at m) in (inr n, h)
    | inl e ↦ first y ys e (keep-In f x ys) (rw e at m)
  ]
    where
      first :
          (y : A) (ys : List A)
          → f y ≡ true
          → (In x (keep f ys) → In x ys × (f x ≡ true))
          → (x ≡ y) ⊎ In x (keep f ys)
          → ((x ≡ y) ⊎ In x ys) × (f x ≡ true)
      first y ys e g (inl q) = (inl q, ap f q ∙ e)
      first y ys e g (inr n) = let (k, h) = g n in (inr k, h)
