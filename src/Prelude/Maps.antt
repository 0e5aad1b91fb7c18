-- ===== src/Prelude/Maps.antt =====
-- `HashMap` with numbers for keys, as an association list without repeated keys.
use Prim.Native.Nat.{ℕ}
use mathlib.Core.Path.{◌≡◌, refl}
use mathlib.Core.Option.{Option, none, some}
use mathlib.Core.List.{List, [], ◌∷◌}
use native.Mathlib.Omega.{arith}
use pg_agent_rs.Prelude.Tests.{◌==◌, if◌then◌else◌}

unfoldable pub insert {ℓ} : {V : Type ℓ} → ℕ → V → List (ℕ × V) → List (ℕ × V)
insert key value [] = (key, value) ∷ []
insert key value ((other, held) ∷ rest) =
    if other == key then (other, value) ∷ rest else (other, held) ∷ insert key value rest

unfoldable pub lookup {ℓ} : {V : Type ℓ} → ℕ → List (ℕ × V) → Option V
lookup key [] = none
lookup key ((other, held) ∷ rest) = if other == key then some held else lookup key rest

-- What a key holds after an insertion: the new value under the key written, the old one elsewhere.
pub lookup-insert {ℓ} :
    {V : Type ℓ} (key wanted : ℕ) (value : V) (table : List (ℕ × V))
    → lookup wanted (insert key value table)
      ≡ (if key == wanted then some value else lookup wanted table)
unfolding lookup insert
lookup-insert key wanted value [] = refl
lookup-insert key wanted value ((other, held) ∷ rest) =
    ground (arith, lookup-insert key wanted value rest)
