-- ===== src/Orchestration/Rules.antt =====
-- How assertions pass through the calls of an orchestration: rules for each way to build a task.
use pg_agent_rs.Prelude.{◌≡◌, refl, Bool, true, false, Result, ok, err, if◌then◌else◌}
use pg_agent_rs.Orchestration.{World, Early, Task, pure, raise, continue, ◌>>=◌}

-- what holds at the end: `Q` with the value, or `F` after an early return
abbrev pub Ends :
    {A : Type 0} → (A → World → Type 0) → (World → Type 0) → Result Early A × World → Type 0
Ends Q F (ok a, w) = Q a w
Ends Q F (err e, w) = F w

pub record Triple {A : Type 0} (P : World → Type 0) (m : Task A) (Q : A → World → Type 0)
    (F : World → Type 0) : Type 0 where
  pub at : (w : World) → P w → Ends Q F (m w)

module _ {A : Type 0} {P : World → Type 0} {Q : A → World → Type 0} {F : World → Type 0} where
  pub Triple-pure : (a : A) → ((w : World) → P w → Q a w) → Triple P (pure a) Q F
  Triple-pure a h = record { at = h }

  pub Triple-raise : (e : Early) → ((w : World) → P w → F w) → Triple P (raise {A = A} e) Q F
  Triple-raise e h = record { at = h }

  pub Triple-before :
      {P' : World → Type 0} (m : Task A)
      → ((w : World) → P' w → P w)
      → Triple P m Q F
      → Triple P' m Q F
  Triple-before m h t = record { at = λ w p. t.at w (h w p) }

  pub Triple-if :
      (b : Bool) (m n : Task A)
      → (b ≡ true → Triple P m Q F)
      → (b ≡ false → Triple P n Q F)
      → Triple P (if b then m else n) Q F
  Triple-if true m n hm hn = hm refl
  Triple-if false m n hm hn = hn refl

module _ {A : Type 0} {Q Q' : A → World → Type 0} where
  Ends-weaken :
      (F : World → Type 0) (r : Result Early A) (w : World)
      → ((a : A) (w : World) → Q a w → Q' a w)
      → Ends Q F (r, w)
      → Ends Q' F (r, w)
  Ends-weaken F (ok a) w h e = h a w e
  Ends-weaken F (err x) w h e = e

  pub Triple-after :
      {P F : World → Type 0} (m : Task A)
      → ((a : A) (w : World) → Q a w → Q' a w)
      → Triple P m Q F
      → Triple P m Q' F
  Triple-after {F = F} m h t = record {
    at = λ w p. let (r, w') = m w in Ends-weaken F r w' h (t.at w p);
  }

module _ {A B : Type 0} {Q : A → World → Type 0} {R : B → World → Type 0} {F : World → Type 0} where
  pub continue-Ends :
      (r : Result Early A) (w : World) (f : A → Task B)
      → ((a : A) → Triple (Q a) (f a) R F)
      → Ends Q F (r, w)
      → Ends R F (continue r f w)
  continue-Ends (ok a) w f h e = (h a).at w e
  continue-Ends (err x) w f h e = e

  pub Triple-bind :
      {P : World → Type 0} (m : Task A) (f : A → Task B)
      → Triple P m Q F
      → ((a : A) → Triple (Q a) (f a) R F)
      → Triple P (m >>= f) R F
  unfolding ◌>>=◌
  Triple-bind m f t h = record {
    at = λ w p. let (r, w') = m w in continue-Ends r w' f h (t.at w p);
  }
