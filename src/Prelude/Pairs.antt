-- ===== src/Prelude/Pairs.antt =====
-- Two lists related row by row: a table before and after an operation that adds no row.
use mathlib.Core.Bool.{Bool}
use mathlib.Core.List.{List, [], ◌∷◌}
use k8s_alert_manager.Prelude.Tests.{if◌then◌else◌}
use k8s_alert_manager.Prelude.Members.{All}
use k8s_alert_manager.Prelude.Tables.{update_where}

module _ {ℓ} {A : Type ℓ} where
  abbrev pub All2 : (A → A → Type 0) → List A → List A → Type 0
  All2 R [] [] = Unit
  All2 R (x ∷ xs) (y ∷ ys) = R x y × All2 R xs ys
  All2 R _ _ = ⊥

  pub All2-refl : (R : A → A → Type 0) (xs : List A) → ((x : A) → R x x) → All2 R xs xs
  All2-refl R [] h = tt
  All2-refl R (x ∷ xs) h = (h x, All2-refl R xs h)

  pub All2-trans :
      (R S T : A → A → Type 0) (xs ys zs : List A)
      → ((x y z : A) → R x y → S y z → T x z)
      → All2 R xs ys
      → All2 S ys zs
      → All2 T xs zs
  All2-trans R S T [] [] [] f h k = tt
  All2-trans R S T (x ∷ xs) (y ∷ ys) (z ∷ zs) f h k =
      (f x y z h.0 k.0, All2-trans R S T xs ys zs f h.1 k.1)
  All2-trans R S T [] (y ∷ ys) zs f h k = absurd h
  All2-trans R S T [] [] (z ∷ zs) f h k = absurd k
  All2-trans R S T (x ∷ xs) [] zs f h k = absurd h
  All2-trans R S T (x ∷ xs) (y ∷ ys) [] f h k = absurd k

  pub All2-update_where :
      (R : A → A → Type 0) (p : A → Bool) (f : A → A) (xs : List A)
      → ((x : A) → R x (if p x then f x else x))
      → All2 R xs (update_where p f xs)
  All2-update_where R p f [] h = tt
  All2-update_where R p f (x ∷ xs) h = (h x, All2-update_where R p f xs h)

  pub All2-weaken :
      (R S : A → A → Type 0) (xs ys : List A)
      → ((x y : A) → R x y → S x y)
      → All2 R xs ys
      → All2 S xs ys
  All2-weaken R S [] [] f h = tt
  All2-weaken R S (x ∷ xs) (y ∷ ys) f h = (f x y h.0, All2-weaken R S xs ys f h.1)
  All2-weaken R S [] (y ∷ ys) f h = absurd h
  All2-weaken R S (x ∷ xs) [] f h = absurd h

  -- A fact about each old row, used at its pair.
  pub All2-with :
      (P : A → Type 0) (R S : A → A → Type 0) (xs ys : List A)
      → ((x y : A) → P x → R x y → S x y)
      → All P xs
      → All2 R xs ys
      → All2 S xs ys
  All2-with P R S [] [] f p h = tt
  All2-with P R S (x ∷ xs) (y ∷ ys) f p h = (f x y p.0 h.0, All2-with P R S xs ys f p.1 h.1)
  All2-with P R S [] (y ∷ ys) f p h = absurd h
  All2-with P R S (x ∷ xs) [] f p h = absurd h
