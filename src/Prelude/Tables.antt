-- ===== src/Prelude/Tables.antt =====
-- A database table as a list of rows: UPDATE ... WHERE, and dictionaries as association lists.
use Prim.Native.Nat.{ℕ}
use Prim.Native.String.{String}
use mathlib.Core.Path.{◌≡◌, refl}
use mathlib.Core.Bool.{Bool, true, false}
use mathlib.Core.Option.{Option, none, some}
use mathlib.Core.List.{List, [], ◌∷◌}
use text.Mathlib.Text.{◌==◌ as str_eq}
use native.Mathlib.Omega.{arith}
use k8s_alert_manager.Prelude.Tests.{if◌then◌else◌, ◌==◌}
use k8s_alert_manager.Prelude.Lists.{length, count}

module _ {ℓ} {A : Type ℓ} where
  -- UPDATE table SET f WHERE p
  abbrev pub update_where : (A → Bool) → (A → A) → List A → List A
  update_where p f [] = []
  update_where p f (x ∷ xs) = (if p x then f x else x) ∷ update_where p f xs

  pub length-update_where :
      (p : A → Bool) (f : A → A) (xs : List A) → length (update_where p f xs) ≡ length xs
  length-update_where p f [] = refl
  length-update_where p f (x ∷ xs) = omega (arith, length-update_where p f xs)

  -- An update that leaves a test as it was on each row leaves the number of rows that pass it.
  pub count-update_where :
      (q p : A → Bool) (f : A → A) (xs : List A)
      → ((x : A) → q (f x) ≡ q x)
      → count q (update_where p f xs) ≡ count q xs
  count-update_where q p f [] h = refl
  count-update_where q p f (x ∷ xs) h = ground (arith, h x, count-update_where q p f xs h)

-- d.get(k)
abbrev pub lookup {ℓ} : {V : Type ℓ} → String → List (String × V) → Option V
lookup k [] = none
lookup k ((j, v) ∷ m) = let rest = lookup k m in if str_eq j k then some v else rest

-- n in s, for numbers and for texts
abbrev pub elem : ℕ → List ℕ → Bool
elem n [] = false
elem n (x ∷ xs) = let rest = elem n xs in if x == n then true else rest

abbrev pub str_elem : String → List String → Bool
str_elem s [] = false
str_elem s (x ∷ xs) = let rest = str_elem s xs in if str_eq x s then true else rest
