-- ===== src/Prelude/Members.antt =====
-- Predicates on all elements and on some element of a list, by recursion.
use mathlib.Core.Path.{◌≡◌, refl, ap, subst}
use mathlib.Core.Logic.{◌⊎◌, inl, inr}
use mathlib.Core.Bool.{Bool, true, false}
use mathlib.Core.Option.{Option, map as map_option, none, some, some-injective}
use mathlib.Core.List.{List, [], ◌∷◌, ◌++◌}
use native.Mathlib.Omega.{arith}
use k8s_alert_manager.Prelude.Tests.{if◌then◌else◌, Bool-cases}
use k8s_alert_manager.Prelude.Lists.{filter, filter_map, any, find}
use k8s_alert_manager.Prelude.Tables.{update_where}

module _ {ℓ} {A : Type ℓ} where
  -- Each element satisfies the predicate.
  abbrev pub All {κ} : (A → Type κ) → List A → Type κ
  All P [] = Unit
  All P (x ∷ xs) = P x × All P xs

  pub All-append {κ} : (P : A → Type κ) (xs ys : List A) → All P xs → All P ys → All P (xs ++ ys)
  All-append P [] ys hx hy = hy
  All-append P (x ∷ xs) ys hx hy = (hx.0, All-append P xs ys hx.1 hy)

  pub All-map {κ μ} :
      (P : A → Type κ) (Q : A → Type μ) (xs : List A) → ((x : A) → P x → Q x) → All P xs → All Q xs
  All-map P Q [] f h = tt
  All-map P Q (x ∷ xs) f h = (f x h.0, All-map P Q xs f h.1)

  -- After an update each row is an old one that failed the test, or an updated one that passed.
  pub All-update_where {κ μ} :
      (P : A → Type κ) (Q : A → Type μ) (p : A → Bool) (f : A → A) (xs : List A)
      → ((x : A) → P x → Q (if p x then f x else x))
      → All P xs
      → All Q (update_where p f xs)
  All-update_where P Q p f [] k h = tt
  All-update_where P Q p f (x ∷ xs) k h = (k x h.0, All-update_where P Q p f xs k h.1)

  -- The same, with the two kinds of rows apart.
  pub All-updated {κ} :
      (Q : A → Type κ) (p : A → Bool) (f : A → A) (xs : List A)
      → ((x : A) → p x ≡ true → Q (f x))
      → ((x : A) → p x ≡ false → Q x)
      → All Q (update_where p f xs)
  All-updated Q p f [] h k = tt
  All-updated Q p f (x ∷ xs) h k = (
    elim (Bool-cases (p x)) [ inl e ↦ rw e (h x e) | inr e ↦ rw e (k x e) ],
    All-updated Q p f xs h k,
  )

  pub All-filter : (p : A → Bool) (xs : List A) → All (λ x. p x ≡ true) (filter p xs)
  All-filter p [] = tt
  All-filter p (x ∷ xs) = elim (Bool-cases (p x)) [
    | inl e ↦ rw e (e, All-filter p xs)
    | inr e ↦ rw e (All-filter p xs)
  ]

  -- What passes a filter passes the test, and keeps what holds of each element.
  pub All-filtered {κ} :
      (P : A → Type κ) (p : A → Bool) (xs : List A)
      → All P xs
      → All (λ x. P x × (p x ≡ true)) (filter p xs)
  All-filtered P p [] h = tt
  All-filtered P p (x ∷ xs) h = elim (Bool-cases (p x)) [
    | inl e ↦ rw e ((h.0, e), All-filtered P p xs h.1)
    | inr e ↦ rw e (All-filtered P p xs h.1)
  ]

  -- What holds of each element holds of the one that is found.
  pub find-of_all {κ} :
      (P : A → Type κ) (p : A → Bool) (xs : List A) (x : A) → All P xs → find p xs ≡ some x → P x
  find-of_all P p [] x h e = absurd (ground arith)
  find-of_all P p (y ∷ ys) x h e = elim (Bool-cases (p y)) [
    | inl here ↦ subst P (some-injective y x (rw here at e)) h.0
    | inr there ↦ find-of_all P p ys x h.1 (rw there at e)
  ]

  -- Some element satisfies the predicate.
  abbrev pub Any : (A → Type 0) → List A → Type 0
  Any P [] = ⊥
  Any P (x ∷ xs) = P x ⊎ Any P xs

  pub any→Any : (p : A → Bool) (xs : List A) → any p xs ≡ true → Any (λ x. p x ≡ true) xs
  any→Any p [] h = cc
  any→Any p (x ∷ xs) h = elim (Bool-cases (p x)) [
    | inl e ↦ inl e
    | inr e ↦ inr (any→Any p xs (ground arith))
  ]

  pub Any→any : (p : A → Bool) (xs : List A) → Any (λ x. p x ≡ true) xs → any p xs ≡ true
  Any→any p [] h = absurd h
  Any→any p (x ∷ xs) (inl e) = ground arith
  Any→any p (x ∷ xs) (inr h) = ground (arith, Any→any p xs h)

  pub find-none→All : (p : A → Bool) (xs : List A) → find p xs ≡ none → All (λ x. p x ≡ false) xs
  find-none→All p [] h = tt
  find-none→All p (x ∷ xs) h = elim (Bool-cases (p x)) [
    | inl e ↦ ground arith
    | inr e ↦ (e, find-none→All p xs (ground arith))
  ]

  pub All→find-none : (p : A → Bool) (xs : List A) → All (λ x. p x ≡ false) xs → find p xs ≡ none
  All→find-none p [] h = refl
  All→find-none p (x ∷ xs) h = ground (arith, All→find-none p xs h.1)

-- Each element is in the list.
pub All-Any : {A : Type 0} (xs : List A) → All (λ x. Any (λ y. y ≡ x) xs) xs
All-Any [] = tt
All-Any (x ∷ xs) = (
  inl refl,
  All-map (λ y. Any (λ z. z ≡ y) xs) (λ y. Any (λ z. z ≡ y) (x ∷ xs)) xs (λ y h. inr h)
      (All-Any xs),
)

-- The values that a partial function gives for a list come from its elements.
pub filter_map-Any :
    {A B : Type 0} (f : A → Option B) (xs : List A)
    → All (λ y. Any (λ x. f x ≡ some y) xs) (filter_map f xs)
filter_map-Any f [] = tt
filter_map-Any {A} {B} f (x ∷ xs) = by_value (f x) refl (
    All-map (λ y. Any (λ z. f z ≡ some y) xs) (λ y. Any (λ z. f z ≡ some y) (x ∷ xs))
      (filter_map f xs) (λ y h. inr h) (filter_map-Any f xs))
  where
    by_value :
        (o : Option B)
        → f x ≡ o
        → All (λ y. Any (λ z. f z ≡ some y) (x ∷ xs)) (filter_map f xs)
        → All
            (λ y. Any (λ z. f z ≡ some y) (x ∷ xs))
            (elim o [ none ↦ filter_map f xs | some y ↦ y ∷ filter_map f xs ])
    by_value none e later = later
    by_value (some y) e later = (inl e, later)

-- A row that is found is found again behind an update that keeps what it is found by.
pub find-update_where :
    {A : Type 0} (p : A → Bool) (f : A → A) (xs : List A) (x : A)
    → ((y : A) → p (f y) ≡ p y)
    → find p xs ≡ some x
    → find p (update_where p f xs) ≡ some (f x)
find-update_where p f [] x k h = absurd (ground arith)
find-update_where p f (y ∷ ys) x k h = elim (Bool-cases (p y)) [
  | inl here ↦ rw (here, k y, here) (ap (map_option f) (rw here at h))
  | inr there ↦ rw (there, there) (find-update_where p f ys x k (rw there at h))
]
