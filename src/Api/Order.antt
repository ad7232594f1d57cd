-- ===== src/Api/Order.antt =====
-- The order of the history of alerts in backend/app/api/alerts.py: by last receipt, then by id.
use k8s_alert_manager.Prelude.{
  ◌≡◌, ◌≢◌, refl, sym, ap, ◌∙◌, Bool, true, false, List, [], ◌∷◌, filter, All, All-map, Bool-cases,
  inl, inr, if◌then◌else◌, arith,
}
use k8s_alert_manager.Models.Alert.{AlertEvent}
use k8s_alert_manager.Api.History.{newer, insert_newest, newest_first}

-- Primary keys.
abbrev pub DistinctIds : List AlertEvent → Type 0
DistinctIds [] = Unit
DistinctIds (e ∷ es) = All (λ x. x.id ≢ e.id) es × DistinctIds es

abbrev pub Descends : List AlertEvent → Type 0
Descends [] = Unit
Descends (e ∷ es) = All (λ x. newer e x ≡ true) es × Descends es

pub newer_trans : (a b c : AlertEvent) → newer a b ≡ true → newer b c ≡ true → newer a c ≡ true
newer_trans a b c h k = ground (arith, h, k)

pub newer_asym : (a b : AlertEvent) → newer a b ≡ true → newer b a ≡ false
newer_asym a b h = ground (arith, h)

newer_total : (a b : AlertEvent) → b.id ≢ a.id → newer a b ≡ false → newer b a ≡ true
newer_total a b d h = ground (arith, d, h)

All-insert :
    (P : AlertEvent → Type 0) (e : AlertEvent) (xs : List AlertEvent)
    → P e
    → All P xs
    → All P (insert_newest e xs)
All-insert P e [] p h = (p, tt)
All-insert P e (x ∷ xs) p h = elim (Bool-cases (newer e x)) [
  | inl on ↦ rw on (p, h)
  | inr off ↦ rw off (h.0, All-insert P e xs p h.1)
]

pub All-newest_first :
    (P : AlertEvent → Type 0) (es : List AlertEvent) → All P es → All P (newest_first es)
All-newest_first P [] h = tt
All-newest_first P (e ∷ es) h = All-insert P e (newest_first es) h.0 (All-newest_first P es h.1)

insert-Descends :
    (e : AlertEvent) (xs : List AlertEvent)
    → All (λ x. x.id ≢ e.id) xs
    → Descends xs
    → Descends (insert_newest e xs)
insert-Descends e [] d h = (tt, tt)
insert-Descends e (x ∷ xs) d h = elim (Bool-cases (newer e x)) [
  | inl on ↦ rw on ((on, All-map _ _ xs (λ y k. newer_trans e x y on k) h.0), h)
  | inr off ↦ rw off (
    All-insert (λ y. newer x y ≡ true) e xs (newer_total e x d.0 off) h.0,
    insert-Descends e xs d.1 h.1,
  )
]

pub newest_first-Descends : (es : List AlertEvent) → DistinctIds es → Descends (newest_first es)
newest_first-Descends [] d = tt
newest_first-Descends (e ∷ es) d =
    insert-Descends e (newest_first es) (All-newest_first (λ x. x.id ≢ e.id) es d.0)
      (newest_first-Descends es d.1)

-- Taking rows out of a descending list commutes with an insertion.
insert-before :
    (e : AlertEvent) (xs : List AlertEvent)
    → All (λ x. newer e x ≡ true) xs
    → insert_newest e xs ≡ e ∷ xs
insert-before e [] h = refl
insert-before e (x ∷ xs) h = rw h.0 refl

pub All-filtered :
    (P : AlertEvent → Type 0) (p : AlertEvent → Bool) (xs : List AlertEvent)
    → All P xs
    → All P (filter p xs)
All-filtered P p [] h = tt
All-filtered P p (x ∷ xs) h = elim (Bool-cases (p x)) [
  | inl on ↦ rw on (h.0, All-filtered P p xs h.1)
  | inr off ↦ rw off (All-filtered P p xs h.1)
]

filter-insert :
    (p : AlertEvent → Bool) (e : AlertEvent) (xs : List AlertEvent)
    → Descends xs
    → filter p (insert_newest e xs) ≡ (if p e then insert_newest e (filter p xs) else filter p xs)
filter-insert p e [] h = refl
filter-insert p e (x ∷ xs) h = elim (Bool-cases (newer e x)) [
  | inl on ↦
      let later : All (λ y. newer e y ≡ true) (filter p (x ∷ xs)) =
        All-filtered _ p (x ∷ xs) (on, All-map _ _ xs (λ y k. newer_trans e x y on k) h.0) in
      rw on (elim (Bool-cases (p e)) [
        | inl keep ↦ rw keep (sym (insert-before e (filter p (x ∷ xs)) later))
        | inr leave ↦ rw leave refl
      ])
  | inr off ↦
      let rest = filter-insert p e xs h.1 in
      rw off (elim (Bool-cases (p x)) [
        | inl stays ↦ elim (Bool-cases (p e)) [
          | inl keep ↦ rw (stays, keep, off) (ap (λ more. x ∷ more) (rw keep at rest))
          | inr leave ↦ rw (stays, leave) (ap (λ more. x ∷ more) (rw leave at rest))
        ]
        | inr goes ↦ rw goes rest
      ])
]

pub filter-newest_first :
    (p : AlertEvent → Bool) (es : List AlertEvent)
    → DistinctIds es
    → filter p (newest_first es) ≡ newest_first (filter p es)
filter-newest_first p [] d = refl
filter-newest_first p (e ∷ es) d =
    filter-insert p e (newest_first es) (newest_first-Descends es d.1)
    ∙ rw (filter-newest_first p es d.1)
        (elim (Bool-cases (p e)) [ inl keep ↦ rw keep refl | inr leave ↦ rw leave refl ])
