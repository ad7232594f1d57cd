-- ===== src/Api/Pages.antt =====
-- The pages of `_stream_history_ndjson` in backend/app/api/alerts.py, put together.
use k8s_alert_manager.Prelude.{
  ℕ, zero, suc, ◌+◌, ◌-◌, ◌≤◌, ◌<◌, ◌≡◌, refl, sym, ap, subst, ◌∙◌, Bool, true, false, ◌&&◌, Option,
  none, some, List, [], ◌∷◌, ◌++◌, append-nil, append_assoc, filter, length, length-take_le, take,
  ltb, All, Bool-cases, inl, inr, arith,
}
use k8s_alert_manager.Models.Alert.{AlertEvent}
use k8s_alert_manager.Api.History.{Condition, holds, newer, newest_first, drop}
use k8s_alert_manager.Api.Export.{
  Cursor, cursor_of, behind, page_conditions, last_of, page_limit, send_page, stream_pages,
}
use k8s_alert_manager.Api.Order.{
  DistinctIds, Descends, newer_asym, newest_first-Descends, filter-newest_first, All-filtered,
}

abbrev Events : Type 0
Events = List AlertEvent

pub take_whole : (n : ℕ) (xs : Events) → length xs ≤ n → take n xs ≡ xs
take_whole zero [] h = refl
take_whole (suc n) [] h = refl
take_whole zero (x ∷ xs) h = absurd (ground (arith, h))
take_whole (suc n) (x ∷ xs) h = ap (λ more. x ∷ more) (take_whole n xs (omega (arith, h)))

take-drop : (n : ℕ) (xs : Events) → take n xs ++ drop n xs ≡ xs
take-drop zero xs = refl
take-drop (suc n) [] = refl
take-drop (suc n) (x ∷ xs) = ap (λ more. x ∷ more) (take-drop n xs)

take_none : (n : ℕ) → take {A = AlertEvent} n [] ≡ []
take_none zero = refl
take_none (suc n) = refl

-- A prefix, and then as much of the rest as is still wanted.
take-split : (n m k : ℕ) (xs : Events) → k ≡ n + m → take n xs ++ take m (drop n xs) ≡ take k xs
take-split zero m k xs h = ap (λ j. take j xs) (omega (arith, h))
take-split (suc n) m zero xs h = absurd (ground (arith, h))
take-split (suc n) zero (suc k) [] h = refl
take-split (suc n) (suc m) (suc k) [] h = refl
take-split (suc n) m (suc k) (x ∷ xs) h =
    ap (λ more. x ∷ more) (take-split n m k xs (omega (arith, h)))

-- A page that is shorter than its limit is all there is.
short_page : (n : ℕ) (xs : Events) → length (take n xs) < n → take n xs ≡ xs
short_page zero xs h = absurd (ground (arith, h))
short_page (suc n) [] h = refl
short_page (suc n) (x ∷ xs) h = ap (λ more. x ∷ more) (short_page n xs (omega (arith, h)))

init_of : AlertEvent → Events → Events
init_of e [] = []
init_of e (x ∷ xs) = e ∷ init_of x xs

init-last : (e : AlertEvent) (xs : Events) → e ∷ xs ≡ init_of e xs ++ last_of e xs ∷ []
unfolding init_of
init-last e [] = refl
init-last e (x ∷ xs) = ap (λ more. e ∷ more) (init-last x xs)

holds-snoc :
    (cs : List Condition) (c : Condition) (e : AlertEvent)
    → holds (cs ++ c ∷ []) e ≡ (holds cs e && c e)
holds-snoc [] c e = ground arith
holds-snoc (d ∷ cs) c e = ground (arith, holds-snoc cs c e)

filter-snoc :
    (cs : List Condition) (c : Condition) (es : Events)
    → filter (holds (cs ++ c ∷ [])) es ≡ filter c (filter (holds cs) es)
filter-snoc cs c [] = refl
filter-snoc cs c (e ∷ es) =
    let here = holds-snoc cs c e in ground (arith, here, filter-snoc cs c es)

All-middle :
    (P : AlertEvent → Type 0) (pre : Events) (c : AlertEvent) (rest : Events)
    → All P (pre ++ c ∷ rest)
    → P c
All-middle P [] c rest h = h.0
All-middle P (x ∷ pre) c rest h = All-middle P pre c rest h.1

filter_whole : (p : AlertEvent → Bool) (xs : Events) → All (λ x. p x ≡ true) xs → filter p xs ≡ xs
filter_whole p [] h = refl
filter_whole p (x ∷ xs) h = rw h.0 (ap (λ more. x ∷ more) (filter_whole p xs h.1))

-- What is behind a row of a descending list is what follows it.
filter-suffix :
    (pre : Events) (c : AlertEvent) (rest : Events)
    → Descends (pre ++ c ∷ rest)
    → filter (behind (cursor_of c)) (pre ++ c ∷ rest) ≡ rest
filter-suffix [] c rest h =
    let itself : newer c c ≡ false = ground arith in rw itself (filter_whole (newer c) rest h.0)
filter-suffix (x ∷ pre) c rest h =
    let before = newer_asym x c (All-middle (λ y. newer x y ≡ true) pre c rest h.0) in
    rw before (filter-suffix pre c rest h.1)

DistinctIds-filter :
    (p : AlertEvent → Bool) (es : Events) → DistinctIds es → DistinctIds (filter p es)
DistinctIds-filter p [] d = tt
DistinctIds-filter p (e ∷ es) d = elim (Bool-cases (p e)) [
  | inl on ↦ rw on (All-filtered _ p es d.0, DistinctIds-filter p es d.1)
  | inr off ↦ rw off (DistinctIds-filter p es d.1)
]

module _ (page_size cap : ℕ) (events : Events) (conditions : List Condition)
    (distinct : DistinctIds events) (positive : 0 < page_size) where
  abbrev selected : Events
  selected = newest_first (filter (holds conditions) events)

  abbrev queried : Option Cursor → Events
  queried cursor = newest_first (filter (holds (page_conditions conditions cursor)) events)

  queried-suffix :
      (pre : Events) (c : AlertEvent) (rest : Events)
      → selected ≡ pre ++ c ∷ rest
      → queried (some (cursor_of c)) ≡ rest
  queried-suffix pre c rest h =
      ap newest_first (filter-snoc conditions (behind (cursor_of c)) events)
      ∙ sym (
          filter-newest_first (behind (cursor_of c)) (filter (holds conditions) events)
            (DistinctIds-filter (holds conditions) events distinct))
      ∙ ap (filter (behind (cursor_of c))) h
      ∙ filter-suffix pre c rest (
          subst Descends h (
            newest_first-Descends (filter (holds conditions) events)
              (DistinctIds-filter (holds conditions) events distinct)))

  -- What `fuel` rounds send from a cursor on, whose query gives the rest of the selected rows.
  abbrev Continues : ℕ → Type 0
  Continues fuel =
      (cursor : Option Cursor) (emitted : ℕ) (pre rest : Events)
      → selected ≡ pre ++ rest
      → queried cursor ≡ rest
      → cap - emitted ≤ fuel
      → stream_pages page_size cap events conditions fuel cursor emitted ≡ take (cap - emitted) rest

  -- Behind a full page, the query of its last row gives what follows.
  full_page :
      (fuel emitted l : ℕ) (pre : Events) (r : AlertEvent) (rs : Events)
      → Continues fuel
      → cap - emitted ≤ suc fuel
      → suc l ≤ cap - emitted
      → selected ≡ pre ++ r ∷ rs
      → stream_pages page_size cap events conditions fuel
          (some (cursor_of (last_of r (take l rs))))
          (emitted + suc l)
        ≡ take (cap - (emitted + suc l)) (drop l rs)
  full_page fuel emitted l pre r rs more enough room split =
      let page = take l rs in
      let front = pre ++ init_of r page in
      let rows : r ∷ rs ≡ (init_of r page ++ last_of r page ∷ []) ++ drop l rs =
        ap (λ xs. r ∷ xs) (sym (take-drop l rs)) ∙ ap (λ xs. xs ++ drop l rs) (init-last r page) in
      let all : selected ≡ (front ++ last_of r page ∷ []) ++ drop l rs =
        split
        ∙ ap (λ xs. pre ++ xs) rows
        ∙ sym (append_assoc pre (init_of r page ++ last_of r page ∷ []) (drop l rs))
        ∙ ap (λ xs. xs ++ drop l rs)
            (sym (append_assoc pre (init_of r page) (last_of r page ∷ []))) in
      let through : selected ≡ front ++ last_of r page ∷ drop l rs =
        all ∙ append_assoc front (last_of r page ∷ []) (drop l rs) in
      more (some (cursor_of (last_of r page))) (emitted + suc l) (front ++ last_of r page ∷ [])
        (drop l rs) all (queried-suffix front (last_of r page) (drop l rs) through)
        (omega (arith, enough, room))

  by_page :
      (fuel emitted : ℕ) (pre : Events)
      → Continues fuel
      → cap - emitted ≤ suc fuel
      → ltb emitted cap ≡ true
      → (limit : ℕ) → page_limit page_size cap events conditions emitted ≡ limit
      → (rest : Events) → selected ≡ pre ++ rest
      → send_page page_size cap events conditions
          (λ next. stream_pages page_size cap events conditions fuel (some next))
          emitted
          (take limit rest)
        ≡ take (cap - emitted) rest
  by_page fuel emitted pre more enough going zero same rest split =
      absurd (ground (arith, going, same, positive))
  by_page fuel emitted pre more enough going (suc l) same [] split = sym (take_none (cap - emitted))
  by_page fuel emitted pre more enough going (suc l) same (r ∷ rs) split =
      let room : suc l ≤ cap - emitted = omega (arith, same) in
      elim (Bool-cases (ltb (suc (length (take l rs))) (suc l))) [
        | inl short ↦
            let all = short_page l rs (ground (arith, short)) in
            let few : length (r ∷ rs) ≤ cap - emitted =
              ground (arith, ap length all, short, room) in
            rw (same, short, append-nil, all, take_whole (cap - emitted) (r ∷ rs) few) refl
        | inr full ↦
            let size : length (take l rs) ≡ l = ground (arith, full, length-take_le l rs) in
            rw (same, full, size, full_page fuel emitted l pre r rs more enough room split)
              (take-split (suc l) (cap - (emitted + suc l)) (cap - emitted) (r ∷ rs)
                (omega (arith, room)))
      ]

  pages_from : (fuel : ℕ) → Continues fuel
  unfolding stream_pages
  pages_from zero cursor emitted pre rest split here enough =
      let nothing : cap - emitted ≡ 0 = omega (arith, enough) in rw nothing refl
  pages_from (suc fuel) cursor emitted pre rest split here enough =
      elim (Bool-cases (ltb emitted cap)) [
        | inl going ↦
            rw (going, here)
              (by_page fuel emitted pre (pages_from fuel) enough going
                (page_limit page_size cap events conditions emitted) refl rest split)
        | inr over ↦
            let nothing : cap - emitted ≡ 0 = ground (arith, over) in rw (over, nothing) refl
      ]

  -- For any page size that is not zero and any cap, the pages put together are the selected rows in
  -- the order of the history, the first `cap` of them, each once; if the events have distinct ids.
  pub stream_pages-selects :
      stream_pages page_size cap events conditions cap none 0 ≡ take cap selected
  stream_pages-selects =
      pages_from cap none 0 [] selected refl refl (omega arith)
      ∙ ap (λ n. take n selected) (omega arith)
