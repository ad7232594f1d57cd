-- ===== src/Exec/Returns.antt =====
-- What a call that returns has returned, whatever the state it started in.
use k8s_alert_manager.Prelude.{◌≡◌, refl, ap, subst, Bool, true, false, if◌then◌else◌, arith}
use k8s_alert_manager.Models.Db.{Db}
use k8s_alert_manager.Exec.{Result, ok, err, Error, Exec, pure, raise, continue, ◌>>=◌}

pub record Returns {A : Type 0} (P : A → Type 0) (m : Exec A) : Type 0 where
  pub at : (db : Db) (a : A) → (m db).0 ≡ ok a → P a

value : {A : Type 0} → A → Result A → A
value d (ok a) = a
value d (err e) = d

pub ok-injective : {A : Type 0} (a b : A) → ok a ≡ ok b → a ≡ b
unfolding value
ok-injective a b h = ap (value a) h

pub Returns-pure : {A : Type 0} (P : A → Type 0) (a : A) → P a → Returns P (pure a)
Returns-pure P a h = record { at = λ db b e. subst P (ok-injective a b e) h }

pub Returns-raise : {A : Type 0} (P : A → Type 0) (e : Error) → Returns P (raise {A = A} e)
Returns-raise P e = record { at = λ db a h. absurd (ground arith) }

-- Only the last call decides.
pub Returns-bind :
    {A B : Type 0} (P : B → Type 0) (m : Exec A) (f : A → Exec B)
    → ((a : A) → Returns P (f a))
    → Returns P (m >>= f)
Returns-bind {A} {B} P m f h = record { at = λ db b e. go (m db).0 (m db).1 b e }
  where
    go : (r : Result A) (db : Db) (b : B) → (continue r f db).0 ≡ ok b → P b
    go (ok a) db b e = (h a).at db b e
    go (err x) db b e = absurd (ground arith)

pub Returns-then :
    {A B : Type 0} (Q : A → Type 0) (P : B → Type 0) (m : Exec A) (f : A → Exec B)
    → Returns Q m
    → ((a : A) → Q a → Returns P (f a))
    → Returns P (m >>= f)
Returns-then {A} {B} Q P m f hm h = record { at = λ db b e. go (m db).0 (m db).1 b (hm.at db) e }
  where
    go :
        (r : Result A) (db : Db) (b : B)
        → ((a : A) → r ≡ ok a → Q a)
        → (continue r f db).0 ≡ ok b
        → P b
    go (ok a) db b q e = (h a (q a refl)).at db b e
    go (err x) db b q e = absurd (ground arith)

pub Returns-if :
    {A : Type 0} (P : A → Type 0) (b : Bool) (m n : Exec A)
    → Returns P m
    → Returns P n
    → Returns P (if b then m else n)
Returns-if P true m n hm hn = hm
Returns-if P false m n hm hn = hn

-- A call that depends on the state.
pub Returns-state :
    {A : Type 0} (P : A → Type 0) (m : Db → Exec A)
    → ((db : Db) → Returns P (m db))
    → Returns P (λ db. m db db)
Returns-state P m h = record { at = λ db a e. (h db).at db a e }

pub Returns-weaken :
    {A : Type 0} (P Q : A → Type 0) (m : Exec A) → ((a : A) → P a → Q a) → Returns P m → Returns Q m
Returns-weaken P Q m f h = record { at = λ db a e. f a (h.at db a e) }

-- A composition that returned: the first call returned, and the rest ran behind it.
pub bind_ok :
    {A B : Type 0} (m : Exec A) (f : A → Exec B) (db : Db) (b : B)
    → ((m >>= f) db).0 ≡ ok b
    → (a : A) × ((m db).0 ≡ ok a) × ((m >>= f) db ≡ f a (m db).1)
bind_ok {A} {B} m f db b e = go (m db).0 (m db).1 e
  where
    go :
        (r : Result A) (db' : Db)
        → (continue r f db').0 ≡ ok b
        → (a : A) × (r ≡ ok a) × (continue r f db' ≡ f a db')
    go (ok a) db' h = (a, refl, refl)
    go (err x) db' h = absurd (ground arith)

-- Whether a call returns rather than raises.
abbrev pub returned : {A : Type 0} → Result A → Bool
returned (ok a) = true
returned (err e) = false

pub ok-of_returned : {A : Type 0} (r : Result A) → returned r ≡ true → (a : A) × (r ≡ ok a)
ok-of_returned (ok a) h = (a, refl)
ok-of_returned (err e) h = absurd (ground arith)
