-- ===== src/Exec/Keeps.antt =====
-- Invariants and transition relations of code that may raise.
use k8s_alert_manager.Prelude.{◌≡◌, refl, Bool, true, false, if◌then◌else◌}
use k8s_alert_manager.Models.Db.{Db}
use k8s_alert_manager.Exec.{Error, Result, ok, err, Exec, pure, raise, continue, ◌>>=◌}

-- `m` leads from each state to a state that `R` relates to it, whether it returns or raises.
pub record Steps {A : Type 0} (R : Db → Db → Type 0) (m : Exec A) : Type 0 where
  pub at : (db : Db) → R db (m db).1

pub record IsPreorder (R : Db → Db → Type 0) : Type 0 where
  pub same : (db : Db) → R db db
  pub then_ : (a b c : Db) → R a b → R b c → R a c

module _ {R : Db → Db → Type 0} (order : IsPreorder R) where
  pub Steps-pure : {A : Type 0} (a : A) → Steps R (pure a)
  Steps-pure a = record { at = λ db. order.same db }

  pub Steps-raise : {A : Type 0} (e : Error) → Steps R (raise {A = A} e)
  Steps-raise e = record { at = λ db. order.same db }

  pub Steps-bind :
      {A B : Type 0} (m : Exec A) (f : A → Exec B)
      → Steps R m
      → ((a : A) → Steps R (f a))
      → Steps R (m >>= f)
  Steps-bind {A} {B} m f hm hf = record { at = λ db. go (m db).0 db (m db).1 (hm.at db) }
    where
      go : (r : Result A) (db db' : Db) → R db db' → R db (continue r f db').1
      go (ok a) db db' h = order.then_ db db' _ h ((hf a).at db')
      go (err e) db db' h = h

  pub Steps-if :
      {A : Type 0} (b : Bool) (m n : Exec A)
      → (b ≡ true → Steps R m)
      → (b ≡ false → Steps R n)
      → Steps R (if b then m else n)
  Steps-if true m n hm hn = hm refl
  Steps-if false m n hm hn = hn refl
