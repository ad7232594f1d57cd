-- ===== src/Exec/Reads.antt =====
-- Code that only reads the database: the guards in front of a change.
use k8s_alert_manager.Prelude.{◌≡◌, refl, ap, ◌∙◌, arith}
use k8s_alert_manager.Models.Db.{Db}
use k8s_alert_manager.Exec.{Result, ok, err, Exec, continue, ◌>>=◌}
use k8s_alert_manager.Exec.Keeps.{Steps, IsPreorder}

abbrev pub Same : Db → Db → Type 0
Same db db' = db' ≡ db

pub Same-preorder : IsPreorder Same
Same-preorder = record { same = λ db. refl; then_ = λ a b c f g. g ∙ f }

-- When a guard and what follows it return, the guard has returned and the rest ran where it started.
pub Reads-bind :
    {A B : Type 0} (m : Exec A) (f : A → Exec B)
    → Steps Same m
    → (db : Db) (b : B) → ((m >>= f) db).0 ≡ ok b
    → (a : A) × ((m db).0 ≡ ok a) × ((m >>= f) db ≡ f a db)
Reads-bind {A} {B} m f h db b e = go (m db).0 (m db).1 (h.at db) e
  where
    go :
        (r : Result A) (db' : Db)
        → db' ≡ db
        → (continue r f db').0 ≡ ok b
        → (a : A) × (r ≡ ok a) × (continue r f db' ≡ f a db)
    go (ok a) db' same k = (a, refl, ap (f a) same)
    go (err x) db' same k = absurd (ground arith)
