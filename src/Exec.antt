-- ===== src/Exec.antt =====
-- Code that works on a session of the database and may raise. What was staged before a raise is
-- still in the session, so the state comes back beside the error too.
pub mod Keeps
pub mod Returns
pub mod Reads
use k8s_alert_manager.Prelude.{ℕ, ◌≡◌, refl, Bool}
use k8s_alert_manager.Models.Db.{Db}

-- MultipleResultsFound, an IntegrityError that is not caught, the OverflowError of a time outside of
-- `datetime`, a failed assertion, the scheduler's private `_Skip`, any failure of code outside the repository, and an HTTPException by its status.
pub data Error : Type 0 where
  multiple_results integrity overflow assertion skip failure : Error
  http : (status_code : ℕ) → Error

pub data Result {ℓ} (A : Type ℓ) : Type ℓ where
  ok : A → Result A
  err : Error → Result A

abbrev pub Exec {ℓ} : Type ℓ → Type ℓ
Exec A = Db → Result A × Db

abbrev pub pure {ℓ} : {A : Type ℓ} → A → Exec A
pure a db = (ok a, db)

abbrev pub raise {ℓ} : {A : Type ℓ} → Error → Exec A
raise e db = (err e, db)

-- Replaces the state.
abbrev pub modify : (Db → Db) → Exec (Unit {0})
modify f db = (ok tt, f db)

abbrev pub continue {ℓ κ} : {A : Type ℓ} {B : Type κ} → Result A → (A → Exec B) → Exec B
continue (ok a) f db = f a db
continue (err e) f db = (err e, db)

infixl 5 ◌>>=◌ ◌>>◌
abbrev pub ◌>>=◌ {ℓ κ} : {A : Type ℓ} {B : Type κ} → Exec A → (A → Exec B) → Exec B
◌>>=◌ m f db = let (r, db') = m db in continue r f db'

abbrev pub ◌>>◌ {ℓ} : {B : Type ℓ} → Exec (Unit {0}) → Exec B → Exec B
m >> k = m >>= λ _. k
