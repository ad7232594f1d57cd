-- ===== src/Settings.antt =====
-- backend/app/services/settings.py: the app-wide key/value settings.
use k8s_alert_manager.Prelude.{
  ℕ, ◌≤◌, String, Option, none, some, [], ◌∷◌, ◌++◌, map_option, find, any, update_where, leb,
  str_eq, arith, if◌then◌else◌,
}
use k8s_alert_manager.Runtime.{Runtime}
use k8s_alert_manager.Models.Db.{Db}

unfoldable pub get_setting : Db → String → Option String
get_setting db key = map_option (λ s. s.value) (find (λ s. str_eq s.key key) db.settings)

abbrev pub at_least_one : ℕ → Option ℕ → ℕ
at_least_one default none = default
at_least_one default (some value) = if leb 1 value then value else default

abbrev pub int_or : Runtime → ℕ → Option String → ℕ
int_or rt default none = default
int_or rt default (some raw) = at_least_one default (rt.int raw)

-- The default stands in for a missing text, for one that is no number and for one below 1.
unfoldable pub get_int_setting : Runtime → Db → String → ℕ → ℕ
unfolding get_setting
get_int_setting rt db key default = int_or rt default (get_setting db key)

unfoldable pub set_setting : String → String → Db → Db
set_setting key value db =
    if any (λ s. str_eq s.key key) db.settings
    then record db {
      settings = update_where (λ s. str_eq s.key key) (λ s. record s { value = value }) db.settings;
    }
    else record db { settings = db.settings ++ record { key = key; value = value } ∷ [] }

pub get_int_setting-positive :
    (rt : Runtime) (db : Db) (key : String) (default : ℕ)
    → 1 ≤ default
    → 1 ≤ get_int_setting rt db key default
unfolding get_int_setting
get_int_setting-positive rt db key default h = by_text (get_setting db key)
  where
    by_number : (o : Option ℕ) → 1 ≤ at_least_one default o
    by_number none = h
    by_number (some n) = ground (arith, h)

    by_text : (o : Option String) → 1 ≤ int_or rt default o
    by_text none = h
    by_text (some raw) = by_number (rt.int raw)
