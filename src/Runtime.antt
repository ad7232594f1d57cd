-- ===== src/Runtime.antt =====
-- What the services take from outside the repository: Python's `re`, the Unicode tables behind
-- `str.lower` and `str.strip`, urllib's `quote`, `datetime`'s ISO texts, and the deployment's settings.
use k8s_alert_manager.Prelude.{ℕ, String, Bool, Option, none, some, List, if◌then◌else◌}

-- A compiled pattern is represented by its source text.
pub record Runtime : Type 0 where
  pub compiles : String → Bool
  pub search : (pattern text : String) → Bool
  pub fullmatch : (pattern text : String) → Bool
  -- int(), with `none` for ValueError and for a negative number
  pub int : String → Option ℕ
  -- re.sub and re.split
  pub sub : (pattern replacement text : String) → String
  pub split : (pattern text : String) → List String
  pub lower : String → String
  pub strip : String → String
  pub quote : String → String
  pub app_base_url : String
  pub ldap_admin_groups : String
  -- datetime.fromisoformat and .astimezone(UTC), with `none` for ValueError; and .isoformat()
  pub fromisoformat : String → Option ℕ
  pub isoformat : ℕ → String

-- re.compile, with `none` for re.error
abbrev pub re_compile : Runtime → String → Option String
re_compile rt pattern = if rt.compiles pattern then some pattern else none
