-- ===== src/Templating.antt =====
-- `resolve_template` and `render` of backend/app/services/templating.py. The sandboxed Jinja engine
-- behind `_render_slots` is a parameter.
use k8s_alert_manager.Prelude.{ℕ, String, Option, none, some}
use k8s_alert_manager.Models.Outbox.{AlertNotification, RenderedMessage}
use k8s_alert_manager.Models.Template.{MessageTemplate}
use k8s_alert_manager.Models.Db.{Db, get_template}

pub record TemplateStrings : Type 0 where
  pub title : String
  pub body : String
  pub body_html : Option String

-- A rendering, or the name of the exception that it raised.
pub data Rendering : Type 0 where
  rendered : RenderedMessage → Rendering
  raised : String → Rendering

pub record Engine : Type 0 where
  pub render_slots : TemplateStrings → AlertNotification → Rendering
  pub app_default_templates : TemplateStrings

abbrev pub strings_of : MessageTemplate → TemplateStrings
strings_of t = record {
  title = t.title_template;
  body = t.body_template;
  body_html = t.body_html_template;
}

abbrev template_at : Db → Option ℕ → Option MessageTemplate
template_at db none = none
template_at db (some id) = get_template db id

-- The rule's template, then the channel's, then none.
unfoldable pub resolve_template : Db → Option ℕ → Option ℕ → Option TemplateStrings
resolve_template db rule_template_id channel_template_id = elim (template_at db rule_template_id) [
  | some t ↦ some (strings_of t)
  | none ↦ elim (template_at db channel_template_id) [ some t ↦ some (strings_of t) | none ↦ none ]
]

-- `error` is the name of the exception for which the default templates were used.
pub data Outcome : Type 0 where
  plain : RenderedMessage → Outcome
  fallback : RenderedMessage → (error : String) → Outcome
  failed : (error : String) → Outcome

unfoldable pub render : Engine → TemplateStrings → AlertNotification → Outcome
render engine strings n = elim (engine.render_slots strings n) [
  | rendered message ↦ plain message
  | raised error ↦ elim (engine.render_slots engine.app_default_templates n) [
    | rendered message ↦ fallback message error
    | raised again ↦ failed again
  ]
]
