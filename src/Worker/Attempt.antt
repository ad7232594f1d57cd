-- ===== src/Worker/Attempt.antt =====
-- The `try` block of `deliver` in backend/app/worker/outbox.py: one attempt to send a row. What the
-- channel classes, Fernet and pydantic answer is a parameter that may differ from call to call.
use Prim.Native.String.{◌++◌ as ◌<>◌}
use k8s_alert_manager.Prelude.{
  ℕ, zero, suc, String, Bool, true, false, Option, none, some, List, [], ◌∷◌, length, if◌then◌else◌,
}
use k8s_alert_manager.Text.{str}
use k8s_alert_manager.Models.Routing.{RoutingRule}
use k8s_alert_manager.Models.Channel.{Channel}
use k8s_alert_manager.Models.Outbox.{
  Trigger, report, AlertNotification, RenderedMessage, Payload, Payloads, nil, cons, notification,
  NotificationOutbox,
}
use k8s_alert_manager.Models.Db.{Db, get_rule}
use k8s_alert_manager.Templating.{
  TemplateStrings, Engine, resolve_template, render, plain, fallback, failed,
}

-- What the stored configuration turns out to be: usable, broken for good (JSONDecodeError,
-- ValidationError), or unreadable for now (any other exception).
pub data Config : Type 0 where
  usable : Config
  invalid failing : String → Config

-- What is handed to the channel instance.
pub data Message : Type 0 where
  send : AlertNotification → RenderedMessage → Message
  send_batch : List AlertNotification → List RenderedMessage → Message
  send_message : RenderedMessage → Message

-- The registry and the channel classes. `construct` and `deliver` answer with the text of the
-- exception that they raise, if they raise; a timeout is one of these.
pub record Channels : Type 0 where
  pub known : (type : String) → Bool
  pub config : (type config_encrypted : String) → Config
  pub construct : (type config_encrypted : String) → Option String
  pub default_templates : (type : String) → Option TemplateStrings
  pub deliver : (type config_encrypted : String) → Message → Option String
  pub engine : Engine

pub data Attempt : Type 0 where
  sent : (fallback_note : Option String) → Attempt
  failure : (error : String) → Attempt

abbrev pub get_row_rule : Db → NotificationOutbox → Option RoutingRule
get_row_rule db r = elim r.routing_rule_id [ none ↦ none | some id ↦ get_rule db id ]

abbrev pub rule_template : Option RoutingRule → Option ℕ
rule_template none = none
rule_template (some rule) = rule.template_id

is_report : Trigger → Bool
is_report report = true
is_report _ = false

-- AlertNotification(**item) for each item; an item of another shape raises.
notifications_of : Payloads → Option (List AlertNotification)
notifications_of nil = some []
notifications_of (cons (notification n) rest) =
    let ns = notifications_of rest in elim ns [ none ↦ none | some more ↦ some (n ∷ more) ]
notifications_of (cons p rest) = none

-- The loop over the digest: the messages, and how many fell back; or the exception's name.
pub data Rendered : Type 0 where
  messages : List RenderedMessage → (fell_back : ℕ) → Rendered
  broken : String → Rendered

module _ (ch : Channels) where
  render_all : TemplateStrings → List AlertNotification → Rendered
  unfolding render
  render_all strings [] = messages [] 0
  render_all strings (n ∷ ns) =
      let rest = render_all strings ns in
      elim (render ch.engine strings n) [
        | failed error ↦ broken error
        | plain m ↦ elim rest [ messages ms k ↦ messages (m ∷ ms) k | broken error ↦ broken error ]
        | fallback m e ↦ elim rest [
          | messages ms k ↦ messages (m ∷ ms) (suc k)
          | broken error ↦ broken error
        ]
      ]

  abbrev hand_over : Channel → Message → Option String → Attempt
  hand_over channel message note = elim (ch.deliver channel.type channel.config_encrypted message) [
    | none ↦ sent note
    | some error ↦ failure error
  ]

  abbrev template_strings : Db → Option ℕ → Channel → TemplateStrings
  template_strings db rule_template_id channel =
      elim (resolve_template db rule_template_id channel.template_id) [
        | some strings ↦ strings
        | none ↦ elim (ch.default_templates channel.type) [
          | some strings ↦ strings
          | none ↦ ch.engine.app_default_templates
        ]
      ]

  attempt_report : Channel → Payload → Attempt
  attempt_report channel (Payload.report message schedule_id) =
      hand_over channel (send_message message) none
  attempt_report channel payload = failure "KeyError: 'rendered'"

  abbrev digest_note : ℕ → ℕ → Option String
  digest_note zero total = none
  digest_note (suc k) total = some (
      "template render failed for "
      <> str (suc k)
      <> "/"
      <> str total
      <> " digest item(s); fallback used")

  send_digest : Channel → List AlertNotification → Rendered → Attempt
  unfolding str
  send_digest channel ns (broken error) = failure error
  send_digest channel ns (messages ms fell_back) =
      hand_over channel (send_batch ns ms) (digest_note fell_back (length ns))

  attempt_digest : Db → Channel → Payload → Attempt
  unfolding resolve_template notifications_of render_all send_digest
  attempt_digest db channel (Payload.digest items n since) = elim (notifications_of items) [
    | none ↦ failure "ValidationError"
    | some ns ↦ send_digest channel ns (render_all (template_strings db none channel) ns)
  ]
  attempt_digest db channel payload = failure "KeyError: 'notifications'"

  attempt_alert : Db → Channel → Option RoutingRule → Payload → Attempt
  unfolding resolve_template render
  attempt_alert db channel rule (notification n) =
      elim (render ch.engine (template_strings db (rule_template rule) channel) n) [
        | plain m ↦ hand_over channel (send n m) none
        | fallback m error ↦
            hand_over channel (send n m)
              (some ("template render failed: " <> error <> "; fallback used"))
        | failed error ↦ failure error
      ]
  attempt_alert db channel rule payload = failure "ValidationError"

  unfoldable pub attempt : Db → Channel → NotificationOutbox → Attempt
  unfolding is_report attempt_report attempt_digest attempt_alert
  attempt db channel r = elim (ch.construct channel.type channel.config_encrypted) [
    | some error ↦ failure error
    | none ↦
        if is_report r.trigger
        then attempt_report channel r.payload
        else if r.is_digest
        then attempt_digest db channel r.payload
        else attempt_alert db channel (get_row_rule db r) r.payload
  ]
