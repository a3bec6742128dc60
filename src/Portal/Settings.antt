-- ===== src/Portal/Settings.antt =====
-- `resolvePortalConfig` of src/portal/portal.service.ts, on the merchant's stored settings.
use subscription_billing_eng.Prelude.{
  Bool, true, false, String, Option, none, some, List, [], ◌∷◌, ◌&&◌, ◌||◌, not, if◌then◌else◌,
}
use subscription_billing_eng.Entities.{PortalMode}
use subscription_billing_eng.Entities.Json.{Json, Items, Fields, property, has_property}

pub record PortalConfig : Type 0 where
  pub allow_switch_plan : Bool
  pub prorate_on_switch : Bool
  pub schedule_downgrade_at_period_end : Bool
  pub allow_cancellation : Bool
  pub collect_cancellation_reason : Bool
  pub enabled_cancellation_reasons : List String
  pub offer_pause_or_downgrade_before_cancel : Bool
  pub allow_pause : Bool
  pub editable_name : Bool
  pub editable_phone : Bool
  pub editable_payment_method : Bool
  pub show_invoice_history : Bool
  pub show_payment_history : Bool
  pub portal_header : String
  pub redirect_link : String

-- DEFAULT_PORTAL_CONFIG.
abbrev pub default_portal_config : PortalConfig
default_portal_config = record {
  allow_switch_plan = false;
  prorate_on_switch = true;
  schedule_downgrade_at_period_end = false;
  allow_cancellation = true;
  collect_cancellation_reason = false;
  enabled_cancellation_reasons =
      "too_expensive" ∷ "missing_feature" ∷ "found_alternative" ∷ "no_longer_need"
      ∷ "switching_plan" ∷ "other" ∷ [];
  offer_pause_or_downgrade_before_cancel = false;
  allow_pause = true;
  editable_name = true;
  editable_phone = true;
  editable_payment_method = false;
  show_invoice_history = true;
  show_payment_history = true;
  portal_header = "";
  redirect_link = "";
}

-- `typeof value === 'boolean'`, else the default.
abbrev pub as_flag : Option Json → Bool → Bool
as_flag (some (Json.flag b)) other = b
as_flag value other = other

abbrev pub as_text : Option Json → String → String
as_text (some (Json.text t)) other = t
as_text value other = other

-- `filter((v): v is string => typeof v === 'string')`.
texts_of : Items → List String
texts_of Items.nil = []
texts_of (Items.cons (Json.text t) rest) = t ∷ texts_of rest
texts_of (Items.cons v rest) = texts_of rest

as_texts : Option Json → List String → List String
unfolding texts_of
as_texts (some (Json.array items)) other = texts_of items
as_texts value other = other

abbrev pub as_object : Option Json → Option Fields
as_object (some (Json.object o)) = some o
as_object value = none

-- `pickConfig`, over the defaults.
unfoldable pub pick_config : Fields → PortalConfig
unfolding as_texts
pick_config o =
    let d = default_portal_config in
    record {
      allow_switch_plan = as_flag (property "allowSwitchPlan" o) d.allow_switch_plan;
      prorate_on_switch = as_flag (property "prorateOnSwitch" o) d.prorate_on_switch;
      schedule_downgrade_at_period_end =
          as_flag (property "scheduleDowngradeAtPeriodEnd" o) d.schedule_downgrade_at_period_end;
      allow_cancellation = as_flag (property "allowCancellation" o) d.allow_cancellation;
      collect_cancellation_reason =
          as_flag (property "collectCancellationReason" o) d.collect_cancellation_reason;
      enabled_cancellation_reasons =
          as_texts (property "enabledCancellationReasons" o) d.enabled_cancellation_reasons;
      offer_pause_or_downgrade_before_cancel =
          as_flag (property "offerPauseOrDowngradeBeforeCancel" o)
            d.offer_pause_or_downgrade_before_cancel;
      allow_pause = as_flag (property "allowPause" o) d.allow_pause;
      editable_name = as_flag (property "editableName" o) d.editable_name;
      editable_phone = as_flag (property "editablePhone" o) d.editable_phone;
      editable_payment_method =
          as_flag (property "editablePaymentMethod" o) d.editable_payment_method;
      show_invoice_history = as_flag (property "showInvoiceHistory" o) d.show_invoice_history;
      show_payment_history = as_flag (property "showPaymentHistory" o) d.show_payment_history;
      portal_header = as_text (property "portalHeader" o) d.portal_header;
      redirect_link = as_text (property "redirectLink" o) d.redirect_link;
    }

abbrev pub mode_key : PortalMode → String
mode_key PortalMode.test = "test"
mode_key PortalMode.live = "live"

abbrev pub other_mode : PortalMode → PortalMode
other_mode PortalMode.test = PortalMode.live
other_mode PortalMode.live = PortalMode.test

-- The section of the mode, or else of the other mode, or else the settings themselves.
unfoldable pub candidate : Fields → PortalMode → Fields
candidate o mode = elim (as_object (property (mode_key mode) o)) [
  | some section ↦ section
  | none ↦ elim (as_object (property (mode_key (other_mode mode)) o)) [
    | some section ↦ section
    | none ↦ o
  ]
]

-- `'allowSwitchPlan' in raw || 'allowCancellation' in raw`.
unfoldable pub is_flat : Fields → Bool
is_flat o = has_property "allowSwitchPlan" o || has_property "allowCancellation" o

unfoldable pub looks_nested : Fields → Bool
looks_nested o =
    (has_property "test" o || has_property "live" o)
    && not (has_property "allowSwitchPlan" o)
    && not (has_property "allowCancellation" o)

unfoldable pub config_source : Fields → PortalMode → Fields
config_source o mode =
    if looks_nested o then candidate o mode else if is_flat o then o else candidate o mode

-- `resolvePortalConfig`: a value that is no object is as good as none, and an array has no keys.
unfoldable pub resolve_portal_config : Option Json → PortalMode → PortalConfig
resolve_portal_config (some (Json.object o)) mode = pick_config (config_source o mode)
resolve_portal_config (some (Json.array items)) mode = pick_config Fields.end
resolve_portal_config raw mode = default_portal_config
