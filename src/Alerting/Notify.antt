-- ===== src/Alerting/Notify.antt =====
-- internal/alerting/notify.go: whom an alert transition is sent to. An attempt is one call of Notify; what
-- it answers is logged, and changes nothing that follows. Posting over HTTP is not modelled.
use sys_sentient.Prelude.{
  if◌then◌else◌, ◌==◌, nat_key, string_key, String, Bool, true, false, List, [], ◌∷◌, ◌++◌,
}
use Prim.Native.String.{◌++◌ as ◌<>◌}
use sys_sentient.Alerting.Rule.{Alert, AlertState, resolved}

pub data Notifier : Type 0 where
  webhook slack : (url : String) → Notifier

pub record Attempt (F : Type 0) : Type 0 where
  pub channel : Notifier
  pub alert : Alert F

-- `trim` is `strings.TrimSpace`.
unfoldable pub build_notifiers : (String → String) → String → String → List Notifier
build_notifiers trim webhook_url slack_url =
    (if trim webhook_url == "" then [] else webhook (trim webhook_url) ∷ [])
    ++ (if trim slack_url == "" then [] else slack (trim slack_url) ∷ [])

abbrev pub is_resolved : AlertState → Bool
is_resolved resolved = true
is_resolved _ = false

-- The text of a Slack message, from the summary of the alert.
unfoldable pub slack_text : AlertState → String → String
slack_text state summary =
    let icon : String = if is_resolved state then ":white_check_mark:" else ":rotating_light:" in
    let verb : String = if is_resolved state then "RESOLVED" else "FIRING" in
    icon <> " *" <> verb <> "* — " <> summary

module _ {F : Type 0} where
  abbrev pub to_all : List Notifier → Alert F → List (Attempt F)
  to_all [] alert = []
  to_all (n ∷ rest) alert = record { channel = n; alert = alert } ∷ to_all rest alert

  -- The attempts, in order. With no notifier there are none.
  unfoldable pub dispatch : List Notifier → List (Alert F) → List (Attempt F)
  dispatch notifiers [] = []
  dispatch notifiers (alert ∷ rest) =
      (if alert.acknowledged then [] else to_all notifiers alert) ++ dispatch notifiers rest
