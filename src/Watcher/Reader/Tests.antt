-- ===== src/Watcher/Reader/Tests.antt =====
-- Two messages, and a message of an unknown type.
use jettison_controller.Common.{[], ◌∷◌, some, ◌≡◌, refl}
use jettison_controller.Text.{Str-discrete, to_lower, codes}
use jettison_controller.Json.{Json, object, field, end, string}
use jettison_controller.Watcher.Reader.{
  Incoming, text, subscription, retry_rollout_of, panicked, read_conn,
}

abbrev named : Json
named = object (
    field (codes "namespace") (string (codes "shop")) (
      field (codes "name") (string (codes "cart"))
        (field (codes "subscriptionType") (string (codes "pod")) end)))

abbrev of_type : Json → Incoming
of_type type =
    text (some (object (field (codes "messageType") type (field (codes "messageData") named end))))

read_three :
    read_conn (
      of_type (string (codes "retryRollout"))
      ∷ (of_type (string (codes "resourceSubscription"))
          ∷ (of_type (string (codes "other")) ∷ (text (some named) ∷ []))))
    ≡ (
      retry_rollout_of (record { namespace = codes "shop"; name = codes "cart" })
          ∷ (subscription (record {
            subscription_type = codes "pod";
            namespace = codes "shop";
            name = codes "cart";
          })
              ∷ []),
      panicked,
    )
unfolding read_conn Str-discrete to_lower codes
read_three = refl
