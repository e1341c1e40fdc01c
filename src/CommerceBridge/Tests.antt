-- ===== src/CommerceBridge/Tests.antt =====
-- Runs of the bridge: one paid order of a shop that sends signed events.
use assen_platform.Common.{
  ℕ, ◌≡◌, refl, pos, true, false, Option, none, some, [], ◌∷◌, arith, Text, text_eq, strip,
  if◌then◌else◌,
}
use assen_platform.Common.Table.{count, find, Distinct}
use assen_platform.Errors.{pass}
use assen_platform.Payment.Ledger.{external_attempt, settles_external, record_external_settlement}
use assen_platform.CommerceBridge.Words.{generic_word, signature_header, order_paid, event_type_key}
use assen_platform.CommerceBridge.Model.{
  generic, paid, ExternalCommerceOrder, BridgeDb, JsonObject, WebhookLibrary, generic_verify,
  generic_parse,
}
use assen_platform.CommerceBridge.Service.{
  BridgeSettings, BridgeStamp, ok, ingest_webhook, commerce_webhook,
}
use assen_platform.CommerceBridge.Settlement.{IsLedgered}
use assen_platform.CommerceBridge.Deliveries.{
  Delivery, deliver, deliver_all, deliver_all-IsLedgered, deliver-again, ingest_webhook-credited,
}

-- The body is the name of the event; every object says that the order is paid.
abbrev text_of : Text → Text → Option Text
text_of body key = if text_eq key event_type_key then some order_paid else some body

abbrev object_of : Text → Option JsonObject
object_of body = some (record { text_of = text_of body; amount = some (pos 5000) })

abbrev library : WebhookLibrary
library = record {
  hmac_sha256 = λ secret body. 49 ∷ body;
  compare_digest = λ a b. some (text_eq a b);
  loads = object_of;
}

abbrev settings : BridgeSettings
settings = record { enable_commerce_bridge = true; webhook_secret = 115 ∷ [] }

abbrev stamp : ℕ → BridgeStamp
stamp n = record { now = n; order_id = n; attempt_id = n }

abbrev delivery : ℕ → Text → Delivery
delivery n body = record {
  stamp = stamp n;
  provider = generic_word;
  headers = (signature_header, 49 ∷ body) ∷ [];
  raw_body = body;
}

abbrev empty_bridge : BridgeDb
empty_bridge = record { creators = []; orders = []; receipts = []; attempts = [] }

empty_bridge-IsLedgered : IsLedgered empty_bridge
unfolding Distinct
empty_bridge-IsLedgered = record {
  ids = tt;
  mirrored_once = λ p e. omega arith;
  received_once = λ p e. omega arith;
  settled_once = λ i. omega arith;
}

abbrev body : Text
body = 65 ∷ []

abbrev mirrored_order : ExternalCommerceOrder
mirrored_order = record {
  id = 7;
  provider = generic;
  external_order_id = body;
  creator = none;
  buyer_ref = body;
  amount = 5000;
  currency = body;
  status = paid;
}

abbrev paid_bridge : BridgeDb
paid_bridge = record {
  creators = [];
  orders = mirrored_order ∷ [];
  receipts = record { provider = generic; external_event_id = body; event_type = order_paid } ∷ [];
  attempts = external_attempt 7 7 7 5000 ∷ [];
}

ingest_run :
    ingest_webhook library settings
      (stamp 7)
      generic_word
      ((signature_header, 49 ∷ body) ∷ [])
      body
      empty_bridge
    ≡ pass (some mirrored_order, paid_bridge)
unfolding ingest_webhook text_eq strip generic_verify generic_parse find record_external_settlement
ingest_run = refl

webhook_run : (deliver library settings (delivery 7 body) empty_bridge).0 ≡ ok false
unfolding commerce_webhook text_eq strip generic_verify generic_parse find
webhook_run = refl

deliver_all-IsLedgered_example :
    IsLedgered (deliver_all library settings (delivery 7 body ∷ delivery 8 body ∷ []) empty_bridge)
deliver_all-IsLedgered_example =
    deliver_all-IsLedgered library settings (delivery 7 body ∷ delivery 8 body ∷ []) empty_bridge
      empty_bridge-IsLedgered

deliver-again_example :
    deliver library settings (delivery 9 body) (
      deliver_all library settings
        (delivery 8 (66 ∷ []) ∷ [])
        (deliver library settings (delivery 7 body) empty_bridge).1)
    ≡ (
      ok true,
      deliver_all library settings
          (delivery 8 (66 ∷ []) ∷ [])
          (deliver library settings (delivery 7 body) empty_bridge).1,
    )
deliver-again_example =
    deliver-again library settings (delivery 7 body) (stamp 9) (delivery 8 (66 ∷ []) ∷ [])
      empty_bridge false empty_bridge-IsLedgered webhook_run

ingest_webhook-credited_example : count (settles_external 7) paid_bridge.attempts ≡ 1
ingest_webhook-credited_example =
    ingest_webhook-credited library settings (delivery 7 body) empty_bridge paid_bridge
      mirrored_order empty_bridge-IsLedgered ingest_run refl
