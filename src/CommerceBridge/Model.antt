-- ===== src/CommerceBridge/Model.antt =====
-- server/apps/commerce_bridge/models.py and adapters.py: the mirrored orders, the receipts of webhooks,
-- and the signed bodies. HMAC and JSON are parameters.
use assen_platform.Common.{
  ℕ, ℤ, Bool, true, false, ◌&&◌, Option, none, some, List, [], ◌∷◌, Text, text_eq, is_nonempty,
  strip, get_or, if◌then◌else◌,
}
use assen_platform.Common.Options.{◌>>=◌}
use assen_platform.Common.Table.{Row}
use assen_platform.CommerceBridge.Words.{
  event_id_key, event_type_key, external_order_id_key, creator_ref_key, buyer_ref_key, currency_key,
  krw, signature_header, generic_word, cafe24_word, imweb_word,
}
use assen_platform.Payment.Ledger.{PaymentAttempt}

pub data CommerceProvider : Type 0 where
  cafe24 imweb generic : CommerceProvider

pub data ExternalOrderStatus : Type 0 where
  paid shipped cancelled refunded : ExternalOrderStatus

pub record ExternalCommerceOrder : Type 0 where
  pub id : ℕ
  pub provider : CommerceProvider
  pub external_order_id : Text
  pub creator : Option ℕ
  pub buyer_ref : Text
  pub amount : ℕ
  pub currency : Text
  pub status : ExternalOrderStatus

pub record WebhookReceipt : Type 0 where
  pub provider : CommerceProvider
  pub external_event_id : Text
  pub event_type : Text

-- A creator, as far as the bridge reads it.
pub record Seller : Type 0 where
  pub id : ℕ
  pub handle : Text

pub record BridgeDb : Type 0 where
  pub creators : List Seller
  pub orders : List ExternalCommerceOrder
  pub receipts : List WebhookReceipt
  pub attempts : List PaymentAttempt

instance abbrev pub external_order_row : Row ExternalCommerceOrder
external_order_row = record { key = λ o. o.id }

abbrev pub provider_eq : CommerceProvider → CommerceProvider → Bool
provider_eq cafe24 cafe24 = true
provider_eq imweb imweb = true
provider_eq generic generic = true
provider_eq _ _ = false

pub record NormalizedEvent : Type 0 where
  pub event_id : Text
  pub event_type : Text
  pub external_order_id : Text
  pub creator_ref : Text
  pub buyer_ref : Text
  pub amount : ℤ
  pub currency : Text

-- A JSON object: `str(data[name])`, and `int(data.get("amount", 0))`, where they do not raise.
pub record JsonObject : Type 0 where
  pub text_of : Text → Option Text
  pub amount : Option ℤ

-- What the hmac and json libraries compute; `compare_digest` raises a TypeError, here `none`, on text
-- that is not ASCII, and `loads` gives nothing for a body that is no object.
pub record WebhookLibrary : Type 0 where
  pub hmac_sha256 : Text → Text → Text
  pub compare_digest : Text → Text → Option Bool
  pub loads : Text → Option JsonObject

-- An adapter: whether the signature holds, if that can be told, and the event of a body.
pub record CommerceWebhookAdapter : Type 0 where
  pub verify : Text → List (Text × Text) → Text → Option Bool
  pub parse : Text → Option NormalizedEvent

abbrev header : Text → List (Text × Text) → Text
header name [] = []
header name ((key, value) ∷ headers) =
    let rest = header name headers in if text_eq key name then value else rest

module _ (library : WebhookLibrary) where
  -- `GenericHmacAdapter.verify`, where false is the WebhookVerificationError, and `none` the TypeError.
  unfoldable pub generic_verify : Text → List (Text × Text) → Text → Option Bool
  generic_verify secret headers raw_body =
      let provided = strip (header signature_header headers) in
      if is_nonempty secret && is_nonempty provided
      then library.compare_digest provided (library.hmac_sha256 secret raw_body)
      else some false

  -- `GenericHmacAdapter.parse`
  unfoldable pub generic_parse : Text → Option NormalizedEvent
  generic_parse raw_body = do
    body ← library.loads raw_body
    event_id ← body.text_of event_id_key
    event_type ← body.text_of event_type_key
    external_order_id ← body.text_of external_order_id_key
    amount ← body.amount
    some (record {
      event_id = event_id;
      event_type = event_type;
      external_order_id = external_order_id;
      creator_ref = get_or (body.text_of creator_ref_key) [];
      buyer_ref = get_or (body.text_of buyer_ref_key) [];
      amount = amount;
      currency = get_or (body.text_of currency_key) krw;
    })

  abbrev pub generic_hmac_adapter : CommerceWebhookAdapter
  generic_hmac_adapter = record { verify = generic_verify; parse = generic_parse }

  -- `adapter_for`
  unfoldable pub adapter_for : CommerceProvider → Option CommerceWebhookAdapter
  adapter_for generic = some generic_hmac_adapter
  adapter_for _ = none

-- `CommerceProvider(provider)`
unfoldable pub provider_of : Text → Option CommerceProvider
provider_of name =
    if text_eq name cafe24_word
    then some cafe24
    else if text_eq name imweb_word
    then some imweb
    else if text_eq name generic_word
    then some generic
    else none
