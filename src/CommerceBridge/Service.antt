-- ===== src/CommerceBridge/Service.antt =====
-- server/apps/commerce_bridge/services.py: ingesting a webhook.
use assen_platform.Common.{
  ℕ, ◌==◌, ℤ, pos, negsuc, Bool, true, false, not, ◌&&◌, Option, none, some, is_some, List, [], ◌∷◌,
  Text, text_eq, is_nonempty, if◌then◌else◌,
}
use assen_platform.Common.Table.{first, exists, find, update}
use assen_platform.Errors.{Check, pass, stop, stop_if, or_stop, ◌>>=◌, ◌>>◌}
use assen_platform.Identity.{Account}
use assen_platform.Payment.Ledger.{attempt_row, settles_external, record_external_settlement}
use assen_platform.CommerceBridge.Words.{order_paid, order_shipped, order_cancelled, order_refunded}
use assen_platform.CommerceBridge.Model.{
  CommerceProvider, ExternalOrderStatus, paid, shipped, cancelled, refunded, ExternalCommerceOrder,
  WebhookReceipt, Seller, BridgeDb, external_order_row, provider_eq, NormalizedEvent,
  WebhookLibrary, adapter_for, provider_of,
}

pub data BridgeError : Type 0 where
  disabled unknown_provider no_adapter unverified unknown_event_type integrity type_error :
      BridgeError

pub record BridgeSettings : Type 0 where
  pub enable_commerce_bridge : Bool
  pub webhook_secret : Text

-- The clock, and the ids that new rows get.
pub record BridgeStamp : Type 0 where
  pub now : ℕ
  pub order_id : ℕ
  pub attempt_id : ℕ

-- `_EVENT_STATUS.get(event_type)`
unfoldable pub event_status : Text → Option ExternalOrderStatus
event_status name =
    if text_eq name order_paid
    then some paid
    else if text_eq name order_shipped
    then some shipped
    else if text_eq name order_cancelled
    then some cancelled
    else if text_eq name order_refunded
    then some refunded
    else none

abbrev pub is_receipt : CommerceProvider → Text → WebhookReceipt → Bool
is_receipt provider event_id r =
    provider_eq r.provider provider && text_eq r.external_event_id event_id

abbrev pub is_external_order : CommerceProvider → Text → ExternalCommerceOrder → Bool
is_external_order provider external_order_id o =
    provider_eq o.provider provider && text_eq o.external_order_id external_order_id

-- `_resolve_creator`
unfoldable pub resolve_creator : Text → List Seller → Option ℕ
resolve_creator creator_ref creators =
    if is_nonempty creator_ref
    then elim (first (λ c. text_eq c.handle creator_ref) creators) [
      | none ↦ none
      | some c ↦ some c.id
    ]
    else none

-- The columns that an event writes.
abbrev pub mirrored :
    List Seller
    → NormalizedEvent
    → ℕ
    → ExternalOrderStatus
    → ExternalCommerceOrder
    → ExternalCommerceOrder
mirrored creators event amount status order = record order {
  creator = resolve_creator event.creator_ref creators;
  buyer_ref = event.buyer_ref;
  amount = amount;
  currency = event.currency;
  status = status;
}

-- `update_or_create`; a key that is taken is an IntegrityError.
unfoldable pub update_or_create :
    BridgeStamp
    → CommerceProvider
    → NormalizedEvent
    → ℕ
    → ExternalOrderStatus
    → BridgeDb
    → Check BridgeError (ExternalCommerceOrder × BridgeDb)
unfolding resolve_creator
update_or_create stamp provider event amount status db =
    elim (first (is_external_order provider event.external_order_id) db.orders) [
      | some order ↦
          let write = mirrored db.creators event amount status in
          pass (write order, record db { orders = update order.id (λ o. true) write db.orders })
      | none ↦
          let order : ExternalCommerceOrder = mirrored db.creators event amount status (record {
            id = stamp.order_id;
            provider = provider;
            external_order_id = event.external_order_id;
            creator = none;
            buyer_ref = [];
            amount = 0;
            currency = [];
            status = status;
          }) in
          if is_some (find stamp.order_id db.orders)
          then stop integrity
          else pass (order, record db { orders = order ∷ db.orders })
    ]

abbrev pub is_paid : ExternalOrderStatus → Bool
is_paid paid = true
is_paid _ = false

-- The settlement of a paid order; a key that is taken is an IntegrityError.
unfoldable pub settle_if_paid :
    BridgeStamp
    → ExternalCommerceOrder
    → BridgeDb
    → Check BridgeError (ExternalCommerceOrder × BridgeDb)
settle_if_paid stamp order db =
    let ledger =
      record_external_settlement stamp.attempt_id stamp.now order.id order.amount db.attempts in
    if not (is_paid order.status)
    then pass (order, db)
    else if not (exists (settles_external order.id) db.attempts)
        && is_some (find stamp.attempt_id db.attempts)
    then stop integrity
    else pass (order, record db { attempts = ledger.1 })

-- `_apply_event` at the amount of the event; the column takes no negative number.
unfoldable pub apply_amount :
    BridgeStamp
    → CommerceProvider
    → NormalizedEvent
    → ExternalOrderStatus
    → BridgeDb
    → ℤ
    → Check BridgeError (ExternalCommerceOrder × BridgeDb)
apply_amount stamp provider event status db (pos amount) = do
  (order, db') ← update_or_create stamp provider event amount status db
  settle_if_paid stamp order db'
apply_amount stamp provider event status db (negsuc n) = stop integrity

-- `_apply_event`
unfoldable pub apply_event :
    BridgeStamp
    → CommerceProvider
    → NormalizedEvent
    → ExternalOrderStatus
    → BridgeDb
    → Check BridgeError (ExternalCommerceOrder × BridgeDb)
unfolding apply_amount update_or_create settle_if_paid
apply_event stamp provider event status db =
    apply_amount stamp provider event status db event.amount

-- `WebhookReceipt.objects.create`
abbrev pub received : CommerceProvider → NormalizedEvent → BridgeDb → BridgeDb
received provider event db =
    let receipt : WebhookReceipt = record {
      provider = provider;
      external_event_id = event.event_id;
      event_type = event.event_type;
    } in
    record db { receipts = receipt ∷ db.receipts }

-- What `commerce_webhook` of api.py answers: 200 says whether it is a duplicate.
pub data WebhookAnswer : Type 0 where
  refused : ℕ → WebhookAnswer
  ok : Bool → WebhookAnswer
  crashed : WebhookAnswer

abbrev pub answered :
    BridgeDb
    → Check BridgeError (Option ExternalCommerceOrder × BridgeDb)
    → WebhookAnswer × BridgeDb
answered db (pass (none, db')) = (ok true, db')
answered db (pass (some order, db')) = (ok false, db')
answered db (stop disabled) = (refused 503, db)
answered db (stop unverified) = (refused 401, db)
answered db (stop integrity) = (crashed, db)
answered db (stop type_error) = (crashed, db)
answered db (stop _) = (refused 400, db)

module _ (library : WebhookLibrary) (settings : BridgeSettings) where
  -- The part of `ingest_webhook` before its transaction: the provider, the event and its status.
  unfoldable pub admit :
      Text
      → List (Text × Text)
      → Text
      → Check BridgeError (CommerceProvider × NormalizedEvent × ExternalOrderStatus)
  unfolding event_status provider_of adapter_for
  admit provider headers raw_body = do
    stop_if (not settings.enable_commerce_bridge) disabled
    known ← or_stop (provider_of provider) unknown_provider
    adapter ← or_stop (adapter_for library known) no_adapter
    verified ← or_stop (adapter.verify settings.webhook_secret headers raw_body) type_error
    stop_if (not verified) unverified
    event ← or_stop (adapter.parse raw_body) unverified
    status ← or_stop (event_status event.event_type) unknown_event_type
    pass (known, event, status)

  module _ (stamp : BridgeStamp) where
    -- The transaction of `ingest_webhook`; no order is given back for a duplicate.
    unfoldable pub ingest_event :
        CommerceProvider
        → NormalizedEvent
        → ExternalOrderStatus
        → BridgeDb
        → Check BridgeError (Option ExternalCommerceOrder × BridgeDb)
    unfolding apply_event
    ingest_event provider event status db =
        if exists (is_receipt provider event.event_id) db.receipts then pass (none, db) else do
          (order, db') ← apply_event stamp provider event status (received provider event db)
          pass (some order, db')

    -- `ingest_webhook`; what stops is rolled back.
    unfoldable pub ingest_webhook :
        Text
        → List (Text × Text)
        → Text
        → BridgeDb
        → Check BridgeError (Option ExternalCommerceOrder × BridgeDb)
    unfolding admit ingest_event
    ingest_webhook provider headers raw_body db = do
      (known, event, status) ← admit provider headers raw_body
      ingest_event known event status db

    -- `commerce_webhook`
    unfoldable pub commerce_webhook :
        Text → List (Text × Text) → Text → BridgeDb → WebhookAnswer × BridgeDb
    unfolding ingest_webhook
    commerce_webhook provider headers raw_body db =
        answered db (ingest_webhook provider headers raw_body db)

-- `resolve_buyer`, with the parser of UUIDs as a parameter.
unfoldable pub resolve_buyer : (Text → Option ℕ) → Text → List Account → Option Account
resolve_buyer uuid buyer_ref accounts =
    if is_nonempty buyer_ref
    then elim (uuid buyer_ref) [
      | none ↦ none
      | some fan_id ↦ first (λ a. (a.id == fan_id) && a.is_active) accounts
    ]
    else none
