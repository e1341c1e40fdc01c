-- ===== src/Commerce/Model.antt =====
-- server/apps/commerce/models.py: products, orders with their lines, refund requests, and the
-- state of the shop as the handlers of server/apps/commerce/api.py read and write it. Column
-- limits, indexes and display strings are left out.
use assen_platform.Common.{ℕ, Bool, true, false, Option, List, Text}
use assen_platform.Common.Table.{Row}
use assen_platform.Payment.{PaymentProvenance, PricingKind, ProviderRef}
use assen_platform.Payment.Ledger.{PaymentAttempt, PaymentReversal}
use assen_platform.Membership.Model.{Subscription}

pub data ProductType : Type 0 where
  goods digital experience ticket coupon : ProductType

pub data ProductStatus : Type 0 where
  selling soldout draft hidden : ProductStatus

pub record Product : Type 0 where
  pub id : ℕ
  pub creator : Option ℕ
  pub type : ProductType
  pub title : Text
  pub price : ℕ
  pub pricing_kind : PricingKind
  pub meta : Text
  pub media_url : Text
  pub description : Text
  pub stock : Option ℕ  -- `none` is untracked
  pub sold_out : Bool
  pub locked : Bool
  pub status : ProductStatus
  pub adult_only : Bool
  pub options : List Text

pub data OrderStatus : Type 0 where
  pending paid shipping completed cancelled failed : OrderStatus

-- One line; `product` is null once the product is deleted.
pub record OrderItem : Type 0 where
  pub product : Option ℕ
  pub title : Text
  pub item_type : ProductType
  pub option : Text
  pub qty : ℕ
  pub price : ℕ

-- The delivery-address snapshot.
pub record Shipping : Type 0 where
  pub recipient_name : Text
  pub recipient_phone : Text
  pub postal_code : Text
  pub address1 : Text
  pub address2 : Text

pub record Order : Type 0 where
  pub id : ℕ
  pub buyer : ℕ
  pub status : OrderStatus
  pub subtotal : ℕ
  pub shipping_fee : ℕ
  pub total : ℕ
  pub shipping : Shipping
  pub idempotency_key : Option Text
  pub payment_provenance : PaymentProvenance
  pub tracking_carrier : Text
  pub tracking_number : Text
  pub shipped_at : Option ℕ
  pub completed_at : Option ℕ
  pub paid_at : Option ℕ
  pub failed_at : Option ℕ
  pub payment_ref : ProviderRef
  pub created_at : ℕ
  pub items : List OrderItem  -- the rows of `OrderItem` that point to the order

pub data RefundStatus : Type 0 where
  requested reviewing accepted rejected : RefundStatus

pub record RefundRequest : Type 0 where
  pub id : ℕ
  pub order : ℕ
  pub reason : Text
  pub detail : Text
  pub status : RefundStatus
  pub created_at : ℕ

-- A creator profile and the account that operates it.
pub record Creator : Type 0 where
  pub id : ℕ
  pub owner : Option ℕ

pub record CreatorBlock : Type 0 where
  pub blocker : ℕ
  pub creator : ℕ

-- The in-app feed rows that the handlers write, by what they are about.
pub data Notice : Type 0 where
  order_received free_grant : ℕ → ℕ → Notice  -- recipient, product
  refund_accepted refund_rejected : ℕ → ℕ → Notice  -- recipient, order

pub data AuditAction : Type 0 where
  refund_reviewed refund_accepted refund_rejected : AuditAction

pub record AuditEntry : Type 0 where
  pub actor : ℕ
  pub action : AuditAction
  pub target : ℕ
  pub reason : Text

pub record Db : Type 0 where
  pub creators : List Creator
  pub blocks : List CreatorBlock
  pub subscriptions : List Subscription
  pub products : List Product
  pub orders : List Order
  pub refunds : List RefundRequest
  pub attempts : List PaymentAttempt
  pub reversals : List PaymentReversal
  pub notices : List Notice
  pub audits : List AuditEntry

instance abbrev pub product_row : Row Product
product_row = record { key = λ p. p.id }

instance abbrev pub order_row : Row Order
order_row = record { key = λ o. o.id }

instance abbrev pub refund_row : Row RefundRequest
refund_row = record { key = λ r. r.id }

instance abbrev pub creator_row : Row Creator
creator_row = record { key = λ c. c.id }

-- `_CANCELLABLE`, `_REFUNDABLE` and `_OPEN_REFUND`
abbrev pub is_cancellable : OrderStatus → Bool
is_cancellable OrderStatus.paid = true
is_cancellable OrderStatus.shipping = true
is_cancellable _ = false

abbrev pub is_refundable : OrderStatus → Bool
is_refundable OrderStatus.shipping = true
is_refundable OrderStatus.completed = true
is_refundable _ = false

abbrev pub is_open_refund : RefundStatus → Bool
is_open_refund RefundStatus.requested = true
is_open_refund RefundStatus.reviewing = true
is_open_refund _ = false

abbrev pub is_pending : OrderStatus → Bool
is_pending OrderStatus.pending = true
is_pending _ = false

abbrev pub is_paid : OrderStatus → Bool
is_paid OrderStatus.paid = true
is_paid _ = false

abbrev pub is_requested : RefundStatus → Bool
is_requested RefundStatus.requested = true
is_requested _ = false

abbrev pub is_goods : ProductType → Bool
is_goods ProductType.goods = true
is_goods _ = false

abbrev pub is_selling : ProductStatus → Bool
is_selling ProductStatus.selling = true
is_selling _ = false

-- `exclude(status__in=(DRAFT, HIDDEN))`
abbrev pub is_public_status : ProductStatus → Bool
is_public_status ProductStatus.draft = false
is_public_status ProductStatus.hidden = false
is_public_status _ = true
