-- ===== src/Coupon/Model.antt =====
-- server/apps/coupon/models.py: coupons and the point ledger, and the rows that `emit_event` and
-- `record_audit` add, by what they are about.
use assen_platform.Common.{
  ℕ, ◌==◌, ℤ, ◌+ℤ◌, pos, Bool, ◌&&◌, Option, List, [], ◌∷◌, Text, text_eq, if◌then◌else◌,
}
use assen_platform.Common.Table.{Row}
use assen_platform.Identity.{Account}
use assen_platform.Safety.{UserBlock}

pub data CouponType : Type 0 where
  revisit event manual apology : CouponType

pub data CouponStatus : Type 0 where
  active redeemed cancelled expired : CouponStatus

pub record Coupon : Type 0 where
  pub id : ℕ
  pub fan : ℕ
  pub coupon_type : CouponType
  pub status : CouponStatus
  pub redemption_id : Option ℕ
  pub expires_at : Option ℕ
  pub redeemed_at : Option ℕ
  pub issued_by : ℕ

pub record PointEntry : Type 0 where
  pub id : ℕ
  pub fan : ℕ
  pub delta : ℤ
  pub reason : Text
  pub reference : Text
  pub created_by : ℕ

pub data CouponAction : Type 0 where
  coupon_issued coupon_redeemed coupon_cancelled coupon_expired : CouponAction
  point_granted point_adjusted : CouponAction

-- An analytics event or an audit entry.
pub record Trace : Type 0 where
  pub actor : ℕ
  pub action : CouponAction
  pub target : ℕ

pub record CouponDb : Type 0 where
  pub blocks : List UserBlock
  pub coupons : List Coupon
  pub entries : List PointEntry
  pub events : List Trace
  pub audits : List Trace

instance abbrev pub coupon_row : Row Coupon
coupon_row = record { key = λ c. c.id }

instance abbrev pub entry_row : Row PointEntry
entry_row = record { key = λ e. e.id }

-- `emit_event` and `record_audit`, which every mutation calls with the same subject.
unfoldable pub traced : Account → CouponAction → ℕ → CouponDb → CouponDb
traced actor action target db =
    let trace : Trace = record { actor = actor.id; action = action; target = target } in
    record db { events = trace ∷ db.events; audits = trace ∷ db.audits }

-- `point_balance`
unfoldable pub point_balance : ℕ → List PointEntry → ℤ
point_balance fan [] = pos 0
point_balance fan (e ∷ entries) =
    let rest = point_balance fan entries in if e.fan == fan then rest +ℤ e.delta else rest

-- `PointEntry.objects.filter(fan=..., reference=...)`
abbrev pub has_reference : ℕ → Text → PointEntry → Bool
has_reference fan reference e = (e.fan == fan) && text_eq e.reference reference
