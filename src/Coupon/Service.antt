-- ===== src/Coupon/Service.antt =====
-- server/apps/coupon/services.py. A ValueError, or another exception, stops an operation and leaves
-- the database as it was.
use assen_platform.Common.{
  ℕ, leb, ltb, ℤ, ◌+ℤ◌, is_negative, is_nonpositive, is_zero, Bool, true, false, not, Option, none,
  some, ◌∷◌, Text, is_nonempty, strip, length, if◌then◌else◌, is_some, option_eq,
}
use assen_platform.Common.Table.{find, first, update, exists}
use assen_platform.Errors.{Check, pass, stop_if, or_stop, ◌>>=◌, ◌>>◌}
use assen_platform.Identity.{Account, Role}
use assen_platform.Commerce.Load.{Stamp}
use assen_platform.Safety.{BlockScope, has_active_block}
use assen_platform.Coupon.Model.{
  Coupon, CouponType, CouponStatus, PointEntry, CouponAction, CouponDb, coupon_row, entry_row,
  traced, point_balance, has_reference,
}

pub data CouponError : Type 0 where
  not_a_fan unknown_coupon_type cannot_redeem has_expired fan_blocked cannot_cancel : CouponError
  cannot_expire not_positive zero_adjustment text_too_long negative_balance : CouponError
  does_not_exist integrity_error : CouponError

abbrev pub is_fan : Role → Bool
is_fan Role.fan = true
is_fan _ = false

abbrev pub is_active : CouponStatus → Bool
is_active CouponStatus.active = true
is_active _ = false

abbrev pub is_cancellable : CouponStatus → Bool
is_cancellable CouponStatus.active = true
is_cancellable CouponStatus.redeemed = true
is_cancellable _ = false

-- `none` is a coupon type outside of the enumeration.
unfoldable pub issue_coupon :
    Stamp
    → Account
    → Option CouponType
    → Account
    → Option ℕ
    → CouponDb
    → Check CouponError (Coupon × CouponDb)
issue_coupon stamp fan coupon_type actor expires_at db = do
  stop_if (not (is_fan fan.role)) not_a_fan
  type ← or_stop coupon_type unknown_coupon_type
  stop_if (is_some (find stamp.id db.coupons)) integrity_error
  let coupon : Coupon = record {
    id = stamp.id;
    fan = fan.id;
    coupon_type = type;
    status = CouponStatus.active;
    redemption_id = none;
    expires_at = expires_at;
    redeemed_at = none;
    issued_by = actor.id;
  }
  pass (
    coupon,
    traced actor CouponAction.coupon_issued coupon.id (record db { coupons = coupon ∷ db.coupons }),
  )

-- `coupon.expires_at is not None and coupon.expires_at <= timezone.now()`
abbrev pub past : ℕ → Option ℕ → Bool
past now none = false
past now (some t) = leb t now

abbrev pub redeem : Stamp → Coupon → Coupon
redeem stamp c = record c {
  status = CouponStatus.redeemed;
  redemption_id = some stamp.id;
  redeemed_at = some stamp.now;
}

abbrev pub set_status : CouponStatus → Coupon → Coupon
set_status status c = record c { status = status }

-- `coupon.save(...)` of a row that is locked, with the events.
abbrev pub save_coupon :
    Account
    → CouponAction
    → (Coupon → Coupon)
    → Coupon
    → CouponDb
    → Check CouponError (Coupon × CouponDb)
save_coupon actor action f coupon db = pass (
  f coupon,
  traced actor action coupon.id (record db { coupons = update coupon.id (λ _. true) f db.coupons }),
)

unfoldable pub redeem_coupon :
    Stamp → ℕ → Account → CouponDb → Check CouponError (Coupon × CouponDb)
redeem_coupon stamp id actor db = do
  coupon ← or_stop (find id db.coupons) does_not_exist
  stop_if (not (is_active coupon.status)) cannot_redeem
  stop_if (past stamp.now coupon.expires_at) has_expired
  stop_if (has_active_block stamp.now coupon.fan BlockScope.fandom_feature db.blocks) fan_blocked
  stop_if (exists (λ c. option_eq c.redemption_id (some stamp.id)) db.coupons) integrity_error
  save_coupon actor CouponAction.coupon_redeemed (redeem stamp) coupon db

unfoldable pub cancel_coupon : ℕ → Account → CouponDb → Check CouponError (Coupon × CouponDb)
cancel_coupon id actor db = do
  coupon ← or_stop (find id db.coupons) does_not_exist
  stop_if (not (is_cancellable coupon.status)) cannot_cancel
  save_coupon actor CouponAction.coupon_cancelled (set_status CouponStatus.cancelled) coupon db

unfoldable pub expire_coupon : ℕ → Account → CouponDb → Check CouponError (Coupon × CouponDb)
expire_coupon id actor db = do
  coupon ← or_stop (find id db.coupons) does_not_exist
  stop_if (not (is_active coupon.status)) cannot_expire
  save_coupon actor CouponAction.coupon_expired (set_status CouponStatus.expired) coupon db

-- `if reference: existing = ...`
unfoldable pub existing_entry : ℕ → Text → CouponDb → Option PointEntry
existing_entry fan reference db =
    if is_nonempty reference then first (has_reference fan reference) db.entries else none

-- The checks of `_add_point_entry` on its arguments.
unfoldable pub entry_checks : Account → Text → Text → Check CouponError (Unit {0})
entry_checks fan reason reference = do
  stop_if (not (is_fan fan.role)) not_a_fan
  stop_if (ltb 200 (length reason)) text_too_long
  stop_if (ltb 100 (length reference)) text_too_long
  pass tt

-- The insert under the lock on the fan. With the lock no other request can have added the reference,
-- so the constraint that can still fail is the key, a new UUID. It is an error here; the source would
-- then look for an entry under the same reference, which finds one only if the reference is empty.
abbrev pub insert_entry :
    Stamp
    → Account
    → ℤ
    → Account
    → Text
    → Text
    → CouponAction
    → CouponDb
    → Check CouponError (PointEntry × CouponDb)
insert_entry stamp fan delta actor reason reference action db = do
  stop_if (is_negative (point_balance fan.id db.entries +ℤ delta)) negative_balance
  stop_if (is_some (find stamp.id db.entries)) integrity_error
  let entry : PointEntry = record {
    id = stamp.id;
    fan = fan.id;
    delta = delta;
    reason = strip reason;
    reference = reference;
    created_by = actor.id;
  }
  pass (entry, traced actor action entry.id (record db { entries = entry ∷ db.entries }))

unfoldable pub add_point_entry :
    Stamp
    → Account
    → ℤ
    → Account
    → Text
    → Text
    → CouponAction
    → CouponDb
    → Check CouponError (PointEntry × CouponDb)
add_point_entry stamp fan delta actor reason reference action db = do
  entry_checks fan reason reference
  elim (existing_entry fan.id reference db) [
    | some existing ↦ pass (existing, db)
    | none ↦ insert_entry stamp fan delta actor reason reference action db
  ]

unfoldable pub grant_points :
    Stamp
    → Account
    → ℤ
    → Account
    → Text
    → Text
    → CouponDb
    → Check CouponError (PointEntry × CouponDb)
grant_points stamp fan delta actor reason reference db = do
  stop_if (is_nonpositive delta) not_positive
  add_point_entry stamp fan delta actor reason reference CouponAction.point_granted db

unfoldable pub adjust_points :
    Stamp
    → Account
    → ℤ
    → Account
    → Text
    → Text
    → CouponDb
    → Check CouponError (PointEntry × CouponDb)
adjust_points stamp fan delta actor reason reference db = do
  stop_if (is_zero delta) zero_adjustment
  add_point_entry stamp fan delta actor reason reference CouponAction.point_adjusted db
