-- ===== src/Coupon/Lifecycle.antt =====
-- The life of a coupon under the operations of server/apps/coupon/services.py.
use assen_platform.Common.{ℕ, ◌≡◌, refl, true, false, some, inl, inr, arith, Option-cases}
use assen_platform.Common.Table.{find, find-update, key-find}
use assen_platform.Errors.{pass}
use assen_platform.Identity.{Account}
use assen_platform.Commerce.Load.{Stamp}
use assen_platform.Safety.{BlockScope, has_active_block}
use assen_platform.Coupon.Model.{Coupon, CouponStatus, CouponDb, coupon_row, traced}
use assen_platform.Coupon.Service.{redeem_coupon, redeem, past}

-- A redemption that succeeds: the coupon was active, had not expired, and its fan had no active block
-- on fandom features; its row is redeemed under the new id after.
module _ (stamp : Stamp) (id : ℕ) (actor : Account) (db db' : CouponDb) (c : Coupon)
    (h : redeem_coupon stamp id actor db ≡ pass (c, db')) where
  -- If a redemption succeeds, the coupon was active, had not expired, its fan had no active block
  -- on fandom features, and its row is the redeemed coupon that is returned.
  redeem_coupon-redeemed :
      (coupon : Coupon) × (find id db.coupons ≡ some coupon)
      × (coupon.status ≡ CouponStatus.active)
      × (past stamp.now coupon.expires_at ≡ false)
      × (has_active_block stamp.now coupon.fan BlockScope.fandom_feature db.blocks ≡ false)
      × (c ≡ redeem stamp coupon)
      × (find id db'.coupons ≡ some c)
  unfolding redeem_coupon traced
  redeem_coupon-redeemed = elim (Option-cases (find id db.coupons)) [
    | inl e ↦ ground arith
    | inr (coupon, e) ↦
        let written = find-update coupon.id (λ _. true) (redeem stamp) (λ x. refl) id db.coupons in
        let key = key-find id db.coupons coupon e in
        (coupon, e, ground arith, ground arith, ground arith, ground arith, ground arith)
  ]
