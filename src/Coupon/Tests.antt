-- ===== src/Coupon/Tests.antt =====
-- The theorems on server/apps/coupon at runs on small tables.
use assen_platform.Common.{
  ◌≡◌, refl, true, false, none, some, [], ◌∷◌, arith, pos, negsuc, List, strip, length,
}
use assen_platform.Common.Table.{find, Distinct}
use assen_platform.Errors.{pass}
use assen_platform.Identity.{Account, Role, KycStatus}
use assen_platform.Commerce.Load.{Stamp}
use assen_platform.Coupon.Model.{
  Coupon, CouponType, CouponStatus, CouponAction, CouponDb, PointEntry, traced, point_balance,
  coupon_row, entry_row,
}
use assen_platform.Coupon.Service.{grant_points, add_point_entry, existing_entry, entry_checks}
use assen_platform.Coupon.Points.{
  IsSound, Movement, grant, adjust, move_all, move_all-IsSound, grant_points-retry,
  grant_points-balance,
}
use assen_platform.Coupon.Turns.{Operation, use_up, void, operate_all, operate_all-Turns, Turns}

abbrev guest : Account
guest = record {
  id = 1;
  role = Role.fan;
  is_active = true;
  adult_verified = false;
  kyc_status = KycStatus.verified;
}

abbrev staff : Account
staff = record guest { id = 5; role = Role.operator }

abbrev welcome : Coupon
welcome = record {
  id = 30;
  fan = 1;
  coupon_type = CouponType.revisit;
  status = CouponStatus.active;
  redemption_id = none;
  expires_at = some 100;
  redeemed_at = none;
  issued_by = 5;
}

abbrev cafe : CouponDb
cafe = record { blocks = []; coupons = welcome ∷ []; entries = []; events = []; audits = [] }

abbrev at_ten : Stamp
at_ten = record { now = 10; id = 77 }

abbrev at_twenty : Stamp
at_twenty = record { now = 20; id = 78 }

abbrev bonus : PointEntry
bonus = record { id = 77; fan = 1; delta = pos 5; reason = []; reference = 65 ∷ []; created_by = 5 }

no_entries-IsSound : IsSound []
unfolding Distinct point_balance
no_entries-IsSound = record {
  ids = tt;
  funded = λ fan. refl;
  once = λ fan reference h. omega arith;
}

abbrev two_movements : List Movement
two_movements =
    grant at_ten guest (pos 5) staff [] (65 ∷ [])
    ∷ adjust at_twenty guest (negsuc 8) staff [] []
    ∷ []

move_all-IsSound_example : IsSound (move_all two_movements cafe).entries
move_all-IsSound_example = move_all-IsSound two_movements cafe no_entries-IsSound

abbrev granted : CouponDb
granted = traced staff CouponAction.point_granted 77 (record cafe { entries = bonus ∷ [] })

grant_points-retry_example :
    grant_points at_twenty guest (pos 5) staff [] (65 ∷ []) granted ≡ pass (bonus, granted)
unfolding grant_points add_point_entry entry_checks existing_entry point_balance find strip length
grant_points-retry_example =
    grant_points-retry at_ten at_twenty guest (pos 5) staff [] (65 ∷ []) cafe granted bonus refl
      refl

grant_points-balance_example : point_balance 1 granted.entries ≡ pos 5
unfolding grant_points add_point_entry entry_checks existing_entry point_balance find strip length
grant_points-balance_example =
    grant_points-balance at_ten guest (pos 5) staff [] (65 ∷ []) cafe granted bonus refl refl 1

abbrev two_operations : List Operation
two_operations = use_up at_ten 30 staff ∷ void 30 staff ∷ []

operate_all-Turns_example :
    (c' : Coupon) × (find 30 (operate_all two_operations cafe).coupons ≡ some c') × Turns welcome c'
unfolding find
operate_all-Turns_example = operate_all-Turns two_operations cafe 30 welcome refl
