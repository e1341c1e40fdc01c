-- ===== src/Coupon/Turns.antt =====
-- The states of a coupon over the operations of server/apps/coupon/services.py.
use mathlib.Core.Path.{subst}
use assen_platform.Common.{
  ℕ, ◌==◌, ◌≡◌, refl, ap, ◌∙◌, Bool, true, false, Option, none, some, List, [], ◌∷◌, inl, inr,
  arith, Option-cases, Bool-cases,
}
use assen_platform.Common.Table.{find, update, find-update, key-find}
use assen_platform.Errors.{Check, pass, stop}
use assen_platform.Identity.{Account}
use assen_platform.Commerce.Load.{Stamp}
use assen_platform.Coupon.Model.{Coupon, CouponType, CouponStatus, CouponDb, coupon_row, traced}
use assen_platform.Coupon.Service.{
  CouponError, issue_coupon, redeem_coupon, cancel_coupon, expire_coupon, redeem, set_status,
}

-- The states that a coupon in one state can be in later.
abbrev pub may_become : CouponStatus → CouponStatus → Bool
may_become CouponStatus.active t = true
may_become CouponStatus.redeemed CouponStatus.redeemed = true
may_become CouponStatus.redeemed CouponStatus.cancelled = true
may_become CouponStatus.cancelled CouponStatus.cancelled = true
may_become CouponStatus.expired CouponStatus.expired = true
may_become _ _ = false

may_become_refl : (s : CouponStatus) → may_become s s ≡ true
may_become_refl s = ground arith

may_become_trans :
    (s t u : CouponStatus) → may_become s t ≡ true → may_become t u ≡ true → may_become s u ≡ true
may_become_trans s t u h k = ground arith

pub data Operation : Type 0 where
  issue : Stamp → Account → Option CouponType → Account → Option ℕ → Operation
  use_up : Stamp → ℕ → Account → Operation
  void : ℕ → Account → Operation
  lapse : ℕ → Account → Operation

-- The state after an operation; an error rolls it back.
abbrev committed : CouponDb → Check CouponError (Coupon × CouponDb) → CouponDb
committed db (pass (c, db')) = db'
committed db (stop r) = db

unfoldable pub operate : Operation → CouponDb → CouponDb
operate (issue stamp fan coupon_type actor expires_at) db =
    committed db (issue_coupon stamp fan coupon_type actor expires_at db)
operate (use_up stamp id actor) db = committed db (redeem_coupon stamp id actor db)
operate (void id actor) db = committed db (cancel_coupon id actor db)
operate (lapse id actor) db = committed db (expire_coupon id actor db)

unfoldable pub operate_all : List Operation → CouponDb → CouponDb
operate_all [] db = db
operate_all (o ∷ operations) db = operate_all operations (operate o db)

-- A coupon later: in a state that its state may become, of the same fan and type.
pub record Turns (c c' : Coupon) : Type 0 where
  pub allowed : may_become c.status c'.status ≡ true
  pub same_fan : c'.fan ≡ c.fan
  pub same_type : c'.coupon_type ≡ c.coupon_type

abbrev Kept : ℕ → List Coupon → List Coupon → Type 0
Kept i cs cs' =
    (c : Coupon) → find i cs ≡ some c → (c' : Coupon) × (find i cs' ≡ some c') × Turns c c'

Kept-refl : (i : ℕ) (cs : List Coupon) → Kept i cs cs
Kept-refl i cs c e =
    (c, e, record { allowed = may_become_refl c.status; same_fan = refl; same_type = refl })

-- A write on the row of a coupon that was found.
save-Kept :
    (i : ℕ) (coupon : Coupon) (f : Coupon → Coupon) (cs : List Coupon)
    → ((x : Coupon) → (f x).id ≡ x.id)
    → find coupon.id cs ≡ some coupon
    → Turns coupon (f coupon)
    → Kept i cs (update coupon.id (λ _. true) f cs)
save-Kept i coupon f cs ids found turns c e = elim (Bool-cases (coupon.id == i)) [
  | inr other ↦ (
    c,
    ground (arith, find-update coupon.id (λ _. true) f ids i cs),
    record { allowed = may_become_refl c.status; same_fan = refl; same_type = refl },
  )
  | inl same ↦
      let one : coupon ≡ c =
        ground (arith, found, ap (λ (k : ℕ). find k cs) {x = coupon.id} {y = i}) in
      (
        f c,
        ground (arith, find-update coupon.id (λ _. true) f ids i cs),
        subst (λ (x : Coupon). Turns x (f x)) one turns,
      )
]

committed-Kept :
    (i : ℕ) (db : CouponDb) (m : Check CouponError (Coupon × CouponDb))
    → ((c : Coupon) (db' : CouponDb) → m ≡ pass (c, db') → Kept i db.coupons db'.coupons)
    → Kept i db.coupons (committed db m).coupons
committed-Kept i db (pass (c, db')) each = each c db' refl
committed-Kept i db (stop r) each = Kept-refl i db.coupons

issue_coupon-pass :
    (stamp : Stamp) (fan : Account) (coupon_type : Option CouponType) (actor : Account)
    (expires_at : Option ℕ) (db db' : CouponDb) (c : Coupon)
    → issue_coupon stamp fan coupon_type actor expires_at db ≡ pass (c, db')
    → (find c.id db.coupons ≡ none) × (db'.coupons ≡ c ∷ db.coupons)
unfolding issue_coupon traced
issue_coupon-pass stamp fan coupon_type actor expires_at db db' c h =
    elim (Option-cases (find stamp.id db.coupons)) [
      | inl e ↦ (ground arith, ground arith)
      | inr (old, e) ↦ (ground arith, ground arith)
    ]

issued-Kept : (i : ℕ) (c : Coupon) (cs : List Coupon) → find c.id cs ≡ none → Kept i cs (c ∷ cs)
unfolding find
issued-Kept i c cs new o e = (
  o,
  ground (arith, new, ap (λ (k : ℕ). find k cs) {x = c.id} {y = i}),
  record { allowed = may_become_refl o.status; same_fan = refl; same_type = refl },
)

-- What a transition that succeeds has done: it has found the row, in a state that may become the
-- new one, and has written it.
abbrev Saves : ℕ → (Coupon → Coupon) → CouponDb → CouponDb → Type 0
Saves id f db db' =
    (coupon : Coupon) × (find coupon.id db.coupons ≡ some coupon)
    × Turns coupon (f coupon)
    × (db'.coupons ≡ update coupon.id (λ _. true) f db.coupons)

saved :
    (id : ℕ) (f : Coupon → Coupon) (db db' : CouponDb) (coupon : Coupon)
    → find id db.coupons ≡ some coupon
    → Turns coupon (f coupon)
    → db'.coupons ≡ update coupon.id (λ _. true) f db.coupons
    → Saves id f db db'
saved id f db db' coupon e turns same = (
  coupon,
  ground (
    arith,
    key-find id db.coupons coupon e,
    ap (λ (k : ℕ). find k db.coupons) {x = id} {y = coupon.id},
  ),
  turns,
  same,
)

redeem_coupon-Saves :
    (stamp : Stamp) (id : ℕ) (actor : Account) (db db' : CouponDb) (c : Coupon)
    → redeem_coupon stamp id actor db ≡ pass (c, db')
    → Saves id (redeem stamp) db db'
unfolding redeem_coupon traced
redeem_coupon-Saves stamp id actor db db' c h = elim (Option-cases (find id db.coupons)) [
  | inl e ↦ ground arith
  | inr (coupon, e) ↦
      saved id (redeem stamp) db db' coupon e
        (record { allowed = ground arith; same_fan = refl; same_type = refl }) (ground arith)
]

cancel_coupon-Saves :
    (id : ℕ) (actor : Account) (db db' : CouponDb) (c : Coupon)
    → cancel_coupon id actor db ≡ pass (c, db')
    → Saves id (set_status CouponStatus.cancelled) db db'
unfolding cancel_coupon traced
cancel_coupon-Saves id actor db db' c h = elim (Option-cases (find id db.coupons)) [
  | inl e ↦ ground arith
  | inr (coupon, e) ↦
      saved id (set_status CouponStatus.cancelled) db db' coupon e
        (record { allowed = ground arith; same_fan = refl; same_type = refl }) (ground arith)
]

expire_coupon-Saves :
    (id : ℕ) (actor : Account) (db db' : CouponDb) (c : Coupon)
    → expire_coupon id actor db ≡ pass (c, db')
    → Saves id (set_status CouponStatus.expired) db db'
unfolding expire_coupon traced
expire_coupon-Saves id actor db db' c h = elim (Option-cases (find id db.coupons)) [
  | inl e ↦ ground arith
  | inr (coupon, e) ↦
      saved id (set_status CouponStatus.expired) db db' coupon e
        (record { allowed = ground arith; same_fan = refl; same_type = refl }) (ground arith)
]

Saves-Kept :
    (i id : ℕ) (f : Coupon → Coupon) (db db' : CouponDb)
    → ((x : Coupon) → (f x).id ≡ x.id)
    → Saves id f db db'
    → Kept i db.coupons db'.coupons
Saves-Kept i id f db db' ids (coupon, found, turns, same) =
    rw same (save-Kept i coupon f db.coupons ids found turns)

operate-Kept : (o : Operation) (db : CouponDb) (i : ℕ) → Kept i db.coupons (operate o db).coupons
unfolding operate
operate-Kept (issue stamp fan coupon_type actor expires_at) db i = committed-Kept i db _ (λ c db' h.
    let (new, same) = issue_coupon-pass stamp fan coupon_type actor expires_at db db' c h in
    rw same (issued-Kept i c db.coupons new))
operate-Kept (use_up stamp id actor) db i = committed-Kept i db _ (λ c db' h.
    Saves-Kept i id (redeem stamp) db db' (λ x. refl)
      (redeem_coupon-Saves stamp id actor db db' c h))
operate-Kept (void id actor) db i = committed-Kept i db _ (λ c db' h.
    Saves-Kept i id (set_status CouponStatus.cancelled) db db' (λ x. refl)
      (cancel_coupon-Saves id actor db db' c h))
operate-Kept (lapse id actor) db i = committed-Kept i db _ (λ c db' h.
    Saves-Kept i id (set_status CouponStatus.expired) db db' (λ x. refl)
      (expire_coupon-Saves id actor db db' c h))

-- Over any sequence of issues, redemptions, cancellations and expiries, refused ones included, a
-- coupon stays in the table, of the same fan and type, and in a state that its state may become:
-- an active one any, a redeemed one redeemed or cancelled, and a cancelled or expired one its own.
pub operate_all-Turns :
    (operations : List Operation) (db : CouponDb) (i : ℕ) (c : Coupon)
    → find i db.coupons ≡ some c
    → (c' : Coupon) × (find i (operate_all operations db).coupons ≡ some c') × Turns c c'
unfolding operate_all
operate_all-Turns [] db i c e = Kept-refl i db.coupons c e
operate_all-Turns (o ∷ operations) db i c e =
    let (c₁, e₁, t₁) = operate-Kept o db i c e in
    let (c₂, e₂, t₂) = operate_all-Turns operations (operate o db) i c₁ e₁ in
    (
      c₂,
      e₂,
      record {
        allowed = may_become_trans c.status c₁.status c₂.status t₁.allowed t₂.allowed;
        same_fan = t₂.same_fan ∙ t₁.same_fan;
        same_type = t₂.same_type ∙ t₁.same_type;
      },
    )
