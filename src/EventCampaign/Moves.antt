-- ===== src/EventCampaign/Moves.antt =====
-- What an operation of server/apps/event_campaign/services.py does to its tables.
use assen_platform.Common.{
  ℕ, ◌≡◌, refl, true, false, none, some, ◌∷◌, arith, Option-cases, inl, inr,
}
use assen_platform.Common.Table.{find, update, exists}
use assen_platform.Errors.{pass}
use assen_platform.Identity.{Account}
use assen_platform.Commerce.Load.{Stamp}
use assen_platform.EventCampaign.Model.{
  EventCampaign, CampaignStatus, EventReservation, EventReservationStatus, CampaignDb, campaign_row,
  hold_row, is_over, ends_early,
}
use assen_platform.EventCampaign.Service.{
  CampaignIn, CampaignChange, holds_event, revise, set_campaign, set_hold, campaign_of,
  create_campaign, update_campaign, publish_campaign, unpublish_campaign, close_campaign,
  reserve_event, cancel_event_reservation, record_event_view,
}

-- What an operation does to the two tables.
pub data Moves (db db' : CampaignDb) : Type 0 where
  keeps : db'.campaigns ≡ db.campaigns → db'.holds ≡ db.holds → Moves db db'
  adds :
      (c : EventCampaign)
      → find c.id db.campaigns ≡ none
      → ends_early c.ends_at c.starts_at ≡ false
      → db'.campaigns ≡ c ∷ db.campaigns
      → db'.holds ≡ db.holds
      → Moves db db'
  saves :
      (id : ℕ) (c : EventCampaign) (f : EventCampaign → EventCampaign)
      → find id db.campaigns ≡ some c
      → is_over c.status ≡ false
      → ((x : EventCampaign) → (f x).id ≡ x.id)
      → (ends_early c.ends_at c.starts_at ≡ false
          → ends_early (f c).ends_at (f c).starts_at ≡ false)
      → db'.campaigns ≡ update c.id (λ _. true) f db.campaigns
      → db'.holds ≡ db.holds
      → Moves db db'
  holds_one :
      (r : EventReservation)
      → find r.id db.holds ≡ none
      → exists (holds_event r.campaign r.fan) db.holds ≡ false
      → db'.campaigns ≡ db.campaigns
      → db'.holds ≡ r ∷ db.holds
      → Moves db db'
  frees :
      (id : ℕ) (r : EventReservation)
      → find id db.holds ≡ some r
      → db'.campaigns ≡ db.campaigns
      → db'.holds ≡ update r.id (λ _. true) (set_hold EventReservationStatus.cancelled) db.holds
      → Moves db db'

pub create-Moves :
    (id : ℕ) (actor : Account) (payload : CampaignIn) (db db' : CampaignDb) (c : EventCampaign)
    → create_campaign id actor payload db ≡ pass (c, db')
    → Moves db db'
unfolding create_campaign
create-Moves id actor payload db db' c h = elim (Option-cases payload.event_type) [
  | inl e ↦ ground arith
  | inr (type, e) ↦ elim (Option-cases (find id db.campaigns)) [
    | inl new ↦
        adds (campaign_of id actor.id payload type) new (ground arith) (ground arith) (ground arith)
    | inr (old, taken) ↦ ground arith
  ]
]

pub update-Moves :
    (id : ℕ) (actor : Account) (payload : CampaignChange) (db db' : CampaignDb) (c : EventCampaign)
    → update_campaign id actor payload db ≡ pass (c, db')
    → Moves db db'
unfolding update_campaign
update-Moves id actor payload db db' c h = elim (Option-cases (find id db.campaigns)) [
  | inl e ↦ ground arith
  | inr (old, e) ↦
      saves id old (revise payload) e (ground arith) (λ x. refl) (λ x. ground arith) (ground arith)
        (ground arith)
]

pub publish-Moves :
    (id : ℕ) (actor : Account) (db db' : CampaignDb) (c : EventCampaign)
    → publish_campaign id actor db ≡ pass (c, db')
    → Moves db db'
unfolding publish_campaign
publish-Moves id actor db db' c h = elim (Option-cases (find id db.campaigns)) [
  | inl e ↦ ground arith
  | inr (old, e) ↦
      saves id old (set_campaign CampaignStatus.published) e (ground arith) (λ x. refl) (λ x. x)
        (ground arith) (ground arith)
]

pub unpublish-Moves :
    (id : ℕ) (actor : Account) (db db' : CampaignDb) (c : EventCampaign)
    → unpublish_campaign id actor db ≡ pass (c, db')
    → Moves db db'
unfolding unpublish_campaign
unpublish-Moves id actor db db' c h = elim (Option-cases (find id db.campaigns)) [
  | inl e ↦ ground arith
  | inr (old, e) ↦
      saves id old (set_campaign CampaignStatus.draft) e (ground arith) (λ x. refl) (λ x. x)
        (ground arith) (ground arith)
]

pub close-Moves :
    (id : ℕ) (actor : Account) (db db' : CampaignDb) (c : EventCampaign)
    → close_campaign id actor db ≡ pass (c, db')
    → Moves db db'
unfolding close_campaign
close-Moves id actor db db' c h = elim (Option-cases (find id db.campaigns)) [
  | inl e ↦ ground arith
  | inr (old, e) ↦
      saves id old (set_campaign CampaignStatus.closed) e (ground arith) (λ x. refl) (λ x. x)
        (ground arith) (ground arith)
]

pub reserve-Moves :
    (stamp : Stamp) (id : ℕ) (fan actor : Account) (status : EventReservationStatus)
    (db db' : CampaignDb) (r : EventReservation)
    → reserve_event stamp id fan actor status db ≡ pass (r, db')
    → Moves db db'
unfolding reserve_event
reserve-Moves stamp id fan actor status db db' r h = elim (Option-cases (find id db.campaigns)) [
  | inl e ↦ ground arith
  | inr (c, e) ↦ elim (Option-cases (find stamp.id db.holds)) [
    | inl new ↦ holds_one r (ground arith) (ground arith) (ground arith) (ground arith)
    | inr (old, taken) ↦ ground arith
  ]
]

pub cancel-Moves :
    (id : ℕ) (actor : Account) (db db' : CampaignDb) (r : EventReservation)
    → cancel_event_reservation id actor db ≡ pass (r, db')
    → Moves db db'
unfolding cancel_event_reservation
cancel-Moves id actor db db' r h = elim (Option-cases (find id db.holds)) [
  | inl e ↦ ground arith
  | inr (old, e) ↦ frees id old e (ground arith) (ground arith)
]

pub view-Moves :
    (id : ℕ) (fan : Account) (db db' : CampaignDb)
    → record_event_view id fan db ≡ pass db'
    → Moves db db'
unfolding record_event_view
view-Moves id fan db db' h = elim (Option-cases (find id db.campaigns)) [
  | inl e ↦ ground arith
  | inr (c, e) ↦ keeps (ground arith) (ground arith)
]
