-- ===== src/EventCampaign/Model.antt =====
-- server/apps/event_campaign/models.py, with the state and the tests of services.py.
use assen_platform.Common.{ℕ, ltb, Bool, true, false, ◌||◌, Option, none, some, List, Text}
use assen_platform.Common.Table.{Row}
use assen_platform.Safety.{UserBlock, BlockScope, has_active_block}

pub data EventType : Type 0 where
  birthday theme_day guest_day costume_day other_event : EventType

pub data CampaignStatus : Type 0 where
  draft published closed : CampaignStatus

pub data EventReservationStatus : Type 0 where
  reserved waitlisted cancelled : EventReservationStatus

pub record EventCampaign : Type 0 where
  pub id : ℕ
  pub title : Text
  pub description : Text
  pub event_type : EventType
  pub cast : Option ℕ
  pub starts_at : ℕ
  pub ends_at : Option ℕ
  pub notice : Text
  pub status : CampaignStatus
  pub created_by : ℕ

pub record EventReservation : Type 0 where
  pub id : ℕ
  pub campaign : ℕ
  pub fan : ℕ
  pub status : EventReservationStatus
  pub created_by : ℕ

instance abbrev pub campaign_row : Row EventCampaign
campaign_row = record { key = λ c. c.id }

instance abbrev pub hold_row : Row EventReservation
hold_row = record { key = λ r. r.id }

pub data CampaignAction : Type 0 where
  campaign_created campaign_updated campaign_published campaign_unpublished campaign_closed :
      CampaignAction
  event_reserved event_reservation_cancelled event_viewed : CampaignAction

-- An audit entry or an analytics event.
pub record CampaignTrace : Type 0 where
  pub actor : ℕ
  pub action : CampaignAction
  pub target : ℕ

pub record CampaignDb : Type 0 where
  pub blocks : List UserBlock
  pub campaigns : List EventCampaign
  pub holds : List EventReservation
  pub events : List CampaignTrace
  pub audits : List CampaignTrace

pub data CampaignError : Type 0 where
  title_required unknown_event_type ends_before_start not_editable no_fields : CampaignError
  cannot_publish cannot_unpublish already_closed not_a_fan unknown_status fan_blocked :
      CampaignError
  not_published already_held cannot_cancel does_not_exist integrity_error : CampaignError

abbrev pub is_draft : CampaignStatus → Bool
is_draft draft = true
is_draft _ = false

abbrev pub is_published : CampaignStatus → Bool
is_published published = true
is_published _ = false

abbrev pub is_over : CampaignStatus → Bool
is_over closed = true
is_over _ = false

-- `_ACTIVE_RESERVATION_STATUSES`
abbrev pub is_hold : EventReservationStatus → Bool
is_hold cancelled = false
is_hold _ = true

-- `ends_at is not None and ends_at < starts_at`
abbrev pub ends_early : Option ℕ → ℕ → Bool
ends_early none starts_at = false
ends_early (some ends_at) starts_at = ltb ends_at starts_at

-- `has_active_block` for `_RESERVE_BLOCK_SCOPES`
abbrev pub is_barred : ℕ → ℕ → List UserBlock → Bool
is_barred now fan blocks =
    has_active_block now fan BlockScope.reservation blocks
    || has_active_block now fan BlockScope.fandom_feature blocks
