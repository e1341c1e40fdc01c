-- ===== src/EventCampaign/Service.antt =====
-- The operations of server/apps/event_campaign/services.py. A ValueError
-- stops an operation and leaves the database as it was.
use assen_platform.Common.{
  ℕ, ◌==◌, Bool, true, false, not, ◌&&◌, Option, none, some, ◌∷◌, Text, strip, is_some, is_none,
  is_nonempty, get_or,
}
use assen_platform.Common.Table.{find, update, exists}
use assen_platform.Errors.{Check, pass, stop_if, or_stop, ◌>>=◌, ◌>>◌}
use assen_platform.Identity.{Account}
use assen_platform.Commerce.Load.{Stamp}
use assen_platform.Reservation.Service.{is_fan}
use assen_platform.EventCampaign.Model.{
  EventType, CampaignStatus, EventReservationStatus, EventCampaign, EventReservation, campaign_row,
  hold_row, CampaignAction, CampaignDb, CampaignError, is_draft, is_published, is_over, is_hold,
  ends_early, is_barred, draft, published, closed, cancelled, event_reserved,
  event_reservation_cancelled, event_viewed, title_required, unknown_event_type, ends_before_start,
  not_editable, no_fields, not_published, already_held, cannot_cancel, does_not_exist,
  integrity_error, campaign_created, campaign_updated, campaign_published, campaign_unpublished,
  campaign_closed, cannot_publish, cannot_unpublish, already_closed, not_a_fan, unknown_status,
  fan_blocked,
}

-- `_audit_campaign`
abbrev pub audit_campaign : Account → CampaignAction → ℕ → CampaignDb → CampaignDb
audit_campaign actor action target db = record db {
  audits = record { actor = actor.id; action = action; target = target } ∷ db.audits;
}

-- `_emit_event_reservation`, and the call of `emit_event` for a view
abbrev pub emit_event : Account → CampaignAction → ℕ → CampaignDb → CampaignDb
emit_event actor action target db = record db {
  events = record { actor = actor.id; action = action; target = target } ∷ db.events;
}

pub record CampaignIn : Type 0 where
  pub title : Text
  pub description : Text
  pub event_type : Option EventType  -- `none` is outside of the enumeration
  pub cast : Option ℕ
  pub starts_at : ℕ
  pub ends_at : Option ℕ
  pub notice : Text

abbrev pub campaign_of : ℕ → ℕ → CampaignIn → EventType → EventCampaign
campaign_of id actor payload type = record {
  id = id;
  title = strip payload.title;
  description = strip payload.description;
  event_type = type;
  cast = payload.cast;
  starts_at = payload.starts_at;
  ends_at = payload.ends_at;
  notice = strip payload.notice;
  status = draft;
  created_by = actor;
}

unfoldable pub create_campaign :
    ℕ → Account → CampaignIn → CampaignDb → Check CampaignError (EventCampaign × CampaignDb)
create_campaign id actor payload db = do
  stop_if (not (is_nonempty (strip payload.title))) title_required
  type ← or_stop payload.event_type unknown_event_type
  stop_if (ends_early payload.ends_at payload.starts_at) ends_before_start
  stop_if (is_some (find id db.campaigns)) integrity_error
  let made = campaign_of id actor.id payload type
  pass (
    made,
    audit_campaign actor campaign_created made.id (record db { campaigns = made ∷ db.campaigns }),
  )

-- The arguments of `update_campaign`; `none` is an argument left out, and a type given as
-- `some none` is outside of the enumeration.
pub record CampaignChange : Type 0 where
  pub title : Option Text
  pub description : Option Text
  pub event_type : Option (Option EventType)
  pub starts_at : Option ℕ
  pub ends_at : Option ℕ
  pub notice : Option Text

abbrev is_blank : Option Text → Bool
is_blank none = false
is_blank (some s) = not (is_nonempty (strip s))

abbrev is_unknown : Option (Option EventType) → Bool
is_unknown (some none) = true
is_unknown _ = false

abbrev strip_or : Text → Option Text → Text
strip_or old none = old
strip_or old (some s) = strip s

abbrev type_or : EventType → Option (Option EventType) → EventType
type_or old (some (some type)) = type
type_or old _ = old

abbrev moment_or : Option ℕ → Option ℕ → Option ℕ
moment_or old none = old
moment_or old (some t) = some t

-- `not fields`
abbrev has_no_fields : CampaignChange → Bool
has_no_fields p =
    is_none p.title
    && is_none p.description
    && is_none p.event_type
    && is_none p.starts_at
    && is_none p.ends_at
    && is_none p.notice

-- The row with the fields that are given.
abbrev pub revise : CampaignChange → EventCampaign → EventCampaign
revise p c = record c {
  title = strip_or c.title p.title;
  description = strip_or c.description p.description;
  event_type = type_or c.event_type p.event_type;
  starts_at = get_or p.starts_at c.starts_at;
  ends_at = moment_or c.ends_at p.ends_at;
  notice = strip_or c.notice p.notice;
}

-- `campaign.save(...)` of a locked row.
abbrev pub save_campaign : (EventCampaign → EventCampaign) → EventCampaign → CampaignDb → CampaignDb
save_campaign f c db = record db { campaigns = update c.id (λ _. true) f db.campaigns }

unfoldable pub update_campaign :
    ℕ → Account → CampaignChange → CampaignDb → Check CampaignError (EventCampaign × CampaignDb)
update_campaign id actor payload db = do
  c ← or_stop (find id db.campaigns) does_not_exist
  stop_if (not (is_draft c.status)) not_editable
  stop_if (is_blank payload.title) title_required
  stop_if (is_unknown payload.event_type) unknown_event_type
  stop_if (has_no_fields payload) no_fields
  stop_if (ends_early (revise payload c).ends_at (revise payload c).starts_at) ends_before_start
  pass (
    revise payload c,
    audit_campaign actor campaign_updated c.id (save_campaign (revise payload) c db),
  )

abbrev pub set_campaign : CampaignStatus → EventCampaign → EventCampaign
set_campaign status c = record c { status = status }

unfoldable pub publish_campaign :
    ℕ → Account → CampaignDb → Check CampaignError (EventCampaign × CampaignDb)
publish_campaign id actor db = do
  c ← or_stop (find id db.campaigns) does_not_exist
  stop_if (not (is_draft c.status)) cannot_publish
  pass (
    set_campaign published c,
    audit_campaign actor campaign_published c.id (save_campaign (set_campaign published) c db),
  )

unfoldable pub unpublish_campaign :
    ℕ → Account → CampaignDb → Check CampaignError (EventCampaign × CampaignDb)
unpublish_campaign id actor db = do
  c ← or_stop (find id db.campaigns) does_not_exist
  stop_if (not (is_published c.status)) cannot_unpublish
  pass (
    set_campaign draft c,
    audit_campaign actor campaign_unpublished c.id (save_campaign (set_campaign draft) c db),
  )

unfoldable pub close_campaign :
    ℕ → Account → CampaignDb → Check CampaignError (EventCampaign × CampaignDb)
close_campaign id actor db = do
  c ← or_stop (find id db.campaigns) does_not_exist
  stop_if (is_over c.status) already_closed
  pass (
    set_campaign closed c,
    audit_campaign actor campaign_closed c.id (save_campaign (set_campaign closed) c db),
  )

-- An active hold of a fan on a campaign.
abbrev pub holds_event : ℕ → ℕ → EventReservation → Bool
holds_event campaign fan r = (r.campaign == campaign) && (r.fan == fan) && is_hold r.status

-- `status` is refused alike where it is `cancelled` and where it is outside of the enumeration.
unfoldable pub reserve_event :
    Stamp
    → ℕ
    → Account
    → Account
    → EventReservationStatus
    → CampaignDb
    → Check CampaignError (EventReservation × CampaignDb)
reserve_event stamp id fan actor status db = do
  stop_if (not (is_fan fan.role)) not_a_fan
  stop_if (not (is_hold status)) unknown_status
  stop_if (is_barred stamp.now fan.id db.blocks) fan_blocked
  c ← or_stop (find id db.campaigns) does_not_exist
  stop_if (not (is_published c.status)) not_published
  stop_if (exists (holds_event c.id fan.id) db.holds) already_held
  stop_if (is_some (find stamp.id db.holds)) integrity_error
  let made : EventReservation = record {
    id = stamp.id;
    campaign = c.id;
    fan = fan.id;
    status = status;
    created_by = actor.id;
  }
  pass (made, emit_event actor event_reserved made.id (record db { holds = made ∷ db.holds }))

abbrev pub set_hold : EventReservationStatus → EventReservation → EventReservation
set_hold status r = record r { status = status }

unfoldable pub cancel_event_reservation :
    ℕ → Account → CampaignDb → Check CampaignError (EventReservation × CampaignDb)
cancel_event_reservation id actor db = do
  r ← or_stop (find id db.holds) does_not_exist
  stop_if (not (is_hold r.status)) cannot_cancel
  pass (
    set_hold cancelled r,
    emit_event actor event_reservation_cancelled r.id
        (record db { holds = update r.id (λ _. true) (set_hold cancelled) db.holds }),
  )

unfoldable pub record_event_view : ℕ → Account → CampaignDb → Check CampaignError CampaignDb
record_event_view id fan db = do
  stop_if (not (is_fan fan.role)) not_a_fan
  c ← or_stop (find id db.campaigns) does_not_exist
  stop_if (not (is_published c.status)) not_published
  pass (emit_event fan event_viewed c.id db)
