-- ===== src/EventCampaign/Tests.antt =====
-- The theorems on server/apps/event_campaign at runs on small tables.
use assen_platform.Common.{◌≡◌, refl, true, false, none, some, [], ◌∷◌, List, arith}
use assen_platform.Common.Table.{find, Distinct}
use assen_platform.Identity.{Account, Role, KycStatus}
use assen_platform.Commerce.Load.{Stamp}
use assen_platform.EventCampaign.Model.{
  EventType, EventCampaign, CampaignStatus, EventReservationStatus, CampaignDb, campaign_row,
  hold_row,
}
use assen_platform.EventCampaign.Service.{CampaignIn, campaign_of, set_campaign}
use assen_platform.EventCampaign.Holds.{IsOrderly}
use assen_platform.EventCampaign.Turns.{
  Turn, create, publish, close, reserve, cancel, take_turns, take_turns-IsOrderly,
  take_turns-closed,
}

abbrev visitor : Account
visitor = record {
  id = 1;
  role = Role.fan;
  is_active = true;
  adult_verified = false;
  kyc_status = KycStatus.verified;
}

abbrev first_hold : Stamp
first_hold = record { now = 10; id = 70 }

abbrev second_hold : Stamp
second_hold = record { now = 12; id = 71 }

abbrev party : CampaignIn
party = record {
  title = 65 ∷ [];
  description = [];
  event_type = some EventType.birthday;
  cast = none;
  starts_at = 20;
  ends_at = some 30;
  notice = [];
}

abbrev no_tables : CampaignDb
no_tables = record { blocks = []; campaigns = []; holds = []; events = []; audits = [] }

no_tables-IsOrderly : IsOrderly no_tables
unfolding Distinct find
no_tables-IsOrderly = record {
  held = record { ids = tt; one = λ campaign fan. omega arith };
  dated = λ id c e. cc;
}

-- A campaign that is published, held, held twice, given back and held again, and closed.
abbrev season : List Turn
season =
    create 5 visitor party
    ∷ publish 5 visitor
    ∷ reserve first_hold 5 visitor visitor EventReservationStatus.waitlisted
    ∷ reserve second_hold 5 visitor visitor EventReservationStatus.reserved
    ∷ cancel 70 visitor
    ∷ reserve second_hold 5 visitor visitor EventReservationStatus.reserved
    ∷ close 5 visitor
    ∷ []

abbrev over : EventCampaign
over = set_campaign CampaignStatus.closed (campaign_of 5 1 party EventType.birthday)

abbrev over_db : CampaignDb
over_db = record { blocks = []; campaigns = over ∷ []; holds = []; events = []; audits = [] }

take_turns-IsOrderly_example : IsOrderly (take_turns season no_tables)
take_turns-IsOrderly_example = take_turns-IsOrderly season no_tables no_tables-IsOrderly

take_turns-closed_example : find 5 (take_turns season over_db).campaigns ≡ some over
unfolding find
take_turns-closed_example = take_turns-closed season over_db 5 over refl refl
