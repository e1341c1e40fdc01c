-- ===== src/EventCampaign/Turns.antt =====
-- The operations of server/apps/event_campaign/services.py in any order.
use assen_platform.Common.{
  ℕ, ◌==◌, ◌≡◌, refl, ap, ◌∙◌, true, false, none, some, List, [], ◌∷◌, arith, Bool-cases, inl, inr,
}
use assen_platform.Common.Table.{find, update, find-update, key-find}
use assen_platform.Errors.{Check, pass, stop}
use assen_platform.Identity.{Account}
use assen_platform.Commerce.Load.{Stamp}
use assen_platform.EventCampaign.Model.{
  EventCampaign, EventReservationStatus, CampaignDb, CampaignError, campaign_row, hold_row, is_over,
}
use assen_platform.EventCampaign.Service.{
  CampaignIn, CampaignChange, create_campaign, update_campaign, publish_campaign,
  unpublish_campaign, close_campaign, reserve_event, cancel_event_reservation, record_event_view,
}
use assen_platform.EventCampaign.Holds.{
  IsOrderly, made-AreDated, saved-AreDated, held-AreHeldOnce, freed-AreHeldOnce,
}
use assen_platform.EventCampaign.Moves.{
  Moves, keeps, adds, saves, holds_one, frees, create-Moves, update-Moves, publish-Moves,
  unpublish-Moves, close-Moves, reserve-Moves, cancel-Moves, view-Moves,
}

pub data Turn : Type 0 where
  create : ℕ → Account → CampaignIn → Turn
  edit : ℕ → Account → CampaignChange → Turn
  publish : ℕ → Account → Turn
  unpublish : ℕ → Account → Turn
  close : ℕ → Account → Turn
  reserve : Stamp → ℕ → Account → Account → EventReservationStatus → Turn
  cancel : ℕ → Account → Turn
  view : ℕ → Account → Turn

-- The state after an operation; an error rolls it back.
abbrev kept : {A : Type 0} → CampaignDb → Check CampaignError (A × CampaignDb) → CampaignDb
kept db (pass (a, db')) = db'
kept db (stop error) = db

abbrev viewed : CampaignDb → Check CampaignError CampaignDb → CampaignDb
viewed db (pass db') = db'
viewed db (stop error) = db

unfoldable pub take_turn : Turn → CampaignDb → CampaignDb
take_turn (create id actor payload) db = kept db (create_campaign id actor payload db)
take_turn (edit id actor payload) db = kept db (update_campaign id actor payload db)
take_turn (publish id actor) db = kept db (publish_campaign id actor db)
take_turn (unpublish id actor) db = kept db (unpublish_campaign id actor db)
take_turn (close id actor) db = kept db (close_campaign id actor db)
take_turn (reserve stamp id fan actor status) db =
    kept db (reserve_event stamp id fan actor status db)
take_turn (cancel id actor) db = kept db (cancel_event_reservation id actor db)
take_turn (view id fan) db = viewed db (record_event_view id fan db)

unfoldable pub take_turns : List Turn → CampaignDb → CampaignDb
take_turns [] db = db
take_turns (t ∷ turns) db = take_turns turns (take_turn t db)

kept-Moves :
    {A : Type 0} (db : CampaignDb) (m : Check CampaignError (A × CampaignDb))
    → ((a : A) (db' : CampaignDb) → m ≡ pass (a, db') → Moves db db')
    → Moves db (kept db m)
kept-Moves db (pass (a, db')) each = each a db' refl
kept-Moves db (stop error) each = keeps refl refl

viewed-Moves :
    (db : CampaignDb) (m : Check CampaignError CampaignDb)
    → ((db' : CampaignDb) → m ≡ pass db' → Moves db db')
    → Moves db (viewed db m)
viewed-Moves db (pass db') each = each db' refl
viewed-Moves db (stop error) each = keeps refl refl

take_turn-Moves : (t : Turn) (db : CampaignDb) → Moves db (take_turn t db)
unfolding take_turn
take_turn-Moves (create id actor payload) db =
    kept-Moves db _ (λ c db' h. create-Moves id actor payload db db' c h)
take_turn-Moves (edit id actor payload) db =
    kept-Moves db _ (λ c db' h. update-Moves id actor payload db db' c h)
take_turn-Moves (publish id actor) db =
    kept-Moves db _ (λ c db' h. publish-Moves id actor db db' c h)
take_turn-Moves (unpublish id actor) db =
    kept-Moves db _ (λ c db' h. unpublish-Moves id actor db db' c h)
take_turn-Moves (close id actor) db = kept-Moves db _ (λ c db' h. close-Moves id actor db db' c h)
take_turn-Moves (reserve stamp id fan actor status) db =
    kept-Moves db _ (λ r db' h. reserve-Moves stamp id fan actor status db db' r h)
take_turn-Moves (cancel id actor) db = kept-Moves db _ (λ r db' h. cancel-Moves id actor db db' r h)
take_turn-Moves (view id fan) db = viewed-Moves db _ (λ db' h. view-Moves id fan db db' h)

Moves-IsOrderly : (db db' : CampaignDb) → Moves db db' → IsOrderly db → IsOrderly db'
Moves-IsOrderly db db' (keeps c h) v = record { held = rw h v.held; dated = rw c v.dated }
Moves-IsOrderly db db' (adds made new fine c h) v = record {
  held = rw h v.held;
  dated = rw c (made-AreDated made db.campaigns fine v.dated);
}
Moves-IsOrderly db db' (saves id old f e live ids fine c h) v = record {
  held = rw h v.held;
  dated = rw c (saved-AreDated id f db.campaigns old ids e (fine (v.dated id old e)) v.dated);
}
Moves-IsOrderly db db' (holds_one r new free c h) v = record {
  held = rw h (held-AreHeldOnce r db.holds new free v.held);
  dated = rw c v.dated;
}
Moves-IsOrderly db db' (frees id r e c h) v = record {
  held = rw h (freed-AreHeldOnce id r db.holds e v.held);
  dated = rw c v.dated;
}

-- From tables in which holds have unique keys, a fan has at most one active hold on a campaign and
-- no campaign ends before it starts, any sequence of creating, editing, publishing, unpublishing
-- and closing campaigns, and of reserving, cancelling and viewing, refused ones included, keeps
-- them so.
pub take_turns-IsOrderly :
    (turns : List Turn) (db : CampaignDb) → IsOrderly db → IsOrderly (take_turns turns db)
unfolding take_turns
take_turns-IsOrderly [] db v = v
take_turns-IsOrderly (t ∷ turns) db v =
    take_turns-IsOrderly turns (take_turn t db)
      (Moves-IsOrderly db (take_turn t db) (take_turn-Moves t db) v)

saved-closed :
    (k id : ℕ) (f : EventCampaign → EventCampaign) (cs : List EventCampaign) (old c : EventCampaign)
    → ((x : EventCampaign) → (f x).id ≡ x.id)
    → find k cs ≡ some old
    → is_over old.status ≡ false
    → find id cs ≡ some c
    → is_over c.status ≡ true
    → find id (update old.id (λ _. true) f cs) ≡ some c
saved-closed k id f cs old c ids found live e over = elim (Bool-cases (old.id == id)) [
  | inr away ↦ ground (arith, away, find-update old.id (λ _. true) f ids id cs)
  | inl here ↦
      let at : old.id ≡ k = key-find k cs old found in
      let mine : find k cs ≡ some c = ap (λ (i : ℕ). find i cs) (ground arith) ∙ e in ground arith
]

Moves-closed :
    (db db' : CampaignDb) (id : ℕ) (c : EventCampaign)
    → Moves db db'
    → find id db.campaigns ≡ some c
    → is_over c.status ≡ true
    → find id db'.campaigns ≡ some c
unfolding find
Moves-closed db db' id c (keeps same h) e over = rw same e
Moves-closed db db' id c (adds made new fine same h) e over =
    rw same (elim (Bool-cases (made.id == id)) [
      | inl here ↦
          let none_there : find id db.campaigns ≡ none =
            ap (λ (i : ℕ). find i db.campaigns) (ground arith) ∙ new in
          ground arith
      | inr away ↦ ground (arith, away, e)
    ])
Moves-closed db db' id c (saves k old f found live ids fine same h) e over =
    rw same (saved-closed k id f db.campaigns old c ids found live e over)
Moves-closed db db' id c (holds_one r new free same h) e over = rw same e
Moves-closed db db' id c (frees k r found same h) e over = rw same e

-- Whatever operations follow, a campaign that is closed stays in the table as it is.
pub take_turns-closed :
    (turns : List Turn) (db : CampaignDb) (id : ℕ) (c : EventCampaign)
    → find id db.campaigns ≡ some c
    → is_over c.status ≡ true
    → find id (take_turns turns db).campaigns ≡ some c
unfolding take_turns
take_turns-closed [] db id c e over = e
take_turns-closed (t ∷ turns) db id c e over =
    take_turns-closed turns (take_turn t db) id c
      (Moves-closed db (take_turn t db) id c (take_turn-Moves t db) e over) over
