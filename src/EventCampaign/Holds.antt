-- ===== src/EventCampaign/Holds.antt =====
-- The operations of server/apps/event_campaign/services.py in any order: holds, dates and closing.
use assen_platform.Common.{
  ℕ, ◌==◌, ◌≤◌, ◌≡◌, refl, ap, sym, ◌∙◌, true, false, none, some, List, ◌∷◌, arith, Bool-cases, inl,
  inr, if◌then◌else◌,
}
use assen_platform.Common.Table.{
  find, update, exists, count, Distinct, find-update, total-update, update-Distinct, key-find,
  count_of_not-exists, write_if,
}
use assen_platform.EventCampaign.Model.{
  EventCampaign, EventReservation, EventReservationStatus, CampaignDb, campaign_row, hold_row,
  ends_early,
}
use assen_platform.EventCampaign.Service.{holds_event, set_hold}

-- Keys are unique, and a fan has at most one active hold on a campaign.
pub record AreHeldOnce (rs : List EventReservation) : Type 0 where
  pub ids : Distinct rs
  pub one : (campaign fan : ℕ) → count (holds_event campaign fan) rs ≤ 1

-- No campaign ends before it starts.
abbrev pub AreDated : List EventCampaign → Type 0
AreDated cs =
    (id : ℕ) (c : EventCampaign) → find id cs ≡ some c → ends_early c.ends_at c.starts_at ≡ false

pub record IsOrderly (db : CampaignDb) : Type 0 where
  pub held : AreHeldOnce db.holds
  pub dated : AreDated db.campaigns

found_at : (id : ℕ) (cs : List EventCampaign) (c : EventCampaign) → find id cs ≡ some c → c.id ≡ id
found_at id cs c e = key-find id cs c e

pub made-AreDated :
    (c : EventCampaign) (cs : List EventCampaign)
    → ends_early c.ends_at c.starts_at ≡ false
    → AreDated cs
    → AreDated (c ∷ cs)
unfolding find
made-AreDated c cs fine v id x e = elim (Bool-cases (c.id == id)) [
  | inl here ↦ let same : some c ≡ some x = ground (arith, here) in ground (arith, fine)
  | inr away ↦ v id x (ground (arith, away))
]

pub saved-AreDated :
    (k : ℕ) (f : EventCampaign → EventCampaign) (cs : List EventCampaign) (c : EventCampaign)
    → ((x : EventCampaign) → (f x).id ≡ x.id)
    → find k cs ≡ some c
    → ends_early (f c).ends_at (f c).starts_at ≡ false
    → AreDated cs
    → AreDated (update c.id (λ _. true) f cs)
saved-AreDated k f cs c ids found fine v id x e =
    let at : c.id ≡ k = found_at k cs c found in
    let read = find-update c.id (λ _. true) f ids id cs in
    elim (Bool-cases (c.id == id)) [
      | inr away ↦ v id x (ground (arith, away, read))
      | inl here ↦
          let mine : find id cs ≡ some c = ap (λ (i : ℕ). find i cs) (ground arith) ∙ found in
          let written : some (f c) ≡ some x =
            sym (read ∙ rw here (ap (write_if (λ _. true) f) mine)) ∙ e in
          ground (arith, fine)
    ]

pub held-AreHeldOnce :
    (r : EventReservation) (rs : List EventReservation)
    → find r.id rs ≡ none
    → exists (holds_event r.campaign r.fan) rs ≡ false
    → AreHeldOnce rs
    → AreHeldOnce (r ∷ rs)
unfolding Distinct
held-AreHeldOnce r rs new free v = record {
  ids = (new, v.ids);
  one = λ campaign fan. elim (Bool-cases (holds_event campaign fan r)) [
    | inr other ↦ ground (arith, v.one campaign fan)
    | inl taken ↦
        let c : r.campaign ≡ campaign = ground arith in
        let f : r.fan ≡ fan = ground arith in
        ground (
          arith,
          count_of_not-exists (holds_event campaign fan) rs (
              ap (λ (i : ℕ). exists (holds_event i fan) rs) (sym c)
              ∙ ap (λ (i : ℕ). exists (holds_event r.campaign i) rs) (sym f)
              ∙ free),
        )
  ];
}

pub freed-AreHeldOnce :
    (k : ℕ) (r : EventReservation) (rs : List EventReservation)
    → find k rs ≡ some r
    → AreHeldOnce rs
    → AreHeldOnce (update r.id (λ _. true) (set_hold EventReservationStatus.cancelled) rs)
freed-AreHeldOnce k r rs found v =
    let there : find r.id rs ≡ some r = ap (λ (i : ℕ). find i rs) (key-find k rs r found) ∙ found in
    record {
      ids =
          update-Distinct r.id (λ _. true) (set_hold EventReservationStatus.cancelled) (λ x. refl)
            rs v.ids;
      one = λ campaign fan. ground (
        arith,
        v.one campaign fan,
        total-update r.id (λ _. true) (set_hold EventReservationStatus.cancelled)
            (λ x. if holds_event campaign fan x then 1 else 0) rs r v.ids there refl,
      );
    }
