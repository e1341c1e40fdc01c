-- ===== src/CommerceBridge/Deliveries.antt =====
-- server/apps/commerce_bridge: deliveries of webhooks, in any order and as often as the shop repeats
-- them.
use assen_platform.Common.{
  ◌≡◌, ◌≢◌, refl, sym, ap, ◌∙◌, Bool, true, Option, none, some, List, [], ◌∷◌, Text, text_eq_iff,
  arith, Bool-cases, ◌⊎◌, inl, inr,
}
use mathlib.Core.Path.{subst}
use assen_platform.Common.Table.{exists, count}
use assen_platform.Errors.{Check, pass, stop, pass-cases, ◌>>=◌}
use assen_platform.Payment.Ledger.{attempt_row, settles_external}
use assen_platform.CommerceBridge.Model.{
  CommerceProvider, ExternalOrderStatus, ExternalCommerceOrder, BridgeDb, external_order_row,
  NormalizedEvent, WebhookLibrary,
}
use assen_platform.CommerceBridge.Service.{
  BridgeError, BridgeSettings, BridgeStamp, is_receipt, received, is_paid, apply_event, admit,
  ingest_event, ingest_webhook, commerce_webhook, answered, WebhookAnswer, ok,
}
use assen_platform.CommerceBridge.Settlement.{
  IsLedgered, apply_amount-Applied, received-IsLedgered, provider_eq_refl,
}

answered_stop :
    (db : BridgeDb) (e : BridgeError)
    → ((answered db (stop e)).1 ≡ db) × ((dup : Bool) → (answered db (stop e)).0 ≢ ok dup)
answered_stop db BridgeError.disabled = (refl, λ dup h. cc)
answered_stop db BridgeError.unverified = (refl, λ dup h. cc)
answered_stop db BridgeError.integrity = (refl, λ dup h. cc)
answered_stop db BridgeError.type_error = (refl, λ dup h. cc)
answered_stop db BridgeError.unknown_provider = (refl, λ dup h. cc)
answered_stop db BridgeError.no_adapter = (refl, λ dup h. cc)
answered_stop db BridgeError.unknown_event_type = (refl, λ dup h. cc)

answered_pass :
    (db db' : BridgeDb) (result : Option ExternalCommerceOrder)
    → (answered db (pass (result, db'))).1 ≡ db'
answered_pass db db' none = refl
answered_pass db db' (some order) = refl

Check-cases :
    {A : Type 0} (c : Check BridgeError A)
    → ((a : A) × (c ≡ pass a)) ⊎ ((e : BridgeError) × (c ≡ stop e))
Check-cases (pass a) = inl (a, refl)
Check-cases (stop e) = inr (e, refl)

-- One delivery of a webhook, with the clock and the ids of its request.
pub record Delivery : Type 0 where
  pub stamp : BridgeStamp
  pub provider : Text
  pub headers : List (Text × Text)
  pub raw_body : Text

module _ (library : WebhookLibrary) (settings : BridgeSettings) where
  abbrev pub deliver : Delivery → BridgeDb → WebhookAnswer × BridgeDb
  deliver d db = commerce_webhook library settings d.stamp d.provider d.headers d.raw_body db

  unfoldable pub deliver_all : List Delivery → BridgeDb → BridgeDb
  deliver_all [] db = db
  deliver_all (d ∷ deliveries) db = deliver_all deliveries (deliver d db).1

  module _ (stamp : BridgeStamp) where
    ingest_event-cases :
        (provider : CommerceProvider) (event : NormalizedEvent) (status : ExternalOrderStatus)
        (db db' : BridgeDb) (result : Option ExternalCommerceOrder)
        → IsLedgered db
        → ingest_event library settings stamp provider event status db ≡ pass (result, db')
        → IsLedgered db'
          × (exists (is_receipt provider event.event_id) db'.receipts ≡ true)
          × ((p : CommerceProvider) (e : Text)
              → exists (is_receipt p e) db.receipts ≡ true
              → exists (is_receipt p e) db'.receipts ≡ true)
          × ((order : ExternalCommerceOrder)
              → result ≡ some order
              → is_paid order.status ≡ true
              → count (settles_external order.id) db'.attempts ≡ 1)
    unfolding ingest_event apply_event
    ingest_event-cases provider event status db db' result v h =
        elim (Bool-cases (exists (is_receipt provider event.event_id) db.receipts)) [
          | inl seen ↦
              let same : db ≡ db' = ground arith in
              let none_given : result ≡ none = ground arith in
              (
                subst IsLedgered same v,
                rw (← same) seen,
                λ p e x. rw (← same) x,
                λ order g settled. cc,
              )
          | inr new ↦
              let db1 = received provider event db in
              let applied : (apply_event stamp provider event status db1 >>= λ (order, db2).
              pass (some order, db2))
                  ≡ pass (result, db') =
                rw new at h in
              let ((order, db2), event_applied, returned) =
                pass-cases (apply_event stamp provider event status db1) applied in
              let (w, receipts, s, credited) =
                apply_amount-Applied stamp provider event status db1 db2 order event.amount
                  (received-IsLedgered provider event db v new) event_applied in
              let same : db2 ≡ db' = ground arith in
              (
                subst IsLedgered same w,
                rw (← same, receipts)
                    (ground (
                      arith,
                      provider_eq_refl provider,
                      text_eq_iff event.event_id event.event_id,
                    )),
                λ p e x. rw (← same, receipts) (ground arith),
                λ o g settled.
                    let mine : order ≡ o = ground arith in
                    ground (
                      arith,
                      credited (
                          ap is_paid (sym s ∙ ap (λ (x : ExternalCommerceOrder). x.status) mine)
                          ∙ settled),
                      w.settled_once order.id,
                      ap (λ (x : BridgeDb). count (settles_external order.id) x.attempts) same,
                      ap (λ (x : ExternalCommerceOrder). count (settles_external x.id) db'.attempts)
                          mine,
                    ),
              )
        ]

    ingest_webhook-cases :
        (provider raw_body : Text) (headers : List (Text × Text)) (db db' : BridgeDb)
        (result : Option ExternalCommerceOrder)
        → ingest_webhook library settings stamp provider headers raw_body db ≡ pass (result, db')
        → (known : CommerceProvider) × (event : NormalizedEvent) × (status : ExternalOrderStatus)
          × (admit library settings provider headers raw_body ≡ pass (known, event, status))
          × (ingest_event library settings stamp known event status db ≡ pass (result, db'))
    unfolding ingest_webhook
    ingest_webhook-cases provider raw_body headers db db' result h =
        let ((known, event, status), admitted, ingested) =
          pass-cases (admit library settings provider headers raw_body) h in
        (known, event, status, admitted, ingested)

  abbrev Seen : CommerceProvider → Text → BridgeDb → Type 0
  Seen p e db = exists (is_receipt p e) db.receipts ≡ true

  deliver_lem :
      (d : Delivery) (db : BridgeDb)
      → deliver d db
        ≡ answered db (ingest_webhook library settings d.stamp d.provider d.headers d.raw_body db)
  unfolding commerce_webhook
  deliver_lem d db = refl

  deliver-cases :
      (d : Delivery) (db : BridgeDb)
      → IsLedgered db
      → IsLedgered (deliver d db).1
        × ((p : CommerceProvider) (e : Text) → Seen p e db → Seen p e (deliver d db).1)
        × ((dup : Bool)
            → (deliver d db).0 ≡ ok dup
            → (known : CommerceProvider) × (event : NormalizedEvent)
              × (status : ExternalOrderStatus) × (admit library settings d.provider d.headers
                    d.raw_body
                  ≡ pass (known, event, status))
              × Seen known event.event_id (deliver d db).1)
  deliver-cases d db v =
      let ingested = ingest_webhook library settings d.stamp d.provider d.headers d.raw_body db in
      elim (Check-cases ingested) [
        | inr (e, c) ↦
            let out : deliver d db ≡ answered db (stop e) = deliver_lem d db ∙ ap (answered db) c in
            let (kept, refusal) = answered_stop db e in
            let same : (deliver d db).1 ≡ db =
              ap (λ (r : WebhookAnswer × BridgeDb). r.1) out ∙ kept in
            (
              subst IsLedgered (sym same) v,
              λ p t s. subst (Seen p t) (sym same) s,
              λ dup h.
                  absurd (refusal dup (ap (λ (r : WebhookAnswer × BridgeDb). r.0) (sym out) ∙ h)),
            )
        | inl ((result, db'), c) ↦
            let (known, event, status, admitted, passed) =
              ingest_webhook-cases d.stamp d.provider d.raw_body d.headers db db' result c in
            let (ledgered, seen, grown, credited) =
              ingest_event-cases d.stamp known event status db db' result v passed in
            let same : db' ≡ (deliver d db).1 = sym (
              ap (λ (r : WebhookAnswer × BridgeDb). r.1) (deliver_lem d db ∙ ap (answered db) c)
              ∙ answered_pass db db' result) in
            (
              subst IsLedgered same ledgered,
              λ p t s. subst (Seen p t) same (grown p t s),
              λ dup h.
                  (known, event, status, admitted, subst (Seen known event.event_id) same seen),
            )
      ]

  -- From a bridge that satisfies the invariant, any deliveries of webhooks, accepted, repeated or
  -- refused, keep it: each order of the shop has at most one mirror and each mirror at most one
  -- succeeded settlement, an event has at most one receipt, and keys of orders are unique.
  pub deliver_all-IsLedgered :
      (deliveries : List Delivery) (db : BridgeDb)
      → IsLedgered db
      → IsLedgered (deliver_all deliveries db)
  unfolding deliver_all
  deliver_all-IsLedgered [] db v = v
  deliver_all-IsLedgered (d ∷ deliveries) db v =
      deliver_all-IsLedgered deliveries (deliver d db).1 (deliver-cases d db v).0

  deliver_all-Seen :
      (deliveries : List Delivery) (p : CommerceProvider) (e : Text) (db : BridgeDb)
      → IsLedgered db
      → Seen p e db
      → Seen p e (deliver_all deliveries db)
  unfolding deliver_all
  deliver_all-Seen [] p e db v s = s
  deliver_all-Seen (d ∷ deliveries) p e db v s =
      let (w, grown, known) = deliver-cases d db v in
      deliver_all-Seen deliveries p e (deliver d db).1 w (grown p e s)

  deliver-Seen :
      (d : Delivery) (known : CommerceProvider) (event : NormalizedEvent)
      (status : ExternalOrderStatus) (db : BridgeDb)
      → admit library settings d.provider d.headers d.raw_body ≡ pass (known, event, status)
      → Seen known event.event_id db
      → deliver d db ≡ (ok true, db)
  unfolding commerce_webhook ingest_webhook ingest_event
  deliver-Seen d known event status db admitted seen = rw (admitted, seen) refl

  -- From a bridge that satisfies the invariant: a delivery that was answered 200, sent again at
  -- any time after, whatever was delivered between, is answered as a duplicate and writes nothing.
  pub deliver-again :
      (d : Delivery) (later : BridgeStamp) (between : List Delivery) (db : BridgeDb) (dup : Bool)
      → IsLedgered db
      → (deliver d db).0 ≡ ok dup
      → deliver (record d { stamp = later }) (deliver_all between (deliver d db).1)
        ≡ (ok true, deliver_all between (deliver d db).1)
  deliver-again d later between db dup v h =
      let (w, grown, known_event) = deliver-cases d db v in
      let (known, event, status, admitted, seen) = known_event dup h in
      deliver-Seen (record d { stamp = later }) known event status
        (deliver_all between (deliver d db).1) admitted
        (deliver_all-Seen between known event.event_id (deliver d db).1 w seen)

  -- From a bridge that satisfies the invariant: if `ingest_webhook` gives back an order that is
  -- paid, that order has exactly one succeeded settlement.
  pub ingest_webhook-credited :
      (d : Delivery) (db db' : BridgeDb) (order : ExternalCommerceOrder)
      → IsLedgered db
      → ingest_webhook library settings d.stamp d.provider d.headers d.raw_body db
        ≡ pass (some order, db')
      → is_paid order.status ≡ true
      → count (settles_external order.id) db'.attempts ≡ 1
  ingest_webhook-credited d db db' order v h settled =
      let (known, event, status, admitted, passed) =
        ingest_webhook-cases d.stamp d.provider d.raw_body d.headers db db' (some order) h in
      let (ledgered, seen, grown, credited) =
        ingest_event-cases d.stamp known event status db db' (some order) v passed in
      credited order refl settled
