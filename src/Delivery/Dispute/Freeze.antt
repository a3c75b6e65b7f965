-- ===== src/Delivery/Dispute/Freeze.antt =====
-- What a dispute of backend/src/delivery/delivery.service.ts holds back, and that it is not paid out.
use afrique_os.Common.{
  ℕ, ◌≡◌, refl, sym, ap, ◌∙◌, Bool, true, false, ◌||◌, Option, some, ◌∷◌, arith, Bool-cases,
  Option-cases, inl, inr, ◌==◌, ==→eq, any,
}
use afrique_os.Common.Tables.{
  find_first, find_first-test, find_first-changed, update_many, update_many-twice, any-find_first,
  is_some,
}
use afrique_os.Database.Enums.{ShipmentStatus, DisputeScope, is_eligible}
use afrique_os.Database.Rows.{Text, Allocation, Shipment, EventKind, EventState, Db}
use afrique_os.Database.Action.{ok, err, outcome, after, bad_request, forbidden}
use afrique_os.Database.Calls.{add_event}
use afrique_os.Delivery.Tokens.{check_buyer, fits_token, is_own_shipment}
use afrique_os.Delivery.Dispute.{
  open_dispute, record_dispute, new_dispute, is_seller_part, is_carrier_part,
}
use afrique_os.Delivery.Payout.{approve_settlement_payout, payout_refused}
use afrique_os.Refunds.{freeze}

-- The parts that a dispute of this scope is about.
abbrev pub is_disputed : DisputeScope → ℕ → Allocation → Bool
is_disputed DisputeScope.product_only id a = is_seller_part id a
is_disputed DisputeScope.delivery_only id a = is_carrier_part id a
is_disputed DisputeScope.both id a = is_seller_part id a || is_carrier_part id a

abbrev pub disputed : ℕ → DisputeScope → Shipment → Db → Db
disputed new_id scope s db =
    add_event s.id EventKind.dispute_opened (EventState.of_shipment s.status)
      (EventState.of_shipment ShipmentStatus.under_review)
      (record db {
        disputes = new_dispute new_id scope s ∷ db.disputes;
        allocations = update_many (is_disputed scope s.id) freeze db.allocations;
        shipments =
            update_many (λ x. x.id == s.id) (λ x. record x { status = ShipmentStatus.under_review })
              db.shipments;
      })

module _ (new_id : ℕ) (s : Shipment) (db : Db) where
  record_dispute-disputed :
      (scope : DisputeScope)
      → any (λ x. x.id == s.id) db.shipments ≡ true
      → record_dispute new_id scope s db ≡ (ok tt, disputed new_id scope s db)
  unfolding record_dispute
  record_dispute-disputed DisputeScope.product_only there = rw there refl
  record_dispute-disputed DisputeScope.delivery_only there = rw there refl
  record_dispute-disputed DisputeScope.both there =
      rw
        (
          there,
          update_many-twice (is_seller_part s.id) (is_carrier_part s.id) freeze db.allocations
              (λ x. refl) (λ x. refl),
        )
        refl

dispute_denied :
    (digest : Text → ℕ) (new_id id : ℕ) (scope : DisputeScope) (token : Option Text)
    (user : Option ℕ) (db : Db) (s : Shipment)
    → find_first (λ x. x.id == id) db.shipments ≡ some s
    → is_own_shipment user s || fits_token digest token s ≡ false
    → open_dispute digest new_id id scope token user db ≡ (err forbidden, db)
unfolding open_dispute check_buyer
dispute_denied digest new_id id scope token user db s found other = rw (found, other) refl

dispute_needs :
    (digest : Text → ℕ) (new_id id : ℕ) (scope : DisputeScope) (token : Option Text)
    (user : Option ℕ) (db : Db)
    → outcome (open_dispute digest new_id id scope token user) db ≡ ok tt
    → (s : Shipment) × (find_first (λ x. x.id == id) db.shipments ≡ some s)
      × (is_own_shipment user s || fits_token digest token s ≡ true)
unfolding open_dispute check_buyer
dispute_needs digest new_id id scope token user db h =
    elim (Option-cases (find_first (λ x. x.id == id) db.shipments)) [
      | inl e ↦ ground arith
      | inr (s, e) ↦ elim (Bool-cases (is_own_shipment user s || fits_token digest token s)) [
        | inl allowed ↦ (s, e, allowed)
        | inr other ↦
            let gone : err forbidden ≡ ok tt =
              sym (ap (λ r. r.0) (dispute_denied digest new_id id scope token user db s e other))
              ∙ h in
            cc
      ]
    ]

dispute_done :
    (digest : Text → ℕ) (new_id id : ℕ) (scope : DisputeScope) (token : Option Text)
    (user : Option ℕ) (db : Db) (s : Shipment)
    → find_first (λ x. x.id == id) db.shipments ≡ some s
    → is_own_shipment user s || fits_token digest token s ≡ true
    → open_dispute digest new_id id scope token user db ≡ record_dispute new_id scope s db
unfolding open_dispute check_buyer
dispute_done digest new_id id scope token user db s found allowed = rw (found, allowed) refl

is_disputed-freeze :
    (scope : DisputeScope) (id : ℕ) (a : Allocation)
    → is_disputed scope id (freeze a) ≡ is_disputed scope id a
is_disputed-freeze DisputeScope.product_only id a = refl
is_disputed-freeze DisputeScope.delivery_only id a = refl
is_disputed-freeze DisputeScope.both id a = refl

module _ (digest : Text → ℕ) (new_id id : ℕ) (scope : DisputeScope) (token : Option Text)
    (user : Option ℕ) (db : Db) where
  -- A dispute that is opened is opened by the buyer of the shipment or with the guest's token. It puts
  -- on hold the parts of its scope whatever their status, and no other; it puts the shipment under
  -- review, records the dispute and an event, and changes no other row.
  pub open_dispute-disputed :
      outcome (open_dispute digest new_id id scope token user) db ≡ ok tt
      → (s : Shipment) × (find_first (λ x. x.id == id) db.shipments ≡ some s)
        × (is_own_shipment user s || fits_token digest token s ≡ true)
        × (after (open_dispute digest new_id id scope token user) db ≡ disputed new_id scope s db)
  open_dispute-disputed h =
      let (s, found, allowed) = dispute_needs digest new_id id scope token user db h in
      let own : s.id ≡ id = ==→eq s.id id (find_first-test (λ x. x.id == id) db.shipments found) in
      let there = any-find_first (λ x. x.id == id) db.shipments ∙ ap is_some found in
      (
        s,
        found,
        allowed,
        ap (λ r. r.1)
            (dispute_done digest new_id id scope token user db s found allowed
              ∙ record_dispute-disputed new_id s db scope
                  (ap (λ n. any (λ x. x.id == n) db.shipments) own ∙ there)),
      )

  -- No part that a dispute is about is paid out while it holds: right after a dispute is opened, the
  -- approval of the payout of any part of its scope is refused and changes nothing.
  pub open_dispute-approve_settlement_payout :
      (now part : ℕ) (a : Allocation)
      → outcome (open_dispute digest new_id id scope token user) db ≡ ok tt
      → find_first
          (λ x. x.id == part)
          (after (open_dispute digest new_id id scope token user) db).allocations
        ≡ some a
      → is_disputed scope id a ≡ true
      → approve_settlement_payout now part
          (after (open_dispute digest new_id id scope token user) db)
        ≡ (err bad_request, after (open_dispute digest new_id id scope token user) db)
  open_dispute-approve_settlement_payout now part a h found about =
      let (s, there, _, done) = open_dispute-disputed h in
      let own : s.id ≡ id = ==→eq s.id id (find_first-test (λ x. x.id == id) db.shipments there) in
      let (before, frozen) =
        find_first-changed (λ x. x.id == part) (is_disputed scope s.id) freeze db.allocations
          (is_disputed-freeze scope s.id)
          (sym (ap (λ d. find_first (λ x. x.id == part) d.allocations) done) ∙ found)
          (ap (λ n. is_disputed scope n a) own ∙ about) in
      payout_refused now part (after (open_dispute digest new_id id scope token user) db) a found
        (ap (λ x. is_eligible x.status) frozen)
