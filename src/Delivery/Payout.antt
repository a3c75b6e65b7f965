-- ===== src/Delivery/Payout.antt =====
-- adminApproveSettlementPayout of backend/src/delivery/delivery.service.ts. The texts are left out.
use afrique_os.Common.{
  ℕ, ◌≡◌, refl, sym, ap, ◌∙◌, true, false, not, Option, none, some, arith, ◌==◌, ==→eq, any,
  Option-cases, Bool-cases, inl, inr,
}
use afrique_os.Common.Tables.{
  find_first, update_many, find_first-updated, find_first-test, any-find_first, is_some,
}
use afrique_os.Database.Enums.{SettlementStatus, is_on_hold, is_eligible}
use afrique_os.Database.Rows.{Allocation, EventKind, EventState, Db}
use afrique_os.Database.Action.{
  Action, ok, err, gets, or_throw, throw_if, modify, transaction, outcome, after, ◌>>=◌, ◌>>◌,
  not_found, bad_request,
}
use afrique_os.Database.Calls.{update_allocation, add_event}

abbrev pub pay_out : ℕ → Allocation → Allocation
pay_out now a = record a { status = SettlementStatus.released_to_wallet; released_at = some now }

abbrev payout_event : Option ℕ → Db → Db
payout_event none db = db
payout_event (some shipment) db =
    add_event shipment EventKind.admin_payout_approved
      (EventState.of_settlement SettlementStatus.eligible_for_release)
      (EventState.of_settlement SettlementStatus.released_to_wallet) db

unfoldable pub record_payout : ℕ → Allocation → Action (Unit {0})
record_payout now a =
    transaction do update_allocation a.id (pay_out now); modify (payout_event a.shipment_id)

unfoldable pub approve_settlement_payout : ℕ → ℕ → Action (Unit {0})
unfolding record_payout
approve_settlement_payout now id = do
  found ← gets (λ db. find_first (λ a. a.id == id) db.allocations)
  a ← or_throw found not_found
  throw_if (is_on_hold a.status) bad_request
  throw_if (not (is_eligible a.status)) bad_request
  record_payout now a

-- A part that is not eligible is not paid out, and nothing changes.
pub payout_refused :
    (now id : ℕ) (db : Db) (a : Allocation)
    → find_first (λ x. x.id == id) db.allocations ≡ some a
    → is_eligible a.status ≡ false
    → approve_settlement_payout now id db ≡ (err bad_request, db)
unfolding approve_settlement_payout
payout_refused now id db a found held = ground arith

payout_event-allocations :
    (o : Option ℕ) (db : Db) → (payout_event o db).allocations ≡ db.allocations
payout_event-allocations none db = refl
payout_event-allocations (some s) db = refl

abbrev paid : ℕ → Allocation → Db → Db
paid now a db =
    payout_event a.shipment_id
      (record db { allocations = update_many (λ x. x.id == a.id) (pay_out now) db.allocations })

payout_done :
    (now id : ℕ) (db : Db) (a : Allocation)
    → find_first (λ x. x.id == id) db.allocations ≡ some a
    → is_eligible a.status ≡ true
    → any (λ x. x.id == a.id) db.allocations ≡ true
    → approve_settlement_payout now id db ≡ (ok tt, paid now a db)
unfolding approve_settlement_payout record_payout
payout_done now id db a found free there =
    let open_part : is_on_hold a.status ≡ false = ground arith in
    rw (found, open_part, free, there) refl

payout_needs :
    (now id : ℕ) (db : Db)
    → outcome (approve_settlement_payout now id) db ≡ ok tt
    → (a : Allocation) × (find_first (λ x. x.id == id) db.allocations ≡ some a)
      × (is_eligible a.status ≡ true)
unfolding approve_settlement_payout
payout_needs now id db h = elim (Option-cases (find_first (λ x. x.id == id) db.allocations)) [
  | inl e ↦ ground arith
  | inr (a, e) ↦ elim (Bool-cases (is_eligible a.status)) [
    | inl free ↦ (a, e, free)
    | inr held ↦
        let gone : err bad_request ≡ ok tt =
          sym (ap (λ r. r.0) (payout_refused now id db a e held)) ∙ h in
        cc
  ]
]

-- A payout that is approved is of a part that was eligible; that part is paid out, the other rows of
-- the table keep as they are, and a second approval of it is refused and changes nothing.
pub approve_settlement_payout_once :
    (now now' id : ℕ) (db : Db)
    → outcome (approve_settlement_payout now id) db ≡ ok tt
    → ((a : Allocation) × (find_first (λ x. x.id == id) db.allocations ≡ some a)
        × (is_eligible a.status ≡ true))
      × ((after (approve_settlement_payout now id) db).allocations
          ≡ update_many (λ x. x.id == id) (pay_out now) db.allocations)
      × (approve_settlement_payout now' id (after (approve_settlement_payout now id) db)
          ≡ (err bad_request, after (approve_settlement_payout now id) db))
approve_settlement_payout_once now now' id db h =
    let (a, found, free) = payout_needs now id db h in
    let own : a.id ≡ id = ==→eq a.id id (find_first-test (λ x. x.id == id) db.allocations found) in
    let there = any-find_first (λ x. x.id == id) db.allocations ∙ ap is_some found in
    let done =
      payout_done now id db a found free
        (ap (λ n. any (λ x. x.id == n) db.allocations) own ∙ there) in
    let table : (after (approve_settlement_payout now id) db).allocations
        ≡ update_many (λ x. x.id == id) (pay_out now) db.allocations =
      ap (λ r. r.1.allocations) done
      ∙ payout_event-allocations a.shipment_id _
      ∙ ap (λ n. update_many (λ x. x.id == n) (pay_out now) db.allocations) own in
    (
      (a, found, free),
      table,
      payout_refused now' id (after (approve_settlement_payout now id) db) (pay_out now a)
          (ap (find_first (λ x. x.id == id)) table
            ∙ find_first-updated (λ x. x.id == id) (pay_out now) db.allocations (λ x. refl) found)
          refl,
    )
