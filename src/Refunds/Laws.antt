-- ===== src/Refunds/Laws.antt =====
-- What a request for a refund holds, and that it is decided once.
use afrique_os.Common.{
  ℕ, ◌≡◌, refl, Bool, true, false, Option, none, some, List, [], ◌∷◌, if◌then◌else◌, ◌==◌, any,
  arith, inl, inr, Bool-cases, ◌∙◌, ap, ==→eq,
}
use mathlib.Core.Option
use afrique_os.Common.Tables.{
  find_first, find_many, count, count-update_many_out, find_first-update_many, find_first-test,
}
use afrique_os.Database.Enums.{RefundStatus}
use afrique_os.Database.Rows.{Order, Allocation, RefundRequest, Db}
use afrique_os.Database.Action.{
  Action, Result, ok, err, outcome, after, continue, continue-keep, or_throw, throw_if, bad_request,
  not_found, gets, roll_back, ◌>>=◌, ◌>>◌,
}
use afrique_os.Refunds.{
  freezable, freeze, create_request, is_decided, set_refund, refundable, deduct, deduct_all,
  deduct_order, take_back, decide_transaction, admin_decide,
}

-- A request that is accepted is the first of its order, is added to the list, and leaves none of
-- the seller's parts of the order where it can still be paid out.
pub create_request-freezable :
    (client order new_id : ℕ) (db : Db) (r : RefundRequest)
    → outcome (create_request client order new_id) db ≡ ok r
    → (count (freezable order) (after (create_request client order new_id) db).allocations ≡ 0)
      × (any (λ x. x.order_id == order) db.refunds ≡ false)
      × (after (create_request client order new_id) db).refunds ≡ r ∷ db.refunds
unfolding create_request
create_request-freezable client order new_id db r h =
    ground
      (arith, count-update_many_out (freezable order) freeze db.allocations (λ a. ground arith))

-- A request is made once: after one that was accepted, a second one of the same order is refused.
pub create_request_once :
    (client order new_id new_id' : ℕ) (db : Db) (r : RefundRequest)
    → outcome (create_request client order new_id) db ≡ ok r
    → outcome (create_request client order new_id') (after (create_request client order new_id) db)
      ≡ err bad_request
unfolding create_request
create_request_once client order new_id new_id' db r h = ground arith

deduct_all-refunds :
    (parts : List Allocation) (db : Db) → (after (deduct_all parts) db).refunds ≡ db.refunds
unfolding deduct_all
deduct_all-refunds [] db = refl
deduct_all-refunds (a ∷ rest) db =
    continue-keep (λ d. d.refunds) (deduct a.beneficiary_id a.net_amount db) (λ _. deduct_all rest)
      (λ _ d. deduct_all-refunds rest d)
    ∙ ground arith

deduct_order-refunds :
    (order : Option Order) (boutique : ℕ) (db : Db)
    → (after (deduct_order order boutique) db).refunds ≡ db.refunds
unfolding deduct_order
deduct_order-refunds none boutique db = refl
deduct_order-refunds (some o) boutique db = ground arith

take_back-refunds :
    (parts : List Allocation) (order : Option Order) (r : RefundRequest) (db : Db)
    → (after (take_back parts order r) db).refunds ≡ db.refunds
unfolding take_back
take_back-refunds [] order r db = deduct_order-refunds order r.boutique_id db
take_back-refunds (a ∷ rest) order r db = deduct_all-refunds (a ∷ rest) _

abbrev pub decision : Bool → RefundStatus
decision approve = if approve then RefundStatus.approved else RefundStatus.rejected

decided-refunds :
    (approve : Bool) (order : Option Order) (r : RefundRequest) (db : Db)
    → outcome (decide_transaction approve order r) db ≡ ok tt
    → (after (decide_transaction approve order r) db).refunds
      ≡ (set_refund r.id (decision approve) db).refunds
unfolding decide_transaction
decided-refunds false order r db h = refl
decided-refunds true order r db h =
    rolled
      (take_back (find_many (refundable r.order_id) db.allocations) order r
        (set_refund r.id RefundStatus.approved db))
      h
      (take_back-refunds (find_many (refundable r.order_id) db.allocations) order r
        (set_refund r.id RefundStatus.approved db))
  where
    rolled :
        (x : Result (Unit {0}) × Db)
        → (roll_back db x).0 ≡ ok tt
        → x.1.refunds ≡ (set_refund r.id RefundStatus.approved db).refunds
        → (roll_back db x).1.refunds ≡ (set_refund r.id RefundStatus.approved db).refunds
    rolled (ok t, d) h k = k
    rolled (err e, d) h k = cc

decided_row :
    (approve : Bool) (r : RefundRequest)
    → is_decided (record r { status = decision approve }).status ≡ true
decided_row true r = refl
decided_row false r = refl

module _ (id : ℕ) (approve approve' : Bool) (db : Db) where
  abbrev row : Option RefundRequest
  row = find_first (λ r. r.id == id) db.refunds

  again_refused :
      (r : RefundRequest) (d : Db)
      → row ≡ some r
      → d.refunds ≡ (set_refund id (decision approve) db).refunds
      → admin_decide id approve' d ≡ (err bad_request, d)
  unfolding admin_decide
  again_refused r d there e =
      let found : find_first (λ x. x.id == id) d.refunds
          ≡ some (record r { status = decision approve }) =
        ap (find_first (λ x. x.id == id)) e
        ∙ find_first-update_many (λ x. x.id == id) (λ x. x.id == id)
            (λ x. record x { status = decision approve }) db.refunds (λ x. refl)
        ∙ ap (Option.map (λ x. if x.id == id then record x { status = decision approve } else x))
            there
        ∙ ap (λ b. some (if b then record r { status = decision approve } else r))
            (find_first-test (λ x. x.id == id) db.refunds there) in
      rw (found, decided_row approve r) refl

  abbrev deciding : RefundRequest → Action (Unit {0})
  deciding r = do
    throw_if (is_decided r.status) bad_request
    order ← gets (λ d. find_first (λ o. o.id == r.order_id) d.orders)
    decide_transaction approve order r

  deciding-refunds :
      (r : RefundRequest)
      → row ≡ some r
      → (deciding r db).0 ≡ ok tt
      → (deciding r db).1.refunds ≡ (set_refund id (decision approve) db).refunds
  deciding-refunds r there h = elim (Bool-cases (is_decided r.status)) [
    | inl e ↦ cc (rw e at h)
    | inr e ↦ rw e (
        decided-refunds approve (find_first (λ o. o.id == r.order_id) db.orders) r db (rw e at h)
        ∙ ap (λ n. (set_refund n (decision approve) db).refunds)
            (==→eq r.id id (find_first-test (λ x. x.id == id) db.refunds there)))
  ]

  decided :
      outcome (admin_decide id approve) db ≡ ok tt
      → (r : RefundRequest) × (row ≡ some r)
        × ((after (admin_decide id approve) db).refunds
            ≡ (set_refund id (decision approve) db).refunds)
  unfolding admin_decide
  decided = by_row row refl
    where
      by_row :
          (x : Option RefundRequest)
          → row ≡ x
          → (continue (or_throw x not_found db) deciding).0 ≡ ok tt
          → (r : RefundRequest) × (row ≡ some r)
            × ((continue (or_throw x not_found db) deciding).1.refunds
                ≡ (set_refund id (decision approve) db).refunds)
      by_row none e h = cc
      by_row (some r) e h = (r, e, deciding-refunds r e h)

-- A request is decided once: after a decision that went through, any further one is refused and
-- changes nothing.
pub admin_decide_once :
    (id : ℕ) (approve approve' : Bool) (db : Db)
    → outcome (admin_decide id approve) db ≡ ok tt
    → admin_decide id approve' (after (admin_decide id approve) db)
      ≡ (err bad_request, after (admin_decide id approve) db)
admin_decide_once id approve approve' db h =
    let (r, there, e) = decided id approve approve' db h in
    again_refused id approve approve' db r (after (admin_decide id approve) db) there e
