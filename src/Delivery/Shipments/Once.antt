-- ===== src/Delivery/Shipments/Once.antt =====
-- One shipment for each order in backend/src/delivery/delivery.service.ts.
use afrique_os.Common.{
  ℕ, ◌≡◌, refl, sym, ap, ◌∙◌, Option, none, some, List, ◌∷◌, arith, ◌==◌, ==→eq, ==_refl, ◌&&◌,
}
use afrique_os.Common.Int.{ℤ}
use afrique_os.Common.Tables.{find_first, find_first-test}
use afrique_os.Database.Enums.{Plan, is_seller}
use afrique_os.Database.Rows.{Text, Order, Shipment, Allocation, EventKind, EventState, Db}
use afrique_os.Database.Action.{
  Result, Action, ok, err, outcome, after, continue, roll_back-ok, or_throw, throw_if, modify,
  not_found, bad_request, record_missing, HttpError, reads-holds_ok, or_throw-after, throw_if-after,
  ◌>>◌,
}
use afrique_os.Database.Calls.{shipment_or_throw, add_event}
use afrique_os.Delivery.Shipments.{
  ShipmentRequest, NewIds, Geography, mode_of, legs_of, new_shipment, tie_seller_part,
  create_shipment, create_new_shipment, create_or_get_shipment, get_or_create, cash_refused,
}

-- `now` is the time of the first call.
module _ (round_share : ℤ → ℕ → ℤ) (digest : Text → ℕ) (geo : Geography) (now : ℕ) where
  tie-shipments :
      (ids : NewIds) (o : Order) (plan : Plan) (part : Option Allocation) (db : Db)
      → (after (tie_seller_part round_share ids o plan part) db).shipments ≡ db.shipments
  unfolding tie_seller_part
  tie-shipments ids o plan none db = refl
  tie-shipments ids o plan (some a) db = ground arith

  abbrev opened : NewIds → Shipment → Db → Db
  opened ids new =
      add_event ids.shipment EventKind.shipment_created EventState.no_state
        (EventState.of_shipment new.status)

  -- The end of a creation.
  abbrev finish : NewIds → Shipment → Action Shipment
  finish ids new = modify (opened ids new) >> shipment_or_throw ids.shipment

  ok_eq : {a b : Shipment} → ok a ≡ ok b → a ≡ b
  ok_eq h = cc

  -- The rows that a creation adds first.
  abbrev begun : ShipmentRequest → NewIds → Order → Db → Db
  begun dto ids o db = record db {
    shipments = new_shipment digest geo now dto ids o ∷ db.shipments;
    legs = legs_of (mode_of geo dto) ids db.legs;
  }

  abbrev part_of : Order → Db → Option Allocation
  part_of o db = find_first (λ a. a.order_id == o.id && is_seller a.beneficiary_type) db.allocations

  finished :
      (ids : NewIds) (new s : Shipment) (rest : List Shipment) (r : Result (Unit {0}) × Db)
      → new.id ≡ ids.shipment
      → r.1.shipments ≡ new ∷ rest
      → (continue r (λ _. finish ids new)).0 ≡ ok s
      → (s ≡ new) × ((continue r (λ _. finish ids new)).1.shipments ≡ new ∷ rest)
  finished ids new s rest (err e, d) own table h = cc
  finished ids new s rest (ok t, d) own table h =
      let found : find_first (λ x. x.id == ids.shipment) d.shipments ≡ some new =
        rw (table, own, ==_refl ids.shipment) refl in
      let ended : shipment_or_throw ids.shipment (opened ids new d) ≡ (ok new, opened ids new d) =
        rw found refl in
      (ok_eq (sym h ∙ ap (λ r. r.0) ended), ap (λ r. r.1.shipments) ended ∙ table)

  created-shipments :
      (dto : ShipmentRequest) (ids : NewIds) (o : Order) (plan : Plan) (db : Db) (s : Shipment)
      → outcome (create_shipment round_share digest geo now dto ids o plan) db ≡ ok s
      → (s ≡ new_shipment digest geo now dto ids o)
        × ((after (create_shipment round_share digest geo now dto ids o plan) db).shipments
            ≡ new_shipment digest geo now dto ids o ∷ db.shipments)
  unfolding create_shipment
  created-shipments dto ids o plan db s h =
      let went = roll_back-ok db _ h in
      let (same, table) =
        finished ids (new_shipment digest geo now dto ids o) s db.shipments
          (tie_seller_part round_share ids o plan (part_of o db) (begun dto ids o db)) refl
          (tie-shipments ids o plan (part_of o db) (begun dto ids o db))
          (sym (ap (λ r. r.0) went) ∙ h) in
      (same, ap (λ r. r.1.shipments) went ∙ table)

  -- The first shipment of an order.
  abbrev pub shipment_of : ℕ → Db → Option Shipment
  shipment_of order db = find_first (λ x. x.order_id == order) db.shipments

  abbrev order_of : ShipmentRequest → Db → Option Order
  order_of dto db = find_first (λ o. o.id == dto.order_id) db.orders

  abbrev IsFound : ShipmentRequest → Shipment → Db → Type 0
  IsFound dto s d = shipment_of dto.order_id d ≡ some s

  or_throw-some :
      {A : Type 0} (o : Option A) (e : HttpError) (db : Db) {a : A}
      → outcome (or_throw o e) db ≡ ok a
      → o ≡ some a
  or_throw-some none e db h = cc
  or_throw-some (some b) e db h = cc

  new-shipment_of :
      (dto : ShipmentRequest) (ids : NewIds) (db : Db) (s : Shipment)
      → outcome (create_new_shipment round_share digest geo now dto ids) db ≡ ok s
      → shipment_of dto.order_id (after (create_new_shipment round_share digest geo now dto ids) db)
        ≡ some s
  unfolding create_new_shipment
  new-shipment_of dto ids db s h =
      reads-holds_ok (IsFound dto s) (or_throw (order_of dto db) not_found) _ db
        (or_throw-after _ _ db) h
        (λ o first h1.
          reads-holds_ok (IsFound dto s)
            (or_throw (find_first (λ b. b.id == o.boutique_id) db.boutiques) record_missing) _ db
            (or_throw-after _ _ db) h1
            (λ b _ h2.
              reads-holds_ok (IsFound dto s) (throw_if (cash_refused geo dto o db) bad_request) _ db
                (throw_if-after _ _ db) h2
                (λ _ _ h3.
                  let (same, table) = created-shipments dto ids o b.plan db s h3 in
                  let own : o.id ≡ dto.order_id = ==→eq o.id dto.order_id (
                    find_first-test (λ x. x.id == dto.order_id) db.orders
                      (or_throw-some (order_of dto db) not_found db first)) in
                  rw (table, same, own, ==_refl dto.order_id) refl)))

  existing-IsFound :
      (dto : ShipmentRequest) (ids : NewIds) (existing : Option Shipment) (db : Db) (s : Shipment)
      → shipment_of dto.order_id db ≡ existing
      → outcome (get_or_create round_share digest geo now dto ids existing) db ≡ ok s
      → IsFound dto s (after (get_or_create round_share digest geo now dto ids existing) db)
  unfolding get_or_create
  existing-IsFound dto ids none db s e h = new-shipment_of dto ids db s h
  existing-IsFound dto ids (some x) db s e h = e ∙ ap some (ok_eq h)

  got :
      (later : ℕ) (dto : ShipmentRequest) (ids : NewIds) (db : Db) (s : Shipment)
      → IsFound dto s db
      → create_or_get_shipment round_share digest geo later dto ids db ≡ (ok s, db)
  unfolding create_or_get_shipment get_or_create
  got later dto ids db s found = rw found refl

  -- An order has one shipment: once one was created or found for it, every further call for that order
  -- answers that shipment, whenever it is made and whatever else it asks for, and changes nothing.
  pub create_or_get_shipment_once :
      (now' : ℕ) (dto dto' : ShipmentRequest) (ids ids' : NewIds) (db : Db) (s : Shipment)
      → outcome (create_or_get_shipment round_share digest geo now dto ids) db ≡ ok s
      → dto'.order_id ≡ dto.order_id
      → create_or_get_shipment round_share digest geo now' dto' ids'
          (after (create_or_get_shipment round_share digest geo now dto ids) db)
        ≡ (ok s, after (create_or_get_shipment round_share digest geo now dto ids) db)
  unfolding create_or_get_shipment
  create_or_get_shipment_once now' dto dto' ids ids' db s h same =
      let found = existing-IsFound dto ids (shipment_of dto.order_id db) db s refl h in
      let again =
        ap
          (λ n.
            shipment_of n (after (create_or_get_shipment round_share digest geo now dto ids) db))
          same
        ∙ found in
      got now' dto' ids' (after (create_or_get_shipment round_share digest geo now dto ids) db) s
        again
