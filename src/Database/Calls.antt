-- ===== src/Database/Calls.antt =====
-- The calls of the database client that find one row by its key, or fail where there is none.
use afrique_os.Common.{ℕ, Bool, ◌∷◌, if◌then◌else◌, ◌==◌, any}
use afrique_os.Common.Int.{ℤ, ◌+ℤ◌}
use afrique_os.Common.Tables.{find_first, update_many}
use afrique_os.Database.Enums.{PointReason}
use afrique_os.Database.Rows.{
  User, Boutique, Product, Variant, Order, Allocation, Shipment, Mission, Leg, Courier, Agency,
  Dispute, EventKind, EventState, Db,
}
use afrique_os.Database.Action.{Action, ok, err, record_missing, or_throw}

-- `update` throws where no row has the key.
abbrev pub update_found : Bool → (Db → Db) → Action (Unit {0})
update_found found f db = if found then (ok tt, f db) else (err record_missing, db)

abbrev pub update_order : ℕ → (Order → Order) → Action (Unit {0})
update_order id f db =
    update_found (any (λ o. o.id == id) db.orders)
      (λ d. record d { orders = update_many (λ o. o.id == id) f d.orders }) db

abbrev pub update_boutique : ℕ → (Boutique → Boutique) → Action (Unit {0})
update_boutique id f db =
    update_found (any (λ b. b.id == id) db.boutiques)
      (λ d. record d { boutiques = update_many (λ b. b.id == id) f d.boutiques }) db

abbrev pub update_user : ℕ → (User → User) → Action (Unit {0})
update_user id f db =
    update_found (any (λ u. u.id == id) db.users)
      (λ d. record d { users = update_many (λ u. u.id == id) f d.users }) db

abbrev pub update_product : ℕ → (Product → Product) → Action (Unit {0})
update_product id f db =
    update_found (any (λ p. p.id == id) db.products)
      (λ d. record d { products = update_many (λ p. p.id == id) f d.products }) db

abbrev pub update_variant : ℕ → (Variant → Variant) → Action (Unit {0})
update_variant id f db =
    update_found (any (λ v. v.id == id) db.variants)
      (λ d. record d { variants = update_many (λ v. v.id == id) f d.variants }) db

abbrev pub update_shipment : ℕ → (Shipment → Shipment) → Action (Unit {0})
update_shipment id f db =
    update_found (any (λ s. s.id == id) db.shipments)
      (λ d. record d { shipments = update_many (λ s. s.id == id) f d.shipments }) db

abbrev pub update_mission : ℕ → (Mission → Mission) → Action (Unit {0})
update_mission id f db =
    update_found (any (λ m. m.id == id) db.missions)
      (λ d. record d { missions = update_many (λ m. m.id == id) f d.missions }) db

abbrev pub update_leg : ℕ → (Leg → Leg) → Action (Unit {0})
update_leg id f db =
    update_found (any (λ l. l.id == id) db.legs)
      (λ d. record d { legs = update_many (λ l. l.id == id) f d.legs }) db

abbrev pub update_courier : ℕ → (Courier → Courier) → Action (Unit {0})
update_courier id f db =
    update_found (any (λ c. c.id == id) db.couriers)
      (λ d. record d { couriers = update_many (λ c. c.id == id) f d.couriers }) db

abbrev pub update_agency : ℕ → (Agency → Agency) → Action (Unit {0})
update_agency id f db =
    update_found (any (λ a. a.id == id) db.agencies)
      (λ d. record d { agencies = update_many (λ a. a.id == id) f d.agencies }) db

abbrev pub update_dispute : ℕ → (Dispute → Dispute) → Action (Unit {0})
update_dispute id f db =
    update_found (any (λ a. a.id == id) db.disputes)
      (λ d. record d { disputes = update_many (λ a. a.id == id) f d.disputes }) db

abbrev pub update_allocation : ℕ → (Allocation → Allocation) → Action (Unit {0})
update_allocation id f db =
    update_found (any (λ a. a.id == id) db.allocations)
      (λ d. record d { allocations = update_many (λ a. a.id == id) f d.allocations }) db

-- `balance: { increment: amount }`
abbrev pub add_balance : ℤ → Boutique → Boutique
add_balance amount b = record b { balance = b.balance +ℤ amount }

abbrev pub add_points : ℤ → User → User
add_points amount u = record u { points_balance = u.points_balance +ℤ amount }

abbrev pub point_transaction : ℕ → ℤ → PointReason → ℕ → Db → Db
point_transaction user amount reason order db = record db {
  points =
      record { user_id = user; amount = amount; reason = reason; order_id = order } ∷ db.points;
}

-- `findUniqueOrThrow` of an order.
abbrev pub order_or_throw : ℕ → Action Order
order_or_throw id db = or_throw (find_first (λ o. o.id == id) db.orders) record_missing db

abbrev pub shipment_or_throw : ℕ → Action Shipment
shipment_or_throw id db = or_throw (find_first (λ s. s.id == id) db.shipments) record_missing db

abbrev pub mission_or_throw : ℕ → Action Mission
mission_or_throw id db = or_throw (find_first (λ m. m.id == id) db.missions) record_missing db

-- `deliveryEvent.create`.
abbrev pub add_event : ℕ → EventKind → EventState → EventState → Db → Db
add_event shipment kind old new db = record db {
  events =
      record { shipment_id = shipment; kind = kind; old_state = old; new_state = new } ∷ db.events;
}
