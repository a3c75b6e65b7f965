-- ===== src/Delivery/Handover/Unpaid.antt =====
-- What the declarations of a carrier in backend/src/delivery/delivery.service.ts never do.
use afrique_os.Common.{
  ℕ, ◌≤◌, ◌≡◌, refl, ◌∙◌, Bool, true, false, ◌&&◌, Option, none, some, List, [], ◌∷◌, arith, ◌==◌,
  any,
}
use afrique_os.Common.Tables.{find_first, update_many, count, count-update_many_le}
use afrique_os.Database.Enums.{HandoverStep, is_delivered_verified}
use afrique_os.Database.Rows.{Shipment, Order, Mission, Leg, Evidence, Db}
use afrique_os.Database.Action.{
  Action, after, or_throw, or_throw-after, not_found, continue-holds, reads-holds, roll_back-holds,
  ◌>>=◌,
}
use afrique_os.Database.Calls.{update_found, update_shipment, update_order}
use afrique_os.Delivery.Handover.{
  record_handover_evidence, record_declaration, handover_step, set_mission, set_leg, transit_leg,
  declare_evidence,
}

abbrev pub is_proved : ℕ → Shipment → Bool
is_proved id s = s.id == id && is_delivered_verified s.status

abbrev pub is_proof : Evidence → Bool
is_proof e = e.is_verified

-- No money moved, and no delivery was proved.
abbrev pub Unpaid : Db → Db → Type 0
Unpaid db d =
    (d.allocations ≡ db.allocations)
    × (d.couriers ≡ db.couriers)
    × (d.agencies ≡ db.agencies)
    × (d.boutiques ≡ db.boutiques)
    × (count is_proof d.evidences ≡ count is_proof db.evidences)
    × ((id : ℕ) → count (is_proved id) d.shipments ≤ count (is_proved id) db.shipments)

Unpaid-refl : (db : Db) → Unpaid db db
Unpaid-refl db = (refl, refl, refl, refl, refl, λ id. omega arith)

Unpaid-trans : (db mid d : Db) → Unpaid db mid → Unpaid mid d → Unpaid db d
Unpaid-trans db mid d (a, b, c, e, f, g) (a', b', c', e', f', g') =
    (a' ∙ a, b' ∙ b, c' ∙ c, e' ∙ e, f' ∙ f, λ id. omega (arith, g id, g' id))

-- A change of other tables.
found-Unpaid :
    (b : Bool) (f : Db → Db) (db d : Db)
    → Unpaid db (f d)
    → Unpaid db d
    → Unpaid db (after (update_found b f) d)
found-Unpaid true f db d h k = h
found-Unpaid false f db d h k = k

shipment-Unpaid :
    (id : ℕ) (f : Shipment → Shipment) (db d : Db)
    → ((x : Shipment) → is_delivered_verified (f x).status ≡ false)
    → Unpaid db d
    → Unpaid db (after (update_shipment id f) d)
shipment-Unpaid id f db d open_still u =
    found-Unpaid (any (λ s. s.id == id) d.shipments)
      (λ x. record x { shipments = update_many (λ s. s.id == id) f x.shipments }) db d
      (
        u.0,
        u.1,
        u.2,
        u.3,
        u.4,
        λ n. omega (
          arith,
          u.5 n,
          count-update_many_le (is_proved n) (λ s. s.id == id) f d.shipments
              (λ x p h. ground (arith, open_still x)),
        ),
      )
      u

order-Unpaid :
    (id : ℕ) (f : Order → Order) (db d : Db) → Unpaid db d → Unpaid db (after (update_order id f) d)
order-Unpaid id f db d u =
    found-Unpaid (any (λ o. o.id == id) d.orders)
      (λ x. record x { orders = update_many (λ o. o.id == id) f x.orders }) db d u u

mission-Unpaid :
    (mission : Option ℕ) (f : Mission → Mission) (db d : Db)
    → Unpaid db d
    → Unpaid db (after (set_mission mission f) d)
mission-Unpaid none f db d u = u
mission-Unpaid (some id) f db d u =
    found-Unpaid (any (λ m. m.id == id) d.missions)
      (λ x. record x { missions = update_many (λ m. m.id == id) f x.missions }) db d u u

leg-Unpaid :
    (leg : Option Leg) (f : Leg → Leg) (db d : Db)
    → Unpaid db d
    → Unpaid db (after (set_leg leg f) d)
leg-Unpaid none f db d u = u
leg-Unpaid (some l) f db d u =
    found-Unpaid (any (λ x. x.id == l.id) d.legs)
      (λ x. record x { legs = update_many (λ y. y.id == l.id) f x.legs }) db d u u

-- One step and then the rest of a declaration.
Unpaid-bind :
    {A B : Type 0} (m : Action A) (f : A → Action B) (db d : Db)
    → Unpaid db (after m d)
    → ((a : A) (x : Db) → Unpaid db x → Unpaid db (after (f a) x))
    → Unpaid db (after (m >>= f) d)
Unpaid-bind m f db d first rest =
    continue-holds (Unpaid db) (m d) f first (λ a. rest a (after m d) first)

module _ (now : ℕ) (s : Shipment) (mission : Option ℕ) (db : Db) where
  step-Unpaid :
      (step : HandoverStep) (d : Db)
      → Unpaid db d
      → Unpaid db (after (handover_step step now s mission) d)
  unfolding handover_step
  step-Unpaid HandoverStep.pickup_from_seller d u =
      Unpaid-bind (update_shipment s.id _) _ db d (shipment-Unpaid s.id _ db d (λ x. refl) u)
        (λ _ x v.
          Unpaid-bind (update_order s.order_id _) _ db x (order-Unpaid s.order_id _ db x v)
            (λ _ y w.
              Unpaid-bind (set_mission mission _) _ db y (mission-Unpaid mission _ db y w)
                (λ _ z t. t)))
  step-Unpaid HandoverStep.handover_to_carrier d u =
      Unpaid-bind (update_shipment s.id _) _ db d (shipment-Unpaid s.id _ db d (λ x. refl) u)
        (λ _ x v.
          Unpaid-bind (set_leg (transit_leg s.id x) _) _ db x
            (leg-Unpaid (transit_leg s.id x) _ db x v) (λ _ z t. t))
  step-Unpaid HandoverStep.arrival_at_station d u =
      Unpaid-bind (update_shipment s.id _) _ db d (shipment-Unpaid s.id _ db d (λ x. refl) u)
        (λ _ x v.
          Unpaid-bind (set_leg (transit_leg s.id x) _) _ db x
            (leg-Unpaid (transit_leg s.id x) _ db x v) (λ _ z t. t))
  step-Unpaid HandoverStep.delivery_to_buyer d u =
      Unpaid-bind (update_shipment s.id _) _ db d (shipment-Unpaid s.id _ db d (λ x. refl) u)
        (λ _ x v.
          Unpaid-bind (set_mission mission _) _ db x (mission-Unpaid mission _ db x v) (λ _ z t. t))
  step-Unpaid HandoverStep.pickup_from_station d u = u
  step-Unpaid HandoverStep.buyer_conformity_confirmation d u = u

  declaration-Unpaid :
      (step : HandoverStep) → Unpaid db (after (record_declaration step now s mission) db)
  unfolding record_declaration
  declaration-Unpaid step = roll_back-holds (Unpaid db) db _ (Unpaid-refl db) (
      Unpaid-bind (handover_step step now s mission) _ db (declare_evidence s.id step db)
        (step-Unpaid step (declare_evidence s.id step db) (Unpaid-refl db)) (λ next x v. v))

declared-Unpaid :
    (step : HandoverStep) (now id : ℕ) (mission : Option ℕ) (db : Db)
    → Unpaid db (after (record_handover_evidence step now id mission) db)
unfolding record_handover_evidence
declared-Unpaid step now id mission db =
    reads-holds (Unpaid db) (or_throw (find_first (λ s. s.id == id) db.shipments) not_found) _ db
      (or_throw-after _ _ db) (Unpaid-refl db) (λ s. declaration-Unpaid now s mission db step)

-- A declaration: its step, when it was made, of which shipment, and naming which mission.
pub record Declaration : Type 0 where
  pub step : HandoverStep
  pub made_at : ℕ
  pub shipment : ℕ
  pub mission : Option ℕ

abbrev pub declare_all : List Declaration → Db → Db
declare_all [] db = db
declare_all (c ∷ rest) db =
    declare_all rest (after (record_handover_evidence c.step c.made_at c.shipment c.mission) db)

-- What a carrier declares never pays anyone and never proves a delivery: after any declarations, by
-- anyone, the parts of the money and the balances of couriers, agencies and shops are what they were, no
-- evidence more is verified, and no shipment counts as delivered that did not before.
pub declare_all-Unpaid :
    (declarations : List Declaration) (db : Db) → Unpaid db (declare_all declarations db)
declare_all-Unpaid [] db = Unpaid-refl db
declare_all-Unpaid (c ∷ rest) db =
    let next = after (record_handover_evidence c.step c.made_at c.shipment c.mission) db in
    Unpaid-trans db next (declare_all rest next)
      (declared-Unpaid c.step c.made_at c.shipment c.mission db) (declare_all-Unpaid rest next)
