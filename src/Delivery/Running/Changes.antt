-- ===== src/Delivery/Running/Changes.antt =====
-- How the operations of backend/src/delivery/delivery.service.ts change the table of missions.
use afrique_os.Common.{
  ℕ, zero, suc, ◌≡◌, refl, ap, ◌∙◌, Bool, true, false, ◌&&◌, not, Option, none, some, List, ◌∷◌,
  arith, ◌==◌, any,
}
use afrique_os.Common.Tables.{find_first, update_many, count}
use afrique_os.Database.Enums.{DispatchMode, is_verified}
use afrique_os.Database.Rows.{Shipment, Mission, Courier, Agency, Order, Db}
use afrique_os.Database.Action.{
  Action, after, continue-holds, continue-keep, reads-holds, throw_if-after, roll_back-holds,
  or_throw, or_throw-after, throw_if, HttpError, record_missing, not_found, forbidden, bad_request,
  conflict, ◌>>=◌, ◌>>◌,
}
use afrique_os.Database.Calls.{
  mission_or_throw, shipment_or_throw, order_or_throw, update_order, update_shipment,
}
use afrique_os.Delivery.Config.{DeliveryConfig, get_config}
use afrique_os.Delivery.Access.{activate_conversation_access, open_thread, upsert_access}
use afrique_os.Delivery.Dispatch.{
  DispatchRequest, dispatch_shipment, dispatch_by, dispatch_personal, dispatch_to_agency,
  offer_to_agency, publish, record_personal, personal_mission, add_mission, is_given, open_mission,
  agency_mission, is_active_agency, is_member_if, dispatch_free, new_mission, check_payment,
  owns_boutique, is_running_for, is_active_member,
}
use afrique_os.Delivery.Assign.{
  accept_public_mission, verified_independent_courier, claim_mission, if_claimed, after_claim,
  assign_leg, courier_part, claim_event, assignment_event, assign_mission_by_agency, agency_of,
  is_ready, assign_mission, if_assigned, after_assignment, claim, is_claimable, assign_to,
  is_assignable,
}
use afrique_os.Delivery.Running.{Change, kept, created, updated}

activate-missions :
    (s : Shipment) (mission courier new_id : ℕ) (db : Db)
    → (after (activate_conversation_access s mission courier new_id) db).missions ≡ db.missions
unfolding activate_conversation_access open_thread upsert_access
activate-missions s mission courier new_id db = ground arith

-- An action that leaves the table of missions.
abbrev pub Keeps : {A : Type 0} → Action A → Type 0
Keeps m = (db : Db) → (after m db).missions ≡ db.missions

pub Keeps-bind :
    {A B : Type 0} (m : Action A) (f : A → Action B)
    → Keeps m
    → ((a : A) → Keeps (f a))
    → Keeps (m >>= f)
Keeps-bind m f first rest db = continue-keep (λ d. d.missions) (m db) f (λ a d. rest a d) ∙ first db

throw-Keeps : {A : Type 0} (o : Db → Option A) (e : HttpError) → Keeps (λ d. or_throw (o d) e d)
throw-Keeps o e d = ap (λ x. x.missions) (or_throw-after (o d) e d)

pub update_shipment-Keeps : (id : ℕ) (f : Shipment → Shipment) → Keeps (update_shipment id f)
update_shipment-Keeps id f db = ground arith

pub update_order-Keeps : (id : ℕ) (f : Order → Order) → Keeps (update_order id f)
update_order-Keeps id f db = ground arith

assign_leg-Keeps : (leg : Option ℕ) → Keeps (assign_leg leg)
assign_leg-Keeps none db = refl
assign_leg-Keeps (some id) db = ground arith

after_claim-missions : (new_id id : ℕ) (c : Courier) → Keeps (after_claim new_id id c)
unfolding after_claim
after_claim-missions new_id id c =
    Keeps-bind (mission_or_throw id) _
      (throw-Keeps (λ d. find_first (λ m. m.id == id) d.missions) record_missing)
      (λ m.
        Keeps-bind (shipment_or_throw m.shipment_id) _
          (throw-Keeps (λ d. find_first (λ s. s.id == m.shipment_id) d.shipments) record_missing)
          (λ s.
            Keeps-bind (update_shipment m.shipment_id _) _ (update_shipment-Keeps m.shipment_id _)
              (λ _. Keeps-bind (assign_leg m.leg_id) _ (assign_leg-Keeps m.leg_id) (λ _.
                Keeps-bind (update_order s.order_id _) _ (update_order-Keeps s.order_id _) (λ _ d.
                  Keeps-bind (activate_conversation_access s m.id c.user_id new_id) _
                    (activate-missions s m.id c.user_id new_id)
                    (λ _ d'.
                      throw-Keeps (λ x. find_first (λ y. y.id == m.id) x.missions) record_missing
                        (claim_event m d'))
                    (courier_part new_id c s m d))))))

after_assignment-missions :
    (new_id : ℕ) (c : Courier) (a : Agency) (m : Mission) → Keeps (after_assignment new_id c a m)
unfolding after_assignment
after_assignment-missions new_id c a m =
    Keeps-bind (shipment_or_throw m.shipment_id) _
      (throw-Keeps (λ d. find_first (λ s. s.id == m.shipment_id) d.shipments) record_missing)
      (λ s.
        Keeps-bind (update_shipment m.shipment_id _) _ (update_shipment-Keeps m.shipment_id _) (λ _.
          Keeps-bind (assign_leg m.leg_id) _ (assign_leg-Keeps m.leg_id) (λ _.
            Keeps-bind (update_order s.order_id _) _ (update_order-Keeps s.order_id _) (λ _.
              Keeps-bind (activate_conversation_access s m.id c.user_id new_id) _
                (activate-missions s m.id c.user_id new_id)
                (λ _ d'.
                  throw-Keeps (λ x. find_first (λ y. y.id == m.id) x.missions) record_missing
                    (assignment_event m d'))))))

pub if_claimed-missions : (n new_id id : ℕ) (c : Courier) → Keeps (if_claimed n new_id id c)
unfolding if_claimed
if_claimed-missions zero new_id id c db = refl
if_claimed-missions (suc n) new_id id c db = after_claim-missions new_id id c db

if_assigned-missions :
    (n new_id : ℕ) (c : Courier) (a : Agency) (m : Mission) → Keeps (if_assigned n new_id c a m)
unfolding if_assigned
if_assigned-missions zero new_id c a m db = refl
if_assigned-missions (suc n) new_id c a m db = after_assignment-missions new_id c a m db

changed_to :
    {ms ms' : List Mission} (p : Mission → Bool) (f : Mission → Mission)
    → ms' ≡ update_many p f ms
    → ((id : ℕ) (m : Mission)
        → p m ≡ true
        → is_running_for id (f m) ≡ true
        → is_running_for id m ≡ true)
    → Change ms ms'
changed_to p f e only = rw e (updated p f only)

pub kept_by : {ms ms' : List Mission} → ms' ≡ ms → Change ms ms'
kept_by e = rw e kept

-- From one database to the next.
abbrev pub Moves : Db → Db → Type 0
Moves db d = Change db.missions d.missions

pub claim_mission-Moves :
    (now new_id id : ℕ) (c : Courier) (db : Db)
    → Moves db (after (claim_mission now new_id id c) db)
unfolding claim_mission
claim_mission-Moves now new_id id c db = roll_back-holds (Moves db) db _ kept (
    changed_to (is_claimable id) (claim now c.id)
      (if_claimed-missions (count (is_claimable id) db.missions) new_id id c _)
      (λ n m p r. ground arith))

verified_courier-after : (user : ℕ) (db : Db) → after (verified_independent_courier user) db ≡ db
unfolding verified_independent_courier
verified_courier-after user db = ground arith

pub accept_public_mission-Moves :
    (now new_id id user : ℕ) (db : Db)
    → Moves db (after (accept_public_mission now new_id id user) db)
unfolding accept_public_mission
accept_public_mission-Moves now new_id id user db =
    continue-holds (Moves db) (verified_independent_courier user db) (claim_mission now new_id id)
      (kept_by (ap (λ d. d.missions) (verified_courier-after user db)))
      (λ c. rw (verified_courier-after user db) (claim_mission-Moves now new_id id c db))

-- A step that only reads, and what follows it.
pub Moves-reads :
    {A B : Type 0} (m : Action A) (f : A → Action B) (db : Db)
    → after m db ≡ db
    → ((a : A) → Moves db (after (f a) db))
    → Moves db (after (m >>= f) db)
Moves-reads m f db same rest = reads-holds (Moves db) m f db same kept rest

assign_mission-Moves :
    (now new_id : ℕ) (c : Courier) (a : Agency) (m : Mission) (db : Db)
    → Moves db (after (assign_mission now new_id c a m) db)
unfolding assign_mission
assign_mission-Moves now new_id c a m db = roll_back-holds (Moves db) db _ kept (
    changed_to (is_assignable m.id a.id) (assign_to now c.id _)
      (if_assigned-missions (count (is_assignable m.id a.id) db.missions) new_id c a m _)
      (λ n x p r. ground arith))

pub assign_mission_by_agency-Moves :
    (now new_id id owner courier : ℕ) (is_admin : Bool) (db : Db)
    → Moves db (after (assign_mission_by_agency now new_id id owner courier is_admin) db)
unfolding assign_mission_by_agency
assign_mission_by_agency-Moves now new_id id owner courier is_admin db =
    Moves-reads (or_throw (find_first (λ m. m.id == id) db.missions) not_found) _ db
      (or_throw-after _ _ db)
      (λ m. Moves-reads (or_throw (agency_of m db) not_found) _ db (or_throw-after _ _ db) (λ a.
        Moves-reads (throw_if (not is_admin && not (a.owner_id == owner)) forbidden) _ db
          (throw_if-after _ _ db)
          (λ _.
            Moves-reads (throw_if (not (is_active_member a.id courier db)) bad_request) _ db
              (throw_if-after _ _ db)
              (λ _.
                Moves-reads (or_throw (find_first (λ c. c.id == courier) db.couriers) bad_request) _
                  db (or_throw-after _ _ db)
                  (λ c.
                    Moves-reads (throw_if (not (is_ready c)) bad_request) _ db
                      (throw_if-after _ _ db) (λ _. assign_mission-Moves now new_id c a m db))))))

created_by :
    {ms ms' : List Mission} (m : Mission) (shipment : ℕ)
    → ms' ≡ m ∷ ms
    → m.shipment_id ≡ shipment
    → any (is_running_for shipment) ms ≡ false
    → Change ms ms'
created_by m shipment e own free = rw e (created m (rw own free))

offer_to_agency-Moves :
    (now new_id agency : ℕ) (s : Shipment) (m : Mission) (db : Db)
    → any (is_running_for m.shipment_id) db.missions ≡ false
    → Moves db (after (offer_to_agency now new_id agency s m) db)
unfolding offer_to_agency
offer_to_agency-Moves now new_id agency s m db free = roll_back-holds (Moves db) db _ kept (
    created_by m m.shipment_id
      (Keeps-bind (update_shipment s.id _) _ (update_shipment-Keeps s.id _) (λ _ d. refl)
        (add_mission m db))
      refl free)

-- What a dispatch does to the missions, where none is under way.
module _ (now new_id : ℕ) (s : Shipment) (m : Mission) (db : Db)
    (free : any (is_running_for m.shipment_id) db.missions ≡ false) where
  record_personal-Moves :
      (dto : DispatchRequest) → Moves db (after (record_personal now dto s m) db)
  unfolding record_personal
  record_personal-Moves dto = roll_back-holds (Moves db) db _ kept (
      created_by (personal_mission now dto m) m.shipment_id
        (Keeps-bind (update_shipment s.id _) _ (update_shipment-Keeps s.id _)
          (λ _.
            Keeps-bind (update_order s.order_id _) _ (update_order-Keeps s.order_id _)
              (λ _ d. refl))
          (add_mission (personal_mission now dto m) db))
        refl free)

  dispatch_personal-Moves :
      (dto : DispatchRequest) → Moves db (after (dispatch_personal now dto s m) db)
  unfolding dispatch_personal
  dispatch_personal-Moves dto =
      Moves-reads
        (throw_if (not (is_given dto.personal_name && is_given dto.personal_phone)) bad_request) _
        db (throw_if-after _ _ db) (λ _. record_personal-Moves dto)

  publish-Moves : Moves db (after (publish now s m) db)
  unfolding publish
  publish-Moves = roll_back-holds (Moves db) db _ kept (
      created_by (open_mission now m) m.shipment_id
        (Keeps-bind (update_shipment s.id _) _ (update_shipment-Keeps s.id _) (λ _ d. refl)
          (add_mission (open_mission now m) db))
        refl free)

  dispatch_to_agency-Moves :
      (dto : DispatchRequest) → Moves db (after (dispatch_to_agency now new_id dto s m) db)
  unfolding dispatch_to_agency
  dispatch_to_agency-Moves dto =
      Moves-reads (or_throw dto.agency_id bad_request) _ db (or_throw-after _ _ db) (λ n.
        Moves-reads (or_throw (find_first (λ a. a.id == n) db.agencies) not_found) _ db
          (or_throw-after _ _ db)
          (λ a.
            Moves-reads
              (throw_if (not (is_verified a.verification_status && is_active_agency a.status))
                bad_request)
              _ db (throw_if-after _ _ db)
              (λ _.
                Moves-reads
                  (throw_if (not (is_member_if a.id dto.requested_courier_id db)) bad_request) _ db
                  (throw_if-after _ _ db)
                  (λ _.
                    offer_to_agency-Moves now new_id a.id s (agency_mission now a.id dto m) db
                      free))))

  dispatch_by-Moves :
      (mode : DispatchMode) (dto : DispatchRequest)
      → Moves db (after (dispatch_by mode now new_id dto s m) db)
  unfolding dispatch_by
  dispatch_by-Moves DispatchMode.seller_personal_courier dto = dispatch_personal-Moves dto
  dispatch_by-Moves DispatchMode.partner_agency dto = dispatch_to_agency-Moves dto
  dispatch_by-Moves DispatchMode.public_pool dto = publish-Moves

check_payment-after :
    (mode : DispatchMode) (s : Shipment) (o : Order) (config : DeliveryConfig) (db : Db)
    → after (check_payment mode s o config) db ≡ db
unfolding check_payment
check_payment-after mode s o config db = ground arith

-- What follows the check that no mission is under way.
dispatch_rest :
    (now new_id : ℕ) (dto : DispatchRequest) (s : Shipment) (db : Db) (busy : Bool)
    → any (is_running_for s.id) db.missions ≡ busy
    → Moves db (after (throw_if busy conflict >> dispatch_free now new_id dto s) db)
unfolding dispatch_free new_mission
dispatch_rest now new_id dto s db true e = kept
dispatch_rest now new_id dto s db false e =
    Moves-reads (order_or_throw s.order_id) _ db (or_throw-after _ _ db) (λ o.
      Moves-reads (check_payment dto.mode s o (get_config db)) _ db
        (check_payment-after dto.mode s o (get_config db) db)
        (λ _.
          dispatch_by-Moves now new_id s
            (new_mission new_id dto s (get_config db)
              (find_first (λ l. l.shipment_id == s.id) db.legs))
            db e dto.mode dto))

pub dispatch_shipment-Moves :
    (now new_id id seller : ℕ) (dto : DispatchRequest) (is_admin : Bool) (db : Db)
    → Moves db (after (dispatch_shipment now new_id id seller dto is_admin) db)
unfolding dispatch_shipment
dispatch_shipment-Moves now new_id id seller dto is_admin db =
    Moves-reads (or_throw (find_first (λ s. s.id == id) db.shipments) not_found) _ db
      (or_throw-after _ _ db)
      (λ s.
        Moves-reads
          (throw_if (not is_admin && not (owns_boutique seller s.boutique_id db)) forbidden) _ db
          (throw_if-after _ _ db)
          (λ _. dispatch_rest now new_id dto s db (any (is_running_for s.id) db.missions) refl))
