-- ===== src/Delivery/Running/Steps.antt =====
-- Runs of the operations of backend/src/delivery/delivery.service.ts that change missions: dispatch,
-- acceptance, assignment by an agency, and the two ways to confirm a delivery. The declarations of a
-- handover are left out: one may name any mission, also one that is over.
use afrique_os.Common.{
  ℕ, ◌+◌, ◌≡◌, refl, ap, ◌∙◌, Bool, true, false, ◌||◌, not, Option, none, some, List, [], ◌∷◌,
  arith, if◌then◌else◌, ◌==◌, any,
}
use afrique_os.Common.Tables.{find_first, find_many, update_many}
use afrique_os.Database.Enums.{is_delivered_verified, is_buyer_accepted, MissionStatus, OrderStatus}
use afrique_os.Database.Rows.{Text, Shipment, Mission, Allocation, Db}
use afrique_os.Database.Action.{
  Action, after, continue-holds, continue-keep, roll_back-holds, or_throw, or_throw-after, throw_if,
  throw_if-after, throw, pure, not_found, bad_request, forbidden, conflict, ◌>>=◌, ◌>>◌,
}
use afrique_os.Database.Calls.{update_found, update_shipment, shipment_or_throw}
use afrique_os.Delivery.Dispatch.{DispatchRequest, dispatch_shipment, is_running_for}
use afrique_os.Delivery.Assign.{accept_public_mission, assign_mission_by_agency}
use afrique_os.Delivery.Tokens.{hash_token_or_code, check_buyer}
use afrique_os.Delivery.Conformity.{accept_product_conformity, accept_conformity}
use afrique_os.Delivery.Finalize.{
  finalize_verified_delivery, deliver, mark_delivered, complete_mission, complete_legs, settle_each,
  settle_part, credit_partner, close_conversation, carried_mission, is_part_of, window_ms,
}
use afrique_os.Delivery.Code.{
  verify_delivery_by_buyer_code, verify_delivery_by_guest_or_buyer, compare_code, count_wrong,
  is_locked,
}
use afrique_os.Delivery.Running.{Change, kept, updated, OneRunning, Change-OneRunning}
use afrique_os.Delivery.Running.Changes.{
  Keeps, Keeps-bind, Moves-reads, kept_by, update_shipment-Keeps, update_order-Keeps, Moves,
  dispatch_shipment-Moves, accept_public_mission-Moves, assign_mission_by_agency-Moves,
}

credit_partner-Keeps : (a : Allocation) → Keeps (credit_partner a)
unfolding credit_partner
credit_partner-Keeps a db = ground arith

settle_part-Keeps : (now deadline : ℕ) (a : Allocation) → Keeps (settle_part now deadline a)
unfolding settle_part credit_partner
settle_part-Keeps now deadline a db = ground arith

settle_each-Keeps :
    (now deadline : ℕ) (rows : List Allocation) → Keeps (settle_each now deadline rows)
unfolding settle_each
settle_each-Keeps now deadline [] db = refl
settle_each-Keeps now deadline (a ∷ rest) db =
    Keeps-bind (settle_part now deadline a) _ (settle_part-Keeps now deadline a)
      (λ _. settle_each-Keeps now deadline rest) db

close_conversation-Keeps : (s : Shipment) → Keeps (close_conversation s)
unfolding close_conversation
close_conversation-Keeps s db = refl

-- A change, and then steps that leave the missions.
Moves-Keeps :
    {A B : Type 0} (m : Action A) (f : A → Action B) (db d : Db)
    → Moves db (after m d)
    → ((a : A) → Keeps (f a))
    → Moves db (after (m >>= f) d)
Moves-Keeps m f db d first rest =
    rw (continue-keep (λ x. x.missions) (m d) f (λ a x. rest a x)) first

-- Steps that leave the missions, and then a change.
Keeps-Moves :
    {A B : Type 0} (m : Action A) (f : A → Action B) (db d : Db)
    → Keeps m
    → d.missions ≡ db.missions
    → ((a : A) (x : Db) → Moves x (after (f a) x))
    → Moves db (after (m >>= f) d)
Keeps-Moves m f db d keeps same rest =
    let e : (after m d).missions ≡ db.missions = keeps d ∙ same in
    continue-holds (Moves db) (m d) f (kept_by e) (λ a. from e (rest a (after m d)))
  where
    from : {ms ms' x : List Mission} → ms ≡ ms' → Change ms x → Change ms' x
    from e c = rw (← e) c

completed :
    (now : ℕ) (m : Mission) (id : ℕ) (x : Mission)
    → is_running_for id (record x { status = MissionStatus.completed; completed_at = some now })
      ≡ true
    → is_running_for id x ≡ true
completed now m id x h = ground arith

complete_mission-Moves :
    (now : ℕ) (mission : Option Mission) (db : Db)
    → Moves db (after (complete_mission now mission) db)
complete_mission-Moves now none db = kept
complete_mission-Moves now (some m) db = found (any (λ x. x.id == m.id) db.missions)
  where
    found :
        (b : Bool)
        → Moves db (
            after
              (update_found b (λ d. record d {
                missions =
                    update_many
                      (λ x. x.id == m.id)
                      (λ x. record x { status = MissionStatus.completed; completed_at = some now })
                      d.missions;
              }))
              db)
    found true = updated (λ x. x.id == m.id) _ (λ id x _ h. completed now m id x h)
    found false = kept

mark_delivered-Moves :
    (now deadline : ℕ) (s : Shipment) (mission : Option Mission) (db : Db)
    → Moves db (after (mark_delivered now deadline s mission) db)
unfolding mark_delivered
mark_delivered-Moves now deadline s mission db =
    Keeps-Moves (update_shipment s.id _) _ db _ (update_shipment-Keeps s.id _) refl (λ _ d.
      Moves-Keeps (complete_mission now mission) _ d d (complete_mission-Moves now mission d)
        (λ _ x.
          update_order-Keeps s.order_id (λ o. record o { status = OrderStatus.delivered })
            (complete_legs now s x)))

deliver-Moves :
    (now deadline : ℕ) (s : Shipment) (db : Db) → Moves db (after (deliver now deadline s) db)
unfolding deliver
deliver-Moves now deadline s db =
    Moves-Keeps
      (mark_delivered now deadline s (carried_mission s.id db)
        >> settle_each now deadline (find_many (is_part_of s.id) db.allocations))
      _ db db
      (Moves-Keeps (mark_delivered now deadline s (carried_mission s.id db)) _ db db
        (mark_delivered-Moves now deadline s (carried_mission s.id db) db)
        (λ _. settle_each-Keeps now deadline (find_many (is_part_of s.id) db.allocations)))
      (λ _. close_conversation-Keeps s)

finalize-Moves : (now id : ℕ) (db : Db) → Moves db (after (finalize_verified_delivery now id) db)
unfolding finalize_verified_delivery
finalize-Moves now id db = roll_back-holds (Moves db) db _ kept (
    Moves-reads (shipment_or_throw id) _ db (or_throw-after _ _ db)
      (λ s. deliver-Moves now (now + window_ms db) s db))

compare_code-Moves :
    (digest : Text → ℕ) (now : ℕ) (code : Text) (s : Shipment) (hash : ℕ) (db : Db)
    → Moves db (after (compare_code digest now code s hash) db)
unfolding compare_code
compare_code-Moves digest now code s hash db = compared (hash_token_or_code digest code == hash)
  where
    compared :
        (b : Bool)
        → Moves db (
            after
              (if b
                then finalize_verified_delivery now s.id
                else update_shipment s.id (count_wrong now s) >> throw bad_request)
              db)
    compared true = finalize-Moves now s.id db
    compared false =
        kept_by
          (Keeps-bind (update_shipment s.id _) _ (update_shipment-Keeps s.id _) (λ _ d. refl) db)

verify_by_code-Moves :
    (digest : Text → ℕ) (now id : ℕ) (code : Text) (db : Db)
    → Moves db (after (verify_delivery_by_buyer_code digest now id code) db)
unfolding verify_delivery_by_buyer_code
verify_by_code-Moves digest now id code db =
    Moves-reads (or_throw (find_first (λ s. s.id == id) db.shipments) not_found) _ db
      (or_throw-after _ _ db)
      (λ s.
        Moves-reads
          (throw_if (is_delivered_verified s.status || is_buyer_accepted s.status) conflict) _ db
          (throw_if-after _ _ db)
          (λ _.
            Moves-reads (throw_if (is_locked now s.delivery_code_locked_until) forbidden) _ db
              (throw_if-after _ _ db)
              (λ _.
                Moves-reads (or_throw s.delivery_code_hash bad_request) _ db (or_throw-after _ _ db)
                  (λ hash. compare_code-Moves digest now code s hash db))))

accept_conformity-Keeps : (now : ℕ) (s : Shipment) → Keeps (accept_conformity now s)
unfolding accept_conformity
accept_conformity-Keeps now s db = ground arith

accept_product_conformity-Keeps :
    (digest : Text → ℕ) (now id : ℕ) (user : Option ℕ) (token : Option Text)
    → Keeps (accept_product_conformity digest now id user token)
unfolding accept_product_conformity check_buyer
accept_product_conformity-Keeps digest now id user token db =
    Keeps-bind (or_throw (find_first (λ s. s.id == id) db.shipments) not_found) _
      (λ d. ap (λ x. x.missions) (or_throw-after _ _ d))
      (λ s.
        Keeps-bind (check_buyer digest user token s) _
          (λ d. ap (λ x. x.missions) (throw_if-after _ forbidden d))
          (λ _.
            Keeps-bind
              (throw_if (not (is_delivered_verified s.status || is_buyer_accepted s.status))
                bad_request)
              _ (λ d. ap (λ x. x.missions) (throw_if-after _ bad_request d))
              (λ _. accept_conformity-Keeps now s)))
      db

also_accepts-Keeps :
    (digest : Text → ℕ) (now id : ℕ) (user : Option ℕ) (token : Option Text) (accepts : Bool)
    → Keeps (if accepts then accept_product_conformity digest now id user token else pure tt)
also_accepts-Keeps digest now id user token true =
    accept_product_conformity-Keeps digest now id user token
also_accepts-Keeps digest now id user token false = λ d. refl

verify_by_guest-Moves :
    (digest : Text → ℕ) (now id : ℕ) (token : Option Text) (accepts : Bool) (user : Option ℕ)
    (db : Db)
    → Moves db (after (verify_delivery_by_guest_or_buyer digest now id token accepts user) db)
unfolding verify_delivery_by_guest_or_buyer check_buyer
verify_by_guest-Moves digest now id token accepts user db =
    Moves-reads (or_throw (find_first (λ s. s.id == id) db.shipments) not_found) _ db
      (or_throw-after _ _ db)
      (λ s. Moves-reads (check_buyer digest user token s) _ db (throw_if-after _ forbidden db) (λ _.
        Moves-Keeps (finalize_verified_delivery now s.id) _ db db (finalize-Moves now s.id db)
          (λ _. also_accepts-Keeps digest now s.id user token accepts)))

-- One call of one operation, whether it goes through or throws.
pub data Step (digest : Text → ℕ) : Db → Db → Type 0 where
  dispatched :
      {db : Db} (now new_id id seller : ℕ) (dto : DispatchRequest) (is_admin : Bool)
      → Step digest db (after (dispatch_shipment now new_id id seller dto is_admin) db)
  accepted :
      {db : Db} (now new_id id user : ℕ)
      → Step digest db (after (accept_public_mission now new_id id user) db)
  assigned :
      {db : Db} (now new_id id owner courier : ℕ) (is_admin : Bool)
      → Step digest db (after (assign_mission_by_agency now new_id id owner courier is_admin) db)
  code_given :
      {db : Db} (now id : ℕ) (code : Text)
      → Step digest db (after (verify_delivery_by_buyer_code digest now id code) db)
  confirmed :
      {db : Db} (now id : ℕ) (token : Option Text) (accepts : Bool) (user : Option ℕ)
      → Step digest db
          (after (verify_delivery_by_guest_or_buyer digest now id token accepts user) db)

pub data Reach (digest : Text → ℕ) : Db → Db → Type 0 where
  here : {db : Db} → Reach digest db db
  step : {db mid last : Db} → Step digest db mid → Reach digest mid last → Reach digest db last

Step-Moves : {digest : Text → ℕ} {db d : Db} → Step digest db d → Moves db d
Step-Moves (dispatched {db = db} now new_id id seller dto is_admin) =
    dispatch_shipment-Moves now new_id id seller dto is_admin db
Step-Moves (accepted {db = db} now new_id id user) =
    accept_public_mission-Moves now new_id id user db
Step-Moves (assigned {db = db} now new_id id owner courier is_admin) =
    assign_mission_by_agency-Moves now new_id id owner courier is_admin db
Step-Moves {digest = digest} (code_given {db = db} now id code) =
    verify_by_code-Moves digest now id code db
Step-Moves {digest = digest} (confirmed {db = db} now id token accepts user) =
    verify_by_guest-Moves digest now id token accepts user db

-- A shipment never has two missions under way: from a database in which none has, no run of
-- dispatches, acceptances from the pool, assignments by agencies and confirmations of a delivery, in
-- any order and by anyone, whether they go through or are refused, leads to one in which some has.
pub Reach-OneRunning :
    {digest : Text → ℕ} {db last : Db}
    → Reach digest db last
    → OneRunning db.missions
    → OneRunning last.missions
Reach-OneRunning here one = one
Reach-OneRunning (step s rest) one = Reach-OneRunning rest (Change-OneRunning (Step-Moves s) one)
