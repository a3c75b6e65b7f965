-- ===== src/Delivery/Partners/Exclusive.antt =====
-- A courier of backend/src/delivery/delivery.service.ts works for one agency at a time.
use afrique_os.Common.{
  ℕ, ◌≤◌, ◌≡◌, refl, Bool, true, false, ◌&&◌, not, Option, List, [], ◌∷◌, arith, Bool-cases, inl,
  inr, ◌==◌, ==→eq, any,
}
use afrique_os.Common.Tables.{
  find_first, update_many, count, count-update_many, count-update_many_le,
}
use afrique_os.Database.Rows.{Membership, Courier, Db}
use afrique_os.Database.Action.{
  after, gets, reads-holds, throw_if-after, roll_back-holds, or_throw, or_throw-after, throw_if,
  not_found, forbidden, conflict, ◌>>=◌, ◌>>◌,
}
use afrique_os.Database.Calls.{update_courier}
use afrique_os.Delivery.Config.{or_else}
use afrique_os.Delivery.Partners.{
  attach_courier, record_attachment, detach_courier, record_detachment, is_pair, is_active_of,
  is_elsewhere, is_active_pair, activate, detach, upsert_membership, new_member, make_member,
  make_independent, is_public_work, is_agency_work,
}

-- A pair of an agency and a courier has one row at most, and a courier is active in one at most.
abbrev pub Exclusive : List Membership → Type 0
Exclusive ms =
    ((agency courier : ℕ) → count (is_pair agency courier) ms ≤ 1)
    × ((courier : ℕ) → count (is_active_of courier) ms ≤ 1)

detach-Exclusive :
    (agency courier : ℕ) (ms : List Membership)
    → Exclusive ms
    → Exclusive (update_many (is_active_pair agency courier) detach ms)
detach-Exclusive agency courier ms (pairs, active) = (
  (λ a c.
      rw (count-update_many (is_pair a c) (is_active_pair agency courier) detach ms (λ x. refl))
        (pairs a c)),
  (λ c. omega (
    arith,
    count-update_many_le (is_active_of c) (is_active_pair agency courier) detach ms
        (λ x p h. ground arith),
    active c,
  )),
)

-- Where the courier is active nowhere else, the active rows are those of the pair.
only_here :
    (agency courier : ℕ) (b : Bool) (ms : List Membership)
    → any (is_elsewhere agency courier) ms ≡ false
    → count (is_active_of courier) (update_many (is_pair agency courier) (activate b) ms)
      ≤ count (is_pair agency courier) ms
only_here agency courier b [] h = omega arith
only_here agency courier b (m ∷ ms) h = ground (arith, only_here agency courier b ms)

none_here :
    (agency courier : ℕ) (ms : List Membership)
    → any (is_elsewhere agency courier) ms ≡ false
    → any (is_pair agency courier) ms ≡ false
    → count (is_active_of courier) ms ≡ 0
none_here agency courier [] h k = refl
none_here agency courier (m ∷ ms) h k = ground (arith, none_here agency courier ms)

no_pair :
    (agency courier : ℕ) (ms : List Membership)
    → any (is_pair agency courier) ms ≡ false
    → count (is_pair agency courier) ms ≡ 0
no_pair agency courier [] h = refl
no_pair agency courier (m ∷ ms) h = ground (arith, no_pair agency courier ms)

module _ (agency courier : ℕ) (b : Bool) (ms : List Membership)
    (free : any (is_elsewhere agency courier) ms ≡ false) (exclusive : Exclusive ms) where
  update-Exclusive : Exclusive (update_many (is_pair agency courier) (activate b) ms)
  update-Exclusive = (
    (λ a c.
        rw (count-update_many (is_pair a c) (is_pair agency courier) (activate b) ms (λ x. refl))
          (exclusive.0 a c)),
    (λ c. elim (Bool-cases (courier == c)) [
      | inl same ↦
          rw (← ==→eq courier c same)
            (omega (arith, only_here agency courier b ms free, exclusive.0 agency courier))
      | inr other ↦ omega (
        arith,
        count-update_many_le (is_active_of c) (is_pair agency courier) (activate b) ms
            (λ x p h. ground arith),
        exclusive.1 c,
      )
    ]),
  )

  new-Exclusive :
      (m : Membership)
      → m.agency_id ≡ agency
      → m.courier_id ≡ courier
      → any (is_pair agency courier) ms ≡ false
      → Exclusive (m ∷ ms)
  new-Exclusive m of_agency of_courier fresh = (
    (λ a c. elim (Bool-cases (is_pair a c m)) [
      | inl same ↦
          let ea : agency ≡ a = ground arith in
          let ec : courier ≡ c = ground arith in
          let empty : count (is_pair a c) ms ≡ 0 =
            rw (← ea, ← ec) (no_pair agency courier ms fresh) in
          rw same (omega (arith, empty))
      | inr other ↦ rw other (exclusive.0 a c)
    ]),
    (λ c. elim (Bool-cases (is_active_of c m)) [
      | inl same ↦
          let ec : courier ≡ c = ground arith in
          let empty : count (is_active_of c) ms ≡ 0 =
            rw (← ec) (none_here agency courier ms free fresh) in
          rw same (omega (arith, empty))
      | inr other ↦ rw other (exclusive.1 c)
    ]),
  )

upsert-Exclusive :
    (agency courier : ℕ) (b : Bool) (db : Db)
    → any (is_elsewhere agency courier) db.memberships ≡ false
    → Exclusive db.memberships
    → Exclusive (upsert_membership agency courier b db).memberships
upsert-Exclusive agency courier b db free exclusive =
    elim (Bool-cases (any (is_pair agency courier) db.memberships)) [
      | inl e ↦ rw e (update-Exclusive agency courier b db.memberships free exclusive)
      | inr e ↦ rw e (
          new-Exclusive agency courier b db.memberships free exclusive (new_member agency courier b)
            refl refl e)
    ]

update_courier-memberships :
    (id : ℕ) (f : Courier → Courier) (db : Db)
    → (after (update_courier id f) db).memberships ≡ db.memberships
update_courier-memberships id f db = ground arith

-- The memberships stay exclusive.
abbrev StaysExclusive : Db → Db → Type 0
StaysExclusive db d = Exclusive db.memberships → Exclusive d.memberships

attachment-Exclusive :
    (agency courier : ℕ) (b : Bool) (db : Db)
    → any (is_elsewhere agency courier) db.memberships ≡ false
    → StaysExclusive db (after (record_attachment agency courier b) db)
unfolding record_attachment
attachment-Exclusive agency courier b db free =
    roll_back-holds (StaysExclusive db) db
      (update_courier courier (make_member agency) (upsert_membership agency courier b db)) (λ e. e)
      (λ exclusive.
        rw
          (update_courier-memberships courier (make_member agency)
            (upsert_membership agency courier b db))
          (upsert-Exclusive agency courier b db free exclusive))

abbrev detached : ℕ → ℕ → Db → Db
detached agency courier db = record db {
  memberships = update_many (is_active_pair agency courier) detach db.memberships;
}

detachment-Exclusive :
    (agency courier : ℕ) (db : Db) → StaysExclusive db (after (record_detachment agency courier) db)
unfolding record_detachment
detachment-Exclusive agency courier db =
    roll_back-holds (StaysExclusive db) db
      (update_courier courier make_independent (detached agency courier db)) (λ e. e)
      (λ exclusive.
        rw (update_courier-memberships courier make_independent (detached agency courier db))
          (detach-Exclusive agency courier db.memberships exclusive))

-- What follows the check that the courier is active nowhere else.
attach_rest :
    (agency courier : ℕ) (b elsewhere : Bool) (db : Db)
    → any (is_elsewhere agency courier) db.memberships ≡ elsewhere
    → StaysExclusive db (
        after
          (throw_if elsewhere conflict
            >> (gets (λ d. any (is_public_work courier) d.missions) >>= λ busy.
                throw_if busy conflict >> record_attachment agency courier b))
          db)
attach_rest agency courier b true db e = λ x. x
attach_rest agency courier b false db e =
    reads-holds (StaysExclusive db) (throw_if (any (is_public_work courier) db.missions) conflict)
      (λ _. record_attachment agency courier b) db (throw_if-after _ _ db) (λ x. x)
      (λ _. attachment-Exclusive agency courier b db e)

attach-Exclusive :
    (agency owner courier : ℕ) (asked : Option Bool) (is_admin : Bool) (db : Db)
    → StaysExclusive db (after (attach_courier agency owner courier asked is_admin) db)
unfolding attach_courier
attach-Exclusive agency owner courier asked is_admin db =
    reads-holds (StaysExclusive db)
      (or_throw (find_first (λ a. a.id == agency) db.agencies) not_found) _ db
      (or_throw-after _ _ db) (λ x. x)
      (λ a.
        reads-holds (StaysExclusive db)
          (throw_if (not is_admin && not (a.owner_id == owner)) forbidden) _ db
          (throw_if-after _ _ db) (λ x. x)
          (λ _.
            reads-holds (StaysExclusive db)
              (or_throw (find_first (λ c. c.id == courier) db.couriers) not_found) _ db
              (or_throw-after _ _ db) (λ x. x)
              (λ c.
                attach_rest agency c.id (or_else asked true)
                  (any (is_elsewhere agency c.id) db.memberships) db refl)))

detach-keeps_Exclusive :
    (agency courier actor : ℕ) (is_admin : Bool) (db : Db)
    → StaysExclusive db (after (detach_courier agency courier actor is_admin) db)
unfolding detach_courier
detach-keeps_Exclusive agency courier actor is_admin db =
    reads-holds (StaysExclusive db)
      (or_throw (find_first (λ a. a.id == agency) db.agencies) not_found) _ db
      (or_throw-after _ _ db) (λ x. x)
      (λ a.
        reads-holds (StaysExclusive db)
          (throw_if (not is_admin && not (a.owner_id == actor)) forbidden) _ db
          (throw_if-after _ _ db) (λ x. x)
          (λ _.
            reads-holds (StaysExclusive db)
              (throw_if (any (is_agency_work agency courier) db.missions) conflict) _ db
              (throw_if-after _ _ db) (λ x. x) (λ _. detachment-Exclusive agency courier db)))

-- One call of an attachment or a detachment, whether it goes through or throws.
pub data Transfer : Db → Db → Type 0 where
  attached :
      {db : Db} (agency owner courier : ℕ) (asked : Option Bool) (is_admin : Bool)
      → Transfer db (after (attach_courier agency owner courier asked is_admin) db)
  let_go :
      {db : Db} (agency courier actor : ℕ) (is_admin : Bool)
      → Transfer db (after (detach_courier agency courier actor is_admin) db)

-- A run of them.
pub data Transfers : Db → Db → Type 0 where
  none_yet : {db : Db} → Transfers db db
  one_more : {db mid last : Db} → Transfer db mid → Transfers mid last → Transfers db last

Transfer-Exclusive : {db d : Db} → Transfer db d → StaysExclusive db d
Transfer-Exclusive (attached {db = db} agency owner courier asked is_admin) x =
    attach-Exclusive agency owner courier asked is_admin db x
Transfer-Exclusive (let_go {db = db} agency courier actor is_admin) x =
    detach-keeps_Exclusive agency courier actor is_admin db x

-- A courier is an active member of one agency at most: from memberships of which this is true, with one
-- row at most for each agency and courier, no run of attachments and detachments, by anyone and in any
-- order, whether they go through or are refused, leads to memberships of which it is not.
pub Transfers-Exclusive :
    {db last : Db} → Transfers db last → Exclusive db.memberships → Exclusive last.memberships
Transfers-Exclusive none_yet exclusive = exclusive
Transfers-Exclusive (one_more t rest) exclusive =
    Transfers-Exclusive rest (Transfer-Exclusive t exclusive)
