-- ===== src/Delivery/Finalize/Parts.antt =====
-- The parts of the money after a verified delivery, in backend/src/delivery/delivery.service.ts.
use afrique_os.Common.{
  ℕ, ◌+◌, ◌≡◌, refl, sym, ap, ◌∙◌, Option, none, some, List, [], ◌∷◌, arith, if◌then◌else◌,
  Bool-cases, Option-cases, inl, inr, ◌==◌, ==→eq,
}
use afrique_os.Common.Tables.{
  find_first, find_first-test, find_many, update_many, update_many-same, update_many-alike,
}
use afrique_os.Common.Loops.{UniqueKeys, update_each, update_each-once}
use afrique_os.Database.Enums.{is_on_hold, is_delivery_part, is_seller}
use afrique_os.Database.Rows.{Allocation, Shipment, Mission, Db}
use afrique_os.Database.Action.{
  ok, err, outcome, after, continue-ok, continue-after, roll_back, roll_back-ok, record_missing,
  ◌>>◌,
}
use afrique_os.Delivery.Finalize.{
  finalize_verified_delivery, deliver, carried_mission, mark_delivered, settle_each, settle_part,
  credit_partner, close_conversation, earn, wait_for_buyer, is_part_of, window_ms,
}

-- What the delivery makes of a part: nothing where a dispute holds it.
abbrev pub settled : ℕ → ℕ → Allocation → Allocation → Allocation
settled now deadline a x =
    if is_on_hold a.status
    then x
    else if is_delivery_part a.beneficiary_type
    then earn now x
    else if is_seller a.beneficiary_type
    then wait_for_buyer deadline x
    else x

credit_partner-allocations :
    (a : Allocation) (db : Db) → (after (credit_partner a) db).allocations ≡ db.allocations
unfolding credit_partner
credit_partner-allocations a db = ground arith

module _ (now deadline : ℕ) (a : Allocation) (db : Db) where
  as_updated :
      (f : Allocation → Allocation)
      → ((x : Allocation) → settled now deadline a x ≡ f x)
      → (after (settle_part now deadline a) db).allocations
        ≡ update_many (λ x. x.id == a.id) f db.allocations
      → (after (settle_part now deadline a) db).allocations
        ≡ update_many (λ x. x.id == a.id) (settled now deadline a) db.allocations
  as_updated f h k =
      k ∙ sym (update_many-alike (λ x. x.id == a.id) (settled now deadline a) f db.allocations h)

  settle_part-allocations :
      outcome (settle_part now deadline a) db ≡ ok tt
      → (after (settle_part now deadline a) db).allocations
        ≡ update_many (λ x. x.id == a.id) (settled now deadline a) db.allocations
  unfolding settle_part credit_partner
  settle_part-allocations h = elim (Bool-cases (is_on_hold a.status)) [
    | inl e ↦
        as_updated (λ x. x) (λ x. rw (settled, e) refl)
          (rw e (sym (update_many-same (λ x. x.id == a.id) (λ x. x) db.allocations (λ x. refl))))
    | inr e ↦ elim (Bool-cases (is_delivery_part a.beneficiary_type)) [
      | inl d ↦ as_updated (earn now) (λ x. rw (settled, e, d) refl) (ground arith)
      | inr d ↦ elim (Bool-cases (is_seller a.beneficiary_type)) [
        | inl t ↦
            as_updated (wait_for_buyer deadline) (λ x. rw (settled, e, d, t) refl) (ground arith)
        | inr t ↦
            as_updated (λ x. x) (λ x. rw (settled, e, d, t) refl)
              (rw (e, d, t)
                (sym (update_many-same (λ x. x.id == a.id) (λ x. x) db.allocations (λ x. refl))))
      ]
    ]
  ]

settle_each-allocations :
    (now deadline : ℕ) (rows : List Allocation) (db : Db)
    → outcome (settle_each now deadline rows) db ≡ ok tt
    → (after (settle_each now deadline rows) db).allocations
      ≡ update_each (λ a. a.id) (settled now deadline) rows db.allocations
unfolding settle_each update_each
settle_each-allocations now deadline [] db h = refl
settle_each-allocations now deadline (a ∷ rest) db h =
    let (_, first, others) =
      continue-ok (settle_part now deadline a db) (λ _. settle_each now deadline rest) h in
    ap (λ r. r.1.allocations)
      (continue-after (settle_part now deadline a db) (λ _. settle_each now deadline rest) first)
    ∙ settle_each-allocations now deadline rest _ others
    ∙ ap (update_each (λ x. x.id) (settled now deadline) rest)
        (settle_part-allocations now deadline a db first)

settled-id : (now deadline : ℕ) (a x : Allocation) → (settled now deadline a x).id ≡ x.id
settled-id now deadline a x = ground arith

mark_delivered-allocations :
    (now deadline : ℕ) (s : Shipment) (m : Option Mission) (db : Db)
    → (after (mark_delivered now deadline s m) db).allocations ≡ db.allocations
unfolding mark_delivered
mark_delivered-allocations now deadline s m db = ground arith

close_conversation-allocations :
    (s : Shipment) (db : Db) → (after (close_conversation s) db).allocations ≡ db.allocations
unfolding close_conversation
close_conversation-allocations s db = refl

-- The steps after the shipment is read.
module _ (now deadline : ℕ) (s : Shipment) (m : Option Mission) (db : Db) where
  delivered-allocations :
      (rows : List Allocation)
      → outcome
          (mark_delivered now deadline s m >> settle_each now deadline rows >> close_conversation s)
          db
        ≡ ok tt
      → (after
          (mark_delivered now deadline s m >> settle_each now deadline rows >> close_conversation s)
          db).allocations
        ≡ update_each (λ a. a.id) (settled now deadline) rows db.allocations
  delivered-allocations rows h =
      let marked = mark_delivered now deadline s m db in
      let (_, both, _) =
        continue-ok ((mark_delivered now deadline s m >> settle_each now deadline rows) db)
          (λ _. close_conversation s) h in
      let (_, first, second) = continue-ok marked (λ _. settle_each now deadline rows) both in
      ap (λ r. r.1.allocations) (continue-after _ (λ _. close_conversation s) both)
      ∙ close_conversation-allocations s _
      ∙ ap (λ r. r.1.allocations) (continue-after marked (λ _. settle_each now deadline rows) first)
      ∙ settle_each-allocations now deadline rows marked.1 second
      ∙ ap (update_each (λ x. x.id) (settled now deadline) rows)
          (mark_delivered-allocations now deadline s m db)

deliver-allocations :
    (now deadline : ℕ) (s : Shipment) (db : Db)
    → UniqueKeys (λ a. a.id) db.allocations
    → outcome (deliver now deadline s) db ≡ ok tt
    → (after (deliver now deadline s) db).allocations
      ≡ update_many (is_part_of s.id) (λ x. settled now deadline x x) db.allocations
unfolding deliver
deliver-allocations now deadline s db unique h =
    delivered-allocations now deadline s (carried_mission s.id db) db
      (find_many (is_part_of s.id) db.allocations) h
    ∙ update_each-once (λ a. a.id) (settled now deadline) (settled-id now deadline)
        (is_part_of s.id) db.allocations unique

finalize-found :
    (now id : ℕ) (db : Db) (s : Shipment)
    → find_first (λ x. x.id == id) db.shipments ≡ some s
    → finalize_verified_delivery now id db ≡ roll_back db (deliver now (now + window_ms db) s db)
unfolding finalize_verified_delivery
finalize-found now id db s e = rw e refl

finalize-missing :
    (now id : ℕ) (db : Db)
    → find_first (λ x. x.id == id) db.shipments ≡ none
    → finalize_verified_delivery now id db ≡ (err record_missing, db)
unfolding finalize_verified_delivery
finalize-missing now id db e = rw e refl

-- A verified delivery that went through delivered the shipment that was found.
pub finalize-delivers :
    (now id : ℕ) (db : Db)
    → outcome (finalize_verified_delivery now id) db ≡ ok tt
    → (s : Shipment) × (s.id ≡ id)
      × (outcome (deliver now (now + window_ms db) s) db ≡ ok tt)
      × (finalize_verified_delivery now id db ≡ deliver now (now + window_ms db) s db)
finalize-delivers now id db h = elim (Option-cases (find_first (λ s. s.id == id) db.shipments)) [
  | inl e ↦
      let gone : err record_missing ≡ ok tt =
        sym (ap (λ r. r.0) (finalize-missing now id db e)) ∙ h in
      cc
  | inr (s, e) ↦
      let same = finalize-found now id db s e in
      let went : (roll_back db (deliver now (now + window_ms db) s db)).0 ≡ ok tt =
        sym (ap (λ r. r.0) same) ∙ h in
      let all_done = roll_back-ok db (deliver now (now + window_ms db) s db) went in
      (
        s,
        ==→eq s.id id (find_first-test (λ x. x.id == id) db.shipments e),
        sym (ap (λ r. r.0) all_done) ∙ went,
        same ∙ all_done,
      )
]

-- A verified delivery, where the parts of the money have different ids, settles each part of the
-- shipment once and no other: one that a dispute holds stays as it is, the carrier's becomes
-- eligible, and the seller's waits for the buyer until the window of the settings is over.
pub finalize_verified_delivery-settled :
    (now id : ℕ) (db : Db)
    → UniqueKeys (λ a. a.id) db.allocations
    → outcome (finalize_verified_delivery now id) db ≡ ok tt
    → (after (finalize_verified_delivery now id) db).allocations
      ≡ update_many (is_part_of id) (λ x. settled now (now + window_ms db) x x) db.allocations
finalize_verified_delivery-settled now id db unique h =
    let (s, own, went, same) = finalize-delivers now id db h in
    ap (λ r. r.1.allocations) same
    ∙ deliver-allocations now (now + window_ms db) s db unique went
    ∙ ap
        (λ n. update_many (is_part_of n) (λ x. settled now (now + window_ms db) x x) db.allocations)
        own
