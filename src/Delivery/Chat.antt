-- ===== src/Delivery/Chat.antt =====
-- sendShipmentChatMessage of backend/src/delivery/delivery.service.ts. The content of a message, which
-- is encrypted, and the time of a conversation's last message are left out.
use afrique_os.Common.{
  ℕ, ◌+◌, ◌≡◌, refl, sym, ap, ◌∙◌, Bool, true, false, ◌&&◌, ◌||◌, not, ◌∷◌, arith, ◌==◌, ltb, any,
  is_id, Option-cases, inl, inr, Option, List, [],
}
use afrique_os.Common.Tables.{
  find_first, find_many, update_many, count, count-update_many_out, any-count, any-find_first,
  is_some,
}
use afrique_os.Database.Enums.{ShipmentStatus, is_delivered_verified, is_buyer_accepted}
use afrique_os.Database.Rows.{Shipment, Access, Allocation, Mission, Db}
use afrique_os.Database.Action.{
  Action, ok, err, outcome, after, pure, gets, or_throw, throw, throw_if, modify, continue-ok,
  continue-after, ◌>>=◌, ◌>>◌, forbidden,
}
use afrique_os.Database.Calls.{shipment_or_throw, update_found}
use afrique_os.Delivery.Finalize.{
  settle_part, credit_partner, finalize_verified_delivery, deliver, mark_delivered, settle_each,
  close_conversation, carried_mission, is_part_of, window_ms,
}
use afrique_os.Delivery.Finalize.Parts.{finalize-delivers}

abbrev is_cancelled_shipment : ShipmentStatus → Bool
is_cancelled_shipment ShipmentStatus.cancelled = true
is_cancelled_shipment _ = false

abbrev pub is_open_access : ℕ → Access → Bool
is_open_access id a = a.shipment_id == id && a.is_active

abbrev revoke : Access → Db → Db
revoke a db = record db {
  accesses = update_many (λ x. x.id == a.id) (λ x. record x { is_active = false }) db.accesses;
}

-- A shipment that is over closes the access before the refusal.
unfoldable pub refuse_if_over : Bool → Access → Action (Unit {0})
refuse_if_over true a =
    (λ db. update_found (any (λ x. x.id == a.id) db.accesses) (revoke a) db) >> throw forbidden
refuse_if_over false a = pure tt

unfoldable pub send_message : ℕ → ℕ → Action (Unit {0})
unfolding refuse_if_over
send_message id sender = do
  found ← gets (λ db. find_first (is_open_access id) db.accesses)
  a ← or_throw found forbidden
  s ← shipment_or_throw a.shipment_id
  refuse_if_over
      (is_delivered_verified s.status
        || is_buyer_accepted s.status
        || is_cancelled_shipment s.status)
      a
  throw_if (not (a.courier_user_id == sender) && not (is_id a.customer_user_id sender)) forbidden
  modify (λ db. record db {
    messages =
        record {
          conversation_id = a.conversation_id;
          sender_id = sender;
          from_courier = a.courier_user_id == sender;
        }
        ∷ db.messages;
  })
  (λ db. update_found (any (λ c. c.id == a.conversation_id) db.conversations) (λ d. d) db)

abbrev pub closed : Access → Access
closed a = record a { is_active = false }

settle_part-accesses :
    (now deadline : ℕ) (a : Allocation) (db : Db)
    → (after (settle_part now deadline a) db).accesses ≡ db.accesses
unfolding settle_part credit_partner
settle_part-accesses now deadline a db = ground arith

settle_each-accesses :
    (now deadline : ℕ) (rows : List Allocation) (db : Db)
    → outcome (settle_each now deadline rows) db ≡ ok tt
    → (after (settle_each now deadline rows) db).accesses ≡ db.accesses
unfolding settle_each
settle_each-accesses now deadline [] db h = refl
settle_each-accesses now deadline (a ∷ rest) db h =
    let (_, first, others) =
      continue-ok (settle_part now deadline a db) (λ _. settle_each now deadline rest) h in
    ap (λ r. r.1.accesses)
      (continue-after (settle_part now deadline a db) (λ _. settle_each now deadline rest) first)
    ∙ settle_each-accesses now deadline rest _ others
    ∙ settle_part-accesses now deadline a db

mark_delivered-accesses :
    (now deadline : ℕ) (s : Shipment) (m : Option Mission) (db : Db)
    → (after (mark_delivered now deadline s m) db).accesses ≡ db.accesses
unfolding mark_delivered
mark_delivered-accesses now deadline s m db = ground arith

close_conversation-accesses :
    (s : Shipment) (db : Db)
    → (after (close_conversation s) db).accesses
      ≡ update_many (is_open_access s.id) closed db.accesses
unfolding close_conversation
close_conversation-accesses s db = refl

deliver-accesses :
    (now deadline : ℕ) (s : Shipment) (db : Db)
    → outcome (deliver now deadline s) db ≡ ok tt
    → (after (deliver now deadline s) db).accesses
      ≡ update_many (is_open_access s.id) closed db.accesses
unfolding deliver
deliver-accesses now deadline s db h =
    let parts = find_many (is_part_of s.id) db.allocations in
    let marked = mark_delivered now deadline s (carried_mission s.id db) db in
    let settle =
      mark_delivered now deadline s (carried_mission s.id db) >> settle_each now deadline parts in
    let (_, both, _) = continue-ok (settle db) (λ _. close_conversation s) h in
    let (_, first, second) = continue-ok marked (λ _. settle_each now deadline parts) both in
    ap (λ r. r.1.accesses) (continue-after (settle db) (λ _. close_conversation s) both)
    ∙ close_conversation-accesses s _
    ∙ ap (λ r. update_many (is_open_access s.id) closed r.1.accesses)
        (continue-after marked (λ _. settle_each now deadline parts) first)
    ∙ ap (update_many (is_open_access s.id) closed) (
        settle_each-accesses now deadline parts marked.1 second
        ∙ mark_delivered-accesses now deadline s (carried_mission s.id db) db)

send_message-closed :
    (id sender : ℕ) (db : Db)
    → count (is_open_access id) db.accesses ≡ 0
    → send_message id sender db ≡ (err forbidden, db)
unfolding send_message
send_message-closed id sender db e =
    elim (Option-cases (find_first (is_open_access id) db.accesses)) [
      | inl gone ↦ rw gone refl
      | inr (a, found) ↦
          let some_open : any (is_open_access id) db.accesses ≡ true =
            any-find_first (is_open_access id) db.accesses ∙ ap is_some found in
          let none_open : any (is_open_access id) db.accesses ≡ false =
            any-count (is_open_access id) db.accesses ∙ ap (ltb 0) e in
          let clash : true ≡ false = sym some_open ∙ none_open in cc
    ]

-- A verified delivery closes every open access of its shipment to a conversation, and leaves every
-- other access as it is, those of other shipments to the same conversation included; right after it
-- `send_message` for the delivered shipment is refused, whoever the sender is, and changes nothing.
pub finalize_verified_delivery-send_message :
    (now id sender : ℕ) (db : Db)
    → outcome (finalize_verified_delivery now id) db ≡ ok tt
    → ((after (finalize_verified_delivery now id) db).accesses
        ≡ update_many (is_open_access id) closed db.accesses)
      × (send_message id sender (after (finalize_verified_delivery now id) db)
          ≡ (err forbidden, after (finalize_verified_delivery now id) db))
finalize_verified_delivery-send_message now id sender db h =
    let (s, own, went, same) = finalize-delivers now id db h in
    let table : (after (finalize_verified_delivery now id) db).accesses
        ≡ update_many (is_open_access id) closed db.accesses =
      ap (λ r. r.1.accesses) same
      ∙ deliver-accesses now (now + window_ms db) s db went
      ∙ ap (λ n. update_many (is_open_access n) closed db.accesses) own in
    (
      table,
      send_message-closed id sender (after (finalize_verified_delivery now id) db) (
          ap (count (is_open_access id)) table
          ∙ count-update_many_out (is_open_access id) closed db.accesses (λ a. ground arith)),
    )
