-- ===== src/Orders/Status/Laws.antt =====
-- What the seller's changes of status do.
use afrique_os.Common.{
  ℕ, zero, suc, ◌≡◌, refl, Bool, true, false, ◌&&◌, not, Option, none, some, List, ◌==◌,
  if◌then◌else◌, inl, inr, Bool-cases, ◌∙◌, ap, sym, any,
}
use mathlib.Core.Option
use afrique_os.Common.Int.{ℤ, ◌+ℤ◌, ◌*ℕ◌}
use afrique_os.Database.Calls.{update_found, order_or_throw}
use afrique_os.Common.Tables.{
  is_some, count, find_first, update_many, any-find_first, find_first-update_many,
}
use afrique_os.Database.Enums.{OrderStatus, is_paid, is_pending, is_shipping}
use afrique_os.Database.Rows.{Text, Order, Db}
use afrique_os.Database.Action.{
  Result, ok, err, outcome, after, continue, roll_back, transaction_atomic, HttpError, bad_request,
  modify, pure, or_throw, not_found, ◌>>◌,
}
use afrique_os.Orders.View.{to_order_view}
use afrique_os.Orders.Payment.{settle_transition}
use afrique_os.Orders.Payment.Credited.{balances, due, settled-balances}
use afrique_os.Orders.Status.{
  is_valid_transition, same_status, set_status, has_contact, still_pending, pay_transition,
  mark_paid_by_seller, change_status, announce, move_order, update_status,
}

module _ (to_fixed : ℤ → ℕ → ℤ) where
  pay_transition_lem :
      (met id new_id : ℕ) (db : Db)
      → pay_transition to_fixed (suc met) id new_id db
        ≡ settle_transition to_fixed (suc met) id new_id db
  unfolding pay_transition settle_transition
  pay_transition_lem met id new_id db = refl

  no_row :
      (id new_id : ℕ) (db : Db) → (pay_transition to_fixed 0 id new_id db) ≡ (err bad_request, db)
  unfolding pay_transition
  no_row id new_id db = refl

  abbrev marked : ℕ → Option Text → Db → Db
  marked id contact db = record db {
    orders = update_many (still_pending id) (set_status OrderStatus.paid contact) db.orders;
  }

  -- Where a seller's marking of an order as paid goes through, the balances grow by what the order
  -- is due, once for each row of its shop, as with a confirmed payment.
  pub mark_paid-balances :
      (id : ℕ) (contact : Option Text) (new_id : ℕ) (db : Db) (o : Order)
      → outcome (mark_paid_by_seller to_fixed id contact new_id) db ≡ ok o
      → balances (after (mark_paid_by_seller to_fixed id contact new_id) db)
        ≡ balances db +ℤ due to_fixed 0 id o db *ℕ count (λ b. b.id == o.boutique_id) db.boutiques
  unfolding mark_paid_by_seller
  mark_paid-balances id contact new_id db o = by_count (count (still_pending id) db.orders)
    where
      rolled :
          (r : Result Order × Db)
          → (roll_back db r).0 ≡ ok o
          → (r.0 ≡ ok o
              → balances r.1
                ≡ balances db
                  +ℤ due to_fixed 0 id o db *ℕ count (λ b. b.id == o.boutique_id) db.boutiques)
          → balances (roll_back db r).1
            ≡ balances db
              +ℤ due to_fixed 0 id o db *ℕ count (λ b. b.id == o.boutique_id) db.boutiques
      rolled (ok a, d) h k = k h
      rolled (err e, d) h k = cc

      by_count :
          (n : ℕ)
          → (roll_back db (pay_transition to_fixed n id new_id (marked id contact db))).0 ≡ ok o
          → balances (roll_back db (pay_transition to_fixed n id new_id (marked id contact db))).1
            ≡ balances db
              +ℤ due to_fixed 0 id o db *ℕ count (λ b. b.id == o.boutique_id) db.boutiques
      by_count zero h = cc (no_row id new_id (marked id contact db))
      by_count (suc n) h =
          rolled (pay_transition to_fixed (suc n) id new_id (marked id contact db)) h (
            rw (pay_transition_lem n id new_id (marked id contact db))
              (settled-balances to_fixed 0 id n new_id (marked id contact db) o))

  marked_atomic :
      (id : ℕ) (contact : Option Text) (new_id : ℕ) (db : Db) (e : HttpError)
      → outcome (mark_paid_by_seller to_fixed id contact new_id) db ≡ err e
      → after (mark_paid_by_seller to_fixed id contact new_id) db ≡ db
  unfolding mark_paid_by_seller
  marked_atomic id contact new_id db e h =
      transaction_atomic
        (λ d.
          pay_transition to_fixed (count (still_pending id) d.orders) id new_id
            (marked id contact d))
        db h

  set_found :
      (id : ℕ) (status : OrderStatus) (contact : Option Text) (orders : List Order)
      → any (λ o. o.id == id) orders ≡ true
      → (u : Order) × (find_first
            (λ o. o.id == id)
            (update_many (λ o. o.id == id) (set_status status contact) orders)
          ≡ some u)
  set_found id status contact orders there =
      by_found (find_first (λ o. o.id == id) orders)
        (sym (any-find_first (λ o. o.id == id) orders) ∙ there)
        (find_first-update_many (λ o. o.id == id) (λ o. o.id == id) (set_status status contact)
          orders (λ o. refl))
    where
      by_found :
          (x : Option Order)
          → is_some x ≡ true
          → find_first
              (λ o. o.id == id)
              (update_many (λ o. o.id == id) (set_status status contact) orders)
            ≡ Option.map (λ o. if o.id == id then set_status status contact o else o) x
          → (u : Order) × (find_first
                (λ o. o.id == id)
                (update_many (λ o. o.id == id) (set_status status contact) orders)
              ≡ some u)
      by_found none t e = cc
      by_found (some o) t e = (_, e)

  set_on : ℕ → OrderStatus → Option Text → Db → Db
  set_on id status contact db = record db {
    orders = update_many (λ o. o.id == id) (set_status status contact) db.orders;
  }

  set_atomic :
      (id : ℕ) (status : OrderStatus) (contact : Option Text) (db : Db) (e : HttpError)
      (found : Bool)
      → any (λ o. o.id == id) db.orders ≡ found
      → (continue (update_found found (set_on id status contact) db) (λ _. order_or_throw id)).0
        ≡ err e
      → (continue (update_found found (set_on id status contact) db) (λ _. order_or_throw id)).1
        ≡ db
  unfolding set_on
  set_atomic id status contact db e false a h = refl
  set_atomic id status contact db e true a h =
      let (u, f) = set_found id status contact db.orders a in cc (rw f at h)

  changed_atomic :
      (order : Order) (status : OrderStatus) (contact : Option Text) (new_id : ℕ) (db : Db)
      (e : HttpError)
      → outcome (change_status to_fixed order status contact new_id) db ≡ err e
      → after (change_status to_fixed order status contact new_id) db ≡ db
  unfolding change_status set_on
  changed_atomic order status contact new_id db e h =
      elim (Bool-cases (is_paid status && is_pending order.status)) [
        | inl p ↦ rw p (marked_atomic order.id contact new_id db e (rw p at h))
        | inr p ↦ rw p (
            set_atomic order.id status contact db e (any (λ o. o.id == order.id) db.orders) refl
              (rw p at h))
      ]

  told :
      (r : Result Order × Db) (f : Db → Db) (db : Db) (e : HttpError)
      → (r.0 ≡ err e → r.1 ≡ db)
      → (continue r (λ o. modify f >> pure (to_order_view o))).0 ≡ err e
      → (continue r (λ o. modify f >> pure (to_order_view o))).1 ≡ db
  told (ok o, d) f db e k h = cc
  told (err x, d) f db e k h = k (let same : x ≡ e = cc in ap err same)

  move_order_atomic :
      (o : Order) (status : OrderStatus) (contact : Option Text) (new_id : ℕ) (db : Db)
      (e : HttpError)
      → outcome (move_order to_fixed o status contact new_id) db ≡ err e
      → after (move_order to_fixed o status contact new_id) db ≡ db
  unfolding move_order
  move_order_atomic o status contact new_id db e h =
      elim (Bool-cases (same_status o.status status)) [
        | inl p ↦ rw p refl
        | inr p ↦ elim (Bool-cases (not (is_valid_transition o.status status))) [
          | inl v ↦ rw (p, v) refl
          | inr v ↦ elim (Bool-cases (is_shipping status && not (has_contact contact))) [
            | inl c ↦ rw (p, v, c) refl
            | inr c ↦
                rw (p, v, c)
                  (told (change_status to_fixed o status contact new_id db)
                    (announce o.status status o.id) db e
                    (changed_atomic o status contact new_id db e) (rw (p, v, c) at h))
          ]
        ]
      ]

  -- A change of status that is refused, for whatever reason, changes nothing.
  pub update_status_atomic :
      (boutique id : ℕ) (status : OrderStatus) (contact : Option Text) (new_id : ℕ) (db : Db)
      (e : HttpError)
      → outcome (update_status to_fixed boutique id status contact new_id) db ≡ err e
      → after (update_status to_fixed boutique id status contact new_id) db ≡ db
  unfolding update_status
  update_status_atomic boutique id status contact new_id db e =
      by_found (find_first (λ o. o.id == id && o.boutique_id == boutique) db.orders)
    where
      by_found :
          (x : Option Order)
          → (continue
              (or_throw x not_found db)
              (λ o. move_order to_fixed o status contact new_id)).0
            ≡ err e
          → (continue
              (or_throw x not_found db)
              (λ o. move_order to_fixed o status contact new_id)).1
            ≡ db
      by_found none h = refl
      by_found (some o) h = move_order_atomic o status contact new_id db e h
