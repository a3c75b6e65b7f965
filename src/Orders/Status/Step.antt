-- ===== src/Orders/Status/Step.antt =====
-- What one call of updateStatus in backend/src/orders/orders.service.ts makes of an order's status.
use afrique_os.Common.{
  ℕ, zero, suc, ◌≡◌, refl, sym, ap, ◌∙◌, Bool, true, false, ◌&&◌, not, Option, none, some, List,
  arith, ◌==◌, if◌then◌else◌, ◌⊎◌, inl, inr, Bool-cases, any,
}
use mathlib.Core.Option
use afrique_os.Common.Int.{ℤ}
use afrique_os.Common.Tables.{count, find_first, find_first-update_many, update_many}
use afrique_os.Database.Enums.{OrderStatus, is_paid, is_pending, is_shipping}
use afrique_os.Database.Rows.{Text, Order, Db}
use afrique_os.Database.Action.{
  Result, ok, err, after, continue, continue-ok, continue-keep, roll_back, or_throw, pure, modify,
  record_missing, or_throw-after, ◌>>◌,
}
use afrique_os.Database.Calls.{update_found, order_or_throw}
use afrique_os.Orders.Credit.{credit_seller_for_paid_order}
use afrique_os.Orders.Credit.Balance.{credit-orders}
use afrique_os.Orders.View.{to_order_view}
use afrique_os.Orders.Status.{
  is_valid_transition, same_status, set_status, has_contact, still_pending, pay_transition,
  mark_paid_by_seller, change_status, announce, move_order,
}

-- What an order can be after a call that asks for `status`.
abbrev Moved : Order → OrderStatus → Order → Type 0
Moved o status x = (x.boutique_id ≡ o.boutique_id) × ((x.status ≡ o.status) ⊎ (x.status ≡ status))

abbrev Found : Order → OrderStatus → List Order → Type 0
Found o status orders =
    (x : Order) × (find_first (λ y. y.id == o.id) orders ≡ some x) × Moved o status x

module _ (o : Order) (status : OrderStatus) where
  update-Found :
      (p : Order → Bool) (f : Order → Order) (orders : List Order)
      → ((x : Order) → (f x).id ≡ x.id)
      → ((x : Order) → Moved o status x → Moved o status (f x))
      → Found o status orders
      → Found o status (update_many p f orders)
  update-Found p f orders keeps moves (x, found, moved) =
      let row =
        find_first-update_many (λ y. y.id == o.id) p f orders (λ y. ap (λ n. n == o.id) (keeps y))
        ∙ ap (Option.map (λ y. if p y then f y else y)) found in
      elim (Bool-cases (p x)) [
        | inl e ↦ (f x, row ∙ rw e refl, moves x moved)
        | inr e ↦ (x, row ∙ rw e refl, moved)
      ]

  set_status-Found :
      (p : Order → Bool) (contact : Option Text) (orders : List Order)
      → Found o status orders
      → Found o status (update_many p (set_status status contact) orders)
  set_status-Found p contact orders =
      update-Found p (set_status status contact) orders (λ x. refl) (λ x m. (m.0, inr refl))

  rolled-Found :
      (db : Db) (r : Result Order × Db)
      → Found o status db.orders
      → ((a : Order) → r.0 ≡ ok a → Found o status r.1.orders)
      → Found o status (roll_back db r).1.orders
  rolled-Found db (ok a, d) h k = k a refl
  rolled-Found db (err e, d) h k = h

  module _ (to_fixed : ℤ → ℕ → ℤ) (new_id : ℕ) where
    credited-Found :
        (found : Option Order) (db : Db) (a : Order)
        → Found o status db.orders
        → (continue
            (or_throw found record_missing db)
            (λ paid. credit_seller_for_paid_order to_fixed paid new_id >> pure paid)).0
          ≡ ok a
        → Found o status
            (continue
              (or_throw found record_missing db)
              (λ paid. credit_seller_for_paid_order to_fixed paid new_id >> pure paid)).1.orders
    credited-Found none db a h k = cc
    credited-Found (some paid) db a h k =
        let (t, e, rest) =
          continue-ok (credit_seller_for_paid_order to_fixed paid new_id db) (λ _. pure paid) k in
        rw
          (
            continue-keep (λ d. d.orders) (credit_seller_for_paid_order to_fixed paid new_id db)
                (λ _. pure paid) (λ _ _. refl),
            credit-orders to_fixed paid new_id db e,
          )
          (update-Found (λ x. x.id == paid.id) _ db.orders (λ x. refl) (λ x m. m) h)

    paid-Found :
        (met : ℕ) (db : Db) (a : Order)
        → Found o status db.orders
        → (pay_transition to_fixed met o.id new_id db).0 ≡ ok a
        → Found o status (pay_transition to_fixed met o.id new_id db).1.orders
    unfolding pay_transition
    paid-Found zero db a h k = cc
    paid-Found (suc met) db a h k =
        credited-Found (find_first (λ x. x.id == o.id) db.orders) db a h k

    abbrev marked : Option Text → Db → Db
    marked contact db = record db {
      orders = update_many (still_pending o.id) (set_status OrderStatus.paid contact) db.orders;
    }

    marked-Found :
        (contact : Option Text) (db : Db)
        → status ≡ OrderStatus.paid
        → Found o status db.orders
        → Found o status (after (mark_paid_by_seller to_fixed o.id contact new_id) db).orders
    unfolding mark_paid_by_seller
    marked-Found contact db same h =
        let met = count (still_pending o.id) db.orders in
        rolled-Found db (pay_transition to_fixed met o.id new_id (marked contact db)) h (λ a.
          paid-Found met (marked contact db) a (
            update-Found (still_pending o.id) (set_status OrderStatus.paid contact) db.orders
              (λ x. refl) (λ x m. (m.0, inr (sym same))) h))

    set-Found :
        (contact : Option Text) (found : Bool) (db : Db)
        → Found o status db.orders
        → Found o status
            (continue
              (update_found found
                (λ d. record d {
                  orders = update_many (λ x. x.id == o.id) (set_status status contact) d.orders;
                })
                db)
              (λ _. order_or_throw o.id)).1.orders
    set-Found contact false db h = h
    set-Found contact true db h =
        rw
          (or_throw-after
            (find_first (λ x. x.id == o.id)
              (update_many (λ x. x.id == o.id) (set_status status contact) db.orders))
            record_missing _)
          (set_status-Found (λ x. x.id == o.id) contact db.orders h)

    is_paid-eq : (s : OrderStatus) (b : Bool) → (is_paid s && b) ≡ true → s ≡ OrderStatus.paid
    is_paid-eq s b h = ground arith

    changed-Found :
        (contact : Option Text) (db : Db)
        → Found o status db.orders
        → Found o status (after (change_status to_fixed o status contact new_id) db).orders
    unfolding change_status
    changed-Found contact db h = elim (Bool-cases (is_paid status && is_pending o.status)) [
      | inl p ↦ rw p (marked-Found contact db (is_paid-eq status (is_pending o.status) p) h)
      | inr p ↦ rw p (set-Found contact (any (λ x. x.id == o.id) db.orders) db h)
    ]

    told-orders :
        (r : Result Order × Db) (old : OrderStatus)
        → (continue r (λ u. modify (announce old status o.id) >> pure (to_order_view u))).1.orders
          ≡ r.1.orders
    unfolding announce
    told-orders (ok u, d) old = refl
    told-orders (err e, d) old = refl

    -- A change that the table admits, or none.
    abbrev pub Stepped : List Order → Type 0
    Stepped orders =
        (x : Order) × (find_first (λ y. y.id == o.id) orders ≡ some x)
        × (x.boutique_id ≡ o.boutique_id)
        × ((x.status ≡ o.status) ⊎ (is_valid_transition o.status x.status ≡ true))

    stepped :
        (orders : List Order)
        → is_valid_transition o.status status ≡ true
        → Found o status orders
        → Stepped orders
    stepped orders v (x, found, (own, inl e)) = (x, found, own, inl e)
    stepped orders v (x, found, (own, inr e)) =
        (x, found, own, inr (ap (is_valid_transition o.status) e ∙ v))

    pub move_order-Stepped :
        (contact : Option Text) (db : Db)
        → find_first (λ y. y.id == o.id) db.orders ≡ some o
        → Stepped (after (move_order to_fixed o status contact new_id) db).orders
    unfolding move_order
    move_order-Stepped contact db found =
        let none_yet : Stepped db.orders = (o, found, refl, inl refl) in
        elim (Bool-cases (same_status o.status status)) [
          | inl p ↦ rw p none_yet
          | inr p ↦ elim (Bool-cases (is_valid_transition o.status status)) [
            | inr v ↦ rw (p, v) none_yet
            | inl v ↦ elim (Bool-cases (is_shipping status && not (has_contact contact))) [
              | inl c ↦ rw (p, v, c) none_yet
              | inr c ↦
                  rw
                    (
                      p,
                      v,
                      c,
                      told-orders (change_status to_fixed o status contact new_id db) o.status,
                    )
                    (stepped (after (change_status to_fixed o status contact new_id) db).orders v
                      (changed-Found contact db (o, found, (refl, inl refl))))
            ]
          ]
        ]
