-- ===== src/Orders/Create.antt =====
-- create of backend/src/orders/orders.service.ts: an order placed from the shop's window. Prices come
-- from the database; the client gives the quantities, the delivery and the points to use.
pub mod Totals
pub mod Stock
pub mod Placed
use afrique_os.Common.{
  ℕ, zero, suc, ◌+◌, ◌-◌, ◌*◌, Bool, true, false, ◌&&◌, ◌||◌, not, Option, none, some, List, [],
  ◌∷◌, ◌++◌, if◌then◌else◌, ◌==◌, length, leb, is_id, map,
}
use afrique_os.Common.Int.{ℤ, pos, ◌+ℤ◌, ◌-ℤ◌, ◌*ℕ◌, ltb_ℤ, leb_ℤ}
use afrique_os.Common.Tables.{find_first, update_many, count}
use afrique_os.Database.Enums.{OrderStatus, PaymentMethod, PointReason}
use afrique_os.Database.Rows.{
  Text, OrderItem, Order, Effect, Body, order_answer, User, Product, Variant, Conversation, Db,
}
use afrique_os.Database.Action.{
  Action, Result, ok, err, pure, gets, or_throw, throw, throw_if, modify, transaction, ◌>>=◌, ◌>>◌,
  bad_request, record_missing, continue,
}
use afrique_os.Database.Calls.{add_points, point_transaction}
use afrique_os.Idempotency.{SavedRecord, get_record, save_record}
use afrique_os.Common.Text.{is_empty}
use afrique_os.Phone.{phone_match_clause}
use afrique_os.Orders.Pricing.{
  Item, Line, unique, product_ids, offered, chosen, price_lines, items_total, points_discount,
  final_total,
}

-- CreateOrderDto, with the connected user and the fresh identifiers.
pub record Request : Type 0 where
  pub boutique_id : ℕ
  pub user_id : Option ℕ
  pub customer_phone : Text
  pub conversation_id : Option ℕ
  pub payment_method : PaymentMethod
  pub points_to_use : Option ℕ
  pub delivery_price : Option ℕ
  pub items : List Item
  pub new_id : ℕ
  pub reference : ℕ

-- The conversation's customer is checked as the owner of an order is.
abbrev talks_to : Option ℕ → Text → Conversation → Bool
talks_to (some user) phone c = is_id c.user_id user
talks_to none phone c = not (is_empty phone) && phone_match_clause phone c.customer_phone

unfoldable pub conversation_of : Request → Db → Option Conversation
unfolding phone_match_clause
conversation_of r db = elim r.conversation_id [
  | none ↦ none
  | some id ↦
      find_first
        (λ c. c.id == id && c.boutique_id == r.boutique_id && talks_to r.user_id r.customer_phone c)
        db.conversations
]

unfoldable pub lines_of : Request → Db → Result (List Line)
unfolding unique offered chosen price_lines conversation_of
lines_of r db =
    let products = offered r.boutique_id r.items db.products in
    if length products == length (unique (product_ids r.items))
    then price_lines (conversation_of r db) products (chosen r.items db.variants) r.items
    else err bad_request

abbrev delivery_of : Option ℕ → ℤ
delivery_of none = pos 0
delivery_of (some francs) = pos (francs * 100)

abbrev pub to_item : Line → OrderItem
to_item l = record {
  product_id = some l.product_id;
  variant_id = l.variant_id;
  quantity = l.quantity;
  unit_price = l.unit_price;
}

unfoldable pub new_order : Request → List Line → Order
unfolding items_total points_discount final_total
new_order r lines =
    let items = items_total lines in
    let points = points_discount r.user_id r.points_to_use items in
    record {
      id = r.new_id;
      reference = r.reference;
      boutique_id = r.boutique_id;
      user_id = r.user_id;
      customer_phone = r.customer_phone;
      status = OrderStatus.pending;
      payment_method = r.payment_method;
      points_used = points;
      payment_ref = none;
      paid_at = none;
      cancellation_reason = none;
      delivery_contact = none;
      delivery_price = delivery_of r.delivery_price;
      total = final_total items (delivery_of r.delivery_price) points;
      commission_rate = none;
      commission_amount = none;
      net_amount = none;
      plan_at_purchase = none;
      items = map to_item lines;
    }

-- `updateMany … where id, pointsBalance: { gte: points }`
abbrev pub can_spend : ℕ → ℤ → User → Bool
can_spend user points u = u.id == user && leb_ℤ points u.points_balance

unfoldable pub spend_points : Option ℕ → ℤ → ℕ → Action (Unit {0})
spend_points none points order db = (ok tt, db)
spend_points (some user) points order db =
    if ltb_ℤ (pos 0) points
    then (if count (can_spend user points) db.users == 0 then (err bad_request, db) else (
      ok tt,
      point_transaction user (pos 0 -ℤ points) PointReason.spent_on_order order (record db {
        users = update_many (can_spend user points) (add_points (pos 0 -ℤ points)) db.users;
      }),
    ))
    else (ok tt, db)

-- `updateMany … where id, stock: { gte: quantity }`; the guard makes the subtraction exact.
abbrev pub in_stock : ℕ → ℕ → Product → Bool
in_stock id quantity p = p.id == id && leb quantity p.stock

abbrev pub variant_in_stock : ℕ → ℕ → Variant → Bool
variant_in_stock id quantity v = v.id == id && leb quantity v.stock

abbrev pub take_product : ℕ → ℕ → List Product → List Product
take_product id quantity products =
    update_many (in_stock id quantity) (λ p. record p { stock = p.stock - quantity }) products

abbrev pub take_variant : ℕ → ℕ → List Variant → List Variant
take_variant id quantity variants =
    update_many (variant_in_stock id quantity) (λ v. record v { stock = v.stock - quantity })
      variants

-- The rows whose stock has come to nothing are what the seller is told of.
unfoldable pub take_variant_stock : Option ℕ → ℕ → Action (List ℕ)
take_variant_stock none quantity = pure []
take_variant_stock (some id) quantity = do
  met ← gets (λ db. count (variant_in_stock id quantity) db.variants)
  throw_if (met == 0) bad_request
  modify (λ db. record db { variants = take_variant id quantity db.variants })
  found ← gets (λ db. find_first (λ v. v.id == id) db.variants)
  v ← or_throw found record_missing
  pure (if v.stock == 0 then v.id ∷ [] else [])

unfoldable pub take_line : Line → Action (List ℕ)
unfolding take_variant_stock
take_line line = do
  met ← gets (λ db. count (in_stock line.product_id line.quantity) db.products)
  throw_if (met == 0) bad_request
  modify (λ db. record db { products = take_product line.product_id line.quantity db.products })
  found ← gets (λ db. find_first (λ p. p.id == line.product_id) db.products)
  p ← or_throw found record_missing
  sold_out ← take_variant_stock line.variant_id line.quantity
  pure ((if p.stock == 0 then p.id ∷ [] else []) ++ sold_out)

unfoldable pub take_stock : List Line → Action (List ℕ)
take_stock [] = pure []
take_stock (line ∷ lines) = do
  sold_out ← take_line line
  more ← take_stock lines
  pure (sold_out ++ more)

unfoldable pub create_transaction : Order → List Line → Action (Order × List ℕ)
unfolding spend_points take_stock
create_transaction order lines = transaction do
  modify (λ db. record db { orders = order ∷ db.orders })
  spend_points order.user_id order.points_used order.id
  sold_out ← take_stock lines
  pure (order, sold_out)

abbrev low_stock : ℕ → List ℕ → Db → Db
low_stock boutique [] db = db
low_stock boutique (_ ∷ _) db = record db {
  effects = Effect.low_stock_notice boutique ∷ db.effects;
}

abbrev orders_path : ℕ
orders_path = 1

-- The notices to the seller, and the answer, which is kept for an hour under the key.
unfoldable pub announce_order : Option ℕ → Request → ℕ → Order × List ℕ → Action Body
announce_order key r now made = do
  modify (λ db. record db { effects = Effect.new_order_notice r.reference ∷ db.effects })
  modify (low_stock r.boutique_id made.1)
  modify (save_record key orders_path 201 (order_answer made.0) 3600 now)
  pure (order_answer made.0)

unfoldable pub place_lines : Option ℕ → Request → ℕ → List Line → Action Body
unfolding announce_order
place_lines key r now lines = do
  made ← create_transaction (new_order r lines) lines
  announce_order key r now made

unfoldable pub create_new : Option ℕ → Request → ℕ → Action Body
unfolding lines_of new_order create_transaction place_lines
create_new key r now db = continue (lines_of r db, db) (place_lines key r now)

unfoldable pub cached_or_new : Option SavedRecord → Option ℕ → Request → ℕ → Action Body
unfolding create_new
cached_or_new none key r now = create_new key r now
cached_or_new (some saved) key r now = pure saved.body

unfoldable pub create : Option ℕ → Request → ℕ → Action Body
unfolding cached_or_new get_record save_record
create key r now = do cached ← get_record key orders_path now; cached_or_new cached key r now
