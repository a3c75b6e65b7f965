-- ===== src/Witnesses/Orders.antt =====
-- Orders placed, cancelled and moved along.
use afrique_os.Common.{◌+◌, ◌≤◌, ◌≡◌, refl, none, some, List, [], ◌∷◌, ◌==◌, map, arith}
use afrique_os.Common.Int.{pos, ◌+ℤ◌, ◌*ℕ◌, ◌≤ℤ◌}
use afrique_os.Common.Tables.{count}
use afrique_os.Database.Enums.{OrderStatus, PaymentMethod}
use afrique_os.Database.Rows.{order_answer}
use afrique_os.Database.Action.{ok, after, bad_request}
use afrique_os.Orders.Credit.{
  gross_total, seller_plan, sync_allocation, ready_shipments, award_points,
  credit_seller_for_paid_order,
}
use afrique_os.Orders.Payment.Credited.{balances, due}
use afrique_os.Orders.Pricing.{Line, price_line, items_total}
use afrique_os.Orders.Create.{
  Request, to_item, new_order, take_line, take_stock, create_new, create,
}
use afrique_os.Orders.Create.Totals.{asked_points, new_order_totals}
use afrique_os.Orders.Create.Stock.{IsKeyed, stock_of}
use afrique_os.Orders.Create.Placed.{create_replay}
use afrique_os.Orders.Cancel.{restock}
use afrique_os.Orders.Cancel.Restock.{restock-take_stock}
use afrique_os.Orders.Status.{mark_paid_by_seller, update_status}
use afrique_os.Orders.Status.Progress.{SellerCall, changes, rank, changes-rank}
use afrique_os.Orders.Status.Laws.{mark_paid-balances, update_status_atomic}
use afrique_os.Witnesses.Shop.{to_cents, phone, waiting, db}

abbrev two_bags : Request
two_bags = record {
  boutique_id = 10;
  user_id = some 1;
  customer_phone = phone;
  conversation_id = none;
  payment_method = PaymentMethod.mobile_money;
  points_to_use = some 100;
  delivery_price = some 1000;
  items = record { product_id = 100; variant_id = none; quantity = 2 } ∷ [];
  new_id = 2000;
  reference = 80;
}

abbrev ten_bags : Request
ten_bags = record two_bags {
  items = record { product_id = 100; variant_id = none; quantity = 10 } ∷ [];
}

abbrev bag_line : Line
bag_line = record { product_id = 100; variant_id = none; quantity = 2; unit_price = pos 250000 }

IsKeyed-products : IsKeyed db.products
IsKeyed-products id = ground arith

create_replay_example :
    create (some 6) ten_bags 3000 (after (create_new (some 6) two_bags 7) db) ≡ (
      ok (order_answer (new_order two_bags (bag_line ∷ []))),
      after (create_new (some 6) two_bags 7) db,
    )
unfolding create_new price_line ◌+ℤ◌ ◌*ℕ◌ take_line
create_replay_example =
    create_replay 6 two_bags ten_bags 7 3000 db (order_answer (new_order two_bags (bag_line ∷ [])))
      refl (omega arith)

restock-take_stock_example :
    stock_of 100
      (after
        (restock (map to_item (bag_line ∷ [])))
        (after (take_stock (bag_line ∷ [])) db)).products
    ≡ stock_of 100 db.products
unfolding take_stock restock take_line
restock-take_stock_example = restock-take_stock (bag_line ∷ []) 100 db [] IsKeyed-products refl refl

new_order_totals_example :
    (pos 0 ≤ℤ (new_order two_bags (bag_line ∷ [])).points_used)
    × ((new_order two_bags (bag_line ∷ [])).points_used ≤ℤ asked_points (some 100))
    × (pos 0 ≤ℤ (new_order two_bags (bag_line ∷ [])).total)
    × (gross_total (new_order two_bags (bag_line ∷ []))
        ≡ items_total (bag_line ∷ []) +ℤ (new_order two_bags (bag_line ∷ [])).delivery_price)
unfolding items_total ◌+ℤ◌ ◌*ℕ◌
new_order_totals_example = new_order_totals two_bags (bag_line ∷ []) (omega arith)

-- From pending to delivered, and then to be cancelled, which is refused.
abbrev seller_calls : List SellerCall
seller_calls =
    record { status = OrderStatus.paid; contact = none; new_id = 90 }
    ∷ record { status = OrderStatus.shipping; contact = some phone; new_id = 91 }
    ∷ record { status = OrderStatus.delivered; contact = none; new_id = 92 }
    ∷ record { status = OrderStatus.cancelled; contact = none; new_id = 93 }
    ∷ []

changes-rank_example : changes to_cents 10 1000 seller_calls db + rank waiting.status ≤ 3
changes-rank_example = changes-rank to_cents 10 1000 seller_calls db waiting refl refl

mark_paid-balances_example :
    balances (after (mark_paid_by_seller to_cents 1000 none 90) db)
    ≡ balances db +ℤ due to_cents 0 1000 waiting db *ℕ count (λ b. b.id == 10) db.boutiques
unfolding mark_paid_by_seller credit_seller_for_paid_order seller_plan sync_allocation
    ready_shipments award_points ◌+ℤ◌ ◌*ℕ◌
mark_paid-balances_example =
    mark_paid-balances to_cents 1000 none 90 db (record waiting { status = OrderStatus.paid }) refl

update_status_atomic_example :
    after (update_status to_cents 10 1001 OrderStatus.shipping none 90) db ≡ db
unfolding update_status
update_status_atomic_example =
    update_status_atomic to_cents 10 1001 OrderStatus.shipping none 90 db bad_request refl
