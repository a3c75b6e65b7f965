-- ===== src/Orders/Cancel/Restock.antt =====
-- What goes back on the shelves when an order is cancelled.
use afrique_os.Common.{
  ℕ, ◌+◌, ◌≡◌, refl, Bool, true, false, Option, none, some, List, [], ◌∷◌, if◌then◌else◌, ◌==◌,
  ==→eq, any, arith, ◌∙◌, ap, sym, map,
}
use mathlib.Core.Path.{subst}
use mathlib.Core.Option
use afrique_os.Common.Tables.{
  find_first, update_many, find_first-update_many, find_first-test, any-find_first, is_some,
}
use afrique_os.Database.Rows.{OrderItem, Product, Db}
use afrique_os.Database.Action.{Result, ok, err, outcome, after, continue, continue-ok}
use afrique_os.Orders.Cancel.{restock, restock_line, add_variant_stock}
use afrique_os.Common.Int.{ℤ}
use afrique_os.Database.Calls.{update_found}
use afrique_os.Orders.Create.Stock.{IsKeyed, stock_of, units, ordered, take_stock-stock_of}
use afrique_os.Orders.Create.{to_item, take_stock}
use afrique_os.Orders.Pricing.{Line}

abbrev names : ℕ → OrderItem → Bool
names id i = elim i.product_id [ none ↦ false | some p ↦ p == id ]

-- How much of a product the items of an order hold.
unfoldable pub held_items : ℕ → List OrderItem → ℕ
held_items id [] = 0
held_items id (i ∷ items) = (if names id i then i.quantity else 0) + held_items id items

return_units :
    (q j id : ℕ) (found : Option Product)
    → ((p : Product) → found ≡ some p → p.id ≡ j)
    → (id ≡ j → is_some found ≡ true)
    → units (Option.map (λ p. if p.id == id then record p { stock = p.stock + q } else p) found)
      ≡ units found + (if id == j then q else 0)
return_units q j id none h k = ground arith
return_units q j id (some p) h k = ground (arith, h p refl)

stock_of-return :
    (q j id : ℕ) (products : List Product)
    → any (λ p. p.id == id) products ≡ true
    → stock_of j (update_many (λ p. p.id == id) (λ p. record p { stock = p.stock + q }) products)
      ≡ stock_of j products + (if id == j then q else 0)
stock_of-return q j id products met =
    ap units (
      find_first-update_many (λ p. p.id == j) (λ p. p.id == id)
        (λ p. record p { stock = p.stock + q }) products (λ p. refl))
    ∙ return_units q j id (find_first (λ p. p.id == j) products)
        (λ p e. ==→eq p.id j (find_first-test (λ p. p.id == j) products e))
        (λ e.
          subst (λ k. is_some (find_first (λ p. p.id == k) products) ≡ true) e
            (sym (any-find_first (λ p. p.id == id) products) ∙ met))

abbrev returned : ℕ → ℕ → Db → Db
returned id q db = record db {
  products = update_many (λ p. p.id == id) (λ p. record p { stock = p.stock + q }) db.products;
}

went :
    (r : Result (Unit {0}) × Db) (items : List OrderItem)
    → r.0 ≡ ok tt
    → continue r (λ _. restock items) ≡ restock items r.1
went (ok u, d) items h = refl
went (err e, d) items h = cc

add_variant_stock-products :
    (variant : Option ℕ) (q : ℕ) (db : Db)
    → (add_variant_stock variant q db).1.products ≡ db.products
add_variant_stock-products none q db = refl
add_variant_stock-products (some v) q db = ground arith

product-stock_of :
    (id q j : ℕ) (variant : Option ℕ) (db : Db) (found : Bool)
    → any (λ p. p.id == id) db.products ≡ found
    → (continue (update_found found (returned id q) db) (λ _. add_variant_stock variant q)).0
      ≡ ok tt
    → stock_of j
        (continue
          (update_found found (returned id q) db)
          (λ _. add_variant_stock variant q)).1.products
      ≡ stock_of j db.products + (if id == j then q else 0)
product-stock_of id q j variant db true met h =
    ap (stock_of j) (add_variant_stock-products variant q (returned id q db))
    ∙ stock_of-return q j id db.products met
product-stock_of id q j variant db false met h = cc

line-stock_of :
    (product variant : Option ℕ) (q : ℕ) (price : ℤ) (j : ℕ) (db : Db)
    → let item : OrderItem = record {
      product_id = product;
      variant_id = variant;
      quantity = q;
      unit_price = price;
    } in
      (restock_line item db).0 ≡ ok tt
      → stock_of j (restock_line item db).1.products
        ≡ stock_of j db.products + (if names j item then q else 0)
line-stock_of none variant q price j db h = omega arith
line-stock_of (some id) variant q price j db h =
    product-stock_of id q j variant db (any (λ p. p.id == id) db.products) refl h

-- Restocking the items of an order that goes through raises the stock of each product by exactly what
-- the items hold of it.
pub restock-stock_of :
    (items : List OrderItem) (j : ℕ) (db : Db)
    → outcome (restock items) db ≡ ok tt
    → stock_of j (after (restock items) db).products ≡ stock_of j db.products + held_items j items
unfolding restock held_items
restock-stock_of [] j db h = omega arith
restock-stock_of (item ∷ items) j db h =
    let (u, e, rest) = continue-ok (restock_line item db) (λ _. restock items) h in
    let first =
      line-stock_of item.product_id item.variant_id item.quantity item.unit_price j db e in
    let others = restock-stock_of items j (restock_line item db).1 rest in
    rw (outcome, after, went (restock_line item db) items e) (omega (arith, first, others))

held_items-ordered :
    (j : ℕ) (lines : List Line) → held_items j (map to_item lines) ≡ ordered j lines
unfolding held_items ordered
held_items-ordered j [] = refl
held_items-ordered j (l ∷ lines) = ground (arith, held_items-ordered j lines)

-- Where no two products have one identifier, taking the lines of an order and then putting its
-- items back, when both go through, leaves the stock of every product as it was.
pub restock-take_stock :
    (lines : List Line) (j : ℕ) (db : Db) (sold : List ℕ)
    → IsKeyed db.products
    → outcome (take_stock lines) db ≡ ok sold
    → let taken = after (take_stock lines) db in
      outcome (restock (map to_item lines)) taken ≡ ok tt
      → stock_of j (after (restock (map to_item lines)) taken).products ≡ stock_of j db.products
restock-take_stock lines j db sold keyed h k = omega (
  arith,
  restock-stock_of (map to_item lines) j (after (take_stock lines) db) k,
  held_items-ordered j lines,
  take_stock-stock_of lines j db sold keyed h,
)
