-- ===== src/Orders/Create/Stock.antt =====
-- The stock that an order takes.
use afrique_os.Common.{
  ℕ, ◌+◌, ◌-◌, ◌≤◌, ◌≡◌, ◌≢◌, refl, Option, none, some, List, [], ◌∷◌, ◌++◌, if◌then◌else◌, ◌==◌,
  arith, ◌∙◌, ap, sym, ==→eq,
}
use afrique_os.Common.Tables.{
  find_first, count, find_first-update_many, count-update_many, find_first-test,
}
use mathlib.Core.Option
use mathlib.Core.Path.{subst}
use afrique_os.Database.Rows.{Product, Db}
use afrique_os.Database.Action.{
  Action, Result, ok, err, continue, continue-ok, continue-keep, pure, ◌>>=◌,
}
use afrique_os.Orders.Pricing.{Line}
use afrique_os.Orders.Create.{in_stock, take_product, take_variant_stock, take_line, take_stock}

-- No two products have one identifier: the primary key of the table.
abbrev pub IsKeyed : List Product → Type 0
IsKeyed products = (id : ℕ) → count (λ p. p.id == id) products ≤ 1

abbrev pub units : Option Product → ℕ
units none = 0
units (some p) = p.stock

abbrev pub stock_of : ℕ → List Product → ℕ
stock_of id products = units (find_first (λ p. p.id == id) products)

-- How much of a product the lines ask for.
unfoldable pub ordered : ℕ → List Line → ℕ
ordered id [] = 0
ordered id (l ∷ lines) = (if l.product_id == id then l.quantity else 0) + ordered id lines

count-and-le :
    (id q : ℕ) (products : List Product)
    → count (in_stock id q) products ≤ count (λ p. p.id == id) products
count-and-le id q [] = omega arith
count-and-le id q (p ∷ products) = ground (arith, count-and-le id q products)

-- The one product of an identifier passes the guard that some product of it passes.
guard_found :
    (id q : ℕ) (products : List Product)
    → count (λ p. p.id == id) products ≤ 1
    → count (in_stock id q) products ≢ 0
    → q ≤ stock_of id products
guard_found id q [] u met = absurd (met refl)
guard_found id q (p ∷ products) u met =
    ground (arith, count-and-le id q products, guard_found id q products)

take_units :
    (q j id : ℕ) (found : Option Product)
    → (id ≡ j → q ≤ units found)
    → ((p : Product) → found ≡ some p → p.id ≡ j)
    → units found
      ≡ units
          (Option.map (λ p. if in_stock id q p then record p { stock = p.stock - q } else p) found)
        + (if id == j then q else 0)
take_units q j id none h k = ground arith
take_units q j id (some p) h k = ground (arith, k p refl)

stock_of-take_product :
    (id q j : ℕ) (products : List Product)
    → IsKeyed products
    → count (in_stock id q) products ≢ 0
    → stock_of j products ≡ stock_of j (take_product id q products) + (if id == j then q else 0)
stock_of-take_product id q j products keyed met =
    take_units q j id (find_first (λ p. p.id == j) products)
      (λ e. subst (λ k. q ≤ stock_of k products) e (guard_found id q products (keyed id) met))
      (λ p e. ==→eq p.id j (find_first-test (λ p. p.id == j) products e))
    ∙ ap (λ f. units f + (if id == j then q else 0))
        (sym (find_first-update_many (λ p. p.id == j) (in_stock id q) _ products (λ p. refl)))

take_variant_stock-products :
    (variant : Option ℕ) (q : ℕ) (db : Db)
    → (take_variant_stock variant q db).1.products ≡ db.products
unfolding take_variant_stock
take_variant_stock-products none q db = refl
take_variant_stock-products (some v) q db = ground arith

take_line-products :
    (line : Line) (db : Db) (sold : List ℕ)
    → (take_line line db).0 ≡ ok sold
    → (count (in_stock line.product_id line.quantity) db.products ≢ 0)
      × ((take_line line db).1.products ≡ take_product line.product_id line.quantity db.products)
unfolding take_line
take_line-products line db sold h = ground (
  arith,
  take_variant_stock-products line.variant_id line.quantity
      (record db { products = take_product line.product_id line.quantity db.products }),
)

take_line-IsKeyed :
    (line : Line) (db : Db) (sold : List ℕ)
    → IsKeyed db.products
    → (take_line line db).0 ≡ ok sold
    → IsKeyed (take_line line db).1.products
take_line-IsKeyed line db sold keyed h id =
    let (met, e) = take_line-products line db sold h in
    subst (λ ps. count (λ p. p.id == id) ps ≤ 1) (sym e)
      (rw
        (count-update_many (λ p. p.id == id) (in_stock line.product_id line.quantity)
          (λ p. record p { stock = p.stock - line.quantity }) db.products (λ p. refl))
        (keyed id))

-- A line that is taken lowers the stock of its product by the quantity, and of no other product.
take_line-stock_of :
    (line : Line) (j : ℕ) (db : Db) (sold : List ℕ)
    → IsKeyed db.products
    → (take_line line db).0 ≡ ok sold
    → stock_of j db.products
      ≡ stock_of j (take_line line db).1.products
        + (if line.product_id == j then line.quantity else 0)
take_line-stock_of line j db sold keyed h =
    let (met, e) = take_line-products line db sold h in
    subst
      (λ ps.
        stock_of j db.products
        ≡ stock_of j ps + (if line.product_id == j then line.quantity else 0))
      (sym e) (stock_of-take_product line.product_id line.quantity j db.products keyed met)

abbrev remaining : List Line → List ℕ → Action (List ℕ)
remaining lines sold_out = take_stock lines >>= λ more. pure (sold_out ++ more)

went :
    (r : Result (List ℕ) × Db) (lines : List Line) (s : List ℕ)
    → r.0 ≡ ok s
    → continue r (remaining lines) ≡ remaining lines s r.1
went (ok a, d) lines s h = let same : a ≡ s = cc in ap (λ x. remaining lines x d) same
went (err e, d) lines s h = cc

-- Where no two products have one identifier, taking the lines of an order, when it goes through,
-- lowers the stock of each product by exactly what the lines together ask of it, also where several
-- lines name one product.
pub take_stock-stock_of :
    (lines : List Line) (j : ℕ) (db : Db) (sold : List ℕ)
    → IsKeyed db.products
    → (take_stock lines db).0 ≡ ok sold
    → stock_of j db.products ≡ stock_of j (take_stock lines db).1.products + ordered j lines
unfolding take_stock ordered
take_stock-stock_of [] j db sold keyed h = omega arith
take_stock-stock_of (line ∷ lines) j db sold keyed h =
    let (s, e, rest) = continue-ok (take_line line db) (remaining lines) h in
    let (more, e', _) =
      continue-ok (take_stock lines (take_line line db).1) (λ x. pure (s ++ x)) rest in
    let kept =
      continue-keep (λ d. stock_of j d.products) (take_stock lines (take_line line db).1)
        (λ x. pure (s ++ x)) (λ _ _. refl) in
    let gone = went (take_line line db) lines s e in
    let first = take_line-stock_of line j db s keyed e in
    let others =
      take_stock-stock_of lines j (take_line line db).1 more (take_line-IsKeyed line db s keyed e)
        e' in
    rw gone (rw kept (omega (arith, first, others)))
