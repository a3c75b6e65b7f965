-- ===== src/Orders/Pricing.antt =====
-- The first half of create in backend/src/orders/orders.service.ts: which products and variants an
-- order may name, the price of each line, and the totals.
use afrique_os.Common.{
  ℕ, suc, Bool, true, false, ◌&&◌, ◌||◌, not, Option, none, some, List, [], ◌∷◌, if◌then◌else◌,
  ◌==◌, ltb, is_id, any, map,
}
use afrique_os.Common.Int.{ℤ, pos, ◌+ℤ◌, ◌-ℤ◌, ◌*ℕ◌, ltb_ℤ, floor_div, min_ℤ, max_ℤ}
use afrique_os.Common.Tables.{find_first, find_many}
use afrique_os.Database.Rows.{Product, Variant, Conversation}
use afrique_os.Database.Action.{Result, ok, err, bad_request}

-- CreateOrderItemDto
pub record Item : Type 0 where
  pub product_id : ℕ
  pub variant_id : Option ℕ
  pub quantity : ℕ

pub record Line : Type 0 where
  pub product_id : ℕ
  pub variant_id : Option ℕ
  pub quantity : ℕ
  pub unit_price : ℤ

abbrev pub member : ℕ → List ℕ → Bool
member a ids = any (λ b. b == a) ids

-- `[...new Set(ids)]`
unfoldable pub unique : List ℕ → List ℕ
unique [] = []
unique (a ∷ ids) = let rest = unique ids in if member a ids then rest else a ∷ rest

abbrev pub product_ids : List Item → List ℕ
product_ids items = map (λ (i : Item). i.product_id) items

abbrev pub variant_ids : List Item → List ℕ
variant_ids [] = []
variant_ids (i ∷ items) = elim i.variant_id [
  | none ↦ variant_ids items
  | some v ↦ v ∷ variant_ids items
]

abbrev pub on_sale : ℕ → List ℕ → Product → Bool
on_sale boutique ids p = member p.id ids && p.boutique_id == boutique && p.is_active

unfoldable pub offered : ℕ → List Item → List Product → List Product
offered boutique items products = find_many (on_sale boutique (product_ids items)) products

unfoldable pub chosen : List Item → List Variant → List Variant
chosen items variants =
    find_many (λ v. member v.id (variant_ids items) && member v.product_id (product_ids items))
      variants

abbrev pub delta : Option Variant → ℤ
delta none = pos 0
delta (some v) = elim v.price_delta [ none ↦ pos 0 | some d ↦ d ]

-- The price agreed in the discussion takes the place of the product's, if it is about this product.
unfoldable pub base_price : Option Conversation → Product → ℤ
base_price none product = product.price
base_price (some c) product = elim c.agreed_price [
  | none ↦ product.price
  | some agreed ↦
      if ltb_ℤ (pos 0) agreed && is_id c.product_id product.id then agreed else product.price
]

abbrev pub variant_of : Option ℕ → List Variant → Option Variant
variant_of none variants = none
variant_of (some id) variants = find_first (λ v. v.id == id) variants

abbrev is_some_id : Option ℕ → Bool
is_some_id none = false
is_some_id (some _) = true

abbrev fits : Option ℕ → Option Variant → Product → Bool
fits asked none product = not (is_some_id asked)
fits asked (some v) product = v.product_id == product.id

abbrev pub variant_id_of : Option Variant → Option ℕ
variant_id_of none = none
variant_id_of (some v) = some v.id

-- One line of the order: the product and the variant exist and fit, and the stock suffices.
price_found : Option Conversation → Item → Option Variant → Option Product → Result Line
unfolding base_price
price_found conversation item variant none = err bad_request
price_found conversation item variant (some product) =
    if not (fits item.variant_id variant product) || ltb product.stock item.quantity
    then err bad_request
    else ok (record {
      product_id = product.id;
      variant_id = variant_id_of variant;
      quantity = item.quantity;
      unit_price = base_price conversation product +ℤ delta variant;
    })

unfoldable pub price_line : Option Conversation → List Product → List Variant → Item → Result Line
unfolding price_found
price_line conversation products variants item =
    price_found conversation item (variant_of item.variant_id variants)
      (find_first (λ p. p.id == item.product_id) products)

-- `items.map`, which the first line that throws ends.
abbrev pub cons_result : Result Line → Result (List Line) → Result (List Line)
cons_result (ok l) (ok ls) = ok (l ∷ ls)
cons_result (ok l) (err e) = err e
cons_result (err e) _ = err e

unfoldable pub price_lines :
    Option Conversation → List Product → List Variant → List Item → Result (List Line)
price_lines conversation products variants [] = ok []
price_lines conversation products variants (i ∷ items) =
    cons_result (price_line conversation products variants i)
      (price_lines conversation products variants items)

-- `lines.reduce((sum, l) => …, 0)`
unfoldable pub sum_lines : ℤ → List Line → ℤ
sum_lines sum [] = sum
sum_lines sum (l ∷ lines) = sum_lines (sum +ℤ l.unit_price *ℕ l.quantity) lines

unfoldable pub items_total : List Line → ℤ
unfolding sum_lines
items_total lines = sum_lines (pos 0) lines

-- The points to use, at most one for each whole franc of the lines.
unfoldable pub points_discount : Option ℕ → Option ℕ → ℤ → ℤ
points_discount (some user) (some (suc asked)) items = min_ℤ (pos (suc asked)) (floor_div items 100)
points_discount _ _ items = pos 0

unfoldable pub final_total : ℤ → ℤ → ℤ → ℤ
final_total items delivery points = max_ℤ (items +ℤ delivery -ℤ points *ℕ 100) (pos 0)
