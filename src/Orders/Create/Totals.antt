-- ===== src/Orders/Create/Totals.antt =====
-- The totals of a new order.
use afrique_os.Common.{ℕ, zero, suc, ◌≡◌, Option, none, some, List, arith}
use afrique_os.Common.Int.{
  ℤ, pos, negsuc, ◌+ℤ◌, ◌-ℤ◌, ◌*ℕ◌, ◌≤ℤ◌, floor_div, min_ℤ, max_ℤ, int_laws,
}
use afrique_os.Orders.Credit.{gross_total}
use afrique_os.Orders.Pricing.{Line, items_total, points_discount, final_total}
use afrique_os.Orders.Create.{Request, new_order, delivery_of}

-- The points that the client asks for.
abbrev pub asked_points : Option ℕ → ℤ
asked_points none = pos 0
asked_points (some n) = pos n

floor_div_le : (a : ℤ) → floor_div a 100 *ℕ 100 ≤ℤ a
floor_div_le (pos n) = omega int_laws
floor_div_le (negsuc n) = omega int_laws

min_bounds :
    (a b : ℤ) → pos 0 ≤ℤ a → pos 0 ≤ℤ b → (pos 0 ≤ℤ min_ℤ a b) × (min_ℤ a b ≤ℤ a) × (min_ℤ a b ≤ℤ b)
min_bounds a b h k = ground arith

floor_div_nonneg : (a : ℤ) → pos 0 ≤ℤ a → pos 0 ≤ℤ floor_div a 100
floor_div_nonneg (pos n) h = omega arith
floor_div_nonneg (negsuc n) h = omega arith

points_bounds :
    (user asked : Option ℕ) (items : ℤ)
    → pos 0 ≤ℤ items
    → (pos 0 ≤ℤ points_discount user asked items)
      × (points_discount user asked items ≤ℤ asked_points asked)
      × (points_discount user asked items *ℕ 100 ≤ℤ items)
unfolding points_discount
points_bounds (some user) (some (suc n)) items h =
    let (low, left, right) =
      min_bounds (pos (suc n)) (floor_div items 100) (omega arith) (floor_div_nonneg items h) in
    (low, left, omega (int_laws, right, floor_div_le items))
points_bounds (some user) (some zero) items h = omega int_laws
points_bounds (some user) none items h = omega int_laws
points_bounds none (some n) items h = omega int_laws
points_bounds none none items h = omega int_laws

final_total_exact :
    (items delivery points : ℤ)
    → pos 0 ≤ℤ delivery
    → points *ℕ 100 ≤ℤ items
    → final_total items delivery points ≡ items +ℤ delivery -ℤ points *ℕ 100
unfolding final_total
final_total_exact items delivery points d h =
    clamp (items +ℤ delivery -ℤ points *ℕ 100) (omega int_laws)
  where
    clamp : (a : ℤ) → pos 0 ≤ℤ a → max_ℤ a (pos 0) ≡ a
    clamp a h = grind int_laws

delivery_nonneg : (d : Option ℕ) → pos 0 ≤ℤ delivery_of d
delivery_nonneg none = omega arith
delivery_nonneg (some n) = omega arith

-- Unless the lines come to less than nothing, the points used are between none and what was asked
-- for, the order's total is what the lines and the delivery cost less those points, never clamped at
-- zero, and the amount that the seller's share is computed from is what the lines and the delivery cost
-- before the points: the delivery's price is part of it.
pub new_order_totals :
    (r : Request) (lines : List Line)
    → pos 0 ≤ℤ items_total lines
    → let o = new_order r lines in
      (pos 0 ≤ℤ o.points_used)
      × (o.points_used ≤ℤ asked_points r.points_to_use)
      × (pos 0 ≤ℤ o.total)
      × (gross_total o ≡ items_total lines +ℤ o.delivery_price)
unfolding new_order
new_order_totals r lines h =
    let p = points_bounds r.user_id r.points_to_use (items_total lines) h in
    let d = delivery_nonneg r.delivery_price in
    let t =
      final_total_exact (items_total lines) (delivery_of r.delivery_price)
        (points_discount r.user_id r.points_to_use (items_total lines)) d p.2 in
    (p.0, p.1, rw t (omega (int_laws, p, d)), rw t (omega int_laws))
