-- ===== src/Orders/Reads.antt =====
-- The reads of backend/src/orders/orders.service.ts. The table has its newest row first, which is
-- the order that the reads ask for. A reference is taken as the normalised one.
use afrique_os.Common.{
  ℕ, zero, suc, ◌≤◌, ◌≡◌, refl, Bool, true, false, ◌&&◌, not, Option, none, some, List, [], ◌∷◌,
  map, ◌==◌, is_id, any, length, All, arith, Bool-cases, inl, inr,
}
use afrique_os.Common.Tables.{find_first, find_many}
use afrique_os.Common.Text.{trim, is_empty}
use afrique_os.Phone.{phone_match_clause}
use afrique_os.Database.Rows.{Text, Order, Db}
use afrique_os.Database.Action.{
  Action, gets, or_throw, throw_if, pure, not_found, bad_request, ◌>>=◌, ◌>>◌,
}
use afrique_os.Orders.View.{OrderView, to_order_view}

unfoldable pub find_for_user : ℕ → Db → List OrderView
find_for_user user db = map to_order_view (find_many (λ o. is_id o.user_id user) db.orders)

unfoldable pub find_all_for_admin : ℕ → Db → List OrderView
find_all_for_admin boutique db =
    map to_order_view (find_many (λ o. o.boutique_id == boutique) db.orders)

abbrev pub owned_by : ℕ → Db → Order → Bool
owned_by owner db o = any (λ b. b.owner_id == owner && b.id == o.boutique_id) db.boutiques

unfoldable pub find_all_for_owner : ℕ → Db → List OrderView
find_all_for_owner owner db = map to_order_view (find_many (owned_by owner db) db.orders)

unfoldable pub take : ℕ → List Order → List Order
take zero orders = []
take (suc n) [] = []
take (suc n) (o ∷ orders) = o ∷ take n orders

abbrev hide_payment : OrderView → OrderView
hide_payment v = record v { payment_ref = none }

-- At most the twenty newest, without the reference of the payment.
unfoldable pub find_for_customer : Text → ℕ → Db → List OrderView
unfolding take phone_match_clause to_order_view
find_for_customer phone boutique db =
    map (λ o. hide_payment (to_order_view o))
      (take 20 (
        find_many (λ o. phone_match_clause phone o.customer_phone && o.boutique_id == boutique)
          db.orders))

abbrev has_phone : Option Text → Bool
has_phone none = false
has_phone (some t) = not (is_empty t) && not (is_empty (trim t))

abbrev phone_or_empty : Option Text → Text
phone_or_empty none = []
phone_or_empty (some t) = t

unfoldable pub find_by_reference : ℕ → ℕ → Option Text → Action OrderView
unfolding trim phone_match_clause to_order_view
find_by_reference reference boutique phone = do
  throw_if (not (has_phone phone)) bad_request
  found ← gets (λ db.
      find_first
        (λ o.
          o.reference == reference
          && o.boutique_id == boutique
          && phone_match_clause (phone_or_empty phone) o.customer_phone)
        db.orders)
  order ← or_throw found not_found
  pure (to_order_view order)

-- A view that tells a visitor nothing of another's order.
abbrev pub IsOwn : Text → OrderView → Type 0
IsOwn phone v = (phone_match_clause phone v.customer_phone ≡ true) × (v.payment_ref ≡ none)

IsOwn-views :
    (phone : Text) (boutique n : ℕ) (orders : List Order)
    → All (IsOwn phone) (
        map
          (λ o. hide_payment (to_order_view o))
          (take n (
            find_many
              (λ o. phone_match_clause phone o.customer_phone && o.boutique_id == boutique)
              orders)))
unfolding take to_order_view
IsOwn-views phone boutique zero orders = tt
IsOwn-views phone boutique (suc n) [] = tt
IsOwn-views phone boutique (suc n) (o ∷ orders) =
    elim (Bool-cases (phone_match_clause phone o.customer_phone && o.boutique_id == boutique)) [
      | inr e ↦ rw e (IsOwn-views phone boutique (suc n) orders)
      | inl e ↦ rw e ((ground arith, refl), IsOwn-views phone boutique n orders)
    ]

take_bound :
    (n : ℕ) (orders : List Order)
    → length (map (λ o. hide_payment (to_order_view o)) (take n orders)) ≤ n
unfolding take
take_bound zero orders = omega arith
take_bound (suc n) [] = omega arith
take_bound (suc n) (o ∷ orders) = omega (arith, take_bound n orders)

-- What the shop's window shows for a telephone is at most twenty orders, all of that telephone, and
-- none with the reference of its payment.
pub find_for_customer-IsOwn :
    (phone : Text) (boutique : ℕ) (db : Db)
    → (length (find_for_customer phone boutique db) ≤ 20)
      × All (IsOwn phone) (find_for_customer phone boutique db)
unfolding find_for_customer
find_for_customer-IsOwn phone boutique db =
    (take_bound 20 _, IsOwn-views phone boutique 20 db.orders)
