-- ===== src/Orders/Status/Progress.antt =====
-- How often the seller can change the status of an order through updateStatus of
-- backend/src/orders/orders.service.ts.
use afrique_os.Common.{
  ℕ, ◌+◌, ◌≤◌, ◌<◌, ◌≡◌, sym, ap, ◌∙◌, Bool, true, false, ◌&&◌, not, Option, some, List, [], ◌∷◌,
  arith, ◌==◌, ==_refl, ==→eq, if◌then◌else◌, ◌⊎◌, inl, inr, Bool-cases,
}
use afrique_os.Common.Int.{ℤ}
use afrique_os.Common.Tables.{find_first, find_first-test}
use afrique_os.Database.Enums.{OrderStatus}
use afrique_os.Database.Rows.{Text, Order, Db}
use afrique_os.Database.Action.{after, continue, or_throw, not_found}
use afrique_os.Orders.Status.{is_valid_transition, same_status, move_order, update_status}
use afrique_os.Orders.Status.Step.{move_order-Stepped}

-- How far an order has come.
abbrev pub rank : OrderStatus → ℕ
rank OrderStatus.pending = 0
rank OrderStatus.paid = 1
rank OrderStatus.whatsapp_confirmed = 1
rank OrderStatus.shipping = 2
rank OrderStatus.delivered = 3
rank OrderStatus.cancelled = 3

valid-rank : (a b : OrderStatus) → is_valid_transition a b ≡ true → rank a < rank b
unfolding is_valid_transition
valid-rank OrderStatus.pending b h = ground arith
valid-rank OrderStatus.paid b h = ground arith
valid-rank OrderStatus.whatsapp_confirmed b h = ground arith
valid-rank OrderStatus.shipping b h = ground arith
valid-rank OrderStatus.delivered b h = ground arith
valid-rank OrderStatus.cancelled b h = ground arith

rank_le : (s : OrderStatus) → rank s ≤ 3
rank_le s = ground arith

same_status_refl : (s : OrderStatus) → same_status s s ≡ true
same_status_refl s = ground arith

both_tests :
    (p q : Order → Bool) (orders : List Order) (o : Order)
    → find_first p orders ≡ some o
    → q o ≡ true
    → find_first (λ x. p x && q x) orders ≡ some o
both_tests p q [] o h k = h
both_tests p q (x ∷ rest) o h k = elim (Bool-cases (p x)) [
  | inl e ↦
      let same : some x ≡ some o = rw e at h in let own : x ≡ o = cc in rw (e, ap q own, k) same
  | inr e ↦ rw e (both_tests p q rest o (rw e at h) k)
]

-- A call of updateStatus: the status that is asked for, the courier's contact and the identifier of a
-- new row.
pub record SellerCall : Type 0 where
  pub status : OrderStatus
  pub contact : Option Text
  pub new_id : ℕ

abbrev pub is_changed : Option Order → Option Order → Bool
is_changed (some a) (some b) = not (same_status a.status b.status)
is_changed _ _ = false

module _ (to_fixed : ℤ → ℕ → ℤ) (boutique id : ℕ) where
  abbrev called : SellerCall → Db → Db
  called c = after (update_status to_fixed boutique id c.status c.contact c.new_id)

  -- How many of the calls, one after another, change the order's status.
  abbrev pub changes : List SellerCall → Db → ℕ
  changes [] db = 0
  changes (c ∷ rest) db =
      (if is_changed (find_first (λ x. x.id == id) db.orders)
          (find_first (λ x. x.id == id) (called c db).orders)
        then 1
        else 0)
      + changes rest (called c db)

  called_lem :
      (c : SellerCall) (db : Db) (o : Order)
      → find_first (λ x. x.id == id && x.boutique_id == boutique) db.orders ≡ some o
      → called c db ≡ after (move_order to_fixed o c.status c.contact c.new_id) db
  unfolding update_status
  called_lem c db o found =
      ap
        (λ x.
          (continue (or_throw x not_found db)
            (λ y. move_order to_fixed y c.status c.contact c.new_id)).1)
        found

  called-Stepped :
      (c : SellerCall) (db : Db) (o : Order)
      → find_first (λ x. x.id == id) db.orders ≡ some o
      → o.boutique_id ≡ boutique
      → (x : Order) × (find_first (λ y. y.id == id) (called c db).orders ≡ some x)
        × (x.boutique_id ≡ boutique)
        × ((x.status ≡ o.status) ⊎ (is_valid_transition o.status x.status ≡ true))
  called-Stepped c db o found own =
      let key : o.id ≡ id = ==→eq o.id id (find_first-test (λ x. x.id == id) db.orders found) in
      let same_shop : (o.boutique_id == boutique) ≡ true =
        ap (λ n. n == boutique) own ∙ ==_refl boutique in
      let moved = called_lem c db o (
        both_tests (λ x. x.id == id) (λ x. x.boutique_id == boutique) db.orders o found
          same_shop) in
      let (x, row, shop, step) =
        move_order-Stepped o c.status to_fixed c.new_id c.contact db
          (ap (λ n. find_first (λ y. y.id == n) db.orders) key ∙ found) in
      (
        x,
        ap (λ d. find_first (λ y. y.id == id) d.orders) moved
            ∙ ap
                (λ n.
                  find_first (λ y. y.id == n)
                    (after (move_order to_fixed o c.status c.contact c.new_id) db).orders)
                (sym key)
            ∙ row,
        shop ∙ own,
        step,
      )

  one_change :
      (a b : OrderStatus)
      → (b ≡ a) ⊎ (is_valid_transition a b ≡ true)
      → (if not (same_status a b) then 1 else 0) + rank a ≤ rank b
  one_change a b (inl e) =
      let same : same_status a b ≡ true = ap (same_status a) e ∙ same_status_refl a in
      rw (same, e) (omega arith)
  one_change a b (inr v) = ground (arith, valid-rank a b v)

  -- However many times the seller of an order calls `update_status` for it, and for whatever statuses,
  -- while nothing else writes the order, the calls that change its status are at most as many as its
  -- rank is short of three: three from pending, two once it is paid or confirmed, one while it is being
  -- shipped, and none once it is delivered or cancelled.
  pub changes-rank :
      (calls : List SellerCall) (db : Db) (o : Order)
      → find_first (λ x. x.id == id) db.orders ≡ some o
      → o.boutique_id ≡ boutique
      → changes calls db + rank o.status ≤ 3
  changes-rank [] db o found own = omega (arith, rank_le o.status)
  changes-rank (c ∷ rest) db o found own =
      let (x, row, shop, step) = called-Stepped c db o found own in
      rw (found, row)
        (omega
          (arith, one_change o.status x.status step, changes-rank rest (called c db) x row shop))
