-- ===== src/Orders/Create/Placed.antt =====
-- What placing an order changes, and what asking again gives.
use afrique_os.Common.{ℕ, ◌+◌, ◌*◌, ◌≤◌, ◌≡◌, refl, Option, none, some, List, [], ◌∷◌, ◌∙◌, ap, sym}
use mathlib.Core.Path.{subst}
use afrique_os.Database.Rows.{Order, Body, order_answer, Effect, Db}
use afrique_os.Database.Action.{
  Action, Result, ok, err, outcome, after, continue, HttpError, roll_back, pure, ◌>>=◌,
}
use afrique_os.Idempotency.{get_record, save_record}
use afrique_os.Idempotency.Laws.{get_record-save_record}
use afrique_os.Orders.Pricing.{Line}
use afrique_os.Orders.Create.{
  Request, lines_of, new_order, spend_points, take_stock, create_transaction, announce_order,
  place_lines, create_new, create, cached_or_new, orders_path, low_stock,
}

-- The transaction that places an order takes from each product what the lines ask of it.
module _ (order : Order) (lines : List Line) (j : ℕ) where
  abbrev taking : Action (Order × List ℕ)
  taking = take_stock lines >>= λ sold_out. pure (order, sold_out)

create_transaction_atomic :
    (order : Order) (lines : List Line) (db : Db) (e : HttpError)
    → (create_transaction order lines db).0 ≡ err e
    → (create_transaction order lines db).1 ≡ db
unfolding create_transaction
create_transaction_atomic order lines db e h =
    rolled
      (continue
        (spend_points order.user_id order.points_used order.id
          (record db { orders = order ∷ db.orders }))
        (λ _. taking order lines 0))
      h
  where
    rolled :
        (x : Result (Order × List ℕ) × Db) → (roll_back db x).0 ≡ err e → (roll_back db x).1 ≡ db
    rolled (ok a, d) h = cc
    rolled (err e', d) h = refl

save_record-products :
    (key : Option ℕ) (status ttl now : ℕ) (body : Body) (db : Db)
    → (save_record key orders_path status body ttl now db).products ≡ db.products
unfolding save_record
save_record-products none status ttl now body db = refl
save_record-products (some key) status ttl now body db = refl

low_stock-products :
    (boutique : ℕ) (sold : List ℕ) (db : Db) → (low_stock boutique sold db).products ≡ db.products
low_stock-products boutique [] db = refl
low_stock-products boutique (_ ∷ _) db = refl

module _ (key : Option ℕ) (r : Request) (now : ℕ) where
  abbrev noticed : Db → Db
  noticed d = record d { effects = Effect.new_order_notice r.reference ∷ d.effects }

  announced :
      (x : Result (Order × List ℕ) × Db) (body : Body)
      → (continue x (announce_order key r now)).0 ≡ ok body
      → (made : Order × List ℕ) × (x.0 ≡ ok made)
        × (body ≡ order_answer made.0)
        × ((continue x (announce_order key r now)).1.products ≡ x.1.products)
        × (d : Db) × ((continue x (announce_order key r now)).1
            ≡ save_record key orders_path 201 body 3600 now d)
  unfolding announce_order
  announced (ok made, d) body h = (
    made,
    refl,
    cc,
    save_record-products key 201 3600 now (order_answer made.0)
          (low_stock r.boutique_id made.1 (noticed d))
        ∙ low_stock-products r.boutique_id made.1 (noticed d),
    low_stock r.boutique_id made.1 (noticed d),
    ap
        (λ b.
          save_record key orders_path 201 b 3600 now (low_stock r.boutique_id made.1 (noticed d)))
        (let same : order_answer made.0 ≡ body = cc in same),
  )
  announced (err e, d) body h = cc

  refused :
      (x : Result (Order × List ℕ) × Db) (e : HttpError)
      → (continue x (announce_order key r now)).0 ≡ err e
      → (x.0 ≡ err e) × ((continue x (announce_order key r now)).1 ≡ x.1)
  unfolding announce_order
  refused (ok made, d) e h = cc
  refused (err e', d) e h = (let same : e' ≡ e = cc in ap err same, refl)

  -- Where an order is refused, for whatever reason, nothing has changed.
  pub create_new_atomic :
      (db : Db) (e : HttpError)
      → outcome (create_new key r now) db ≡ err e
      → after (create_new key r now) db ≡ db
  unfolding create_new
  create_new_atomic db e = atomic (lines_of r db)
    where
      atomic :
          (x : Result (List Line))
          → (continue (x, db) (place_lines key r now)).0 ≡ err e
          → (continue (x, db) (place_lines key r now)).1 ≡ db
      atomic (err e') h = refl
      atomic (ok lines) h =
          let (failed, same) = refused (create_transaction (new_order r lines) lines db) e h in
          same ∙ create_transaction_atomic (new_order r lines) lines db e failed

  kept_answer :
      (db : Db) (body : Body)
      → outcome (create_new key r now) db ≡ ok body
      → (d : Db) × (after (create_new key r now) db
          ≡ save_record key orders_path 201 body 3600 now d)
  unfolding create_new
  kept_answer db body = kept (lines_of r db)
    where
      kept :
          (x : Result (List Line))
          → (continue (x, db) (place_lines key r now)).0 ≡ ok body
          → (d : Db) × ((continue (x, db) (place_lines key r now)).1
              ≡ save_record key orders_path 201 body 3600 now d)
      kept (err e) h = cc
      kept (ok lines) h =
          let (made, e, answer, same, d, saved) =
            announced (create_transaction (new_order r lines) lines db) body h in
          (d, saved)

replayed :
    (key : ℕ) (again : Request) (now later : ℕ) (d placed : Db) (body : Body)
    → later ≤ now + 3600 * 1000
    → placed ≡ save_record (some key) orders_path 201 body 3600 now d
    → create (some key) again later placed ≡ (ok body, placed)
unfolding create cached_or_new
replayed key again now later d placed body t e =
    subst
      (λ p.
        continue (get_record (some key) orders_path later p)
          (λ c. cached_or_new c (some key) again later)
        ≡ (ok body, p))
      (sym e)
      (rw (get_record-save_record key orders_path orders_path 201 3600 now later body d t) refl)

-- An answer is kept under the key for an hour: the same key gives it again, and nothing is ordered a
-- second time, whatever the second request asks for.
pub create_replay :
    (key : ℕ) (r again : Request) (now later : ℕ) (db : Db) (body : Body)
    → outcome (create_new (some key) r now) db ≡ ok body
    → later ≤ now + 3600 * 1000
    → let placed = after (create_new (some key) r now) db in
      create (some key) again later placed ≡ (ok body, placed)
create_replay key r again now later db body h t =
    let (d, e) = kept_answer (some key) r now db body h in
    replayed key again now later d (after (create_new (some key) r now) db) body t e
