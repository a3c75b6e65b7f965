-- ===== src/Orders/Cancel/Atomic.antt =====
-- What a refused cancellation leaves.
use afrique_os.Common.{ℕ, ◌≡◌, refl, ◌&&◌, not, Option, none, some, ◌==◌, ap, Bool-cases, inl, inr}
use afrique_os.Common.Tables.{find_first}
use afrique_os.Database.Enums.{is_cancelled}
use afrique_os.Database.Rows.{Text, Order, Db}
use afrique_os.Database.Action.{
  Action, Result, ok, err, outcome, after, continue, HttpError, or_throw, not_found, throw_if,
  bad_request, ◌>>=◌, ◌>>◌, roll_back,
}
use afrique_os.Phone.{phone_match_clause}
use afrique_os.Orders.View.{OrderView}
use afrique_os.Orders.Cancel.{cancellable, cancel_transaction, cancel_by_customer, told_cancelled}

rolled :
    {A : Type 0} (db : Db) (x : Result A × Db) (e : HttpError)
    → (roll_back db x).0 ≡ err e
    → (roll_back db x).1 ≡ db
rolled db (ok a, d) e h = cc
rolled db (err e', d) e h = refl

cancel_transaction_atomic :
    (boutique : ℕ) (reason : Option Text) (o : Order) (db : Db) (e : HttpError)
    → outcome (cancel_transaction boutique reason o) db ≡ err e
    → after (cancel_transaction boutique reason o) db ≡ db
unfolding cancel_transaction
cancel_transaction_atomic boutique reason o db e h = rolled db _ e h

told :
    (r : Result Order × Db) (db : Db) (e : HttpError)
    → (r.0 ≡ err e → r.1 ≡ db)
    → (continue r told_cancelled).0 ≡ err e
    → (continue r told_cancelled).1 ≡ db
unfolding told_cancelled
told (ok o, d) db e k h = cc
told (err x, d) db e k h = k (let same : x ≡ e = cc in ap err same)

abbrev cancelling : ℕ → Option Text → Order → Action OrderView
cancelling boutique reason order = do
  throw_if (is_cancelled order.status) bad_request
  throw_if (not (cancellable order.status)) bad_request
  cancelled ← cancel_transaction boutique reason order
  told_cancelled cancelled

cancelling_atomic :
    (boutique : ℕ) (reason : Option Text) (o : Order) (db : Db) (e : HttpError)
    → outcome (cancelling boutique reason o) db ≡ err e
    → after (cancelling boutique reason o) db ≡ db
cancelling_atomic boutique reason o db e h = elim (Bool-cases (is_cancelled o.status)) [
  | inl c ↦ rw (after, c) refl
  | inr c ↦ elim (Bool-cases (not (cancellable o.status))) [
    | inl n ↦ rw (after, c, n) refl
    | inr n ↦
        rw (after, c, n)
          (told (cancel_transaction boutique reason o db) db e
            (cancel_transaction_atomic boutique reason o db e) (rw (outcome, c, n) at h))
  ]
]

-- A cancellation by the customer that is refused, for whatever reason, changes nothing: neither the
-- status, nor the balance, nor the points, nor the stock.
pub cancel_by_customer_atomic :
    (boutique id : ℕ) (phone : Text) (reason : Option Text) (db : Db) (e : HttpError)
    → outcome (cancel_by_customer boutique id phone reason) db ≡ err e
    → after (cancel_by_customer boutique id phone reason) db ≡ db
unfolding cancel_by_customer
cancel_by_customer_atomic boutique id phone reason db e = by_found (
    find_first
      (λ o. o.id == id && o.boutique_id == boutique && phone_match_clause phone o.customer_phone)
      db.orders)
  where
    by_found :
        (x : Option Order)
        → (continue (or_throw x not_found db) (cancelling boutique reason)).0 ≡ err e
        → (continue (or_throw x not_found db) (cancelling boutique reason)).1 ≡ db
    by_found none h = refl
    by_found (some o) h = cancelling_atomic boutique reason o db e h
