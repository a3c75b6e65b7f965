-- ===== src/Admin/Laws.antt =====
-- What the administrator's cancellation moves, and what blocking an account does.
use afrique_os.Common.{
  ℕ, ◌≡◌, refl, Bool, true, false, Option, none, some, List, if◌then◌else◌, ◌==◌, any, arith, ◌∙◌,
  ap,
}
use mathlib.Core.Option
use afrique_os.Common.Int.{ℤ, pos, ◌+ℤ◌, ◌-ℤ◌, ◌*ℕ◌, int_laws}
use afrique_os.Common.Tables.{
  find_first, update_many, count, sum_by, sum_by-update_many, find_first-update_many,
  find_first-test,
}
use afrique_os.Database.Enums.{UserStatus, is_paid}
use afrique_os.Database.Rows.{Order, User, Db}
use afrique_os.Database.Action.{ok, outcome, after, continue}
use afrique_os.Database.Calls.{update_found}
use afrique_os.Orders.Payment.Credited.{balances}
use afrique_os.Admin.{give_back_points, reverse_payment, set_user, set_user_status}

module _ (id : ℕ) (db : Db) where
  abbrev blocked_users : List User
  blocked_users = update_many (λ x. x.id == id) (set_user UserStatus.blocked) db.users

  set_user_status-users :
      outcome (set_user_status id UserStatus.blocked) db ≡ ok tt
      → (after (set_user_status id UserStatus.blocked) db).users ≡ blocked_users
  unfolding set_user_status
  set_user_status-users done = ground arith

  one_blocked :
      (u : User)
      → find_first (λ x. x.id == id) db.users ≡ some u
      → find_first (λ x. x.id == id) blocked_users
        ≡ some (record u { status = UserStatus.blocked; refresh_token_hash = none })
  one_blocked u found =
      find_first-update_many (λ x. x.id == id) (λ x. x.id == id) (set_user UserStatus.blocked)
        db.users (λ x. refl)
      ∙ ap (Option.map (λ x. if x.id == id then set_user UserStatus.blocked x else x)) found
      ∙ ap (λ b. some (if b then set_user UserStatus.blocked u else u))
          (find_first-test (λ x. x.id == id) db.users found)

  other_kept :
      (other : ℕ)
      → (other == id) ≡ false
      → find_first (λ x. x.id == other) blocked_users ≡ find_first (λ x. x.id == other) db.users
  other_kept other apart =
      find_first-update_many (λ x. x.id == other) (λ x. x.id == id) (set_user UserStatus.blocked)
        db.users (λ x. refl)
      ∙ kept (find_first (λ x. x.id == other) db.users)
          (λ u. find_first-test (λ x. x.id == other) db.users)
    where
      kept :
          (found : Option User)
          → ((u : User) → found ≡ some u → (u.id == other) ≡ true)
          → Option.map (λ x. if x.id == id then set_user UserStatus.blocked x else x) found ≡ found
      kept none test = refl
      kept (some u) test = ground (arith, test u refl)

-- Blocking an account that is not an administrator's takes effect on it at once, with the token that
-- its sessions are renewed by; nobody else is touched.
pub set_user_status-blocked :
    (id : ℕ) (db : Db) (u : User)
    → find_first (λ x. x.id == id) db.users ≡ some u
    → outcome (set_user_status id UserStatus.blocked) db ≡ ok tt
    → (find_first (λ x. x.id == id) (after (set_user_status id UserStatus.blocked) db).users
        ≡ some (record u { status = UserStatus.blocked; refresh_token_hash = none }))
      × ((other : ℕ)
          → (other == id) ≡ false
          → find_first (λ x. x.id == other) (after (set_user_status id UserStatus.blocked) db).users
            ≡ find_first (λ x. x.id == other) db.users)
set_user_status-blocked id db u found done =
    rw (set_user_status-users id db done) (one_blocked id db u found, other_kept id db)

points-boutiques :
    (user : Option ℕ) (o : Order) (db : Db)
    → (after (give_back_points (record o { user_id = user })) db).boutiques ≡ db.boutiques
points-boutiques none o db = refl
points-boutiques (some user) o db = ground arith

lowered : (a b : ℤ) → a -ℤ b ≡ a +ℤ (pos 0 -ℤ b)
lowered a b = omega int_laws

reversed :
    (o : Order) (db : Db) (found : Bool)
    → let lower = λ (d : Db). record d {
      boutiques =
          update_many
            (λ b. b.id == o.boutique_id)
            (λ b. record b { balance = b.balance -ℤ o.total })
            d.boutiques;
    } in
      (continue (update_found found lower db) (λ _. give_back_points o)).0 ≡ ok tt
      → balances (continue (update_found found lower db) (λ _. give_back_points o)).1
        ≡ balances db +ℤ (pos 0 -ℤ o.total) *ℕ count (λ b. b.id == o.boutique_id) db.boutiques
reversed o db false h = cc
reversed o db true h =
    ap (sum_by (λ b. b.balance)) (
      points-boutiques o.user_id o (record db {
        boutiques =
            update_many (λ b. b.id == o.boutique_id)
              (λ b. record b { balance = b.balance -ℤ o.total }) db.boutiques;
      }))
    ∙ sum_by-update_many (λ b. b.balance) (pos 0 -ℤ o.total) (λ b. b.id == o.boutique_id)
        (λ b. record b { balance = b.balance -ℤ o.total }) db.boutiques
        (λ b. lowered b.balance o.total)

-- Of a paid order the administrator's reversal, when it goes through, takes the order's total from
-- the balances, once for each row of its shop: not the net amount that the payment credited.
pub reverse_payment-balances :
    (o : Order) (db : Db)
    → is_paid o.status ≡ true
    → outcome (reverse_payment o) db ≡ ok tt
    → balances (after (reverse_payment o) db)
      ≡ balances db +ℤ (pos 0 -ℤ o.total) *ℕ count (λ b. b.id == o.boutique_id) db.boutiques
unfolding reverse_payment
reverse_payment-balances o db paid h =
    rw (after, paid)
      (reversed o db (any (λ b. b.id == o.boutique_id) db.boutiques) (rw (outcome, paid) at h))
