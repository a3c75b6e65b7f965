-- ===== src/Boutiques/Wallet/Laws.antt =====
-- What a withdrawal takes.
use afrique_os.Common.{ℕ, ◌≡◌, ◌≢◌, refl, true, false, Option, none, some, ◌∷◌, ◌==◌, arith, ◌∙◌}
use afrique_os.Common.Int.{ℤ, pos, ◌+ℤ◌, ◌-ℤ◌, ◌≤ℤ◌, ltb_ℤ, int_laws}
use afrique_os.Common.Tables.{find_first, update_many, find_first-update_many, find_first-test}
use afrique_os.Database.Enums.{is_active_boutique}
use afrique_os.Database.Rows.{Text, Boutique, Withdrawal, Db}
use afrique_os.Database.Action.{ok, err, outcome, after, HttpError}
use afrique_os.Boutiques.Wallet.{
  held_amount, available, get_wallet, debitable, debit, request_withdrawal,
}

-- A request that is refused changes nothing.
pub request_withdrawal_atomic :
    (boutique : ℕ) (amount : Option ℤ) (info : Text) (db : Db) (e : HttpError)
    → outcome (request_withdrawal boutique amount info) db ≡ err e
    → after (request_withdrawal boutique amount info) db ≡ db
unfolding request_withdrawal
request_withdrawal_atomic boutique none info db e h = refl
request_withdrawal_atomic boutique (some amount) info db e h = ground arith

covered_of_available :
    (amount balance held : ℤ)
    → ltb_ℤ amount (pos 50000) ≡ false
    → ltb_ℤ (available balance held) amount ≡ false
    → amount +ℤ held ≤ℤ balance
covered_of_available amount balance held least enough = grind (int_laws)

withdrawal_found :
    (boutique : ℕ) (amount : ℤ) (info : Text) (db : Db) (w : Withdrawal)
    → outcome (request_withdrawal boutique (some amount) info) db ≡ ok w
    → find_first (λ x. x.id == boutique) db.boutiques ≢ none
unfolding request_withdrawal
withdrawal_found boutique amount info db w h e = ground arith

available_covered : (balance held : ℤ) → held ≤ℤ balance → available balance held ≡ balance -ℤ held
available_covered balance held h = grind int_laws

less_available :
    (balance amount held : ℤ)
    → pos 0 ≤ℤ amount
    → amount +ℤ held ≤ℤ balance
    → available (balance -ℤ amount) held ≡ available balance held -ℤ amount
less_available balance amount held p h =
    rw
      (
        available_covered (balance -ℤ amount) held (omega int_laws),
        available_covered balance held (omega int_laws),
      )
      (omega int_laws)

module _ (boutique : ℕ) (amount : ℤ) (info : Text) (db : Db) (b : Boutique) (w : Withdrawal)
    (found : find_first (λ x. x.id == boutique) db.boutiques ≡ some b)
    (done : outcome (request_withdrawal boutique (some amount) info) db ≡ ok w) where
  abbrev held : ℤ
  held = held_amount boutique db.allocations

  -- A withdrawal goes through only for an active shop whose balance covers the amount and all that
  -- is held for it.
  pub withdrawal_covered :
      (is_active_boutique b.status ≡ true)
      × (pos 50000 ≤ℤ amount)
      × (amount +ℤ held_amount boutique db.allocations ≤ℤ b.balance)
  unfolding request_withdrawal
  withdrawal_covered = (
    ground arith,
    ground arith,
    covered_of_available amount b.balance held (ground arith) (ground arith),
  )

  withdrawal_after : after (request_withdrawal boutique (some amount) info) db ≡ record db {
    boutiques = update_many (debitable boutique (amount +ℤ held)) (debit amount) db.boutiques;
    withdrawals = record { boutique_id = boutique; amount = amount } ∷ db.withdrawals;
  }
  unfolding request_withdrawal
  withdrawal_after = ground arith

  debitable_found : debitable boutique (amount +ℤ held) b ≡ true
  debitable_found =
      ground (arith, withdrawal_covered, find_first-test (λ x. x.id == boutique) db.boutiques found)

  found_after :
      find_first
        (λ x. x.id == boutique)
        (update_many (debitable boutique (amount +ℤ held)) (debit amount) db.boutiques)
      ≡ some (debit amount b)
  found_after =
      find_first-update_many (λ x. x.id == boutique) (debitable boutique (amount +ℤ held))
        (debit amount) db.boutiques (λ x. refl)
      ∙ rw (found, debitable_found)

  -- The withdrawal takes the amount from the balance and from what is available, leaves what is
  -- held as it was and still covered, and is the newest request in the list.
  pub withdrawal_moves :
      let before = get_wallet boutique db in
      let later = get_wallet boutique (after (request_withdrawal boutique (some amount) info) db) in
      (later.balance ≡ before.balance -ℤ amount)
      × (later.held_amount ≡ before.held_amount)
      × (later.held_amount ≤ℤ later.balance)
      × (later.available_to_withdraw ≡ before.available_to_withdraw -ℤ amount)
      × (later.withdrawals
          ≡ record { boutique_id = boutique; amount = amount } ∷ before.withdrawals)
  unfolding get_wallet
  withdrawal_moves =
      rw (withdrawal_after, found_after, found)
        (
          refl,
          refl,
          held_covered,
          less_available b.balance amount held (omega (arith, withdrawal_covered.1))
              withdrawal_covered.2,
          ground arith,
        )
    where
      held_covered : held ≤ℤ b.balance -ℤ amount
      held_covered = omega (int_laws, withdrawal_covered.2)
