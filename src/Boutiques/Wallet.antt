-- ===== src/Boutiques/Wallet.antt =====
-- getWallet and requestWithdrawal of backend/src/boutiques/boutiques.service.ts. Amounts are in
-- hundredths, so the least withdrawal of 500 francs is 50000.
pub mod Laws
use afrique_os.Common.{
  ℕ, zero, Bool, true, false, ◌&&◌, ◌||◌, not, Option, none, some, List, ◌∷◌, if◌then◌else◌, ◌==◌,
}
use afrique_os.Common.Int.{ℤ, pos, ◌+ℤ◌, ◌-ℤ◌, ltb_ℤ, leb_ℤ, max_ℤ}
use afrique_os.Common.Tables.{find_first, find_many, update_many, sum_by, count}
use afrique_os.Common.Text.{trim, is_empty}
use afrique_os.Database.Enums.{is_held, is_seller, is_active_boutique}
use afrique_os.Database.Rows.{Text, Allocation, Boutique, Withdrawal, Db}
use afrique_os.Database.Action.{
  Action, ok, err, pure, gets, or_throw, throw, throw_if, modify, transaction, ◌>>=◌, ◌>>◌,
  not_found, bad_request,
}
use afrique_os.Database.Calls.{add_balance}

-- The seller's allocations that wait for the delivery, for the buyer, or for the end of a dispute.
abbrev pub is_held_for : ℕ → Allocation → Bool
is_held_for boutique a =
    is_seller a.beneficiary_type && a.beneficiary_id == boutique && is_held a.status

unfoldable pub held_amount : ℕ → List Allocation → ℤ
held_amount boutique allocations =
    sum_by (λ a. a.net_amount) (find_many (is_held_for boutique) allocations)

abbrev pub available : ℤ → ℤ → ℤ
available balance held = max_ℤ (pos 0) (balance -ℤ held)

pub record Wallet : Type 0 where
  pub balance : ℤ
  pub held_amount : ℤ
  pub available_to_withdraw : ℤ
  pub withdrawals : List Withdrawal

abbrev balance_or_zero : Option Boutique → ℤ
balance_or_zero none = pos 0
balance_or_zero (some b) = b.balance

unfoldable pub get_wallet : ℕ → Db → Wallet
get_wallet boutique db =
    let balance = balance_or_zero (find_first (λ b. b.id == boutique) db.boutiques) in
    let held = held_amount boutique db.allocations in
    record {
      balance = balance;
      held_amount = held;
      available_to_withdraw = available balance held;
      withdrawals = find_many (λ w. w.boutique_id == boutique) db.withdrawals;
    }

-- `updateMany … where id, status: ACTIVE, balance: { gte: amount + heldAmount }`
abbrev pub debitable : ℕ → ℤ → Boutique → Bool
debitable boutique bound b =
    b.id == boutique && is_active_boutique b.status && leb_ℤ bound b.balance

abbrev pub debit : ℤ → Boutique → Boutique
debit amount b = record b { balance = b.balance -ℤ amount }

-- The conditional debit, and the request that it leaves, with what was held when it was computed.
unfoldable pub debit_withdrawal : ℕ → ℤ → ℤ → Action Withdrawal
debit_withdrawal boutique amount held = do
  met ← gets (λ db. count (debitable boutique (amount +ℤ held)) db.boutiques)
  throw_if (met == 0) bad_request
  modify (λ db. record db {
    boutiques = update_many (debitable boutique (amount +ℤ held)) (debit amount) db.boutiques;
    withdrawals = record { boutique_id = boutique; amount = amount } ∷ db.withdrawals;
  })
  pure (record { boutique_id = boutique; amount = amount })

unfoldable pub withdrawal_transaction : ℕ → ℤ → Action Withdrawal
unfolding debit_withdrawal
withdrawal_transaction boutique amount = do
  found ← gets (λ db. find_first (λ b. b.id == boutique) db.boutiques)
  b ← or_throw found not_found
  throw_if (not (is_active_boutique b.status)) bad_request
  held ← gets (λ db. held_amount boutique db.allocations)
  throw_if (ltb_ℤ (available b.balance held) amount) bad_request
  debit_withdrawal boutique amount held

-- `amount` is `none` where the request has no finite number.
unfoldable pub request_withdrawal : ℕ → Option ℤ → Text → Action Withdrawal
unfolding withdrawal_transaction trim
request_withdrawal boutique none payment_info = throw bad_request
request_withdrawal boutique (some amount) payment_info = do
  throw_if (ltb_ℤ amount (pos 50000)) bad_request
  throw_if (is_empty (trim payment_info)) bad_request
  transaction (withdrawal_transaction boutique amount)
