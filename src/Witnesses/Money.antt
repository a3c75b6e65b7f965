-- ===== src/Witnesses/Money.antt =====
-- Withdrawals, refunds, kept answers and telephone numbers.
use afrique_os.Common.{◌≡◌, refl, true, false, some, [], ◌∷◌, ◌==◌, any}
use afrique_os.Common.Int.{pos, ◌+ℤ◌, ◌-ℤ◌, ◌≤ℤ◌}
use afrique_os.Common.Tables.{count}
use afrique_os.Database.Enums.{is_active_boutique, RefundStatus}
use afrique_os.Database.Rows.{Db}
use afrique_os.Database.Action.{err, after, bad_request}
use afrique_os.Boutiques.Wallet.{held_amount, get_wallet, request_withdrawal}
use afrique_os.Boutiques.Wallet.Laws.{withdrawal_covered, withdrawal_moves}
use afrique_os.Refunds.{freezable, create_request, admin_decide}
use afrique_os.Refunds.Laws.{create_request-freezable, admin_decide_once}
use afrique_os.Phone.{normalize_phone}
use afrique_os.Phone.Normal.{normalize_phone-reference}
use afrique_os.Witnesses.Shop.{phone, shop, db}

withdrawal_covered_example :
    (is_active_boutique shop.status ≡ true)
    × (pos 50000 ≤ℤ pos 200000)
    × (pos 200000 +ℤ held_amount 10 db.allocations ≤ℤ shop.balance)
unfolding request_withdrawal ◌+ℤ◌ ◌-ℤ◌ held_amount
withdrawal_covered_example =
    withdrawal_covered 10 (pos 200000) phone db shop
      (record { boutique_id = 10; amount = pos 200000 }) refl refl

withdrawal_moves_example :
    let before = get_wallet 10 db in
    let later = get_wallet 10 (after (request_withdrawal 10 (some (pos 200000)) phone) db) in
    (later.balance ≡ before.balance -ℤ pos 200000)
    × (later.held_amount ≡ before.held_amount)
    × (later.held_amount ≤ℤ later.balance)
    × (later.available_to_withdraw ≡ before.available_to_withdraw -ℤ pos 200000)
    × (later.withdrawals ≡ record { boutique_id = 10; amount = pos 200000 } ∷ before.withdrawals)
unfolding request_withdrawal ◌+ℤ◌ ◌-ℤ◌ held_amount
withdrawal_moves_example =
    withdrawal_moves 10 (pos 200000) phone db shop
      (record { boutique_id = 10; amount = pos 200000 }) refl refl

create_request-freezable_example :
    (count (freezable 1002) (after (create_request 1 1002 60) db).allocations ≡ 0)
    × (any (λ x. x.order_id == 1002) db.refunds ≡ false)
    × (after (create_request 1 1002 60) db).refunds
      ≡ record {
        id = 60;
        order_id = 1002;
        client_id = 1;
        boutique_id = 10;
        status = RefundStatus.pending;
      }
        ∷ db.refunds
unfolding create_request
create_request-freezable_example =
    create_request-freezable 1 1002 60 db
      (record {
        id = 60;
        order_id = 1002;
        client_id = 1;
        boutique_id = 10;
        status = RefundStatus.pending;
      })
      refl

abbrev asked : Db
asked = after (create_request 1 1002 60) db

admin_decide_once_example :
    admin_decide 60 false (after (admin_decide 60 true) asked)
    ≡ (err bad_request, after (admin_decide 60 true) asked)
unfolding create_request admin_decide
admin_decide_once_example = admin_decide_once 60 true false asked refl

normalize_phone-reference_example :
    normalize_phone (40 ∷ 43 ∷ 50 ∷ 32 ∷ 43 ∷ 55 ∷ []) ≡ 43 ∷ 50 ∷ 55 ∷ []
normalize_phone-reference_example = normalize_phone-reference (40 ∷ 43 ∷ 50 ∷ 32 ∷ 43 ∷ 55 ∷ [])
