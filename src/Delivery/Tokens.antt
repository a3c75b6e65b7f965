-- ===== src/Delivery/Tokens.antt =====
-- Who may act on a shipment in backend/src/delivery/delivery.service.ts: hashTokenOrCode and the test
-- of the buyer or of the guest's link, which three methods make in the same way. SHA-256 is a
-- parameter.
use afrique_os.Common.{ℕ, Bool, false, ◌&&◌, ◌||◌, not, Option, none, some, ◌==◌, is_id}
use afrique_os.Common.Text.{is_empty, trim}
use afrique_os.Database.Rows.{Text, Shipment}
use afrique_os.Database.Action.{Action, throw_if, forbidden}

abbrev pub is_own_shipment : Option ℕ → Shipment → Bool
is_own_shipment none s = false
is_own_shipment (some user) s = is_id s.customer_user_id user

module _ (digest : Text → ℕ) where
  unfoldable pub hash_token_or_code : Text → ℕ
  hash_token_or_code plain = digest (trim plain)

  -- A token that is missing or empty never fits, and nor does any where none was made.
  unfoldable pub fits_token : Option Text → Shipment → Bool
  unfolding hash_token_or_code
  fits_token none s = false
  fits_token (some token) s = elim s.guest_tracking_token_hash [
    | none ↦ false
    | some hash ↦ not (is_empty token) && hash_token_or_code token == hash
  ]

  unfoldable pub check_buyer : Option ℕ → Option Text → Shipment → Action (Unit {0})
  unfolding fits_token
  check_buyer user token s = throw_if (not (is_own_shipment user s || fits_token token s)) forbidden
