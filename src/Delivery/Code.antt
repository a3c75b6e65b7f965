-- ===== src/Delivery/Code.antt =====
-- verifyDeliveryByBuyerCode and verifyDeliveryByGuestOrBuyer of
-- backend/src/delivery/delivery.service.ts: the buyer's code, with its limit on wrong guesses, and the
-- buyer's own confirmation.
pub mod Lock
pub mod Limit
use afrique_os.Common.{
  ℕ, ◌+◌, Bool, true, false, ◌||◌, Option, none, some, if◌then◌else◌, ◌==◌, ltb, leb,
}
use afrique_os.Common.Tables.{find_first}
use afrique_os.Database.Enums.{is_delivered_verified, is_buyer_accepted}
use afrique_os.Database.Rows.{Text, Shipment, Db}
use afrique_os.Database.Action.{
  Action, pure, gets, or_throw, throw, throw_if, ◌>>=◌, ◌>>◌, not_found, bad_request, forbidden,
  conflict,
}
use afrique_os.Database.Calls.{update_shipment}
use afrique_os.Delivery.Tokens.{hash_token_or_code, check_buyer}
use afrique_os.Delivery.Finalize.{finalize_verified_delivery}
use afrique_os.Delivery.Conformity.{accept_product_conformity}

abbrev pub max_delivery_code_attempts : ℕ
max_delivery_code_attempts = 5

abbrev pub code_lockout_duration_ms : ℕ
code_lockout_duration_ms = 900000

abbrev pub is_locked : ℕ → Option ℕ → Bool
is_locked now none = false
is_locked now (some t) = ltb now t

-- One more wrong guess.
abbrev pub lock_after : ℕ → ℕ → Option ℕ
lock_after now attempts =
    if leb max_delivery_code_attempts attempts then some (now + code_lockout_duration_ms) else none

abbrev pub count_wrong : ℕ → Shipment → Shipment → Shipment
count_wrong now s x = record x {
  delivery_code_attempts = s.delivery_code_attempts + 1;
  delivery_code_locked_until = lock_after now (s.delivery_code_attempts + 1);
}

unfoldable pub compare_code : (Text → ℕ) → ℕ → Text → Shipment → ℕ → Action (Unit {0})
unfolding hash_token_or_code
compare_code digest now code s hash =
    if hash_token_or_code digest code == hash
    then finalize_verified_delivery now s.id
    else update_shipment s.id (count_wrong now s) >> throw bad_request

unfoldable pub verify_delivery_by_buyer_code : (Text → ℕ) → ℕ → ℕ → Text → Action (Unit {0})
unfolding compare_code
verify_delivery_by_buyer_code digest now id code = do
  found ← gets (λ db. find_first (λ s. s.id == id) db.shipments)
  s ← or_throw found not_found
  throw_if (is_delivered_verified s.status || is_buyer_accepted s.status) conflict
  throw_if (is_locked now s.delivery_code_locked_until) forbidden
  hash ← or_throw s.delivery_code_hash bad_request
  compare_code digest now code s hash

unfoldable pub verify_delivery_by_guest_or_buyer :
    (Text → ℕ) → ℕ → ℕ → Option Text → Bool → Option ℕ → Action (Unit {0})
unfolding check_buyer
verify_delivery_by_guest_or_buyer digest now id token accepts user = do
  found ← gets (λ db. find_first (λ s. s.id == id) db.shipments)
  s ← or_throw found not_found
  check_buyer digest user token s
  finalize_verified_delivery now s.id
  if accepts then accept_product_conformity digest now s.id user token else pure tt
