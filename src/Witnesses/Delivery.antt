-- ===== src/Witnesses/Delivery.antt =====
-- The laws of the deliveries applied to one parcel.
use afrique_os.Common.{◌+◌, ℕ, ◌≤◌, ◌≡◌, refl, false, none, some, List, [], ◌∷◌, arith, ◌==◌}
use afrique_os.Common.Text.{trim}
use afrique_os.Common.Tables.{find_first, count}
use afrique_os.Database.Enums.{HandoverStep}
use afrique_os.Database.Rows.{Text}
use afrique_os.Database.Action.{outcome, after}
use afrique_os.Delivery.Dispatch.{dispatch_shipment, is_running_for}
use afrique_os.Delivery.Running.Steps.{here, step, dispatched, Reach-OneRunning}
use afrique_os.Delivery.Partners.{attach_courier}
use afrique_os.Delivery.Partners.Exclusive.{
  Exclusive, Transfers-Exclusive, attached, one_more, none_yet,
}
use afrique_os.Delivery.Handover.Unpaid.{Declaration, Unpaid, declare_all, declare_all-Unpaid}
use afrique_os.Delivery.Tokens.{hash_token_or_code}
use afrique_os.Delivery.Finalize.{finalize_verified_delivery}
use afrique_os.Delivery.Code.{verify_delivery_by_buyer_code}
use afrique_os.Delivery.Code.Lock.{
  guesses, wrong_guess, lock_of, with_lock, to_error, verify_delivery_by_buyer_code-refines,
  guesses-opens,
}
use afrique_os.Delivery.Code.Limit.{
  answers, is_compared, is_refused, attempts_of, guesses-attempts_of,
}
use afrique_os.Witnesses.Parcels.{digest, right_code, wrong_code, parcel, parcels, to_pool}

Reach-OneRunning_example :
    count
      (is_running_for 2000)
      (after (dispatch_shipment 1 3000 2000 2 to_pool false) parcels).missions
    ≤ 1
Reach-OneRunning_example =
    Reach-OneRunning {digest = digest}
      (step (dispatched {db = parcels} 1 3000 2000 2 to_pool false) here) (λ id. omega arith) 2000

Transfers-Exclusive_example :
    Exclusive (after (attach_courier 80 8 70 none false) parcels).memberships
Transfers-Exclusive_example =
    Transfers-Exclusive (one_more (attached {db = parcels} 80 8 70 none false) none_yet)
      (λ a c. omega arith, λ c. omega arith)

abbrev handed_over : List Declaration
handed_over =
    record { step = HandoverStep.pickup_from_seller; made_at = 1; shipment = 2000; mission = none }
    ∷ record { step = HandoverStep.delivery_to_buyer; made_at = 2; shipment = 2000; mission = none }
    ∷ []

declare_all-Unpaid_example : Unpaid parcels (declare_all handed_over parcels)
declare_all-Unpaid_example = declare_all-Unpaid handed_over parcels

verify_delivery_by_buyer_code-refines_example :
    (outcome (verify_delivery_by_buyer_code digest 5 2000 wrong_code) parcels
      ≡ to_error (wrong_guess 5 (lock_of parcel)).0)
    × (find_first
          (λ x. x.id == 2000)
          (after (verify_delivery_by_buyer_code digest 5 2000 wrong_code) parcels).shipments
        ≡ some (with_lock (wrong_guess 5 (lock_of parcel)).1 parcel))
unfolding hash_token_or_code trim
verify_delivery_by_buyer_code-refines_example =
    verify_delivery_by_buyer_code-refines digest 2000 5 wrong_code parcels parcel 4 refl refl refl
      refl

abbrev two_wrong : List (ℕ × Text)
two_wrong = (5, wrong_code) ∷ (6, wrong_code) ∷ []

guesses-attempts_of_example :
    (count is_compared (answers digest 2000 two_wrong parcels)
        + count is_refused (answers digest 2000 two_wrong parcels)
      ≡ 2)
    × (attempts_of 2000 (guesses digest 2000 two_wrong parcels)
        ≡ 0 + count is_compared (answers digest 2000 two_wrong parcels))
    × (0 + count is_compared (answers digest 2000 two_wrong parcels) ≤ 5)
unfolding hash_token_or_code trim
guesses-attempts_of_example =
    guesses-attempts_of digest 2000 4 0 two_wrong parcels parcel refl refl refl (refl, (refl, tt))
      ((omega arith, omega arith), ((omega arith, omega arith), tt))

guesses-opens_example :
    verify_delivery_by_buyer_code digest 900006 2000 right_code
      (guesses digest 2000 two_wrong parcels)
    ≡ finalize_verified_delivery 900006 2000 (guesses digest 2000 two_wrong parcels)
unfolding hash_token_or_code trim
guesses-opens_example =
    guesses-opens digest 2000 4 6 900006 right_code two_wrong parcels parcel refl refl refl tt
      (refl, (refl, tt)) (omega arith, (omega arith, tt)) refl (omega arith)
