-- ===== src/Boutiques/Lifecycle.antt =====
-- The life cycle and the verification of a shop, in backend/src/boutiques/boutiques.service.ts.
use afrique_os.Common.{ℕ, Bool, true, false, not, Option, ◌==◌}
use afrique_os.Common.Tables.{find_first, update_many}
use afrique_os.Database.Enums.{BoutiqueStatus, VerificationStatus}
use afrique_os.Database.Rows.{Boutique, Db}
use afrique_os.Database.Action.{
  Action, pure, gets, or_throw, throw, throw_if, modify, ◌>>=◌, ◌>>◌, not_found, bad_request,
}
use afrique_os.Database.Calls.{update_boutique}

-- assertValidTransition: staying put is allowed.
unfoldable pub is_allowed : BoutiqueStatus → BoutiqueStatus → Bool
is_allowed BoutiqueStatus.pending BoutiqueStatus.pending = true
is_allowed BoutiqueStatus.pending BoutiqueStatus.active = true
is_allowed BoutiqueStatus.pending BoutiqueStatus.closed = true
is_allowed BoutiqueStatus.active BoutiqueStatus.active = true
is_allowed BoutiqueStatus.active BoutiqueStatus.suspended = true
is_allowed BoutiqueStatus.active BoutiqueStatus.closed = true
is_allowed BoutiqueStatus.suspended BoutiqueStatus.suspended = true
is_allowed BoutiqueStatus.suspended BoutiqueStatus.active = true
is_allowed BoutiqueStatus.suspended BoutiqueStatus.closed = true
is_allowed BoutiqueStatus.closed BoutiqueStatus.closed = true
is_allowed _ _ = false

abbrev found_boutique : ℕ → Db → Option Boutique
found_boutique id db = find_first (λ b. b.id == id) db.boutiques

unfoldable pub update_status : ℕ → BoutiqueStatus → Action (Unit {0})
unfolding is_allowed
update_status id status = do
  found ← gets (found_boutique id)
  current ← or_throw found not_found
  throw_if (not (is_allowed current.status status)) bad_request
  update_boutique id (λ b. record b { status = status })

verify : VerificationStatus → ℕ → Action (Unit {0})
verify VerificationStatus.verified id = throw bad_request
verify VerificationStatus.pending id = pure tt
verify _ id =
    update_boutique id (λ b. record b { verification_status = VerificationStatus.pending })

unfoldable pub request_verification : ℕ → Action (Unit {0})
unfolding verify
request_verification id = do
  found ← gets (found_boutique id)
  b ← or_throw found not_found
  verify b.verification_status id

abbrev is_decision : VerificationStatus → Bool
is_decision VerificationStatus.verified = true
is_decision VerificationStatus.rejected = true
is_decision _ = false

abbrev verify_all_of : VerificationStatus → ℕ → Db → Db
verify_all_of VerificationStatus.verified owner db = record db {
  boutiques =
      update_many (λ b. b.owner_id == owner)
        (λ b. record b { verification_status = VerificationStatus.verified }) db.boutiques;
}
verify_all_of _ owner db = db

unfoldable pub review_verification : ℕ → VerificationStatus → Action (Unit {0})
review_verification id status = do
  throw_if (not (is_decision status)) bad_request
  found ← gets (found_boutique id)
  b ← or_throw found not_found
  modify (verify_all_of status b.owner_id)
  update_boutique id (λ x. record x { verification_status = status })
