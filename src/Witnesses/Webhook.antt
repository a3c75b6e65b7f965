-- ===== src/Witnesses/Webhook.antt =====
-- A notification of the payment provider.
use afrique_os.Common.{ℕ, ◌+◌, ◌≡◌, refl, true, false, none, some, List, [], ◌∷◌, arith, length}
use afrique_os.Common.Int.{◌+ℤ◌, ◌*ℕ◌}
use afrique_os.Common.Text.{trim, is_empty}
use afrique_os.Database.Rows.{Text, order_paid_success}
use afrique_os.Database.Action.{ok, after}
use afrique_os.Idempotency.{get_record}
use afrique_os.Paydunya.Signature.{verify_webhook_signature}
use afrique_os.Paydunya.Signature.Hex.{to_hex}
use afrique_os.Paydunya.Signature.Sound.{IsSignature, verify_any_body}
use afrique_os.Paydunya.Webhook.{
  Event, CustomData, Part, Payload, Call, signature_of, master_key, answer_event, handle_webhook,
}
use afrique_os.Paydunya.Webhook.Laws.{handle_webhook-IsSignature, answer_event_replay}
use afrique_os.Witnesses.Shop.{to_cents, db}

abbrev digest : Text → List ℕ
digest t = 171 ∷ length t ∷ []

abbrev hmac : Text → Text → List ℕ
hmac key body = length key ∷ length body ∷ []

abbrev tag : ℕ → ℕ
tag n = n + 1000000

abbrev key : Text
key = 107 ∷ 101 ∷ 121 ∷ []

-- The digest of the key in hexadecimal, `ab03`.
abbrev hash : Text
hash = 97 ∷ 98 ∷ 48 ∷ 51 ∷ []

abbrev custom : CustomData
custom = record {
  is_subscription = false;
  user_id = none;
  plan_slug = none;
  order_id = some 1000;
  order_reference = none;
}

abbrev part : Part
part = record {
  hash = some hash;
  status = some Event.completed;
  invoice = none;
  custom_data = some custom;
  token = some 555;
  receipt_identifier = none;
}

abbrev payload : Payload
payload = record {
  data_part = some part;
  top = part;
  event = none;
  name = none;
  entity = none;
  transaction = none;
  id = none;
}

abbrev call : Call
call = record { raw_body = 123 ∷ 125 ∷ []; signature_header = none; payload = payload }

verify_any_body_example : verify_webhook_signature digest hmac hmac (1 ∷ 2 ∷ []) hash key ≡ true
unfolding to_hex trim
verify_any_body_example =
    verify_any_body digest hmac hmac (1 ∷ 2 ∷ []) hash key 171 (3 ∷ [])
      (omega arith, (omega arith, tt)) refl refl

handle_webhook-IsSignature_example :
    (k s : Text) × (master_key (some key) none ≡ some k)
    × (is_empty (trim k) ≡ false)
    × (signature_of call ≡ some s)
    × IsSignature digest hmac hmac call.raw_body s k
unfolding handle_webhook ◌+ℤ◌ ◌*ℕ◌
handle_webhook-IsSignature_example =
    handle_webhook-IsSignature digest hmac hmac tag to_cents (some key) none call 7 90 db
      order_paid_success refl

answer_event_replay_example :
    answer_event digest hmac hmac tag to_cents
      (some 555)
      payload
      3000
      91
      (after (answer_event digest hmac hmac tag to_cents (some 555) payload 7 90) db)
    ≡ (
      ok order_paid_success,
      after (answer_event digest hmac hmac tag to_cents (some 555) payload 7 90) db,
    )
unfolding answer_event get_record ◌+ℤ◌ ◌*ℕ◌
answer_event_replay_example =
    answer_event_replay digest hmac hmac tag to_cents 555 7 90 3000 91 payload payload db
      order_paid_success refl refl (omega arith)
