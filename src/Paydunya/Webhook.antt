-- ===== src/Paydunya/Webhook.antt =====
-- handleWebhook of backend/src/paydunya/paydunya.service.ts. The digests of node's `crypto` are
-- parameters, and so is the text `paydunya_webhook_…` that a token makes, on the numbers that stand
-- for texts. The body is taken as JSON.parse gives it, with the fields that the method reads.
pub mod Laws
use afrique_os.Common.{
  ℕ, ◌+◌, ◌*◌, Bool, true, false, ◌&&◌, ◌||◌, not, Option, none, some, List, [], ◌∷◌, if◌then◌else◌,
  ◌==◌,
}
use afrique_os.Common.Int.{ℤ}
use afrique_os.Common.Text.{trim, is_empty}
use afrique_os.Database.Enums.{Plan}
use afrique_os.Database.Rows.{Text, Order, Body, ignored, subscription_activated, Db}
use afrique_os.Database.Action.{
  Action, Result, ok, err, pure, gets, throw, throw_if, modify, ◌>>=◌, ◌>>◌, bad_request,
}
use afrique_os.Idempotency.{SavedRecord, get_record, save_record}
use afrique_os.Paydunya.Signature.{starts_with, verify_webhook_signature}
use afrique_os.Paydunya.Settle.{settle_subscription, settle_paid_order}

-- The values of `status` that the method compares with.
pub data Event : Type 0 where
  completed invoice_completed transaction_approved transaction_paid approved other_event : Event

pub record CustomData : Type 0 where
  pub is_subscription : Bool
  pub user_id : Option ℕ
  pub plan_slug : Option Plan
  pub order_id : Option ℕ
  pub order_reference : Option ℕ

pub record Invoice : Type 0 where
  pub token : Option ℕ
  pub id : Option ℕ
  pub reference_id : Option ℕ
  pub reference : Option ℕ
  pub custom_data : Option CustomData
  pub custom_metadata : Option CustomData

-- The fields that the body itself and its `data` have in common.
pub record Part : Type 0 where
  pub hash : Option Text
  pub status : Option Event
  pub invoice : Option Invoice
  pub custom_data : Option CustomData
  pub token : Option ℕ
  pub receipt_identifier : Option ℕ

pub record Payload : Type 0 where
  pub data_part : Option Part
  pub top : Part
  pub event : Option Event
  pub name : Option Event
  pub entity : Option Invoice
  pub transaction : Option Invoice
  pub id : Option ℕ

-- A request as it arrives: the raw text, the header, the parsed body.
pub record Call : Type 0 where
  pub raw_body : Text
  pub signature_header : Option Text
  pub payload : Payload

infixr 20 ◌or_else◌
abbrev pub ◌or_else◌ {ℓ} : {A : Type ℓ} → Option A → Option A → Option A
none or_else b = b
some a or_else b = some a

abbrev or_default {ℓ} : {A : Type ℓ} → Option A → A → A
or_default none d = d
or_default (some a) d = a

abbrev empty_custom : CustomData
empty_custom = record {
  is_subscription = false;
  user_id = none;
  plan_slug = none;
  order_id = none;
  order_reference = none;
}

abbrev empty_invoice : Invoice
empty_invoice = record {
  token = none;
  id = none;
  reference_id = none;
  reference = none;
  custom_data = none;
  custom_metadata = none;
}

abbrev pub ipn_of : Payload → Part
ipn_of p = or_default p.data_part p.top

abbrev pub signature_of : Call → Option Text
signature_of c = c.signature_header or_else (ipn_of c.payload).hash or_else c.payload.top.hash

abbrev pub status_of : Payload → Option Event
status_of p = (ipn_of p).status or_else p.top.status or_else p.event or_else p.name

abbrev pub invoice_of : Payload → Invoice
invoice_of p = or_default ((ipn_of p).invoice or_else p.entity or_else p.transaction) empty_invoice

abbrev pub custom_of : Payload → CustomData
custom_of p =
    or_default
      ((ipn_of p).custom_data
        or_else (invoice_of p).custom_data
        or_else (invoice_of p).custom_metadata
        or_else p.top.custom_data)
      empty_custom

abbrev pub event_id_of : Payload → Option ℕ
event_id_of p =
    (invoice_of p).token
    or_else (ipn_of p).token
    or_else p.id
    or_else (invoice_of p).id
    or_else (ipn_of p).receipt_identifier

abbrev pub is_completed : Option Event → Bool
is_completed none = false
is_completed (some Event.other_event) = false
is_completed (some _) = true

unfoldable pub includes : Text → Text → Bool
unfolding starts_with
includes part [] = starts_with part []
includes part (c ∷ t) = starts_with part (c ∷ t) || includes part t

-- `YOUR_`
abbrev placeholder : Text
placeholder = 89 ∷ 79 ∷ 85 ∷ 82 ∷ 95 ∷ []

-- A key that is missing, blank or a placeholder counts as none.
unfoldable pub usable_key : Option Text → Option Text
unfolding includes trim
usable_key none = none
usable_key (some key) =
    if is_empty key || is_empty (trim key) || includes placeholder key then none else some key

-- `a || b` of the two settings.
abbrev pub master_key : Option Text → Option Text → Option Text
master_key none secret = secret
master_key (some key) secret = if is_empty key then secret else some key

unfoldable pub webhook_path : ℕ
webhook_path = 2

module _ (sha512 : Text → List ℕ) (hmac256 hmac512 : Text → Text → List ℕ) (webhook_key : ℕ → ℕ)
    (to_fixed : ℤ → ℕ → ℤ) where
  -- The configured key, the signature that came, and its verification.
  unfoldable pub is_authentic : Option Text → Call → Bool
  unfolding verify_webhook_signature
  is_authentic none c = false
  is_authentic (some key) c = elim (signature_of c) [
    | none ↦ false
    | some s ↦ not (is_empty s) && verify_webhook_signature sha512 hmac256 hmac512 c.raw_body s key
  ]

  settled_status : Option Body → Body
  settled_status none = ignored
  settled_status (some status) = status

  settle_order : Option ℕ → Option ℕ → ℕ → ℕ → ℕ → Action Body
  unfolding settle_paid_order settled_status
  settle_order none none event now new_id = pure ignored
  settle_order id reference event now new_id = do
    status ← settle_paid_order to_fixed id reference event now new_id
    pure (settled_status status)

  abbrev settle_custom : CustomData → Invoice → ℕ → ℕ → ℕ → Action Body
  settle_custom custom invoice event now new_id =
      settle_order (custom.order_id or_else invoice.reference_id)
        (custom.order_reference or_else invoice.reference) event now new_id

  abbrev settle_plan : Option ℕ → Option Plan → ℕ → Action Body → Action Body
  settle_plan (some user) (some slug) now otherwise =
      modify (settle_subscription user slug now) >> pure subscription_activated
  settle_plan _ _ now otherwise = otherwise

  unfoldable pub settle_event : Payload → ℕ → ℕ → ℕ → Action Body
  unfolding settle_subscription settle_order
  settle_event p event now new_id =
      if is_completed (status_of p)
      then (if (custom_of p).is_subscription
          then settle_plan (custom_of p).user_id (custom_of p).plan_slug now
              (settle_custom (custom_of p) (invoice_of p) event now new_id)
          else settle_custom (custom_of p) (invoice_of p) event now new_id)
      else pure ignored

  unfoldable pub answer_once : Option SavedRecord → Payload → ℕ → ℕ → ℕ → Action Body
  unfolding settle_event save_record
  answer_once (some saved) p event now new_id = pure saved.body
  answer_once none p event now new_id = do
    result ← settle_event p event now new_id
    modify (save_record (some (webhook_key event)) webhook_path 200 result 86400 now)
    pure result

  unfoldable pub answer_event : Option ℕ → Payload → ℕ → ℕ → Action Body
  unfolding answer_once get_record
  answer_event none p now new_id = throw bad_request
  answer_event (some event) p now new_id = do
    cached ← get_record (some (webhook_key event)) webhook_path now
    answer_once cached p event now new_id

  unfoldable pub handle_webhook : Option Text → Option Text → Call → ℕ → ℕ → Action Body
  unfolding usable_key is_authentic answer_event
  handle_webhook key secret c now new_id = do
    throw_if (not (is_authentic (usable_key (master_key key secret)) c)) bad_request
    answer_event (event_id_of c.payload) c.payload now new_id
