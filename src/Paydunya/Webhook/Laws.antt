-- ===== src/Paydunya/Webhook/Laws.antt =====
-- What a call of the webhook that is answered shows, and what the same call gives again.
use afrique_os.Common.{
  ℕ, ◌+◌, ◌*◌, ◌≤◌, ◌≡◌, refl, Bool, true, false, ◌&&◌, ◌||◌, not, Option, none, some, List,
  if◌then◌else◌, arith, Bool-cases, inl, inr, ◌∙◌, ap, sym,
}
use mathlib.Core.Path.{subst}
use afrique_os.Common.Int.{ℤ}
use afrique_os.Common.Text.{trim, is_empty}
use afrique_os.Database.Rows.{Text, Body, Db}
use afrique_os.Database.Action.{
  Action, Result, ok, err, pure, outcome, after, modify, continue, ◌>>◌,
}
use afrique_os.Idempotency.{SavedRecord, get_record, save_record}
use afrique_os.Idempotency.Laws.{get_record-save_record}
use afrique_os.Paydunya.Signature.{verify_webhook_signature}
use afrique_os.Paydunya.Signature.Sound.{IsSignature, verify-IsSignature}
use afrique_os.Paydunya.Webhook.{
  Payload, Call, signature_of, usable_key, master_key, is_authentic, webhook_path, settle_event,
  answer_once, answer_event, handle_webhook,
}

kept_text : (b : Bool) (t u : Text) → (if b then none else some t) ≡ some u → (b ≡ false) × (t ≡ u)
kept_text true t u h = cc
kept_text false t u h = (refl, cc)

second_false : (a b c : Bool) → (a || b || c) ≡ false → b ≡ false
second_false a b c h = ground arith

module _ (sha512 : Text → List ℕ) (hmac256 hmac512 : Text → Text → List ℕ) (webhook_key : ℕ → ℕ)
    (to_fixed : ℤ → ℕ → ℤ) where
  authentic-IsSignature :
      (key : Option Text) (c : Call)
      → is_authentic sha512 hmac256 hmac512 webhook_key to_fixed key c ≡ true
      → (k s : Text) × (key ≡ some k)
        × (signature_of c ≡ some s)
        × IsSignature sha512 hmac256 hmac512 c.raw_body s k
  unfolding is_authentic
  authentic-IsSignature none c h = cc
  authentic-IsSignature (some k) c h = by_signature (signature_of c) refl h
    where
      by_signature :
          (found : Option Text)
          → signature_of c ≡ found
          → elim found [
            | none ↦ false
            | some s ↦
                not (is_empty s) && verify_webhook_signature sha512 hmac256 hmac512 c.raw_body s k
          ]
            ≡ true
          → (k' s : Text) × (some k ≡ some k')
            × (signature_of c ≡ some s)
            × IsSignature sha512 hmac256 hmac512 c.raw_body s k'
      by_signature none e h = cc
      by_signature (some s) e h =
          (k, s, refl, e, verify-IsSignature sha512 hmac256 hmac512 c.raw_body s k (ground arith))

  usable_key-some :
      (configured : Option Text) (k : Text)
      → usable_key configured ≡ some k
      → (configured ≡ some k) × (is_empty (trim k) ≡ false)
  unfolding usable_key
  usable_key-some none k h = cc
  usable_key-some (some k') k h =
      let (off, same) = kept_text _ k' k h in
      (ap some same, ap (λ t. is_empty (trim t)) (sym same) ∙ second_false _ _ _ off)

  module _ (key secret : Option Text) (c : Call) (now new_id : ℕ) (db : Db) where
    abbrev handle : Action Body
    handle = handle_webhook sha512 hmac256 hmac512 webhook_key to_fixed key secret c now new_id

    -- A call is answered only where a master key is configured that is not blank, and the call
    -- brings a signature of its raw body, or of the key alone, under that key.
    pub handle_webhook-IsSignature :
        (body : Body)
        → outcome handle db ≡ ok body
        → (k s : Text) × (master_key key secret ≡ some k)
          × (is_empty (trim k) ≡ false)
          × (signature_of c ≡ some s)
          × IsSignature sha512 hmac256 hmac512 c.raw_body s k
    unfolding handle_webhook
    handle_webhook-IsSignature body h =
        elim (Bool-cases (
          is_authentic sha512 hmac256 hmac512 webhook_key to_fixed
            (usable_key (master_key key secret)) c)) [
              | inr e ↦ cc (rw e at h)
              | inl e ↦
                  let (k, s, configured, signed, valid) = authentic-IsSignature _ c e in
                  let (same, full) = usable_key-some (master_key key secret) k configured in
                  (k, s, same, full, signed, valid)
            ]

  abbrev keep_answer : ℕ → ℕ → Body → Action Body
  keep_answer event now result =
      modify (save_record (some (webhook_key event)) webhook_path 200 result 86400 now)
      >> pure result

  kept :
      (event now : ℕ) (r : Result Body × Db) (body : Body)
      → (continue r (keep_answer event now)).0 ≡ ok body
      → (d : Db) × ((continue r (keep_answer event now)).1
          ≡ save_record (some (webhook_key event)) webhook_path 200 body 86400 now d)
  kept event now (ok b, d) body h = (
    d,
    ap (λ x. save_record (some (webhook_key event)) webhook_path 200 x 86400 now d)
        (let same : b ≡ body = cc in same),
  )
  kept event now (err e, d) body h = cc

  abbrev answer : ℕ → Payload → ℕ → ℕ → Action Body
  answer event = answer_event sha512 hmac256 hmac512 webhook_key to_fixed (some event)

  answered_by :
      (event now new_id : ℕ) (p : Payload) (r : Result (Option SavedRecord) × Db) (body : Body)
      → r.0 ≡ ok none
      → (continue r
          (λ c. answer_once sha512 hmac256 hmac512 webhook_key to_fixed c p event now new_id)).0
        ≡ ok body
      → (d : Db) × ((continue r
            (λ c. answer_once sha512 hmac256 hmac512 webhook_key to_fixed c p event now new_id)).1
          ≡ save_record (some (webhook_key event)) webhook_path 200 body 86400 now d)
  unfolding answer_once
  answered_by event now new_id p (ok none, d) body e =
      kept event now (settle_event sha512 hmac256 hmac512 webhook_key to_fixed p event now new_id d)
        body
  answered_by event now new_id p (ok (some saved), d) body e = cc
  answered_by event now new_id p (err x, d) body e = cc

  replayed :
      (event now later new_id : ℕ) (p : Payload) (d answered : Db) (body : Body)
      → later ≤ now + 86400 * 1000
      → answered ≡ save_record (some (webhook_key event)) webhook_path 200 body 86400 now d
      → answer event p later new_id answered ≡ (ok body, answered)
  unfolding answer_event answer_once
  replayed event now later new_id p d answered body t e =
      subst
        (λ x.
          continue (get_record (some (webhook_key event)) webhook_path later x)
            (λ c. answer_once sha512 hmac256 hmac512 webhook_key to_fixed c p event later new_id)
          ≡ (ok body, x))
        (sym e)
        (rw
          (get_record-save_record (webhook_key event) webhook_path webhook_path 200 86400 now later
            body d t)
          refl)

  -- Once a new token has been answered, a call for the same token that comes within a day gets the
  -- same answer again, whatever else it says, and changes nothing.
  pub answer_event_replay :
      (event now new_id later new_id' : ℕ) (p p' : Payload) (db : Db) (body : Body)
      → outcome (get_record (some (webhook_key event)) webhook_path now) db ≡ ok none
      → outcome
          (answer_event sha512 hmac256 hmac512 webhook_key to_fixed (some event) p now new_id)
          db
        ≡ ok body
      → later ≤ now + 86400 * 1000
      → let answered =
          after
            (answer_event sha512 hmac256 hmac512 webhook_key to_fixed (some event) p now new_id)
            db in
        answer_event sha512 hmac256 hmac512 webhook_key to_fixed
          (some event)
          p'
          later
          new_id'
          answered
        ≡ (ok body, answered)
  unfolding answer_event
  answer_event_replay event now new_id later new_id' p p' db body fresh h t =
      let (d, e) =
        answered_by event now new_id p (get_record (some (webhook_key event)) webhook_path now db)
          body fresh h in
      replayed event now later new_id' p' d (after (answer event p now new_id) db) body t e
