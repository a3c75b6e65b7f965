-- ===== src/Delivery/Code/Lock.antt =====
-- The limit on wrong codes in backend/src/delivery/delivery.service.ts, as a lock of its own.
use afrique_os.Common.{
  ℕ, ◌+◌, ◌≤◌, ◌≡◌, refl, ap, ◌∙◌, Bool, true, false, ◌||◌, Option, none, some, List, [], ◌∷◌,
  arith, if◌then◌else◌, Bool-cases, inl, inr, ◌==◌, ==→eq, leb, any, All,
}
use afrique_os.Common.Tables.{
  find_first, update_many, find_first-updated, find_first-test, any-find_first, is_some,
}
use afrique_os.Database.Enums.{is_delivered_verified, is_buyer_accepted}
use afrique_os.Database.Rows.{Text, Shipment, Db}
use afrique_os.Database.Action.{Result, err, outcome, after, bad_request, forbidden}
use afrique_os.Delivery.Tokens.{hash_token_or_code}
use afrique_os.Delivery.Finalize.{finalize_verified_delivery}
use afrique_os.Delivery.Code.{
  verify_delivery_by_buyer_code, compare_code, count_wrong, is_locked, lock_after,
  max_delivery_code_attempts, code_lockout_duration_ms,
}

-- The lock: how often a wrong code was given, and until when none is taken.
pub record Lock : Type 0 where
  pub attempts : ℕ
  pub until : Option ℕ

pub data Answer : Type 0 where
  refused counted : Answer

abbrev pub wrong_guess : ℕ → Lock → Answer × Lock
wrong_guess now l = if is_locked now l.until then (Answer.refused, l) else (
  Answer.counted,
  record { attempts = l.attempts + 1; until = lock_after now (l.attempts + 1) },
)

abbrev pub to_error : Answer → Result (Unit {0})
to_error Answer.refused = err forbidden
to_error Answer.counted = err bad_request

abbrev pub lock_of : Shipment → Lock
lock_of s = record { attempts = s.delivery_code_attempts; until = s.delivery_code_locked_until }

abbrev pub with_lock : Lock → Shipment → Shipment
with_lock l s = record s {
  delivery_code_attempts = l.attempts;
  delivery_code_locked_until = l.until;
}

abbrev pub is_done : Shipment → Bool
is_done s = is_delivered_verified s.status || is_buyer_accepted s.status

compare_code-wrong :
    (digest : Text → ℕ) (now : ℕ) (code : Text) (db : Db) (s : Shipment) (hash : ℕ)
    → (hash_token_or_code digest code == hash) ≡ false
    → any (λ x. x.id == s.id) db.shipments ≡ true
    → compare_code digest now code s hash db ≡ (
      err bad_request,
      record db { shipments = update_many (λ x. x.id == s.id) (count_wrong now s) db.shipments },
    )
unfolding compare_code
compare_code-wrong digest now code db s hash wrong there = rw (wrong, there) refl

compare_code-right :
    (digest : Text → ℕ) (now : ℕ) (code : Text) (db : Db) (s : Shipment) (hash : ℕ)
    → (hash_token_or_code digest code == hash) ≡ true
    → compare_code digest now code s hash db ≡ finalize_verified_delivery now s.id db
unfolding compare_code
compare_code-right digest now code db s hash fits = rw fits refl

module _ (digest : Text → ℕ) (id : ℕ) where
  pub reaches_comparison :
      (now : ℕ) (code : Text) (db : Db) (s : Shipment) (hash : ℕ)
      → find_first (λ x. x.id == id) db.shipments ≡ some s
      → is_done s ≡ false
      → s.delivery_code_hash ≡ some hash
      → is_locked now s.delivery_code_locked_until ≡ false
      → verify_delivery_by_buyer_code digest now id code db ≡ compare_code digest now code s hash db
  unfolding verify_delivery_by_buyer_code
  reaches_comparison now code db s hash found done coded free = rw (found, done, free, coded) refl

  wrong_step :
      (now : ℕ) (code : Text) (db : Db) (s : Shipment) (hash : ℕ)
      → find_first (λ x. x.id == id) db.shipments ≡ some s
      → is_done s ≡ false
      → s.delivery_code_hash ≡ some hash
      → (hash_token_or_code digest code == hash) ≡ false
      → is_locked now s.delivery_code_locked_until ≡ false
      → verify_delivery_by_buyer_code digest now id code db ≡ (
        err bad_request,
        record db { shipments = update_many (λ x. x.id == id) (count_wrong now s) db.shipments },
      )
  wrong_step now code db s hash found done coded wrong free =
      let own : s.id ≡ id = ==→eq s.id id (find_first-test (λ x. x.id == id) db.shipments found) in
      let there = any-find_first (λ x. x.id == id) db.shipments ∙ ap is_some found in
      reaches_comparison now code db s hash found done coded free
      ∙ compare_code-wrong digest now code db s hash wrong
          (ap (λ n. any (λ x. x.id == n) db.shipments) own ∙ there)
      ∙ ap
          (λ n. (
            err bad_request,
            record db { shipments = update_many (λ x. x.id == n) (count_wrong now s) db.shipments },
          ))
          own

  locked_step :
      (now : ℕ) (code : Text) (db : Db) (s : Shipment)
      → find_first (λ x. x.id == id) db.shipments ≡ some s
      → is_done s ≡ false
      → is_locked now s.delivery_code_locked_until ≡ true
      → verify_delivery_by_buyer_code digest now id code db ≡ (err forbidden, db)
  unfolding verify_delivery_by_buyer_code compare_code
  locked_step now code db s found done locked = rw (found, done, locked) refl

  -- The check of a wrong code is the lock's step: the answer is the lock's answer, and the shipment is
  -- kept but for its lock.
  pub verify_delivery_by_buyer_code-refines :
      (now : ℕ) (code : Text) (db : Db) (s : Shipment) (hash : ℕ)
      → find_first (λ x. x.id == id) db.shipments ≡ some s
      → is_done s ≡ false
      → s.delivery_code_hash ≡ some hash
      → (hash_token_or_code digest code == hash) ≡ false
      → (outcome (verify_delivery_by_buyer_code digest now id code) db
          ≡ to_error (wrong_guess now (lock_of s)).0)
        × (find_first
              (λ x. x.id == id)
              (after (verify_delivery_by_buyer_code digest now id code) db).shipments
            ≡ some (with_lock (wrong_guess now (lock_of s)).1 s))
  verify_delivery_by_buyer_code-refines now code db s hash found done coded wrong =
      elim (Bool-cases (is_locked now s.delivery_code_locked_until)) [
        | inl e ↦ rw (outcome, after, locked_step now code db s found done e, e) (refl, found)
        | inr e ↦
            rw (outcome, after, wrong_step now code db s hash found done coded wrong e, e)
              (
                refl,
                find_first-updated (λ x. x.id == id) (count_wrong now s) db.shipments (λ x. refl)
                    found,
              )
      ]

-- A run of guesses: when each was made, and what it was.
abbrev pub guesses : (Text → ℕ) → ℕ → List (ℕ × Text) → Db → Db
guesses digest id [] db = db
guesses digest id (g ∷ rest) db =
    guesses digest id rest (after (verify_delivery_by_buyer_code digest g.0 id g.1) db)

abbrev pub locks : List (ℕ × Text) → Lock → Lock
locks [] l = l
locks (g ∷ rest) l = locks rest (wrong_guess g.0 l).1

module _ (digest : Text → ℕ) (id hash : ℕ) where
  -- A guess that is wrong.
  abbrev pub IsWrong : ℕ × Text → Type 0
  IsWrong g = (hash_token_or_code digest g.1 == hash) ≡ false

  pub guesses-locks :
      (gs : List (ℕ × Text)) (db : Db) (s : Shipment)
      → find_first (λ x. x.id == id) db.shipments ≡ some s
      → is_done s ≡ false
      → s.delivery_code_hash ≡ some hash
      → All IsWrong gs
      → find_first (λ x. x.id == id) (guesses digest id gs db).shipments
        ≡ some (with_lock (locks gs (lock_of s)) s)
  guesses-locks [] db s found done coded wrong = found
  guesses-locks (g ∷ rest) db s found done coded (here, wrong) =
      guesses-locks rest (after (verify_delivery_by_buyer_code digest g.0 id g.1) db)
        (with_lock (wrong_guess g.0 (lock_of s)).1 s)
        (verify_delivery_by_buyer_code-refines digest id g.0 g.1 db s hash found done coded here).1
        done coded wrong

abbrev pub counted_guess : ℕ → Lock → Lock
counted_guess now l = record { attempts = l.attempts + 1; until = lock_after now (l.attempts + 1) }

pub guess_locked : (now : ℕ) (l : Lock) → is_locked now l.until ≡ true → (wrong_guess now l).1 ≡ l
guess_locked now l e = rw e refl

pub guess_free :
    (now : ℕ) (l : Lock)
    → is_locked now l.until ≡ false
    → (wrong_guess now l).1 ≡ counted_guess now l
guess_free now l e = rw e refl

abbrev pub Until : ℕ → ℕ × Text → Type 0
Until last g = g.0 ≤ last

-- The lock, where there is one, ends a quarter of an hour after `last` at the latest.
abbrev pub EndsBy : ℕ → Option ℕ → Type 0
EndsBy last none = Unit
EndsBy last (some t) = t ≤ last + code_lockout_duration_ms

lock_after-EndsBy : (last now n : ℕ) → now ≤ last → EndsBy last (lock_after now n)
lock_after-EndsBy last now n h = elim (Bool-cases (leb max_delivery_code_attempts n)) [
  | inl e ↦ rw e (omega arith)
  | inr e ↦ rw e tt
]

locks-EndsBy :
    (last : ℕ) (gs : List (ℕ × Text)) (l : Lock)
    → All (Until last) gs
    → EndsBy last l.until
    → EndsBy last (locks gs l).until
locks-EndsBy last [] l h k = k
locks-EndsBy last (g ∷ rest) l (here, h) k = elim (Bool-cases (is_locked g.0 l.until)) [
  | inl e ↦ rw (locks, guess_locked g.0 l e) (locks-EndsBy last rest l h k)
  | inr e ↦
      rw (locks, guess_free g.0 l e)
        (locks-EndsBy last rest (counted_guess g.0 l) h
          (lock_after-EndsBy last g.0 (l.attempts + 1) here))
]

ended :
    (last now : ℕ) (o : Option ℕ)
    → EndsBy last o
    → last + code_lockout_duration_ms ≤ now
    → is_locked now o ≡ false
ended last now none h k = refl
ended last now (some t) h k = ground arith

-- Wrong guesses never shut the buyer out for good: however many were made up to some time, from a
-- quarter of an hour later on the right code is taken, and the delivery is finalized, whatever the
-- code's own time of expiry says.
pub guesses-opens :
    (digest : Text → ℕ) (id hash last now : ℕ) (right : Text) (gs : List (ℕ × Text)) (db : Db)
    (s : Shipment)
    → find_first (λ x. x.id == id) db.shipments ≡ some s
    → is_done s ≡ false
    → s.delivery_code_hash ≡ some hash
    → EndsBy last s.delivery_code_locked_until
    → All (IsWrong digest id hash) gs
    → All (Until last) gs
    → (hash_token_or_code digest right == hash) ≡ true
    → last + code_lockout_duration_ms ≤ now
    → verify_delivery_by_buyer_code digest now id right (guesses digest id gs db)
      ≡ finalize_verified_delivery now id (guesses digest id gs db)
guesses-opens digest id hash last now right gs db s found done coded ends wrong early fits late =
    let own : s.id ≡ id = ==→eq s.id id (find_first-test (λ x. x.id == id) db.shipments found) in
    reaches_comparison digest id now right (guesses digest id gs db)
      (with_lock (locks gs (lock_of s)) s) hash
      (guesses-locks digest id hash gs db s found done coded wrong) done coded
      (ended last now (locks gs (lock_of s)).until (locks-EndsBy last gs (lock_of s) early ends)
        late)
    ∙ compare_code-right digest now right (guesses digest id gs db)
        (with_lock (locks gs (lock_of s)) s) hash fits
    ∙ ap (λ n. finalize_verified_delivery now n (guesses digest id gs db)) own
