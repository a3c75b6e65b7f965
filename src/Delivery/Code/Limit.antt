-- ===== src/Delivery/Code/Limit.antt =====
-- How many codes are compared under the limit of backend/src/delivery/delivery.service.ts.
use afrique_os.Common.{
  ℕ, suc, ◌+◌, ◌≤◌, ◌<◌, ◌≡◌, refl, ap, ◌∙◌, Bool, true, false, none, some, List, [], ◌∷◌, arith,
  if◌then◌else◌, Bool-cases, inl, inr, ◌==◌, leb, All, length,
}
use afrique_os.Common.Tables.{find_first, count}
use afrique_os.Database.Rows.{Text, Shipment, Db}
use afrique_os.Database.Action.{Result, err, outcome, after, bad_request, forbidden}
use afrique_os.Delivery.Code.{
  verify_delivery_by_buyer_code, is_locked, lock_after, max_delivery_code_attempts,
  code_lockout_duration_ms,
}
use afrique_os.Delivery.Code.Lock.{
  Lock, wrong_guess, to_error, lock_of, with_lock, is_done, guesses, locks, IsWrong,
  verify_delivery_by_buyer_code-refines, guesses-locks, counted_guess, guess_locked, guess_free,
}

-- A guess within the quarter of an hour from `start`.
abbrev pub Within : ℕ → ℕ × Text → Type 0
Within start g = (start ≤ g.0) × (g.0 < start + code_lockout_duration_ms)

abbrev LockedBeyond : ℕ → Lock → Type 0
LockedBeyond start l = (t : ℕ) × (l.until ≡ some t) × (start + code_lockout_duration_ms ≤ t)

stays_locked :
    (start : ℕ) (gs : List (ℕ × Text)) (l : Lock)
    → All (Within start) gs
    → LockedBeyond start l
    → locks gs l ≡ l
stays_locked start [] l h k = refl
stays_locked start (g ∷ rest) l (here, h) (t, e, far) =
    let shut : is_locked g.0 l.until ≡ true = rw e (ground (arith, here.1, far)) in
    rw shut (stays_locked start rest l h (t, e, far))

-- The most that the attempts can come to in a quarter of an hour: up to the fifth, and then one.
abbrev pub most : ℕ → ℕ
most n = if leb max_delivery_code_attempts n then suc n else max_delivery_code_attempts

fifth_locks :
    (start now n : ℕ)
    → start ≤ now
    → leb max_delivery_code_attempts n ≡ true
    → (t : ℕ) × (lock_after now n ≡ some t) × (start + code_lockout_duration_ms ≤ t)
fifth_locks start now n h e = (now + code_lockout_duration_ms, rw e refl, omega arith)

locks-most :
    (start : ℕ) (gs : List (ℕ × Text)) (l : Lock)
    → All (Within start) gs
    → (locks gs l).attempts ≤ most l.attempts
locks-most start [] l h = ground arith
locks-most start (g ∷ rest) l (here, h) = elim (Bool-cases (is_locked g.0 l.until)) [
  | inl e ↦ rw (locks, guess_locked g.0 l e) (locks-most start rest l h)
  | inr e ↦ elim (Bool-cases (leb max_delivery_code_attempts (l.attempts + 1))) [
    | inl full ↦
        rw
          (
            locks,
            guess_free g.0 l e,
            stays_locked start rest (counted_guess g.0 l) h
                (fifth_locks start g.0 (l.attempts + 1) here.0 full),
          )
          (ground arith)
    | inr free ↦
        let below : most (l.attempts + 1) ≤ most l.attempts = ground arith in
        rw (locks, guess_free g.0 l e)
          (omega (arith, locks-most start rest (counted_guess g.0 l) h, below))
  ]
]

abbrev pub attempts_of : ℕ → Db → ℕ
attempts_of id db = elim (find_first (λ x. x.id == id) db.shipments) [
  | none ↦ 0
  | some s ↦ s.delivery_code_attempts
]

-- The answers to a run of guesses.
abbrev pub answers : (Text → ℕ) → ℕ → List (ℕ × Text) → Db → List (Result (Unit {0}))
answers digest id [] db = []
answers digest id (g ∷ rest) db =
    outcome (verify_delivery_by_buyer_code digest g.0 id g.1) db
    ∷ answers digest id rest (after (verify_delivery_by_buyer_code digest g.0 id g.1) db)

-- A wrong code that was compared is answered with 400, and one that was not with 403.
abbrev pub is_compared : Result (Unit {0}) → Bool
is_compared (err bad_request) = true
is_compared _ = false

abbrev pub is_refused : Result (Unit {0}) → Bool
is_refused (err forbidden) = true
is_refused _ = false

abbrev lock_answers : List (ℕ × Text) → Lock → List (Result (Unit {0}))
lock_answers [] l = []
lock_answers (g ∷ rest) l = to_error (wrong_guess g.0 l).0 ∷ lock_answers rest (wrong_guess g.0 l).1

answers-lock :
    (digest : Text → ℕ) (id hash : ℕ) (gs : List (ℕ × Text)) (db : Db) (s : Shipment)
    → find_first (λ x. x.id == id) db.shipments ≡ some s
    → is_done s ≡ false
    → s.delivery_code_hash ≡ some hash
    → All (IsWrong digest id hash) gs
    → answers digest id gs db ≡ lock_answers gs (lock_of s)
answers-lock digest id hash [] db s found done coded wrong = refl
answers-lock digest id hash (g ∷ rest) db s found done coded (here, wrong) =
    let (same, kept) =
      verify_delivery_by_buyer_code-refines digest id g.0 g.1 db s hash found done coded here in
    let others =
      answers-lock digest id hash rest (after (verify_delivery_by_buyer_code digest g.0 id g.1) db)
        (with_lock (wrong_guess g.0 (lock_of s)).1 s) kept done coded wrong in
    ap
      (λ r. r ∷ answers digest id rest (after (verify_delivery_by_buyer_code digest g.0 id g.1) db))
      same
    ∙ ap (λ t. to_error (wrong_guess g.0 (lock_of s)).0 ∷ t) others

locks-counted :
    (gs : List (ℕ × Text)) (l : Lock)
    → (locks gs l).attempts ≡ l.attempts + count is_compared (lock_answers gs l)
locks-counted [] l = omega arith
locks-counted (g ∷ rest) l = elim (Bool-cases (is_locked g.0 l.until)) [
  | inl e ↦ rw (locks, e) (locks-counted rest l)
  | inr e ↦ rw (locks, e) (omega (arith, locks-counted rest (counted_guess g.0 l)))
]

answers-length :
    (gs : List (ℕ × Text)) (l : Lock)
    → count is_compared (lock_answers gs l) + count is_refused (lock_answers gs l) ≡ length gs
answers-length [] l = refl
answers-length (g ∷ rest) l = elim (Bool-cases (is_locked g.0 l.until)) [
  | inl e ↦ rw e (omega (arith, answers-length rest l))
  | inr e ↦ rw e (omega (arith, answers-length rest (counted_guess g.0 l)))
]

-- Within any quarter of an hour, however many wrong codes are tried on a shipment that is not yet
-- delivered, each is answered with 400, the answer of one that was compared, or with 403, the answer of
-- one that was refused; the shipment's attempts grow by exactly the number of those answered with 400,
-- and come to five at the most, or to one more where there were five or more before.
pub guesses-attempts_of :
    (digest : Text → ℕ) (id hash start : ℕ) (gs : List (ℕ × Text)) (db : Db) (s : Shipment)
    → find_first (λ x. x.id == id) db.shipments ≡ some s
    → is_done s ≡ false
    → s.delivery_code_hash ≡ some hash
    → All (IsWrong digest id hash) gs
    → All (Within start) gs
    → (count is_compared (answers digest id gs db) + count is_refused (answers digest id gs db)
        ≡ length gs)
      × (attempts_of id (guesses digest id gs db)
          ≡ s.delivery_code_attempts + count is_compared (answers digest id gs db))
      × (s.delivery_code_attempts + count is_compared (answers digest id gs db)
          ≤ most s.delivery_code_attempts)
guesses-attempts_of digest id hash start gs db s found done coded wrong within =
    rw
      (
        attempts_of,
        guesses-locks digest id hash gs db s found done coded wrong,
        answers-lock digest id hash gs db s found done coded wrong,
      )
      (
        answers-length gs (lock_of s),
        locks-counted gs (lock_of s),
        omega (arith, locks-counted gs (lock_of s), locks-most start gs (lock_of s) within),
      )
