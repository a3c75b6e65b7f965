-- ===== src/Idempotency/Laws.antt =====
-- What a key gives back, and for how long.
use afrique_os.Common.{
  ℕ, ◌+◌, ◌*◌, ◌≤◌, ◌<◌, ◌≡◌, refl, not, none, some, List, [], ◌∷◌, arith, inl, inr, Option-cases,
  ==_refl, ==→eq, ◌∙◌,
}
use afrique_os.Common.Tables.{
  find_first, find_many, find_first-update_many, any-find_first, find_first-test,
}
use afrique_os.Database.Rows.{Body, IdempotencyKey, Db}
use afrique_os.Database.Action.{ok, outcome, after}
use afrique_os.Idempotency.{get_record, save_record, upsert_key, has_key, fresh_record, delete_key}

-- The row that a key has after an upsert: the old one's path is kept, all else is new.
abbrev Upserted : (row : IdempotencyKey) (keys : List IdempotencyKey) → Type 0
Upserted row keys =
    (r : IdempotencyKey) × (find_first (has_key row.key) (upsert_key row keys) ≡ some r)
    × (r.key ≡ row.key)
    × (r.status_code ≡ row.status_code)
    × (r.body ≡ row.body)
    × (r.expires_at ≡ row.expires_at)

find_first-upsert_key : (row : IdempotencyKey) (keys : List IdempotencyKey) → Upserted row keys
unfolding upsert_key
find_first-upsert_key row keys = elim (Option-cases (find_first (has_key row.key) keys)) [
  | inl e ↦ (
    row,
    rw (any-find_first (has_key row.key) keys, e) (rw (==_refl row.key)),
    refl,
    refl,
    refl,
    refl,
  )
  | inr (k, e) ↦ (
    record k { status_code = row.status_code; body = row.body; expires_at = row.expires_at },
    rw (any-find_first (has_key row.key) keys, e)
        (find_first-update_many (has_key row.key) (has_key row.key) _ keys (λ x. refl)
          ∙ rw (e, find_first-test (has_key row.key) keys e)),
    ==→eq k.key row.key (find_first-test (has_key row.key) keys e),
    refl,
    refl,
    refl,
  )
]

alive :
    (r : IdempotencyKey) (later : ℕ) (db : Db)
    → later ≤ r.expires_at
    → fresh_record (some r) later db
      ≡ (ok (some (record { status_code = r.status_code; body = r.body })), db)
unfolding fresh_record
alive r later db h = ground arith

dead :
    (r : IdempotencyKey) (later : ℕ) (db : Db)
    → r.expires_at < later
    → fresh_record (some r) later db ≡ (ok none, delete_key r.key db)
unfolding fresh_record
dead r later db h = ground arith

deleted :
    (key : ℕ) (keys : List IdempotencyKey)
    → find_first (has_key key) (find_many (λ k. not (has_key key k)) keys) ≡ none
deleted key [] = refl
deleted key (k ∷ keys) = ground (arith, deleted key keys)

module _ (key path other status ttl now later : ℕ) (body : Body) (db : Db) where
  abbrev row : IdempotencyKey
  row = record {
    key = key;
    path = path;
    status_code = status;
    body = body;
    expires_at = now + ttl * 1000;
  }

  -- What is saved under a key is given back, with its status, to every request with that key until
  -- the time to live has passed, whatever the path of the request, and the request changes nothing.
  pub get_record-save_record :
      later ≤ now + ttl * 1000
      → let saved = save_record (some key) path status body ttl now db in
        get_record (some key) other later saved
        ≡ (ok (some (record { status_code = status; body = body })), saved)
  unfolding get_record save_record
  get_record-save_record h =
      let (r, e, k, s, b, x) = find_first-upsert_key row db.keys in
      rw e (
        alive r later _ (omega (arith, x)) ∙ λ i. (
          ok (some (record { status_code = s i; body = b i })),
          save_record (some key) path status body ttl now db,
        ))

  -- After that time the key counts as none, and is deleted: no later request finds it.
  pub get_record_expired :
      now + ttl * 1000 < later
      → let saved = save_record (some key) path status body ttl now db in
        (outcome (get_record (some key) other later) saved ≡ ok none)
        × (find_first (has_key key) (after (get_record (some key) other later) saved).keys ≡ none)
  unfolding get_record save_record
  get_record_expired h =
      let (r, e, k, s, b, x) = find_first-upsert_key row db.keys in
      let gone =
        dead r later (save_record (some key) path status body ttl now db) (omega (arith, x)) in
      rw (outcome, after, e, gone) (refl, rw k (deleted key _))
