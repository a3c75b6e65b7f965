-- ===== src/Idempotency.antt =====
-- backend/src/common/services/idempotency.service.ts. A key of `none` is the empty or missing key.
pub mod Laws
use afrique_os.Common.{
  ℕ, ◌+◌, ◌*◌, Bool, true, false, not, Option, none, some, List, [], ◌∷◌, if◌then◌else◌, ◌==◌, ltb,
  any,
}
use afrique_os.Common.Tables.{find_first, find_many, update_many}
use afrique_os.Database.Rows.{Body, IdempotencyKey, Db}
use afrique_os.Database.Action.{Action, ok, err, pure}

pub record SavedRecord : Type 0 where
  pub status_code : ℕ
  pub body : Body

abbrev pub has_key : ℕ → IdempotencyKey → Bool
has_key key k = k.key == key

abbrev pub delete_key : ℕ → Db → Db
delete_key key db = record db { keys = find_many (λ k. not (has_key key k)) db.keys }

-- An expired key is deleted and counts as none.
unfoldable pub fresh_record : Option IdempotencyKey → ℕ → Action (Option SavedRecord)
fresh_record none now db = (ok none, db)
fresh_record (some r) now db =
    if ltb r.expires_at now
    then (ok none, delete_key r.key db)
    else (ok (some (record { status_code = r.status_code; body = r.body })), db)

-- The path is logged only.
unfoldable pub get_record : Option ℕ → ℕ → ℕ → Action (Option SavedRecord)
unfolding fresh_record
get_record none path now db = (ok none, db)
get_record (some key) path now db = fresh_record (find_first (has_key key) db.keys) now db

-- `upsert`: the path of a key that is there already stays.
unfoldable pub upsert_key : IdempotencyKey → List IdempotencyKey → List IdempotencyKey
upsert_key row keys =
    if any (has_key row.key) keys
    then update_many (has_key row.key)
        (λ k. record k {
          status_code = row.status_code;
          body = row.body;
          expires_at = row.expires_at;
        })
        keys
    else row ∷ keys

unfoldable pub save_record : Option ℕ → ℕ → ℕ → Body → ℕ → ℕ → Db → Db
unfolding upsert_key
save_record none path status body ttl_seconds now db = db
save_record (some key) path status body ttl_seconds now db = record db {
  keys =
      upsert_key
        (record {
          key = key;
          path = path;
          status_code = status;
          body = body;
          expires_at = now + ttl_seconds * 1000;
        })
        db.keys;
}
