-- ===== src/Database/Action.antt =====
-- A service's method: it reads and writes the database and may throw. What was written before a
-- throw stays written, but for a $transaction, which is rolled back whole.
use afrique_os.Common.{Bool, true, false, Option, none, some, ◌≡◌, refl, sym, ap, ◌∙◌, arith}
use afrique_os.Database.Rows.{Db}

-- The HTTP exceptions of NestJS by their class; `record_missing` is the database client's own error
-- where an `update` or an `…OrThrow` finds no row.
pub data HttpError : Type 0 where
  bad_request unauthorized forbidden not_found conflict record_missing : HttpError

pub data Result (A : Type 0) : Type 0 where
  ok : A → Result A
  err : HttpError → Result A

abbrev pub Action : Type 0 → Type 0
Action A = Db → Result A × Db

module _ {A : Type 0} where
  abbrev pub pure : A → Action A
  pure a db = (ok a, db)

  abbrev pub throw : HttpError → Action A
  throw e db = (err e, db)

  abbrev pub gets : (Db → A) → Action A
  gets f db = (ok (f db), db)

  abbrev pub or_throw : Option A → HttpError → Action A
  or_throw none e = throw e
  or_throw (some a) e = pure a

  abbrev pub roll_back : Db → Result A × Db → Result A × Db
  roll_back db (ok a, db') = (ok a, db')
  roll_back db (err e, db') = (err e, db)

  abbrev pub transaction : Action A → Action A
  transaction m db = roll_back db (m db)

-- What follows a step is run on what the step left; a throw ends the call.
abbrev pub continue : {A B : Type 0} → Result A × Db → (A → Action B) → Result B × Db
continue (ok a, db) f = f a db
continue (err e, db) f = (err e, db)

infixl 5 ◌>>=◌ ◌>>◌
abbrev pub ◌>>=◌ : {A B : Type 0} → Action A → (A → Action B) → Action B
◌>>=◌ m f db = continue (m db) f

abbrev pub ◌>>◌ : {A B : Type 0} → Action A → Action B → Action B
m >> k = m >>= λ _. k

abbrev pub throw_if : Bool → HttpError → Action (Unit {0})
throw_if true e = throw e
throw_if false e = pure tt

abbrev pub modify : (Db → Db) → Action (Unit {0})
modify f db = (ok tt, f db)

-- The database after a call, and what the call gave.
abbrev pub after : {A : Type 0} → Action A → Db → Db
after m db = (m db).1

abbrev pub outcome : {A : Type 0} → Action A → Db → Result A
outcome m db = (m db).0

-- A transaction that throws leaves the database as it was.
pub transaction_atomic :
    {A : Type 0} (m : Action A) (db : Db) {e : HttpError}
    → outcome (transaction m) db ≡ err e
    → after (transaction m) db ≡ db
transaction_atomic m db h = ground arith

-- A later step that keeps a part of the database keeps it in the whole call.
pub continue-keep :
    {A B X : Type 0} (view : Db → X) (r : Result A × Db) (f : A → Action B)
    → ((a : A) (d : Db) → view (after (f a) d) ≡ view d)
    → view (continue r f).1 ≡ view r.1
continue-keep view (ok a, d) f keep = keep a d
continue-keep view (err e, d) f keep = refl

-- A call that went through went through its first step.
pub continue-ok :
    {A B : Type 0} (r : Result A × Db) (f : A → Action B) {b : B}
    → (continue r f).0 ≡ ok b
    → (a : A) × (r.0 ≡ ok a) × ((f a r.1).0 ≡ ok b)
continue-ok (ok a, d) f h = (a, refl, h)
continue-ok (err e, d) f h = cc

-- What a rolled back step leaves is the database before it, or what the step left.
pub roll_back-keep :
    {A X : Type 0} (view : Db → X) (db : Db) (r : Result A × Db)
    → ((a : A) → r.0 ≡ ok a → view r.1 ≡ view db)
    → view (roll_back db r).1 ≡ view db
roll_back-keep view db (ok a, d) keep = keep a refl
roll_back-keep view db (err e, d) keep = refl

pub or_throw-after :
    {A : Type 0} (o : Option A) (e : HttpError) (db : Db) → (or_throw o e db).1 ≡ db
or_throw-after none e db = refl
or_throw-after (some a) e db = refl

-- What follows a step that went through is what the step's value and database give.
pub continue-after :
    {A B : Type 0} (r : Result A × Db) (f : A → Action B) {a : A}
    → r.0 ≡ ok a
    → continue r f ≡ f a r.1
continue-after (ok a, d) f {a = b} h = ground arith
continue-after (err e, d) f h = cc

-- A transaction that went through did what its body did.
pub roll_back-ok :
    {A : Type 0} (db : Db) (r : Result A × Db) {a : A}
    → (roll_back db r).0 ≡ ok a
    → roll_back db r ≡ r
roll_back-ok db (ok a, d) h = refl
roll_back-ok db (err e, d) h = cc

-- What holds of the database after a step, and after each way to go on, holds after the whole call.
pub continue-holds :
    {A B : Type 0} (P : Db → Type 0) (r : Result A × Db) (f : A → Action B)
    → P r.1
    → ((a : A) → P (after (f a) r.1))
    → P (continue r f).1
continue-holds P (ok a, d) f h k = k a
continue-holds P (err e, d) f h k = h

pub roll_back-holds :
    {A : Type 0} (P : Db → Type 0) (db : Db) (r : Result A × Db)
    → P db
    → P r.1
    → P (roll_back db r).1
roll_back-holds P db (ok a, d) h k = k
roll_back-holds P db (err e, d) h k = h

-- After a step that only reads, what follows is on the same database.
pub reads-holds :
    {A B : Type 0} (P : Db → Type 0) (m : Action A) (f : A → Action B) (db : Db)
    → after m db ≡ db
    → P db
    → ((a : A) → P (after (f a) db))
    → P (after (m >>= f) db)
reads-holds P m f db same h rest = continue-holds P (m db) f (rw same h) (λ a. rw same (rest a))

pub throw_if-after : (b : Bool) (e : HttpError) (db : Db) → after (throw_if b e) db ≡ db
throw_if-after true e db = refl
throw_if-after false e db = refl

-- The same for a call that went through: what follows went through, from the step's value.
pub reads-holds_ok :
    {A B : Type 0} (P : Db → Type 0) (m : Action A) (f : A → Action B) (db : Db) {b : B}
    → after m db ≡ db
    → outcome (m >>= f) db ≡ ok b
    → ((a : A) → outcome m db ≡ ok a → outcome (f a) db ≡ ok b → P (after (f a) db))
    → P (after (m >>= f) db)
reads-holds_ok P m f db {b = b} same h rest =
    let (a, first, second) = continue-ok (m db) f h in
    let whole : after (m >>= f) db ≡ after (f a) db =
      ap (λ r. r.1) (continue-after (m db) f first) ∙ ap (λ d. after (f a) d) same in
    rw whole (rest a first (sym (ap (λ d. outcome (f a) d) same) ∙ second))
