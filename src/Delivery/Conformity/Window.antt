-- ===== src/Delivery/Conformity/Window.antt =====
-- The release of the sellers' parts whose time is over, in backend/src/delivery/delivery.service.ts,
-- as one update.
use afrique_os.Common.{
  ℕ, ◌≡◌, refl, ap, ◌∙◌, Bool, true, false, ◌&&◌, not, List, [], ◌∷◌, map, arith, Bool-cases, inl,
  inr, ◌==◌,
}
use afrique_os.Common.Tables.{find_many, update_many, update_many-same, update_many-alike}
use afrique_os.Common.Loops.{
  UniqueKeys, update_each, update_each-once, Keyed, Keyed-update_many, find_many-Keyed,
}
use afrique_os.Database.Rows.{Allocation, Db}
use afrique_os.Database.Action.{ok}
use afrique_os.Delivery.Conformity.{
  Report, process_eligible, release_each, is_due, is_contested, make_eligible, add_released,
  add_skipped,
}

abbrev unless_contested : (Allocation → Bool) → Allocation → Allocation → Allocation
unless_contested contested a x = elim (contested a) [ true ↦ x | false ↦ make_eligible x ]

abbrev ids : List Allocation → List ℕ
ids = map (λ a. a.id)

abbrev pub report_of : (Allocation → Bool) → List Allocation → Report
report_of contested rows = record {
  released = ids (find_many (λ a. not (contested a)) rows);
  skipped = ids (find_many contested rows);
}

keeps_id :
    (contested : Allocation → Bool) (a x : Allocation) → (unless_contested contested a x).id ≡ x.id
keeps_id contested a x = ground arith

skip_first :
    (contested : Allocation → Bool) (a : Allocation) (rest : List Allocation)
    → contested a ≡ true
    → report_of contested (a ∷ rest) ≡ add_skipped a.id (report_of contested rest)
skip_first contested a rest e = rw e refl

release_first :
    (contested : Allocation → Bool) (a : Allocation) (rest : List Allocation)
    → contested a ≡ false
    → report_of contested (a ∷ rest) ≡ add_released a.id (report_of contested rest)
release_first contested a rest e = rw e refl

abbrev with_released : Allocation → Db → Db
with_released a db = record db {
  allocations = update_many (λ x. x.id == a.id) make_eligible db.allocations;
}

release_each_lem :
    (contested : Allocation → Bool) (rows : List Allocation) (db : Db)
    → Keyed (λ a. a.id) db.allocations rows
    → release_each contested rows db ≡ (
      ok (report_of contested rows),
      record db {
        allocations = update_each (λ a. a.id) (unless_contested contested) rows db.allocations;
      },
    )
unfolding release_each update_each
release_each_lem contested [] db h = refl
release_each_lem contested (a ∷ rest) db (here, h) = elim (Bool-cases (contested a)) [
  | inl e ↦
      rw
        (
          skip_first contested a rest e,
          update_many-same (λ x. x.id == a.id) (unless_contested contested a) db.allocations
              (λ x. rw (unless_contested, e) refl),
        )
        (rw (e, release_each_lem contested rest db h) refl)
  | inr e ↦
      rw
        (
          release_first contested a rest e,
          update_many-alike (λ x. x.id == a.id) (unless_contested contested a) make_eligible
              db.allocations (λ x. rw (unless_contested, e) refl),
        )
        (rw
          (
            e,
            here,
            release_each_lem contested rest (with_released a db) (
                Keyed-update_many (λ x. x.id) (λ x. x.id == a.id) make_eligible db.allocations rest
                  (λ x. refl) h),
          )
          refl)
]

merge_tests :
    (p q : Allocation → Bool) (xs : List Allocation)
    → update_many p (λ x. unless_contested q x x) xs
      ≡ update_many (λ x. p x && not (q x)) make_eligible xs
merge_tests p q [] = refl
merge_tests p q (x ∷ xs) = elim (Bool-cases (q x)) [
  | inl e ↦ ground (arith, merge_tests p q xs)
  | inr e ↦ ground (arith, merge_tests p q xs)
]

-- Where the parts have different ids, the release answers, and it is one update: each seller's part
-- whose time is over and against which nothing stands becomes eligible, no other row of the database
-- changes, and the report lists the parts released and the parts skipped.
pub process_eligible-once :
    (now : ℕ) (db : Db)
    → UniqueKeys (λ a. a.id) db.allocations
    → process_eligible now db ≡ (
      ok (report_of (is_contested db) (find_many (is_due now) db.allocations)),
      record db {
        allocations =
            update_many (λ a. is_due now a && not (is_contested db a)) make_eligible db.allocations;
      },
    )
unfolding process_eligible
process_eligible-once now db unique =
    release_each_lem (is_contested db) (find_many (is_due now) db.allocations) db
      (find_many-Keyed (λ a. a.id) (is_due now) db.allocations)
    ∙ ap
        (λ xs. (
          ok (report_of (is_contested db) (find_many (is_due now) db.allocations)),
          record db { allocations = xs },
        ))
        (update_each-once (λ a. a.id) (unless_contested (is_contested db))
            (keeps_id (is_contested db)) (is_due now) db.allocations unique
          ∙ merge_tests (is_due now) (is_contested db) db.allocations)
