-- ===== src/Common/Tables.antt =====
-- A table of the database is the list of its rows. The operations are those of the client that the
-- services call: a `where` clause is a Boolean test of a row, a `data` clause is a function on rows.
use afrique_os.Common.Tests.{if◌then◌else◌, Bool-cases, ltb}
use afrique_os.Common.Lists.{any}
use afrique_os.Common.Int.{ℤ, pos, ◌+ℤ◌, int_laws, ◌*ℕ◌}
use Prim.Native.Nat.{ℕ, suc, ◌≤◌}
use mathlib.Core.Path.{◌≡◌, refl, sym, ap, ◌∙◌}
use mathlib.Core.Bool.{Bool, true, false, ◌||◌}
use mathlib.Core.Option.{Option, none, some}
use mathlib.Core.Logic.{inl, inr}
use mathlib.Core.Option
use mathlib.Core.List.{List, [], ◌∷◌}
use native.Mathlib.Omega.{arith}

sum_counted : (a c s s' : ℤ) (k : ℕ) → s' ≡ s +ℤ c *ℕ k → a +ℤ c +ℤ s' ≡ a +ℤ s +ℤ c *ℕ suc k
sum_counted a c s s' k h = rw h (omega int_laws)

sum_passed : (a c s s' : ℤ) (k : ℕ) → s' ≡ s +ℤ c *ℕ k → a +ℤ s' ≡ a +ℤ s +ℤ c *ℕ k
sum_passed a c s s' k h = rw h (omega int_laws)

module _ {A : Type 0} where
  abbrev pub find_first : (A → Bool) → List A → Option A
  find_first p [] = none
  find_first p (x ∷ xs) = if p x then some x else find_first p xs

  abbrev pub find_many : (A → Bool) → List A → List A
  find_many p [] = []
  find_many p (x ∷ xs) = if p x then x ∷ find_many p xs else find_many p xs

  abbrev pub update_many : (A → Bool) → (A → A) → List A → List A
  update_many p f [] = []
  update_many p f (x ∷ xs) = (if p x then f x else x) ∷ update_many p f xs

  abbrev pub count : (A → Bool) → List A → ℕ
  count p [] = 0
  count p (x ∷ xs) = if p x then suc (count p xs) else count p xs

  abbrev pub sum_by : (A → ℤ) → List A → ℤ
  sum_by w [] = pos 0
  sum_by w (x ∷ xs) = w x +ℤ sum_by w xs

  some_eq : {x y : A} → some x ≡ some y → x ≡ y
  some_eq h = cc

  -- A row that is found passes the test.
  pub find_first-test : (p : A → Bool) (xs : List A) {a : A} → find_first p xs ≡ some a → p a ≡ true
  find_first-test p [] h = cc
  find_first-test p (x ∷ xs) {a = a} h = elim (Bool-cases (p x)) [
    | inl yes_x ↦ let same : x ≡ a = ground arith in rw (← same) yes_x
    | inr no_x ↦ find_first-test p xs {a = a} (rw no_x at h)
  ]

  -- No row is updated where none passes the test.
  pub update_many-none :
      (p : A → Bool) (f : A → A) (xs : List A) → count p xs ≡ 0 → update_many p f xs ≡ xs
  update_many-none p f [] h = refl
  update_many-none p f (x ∷ xs) h = ground (arith, update_many-none p f xs)

  -- An update that changes no row, and two updates that change each row alike.
  pub update_many-same :
      (p : A → Bool) (f : A → A) (xs : List A) → ((x : A) → f x ≡ x) → update_many p f xs ≡ xs
  update_many-same p f [] h = refl
  update_many-same p f (x ∷ xs) h = ground (arith, h x, update_many-same p f xs h)

  pub update_many-alike :
      (p : A → Bool) (f g : A → A) (xs : List A)
      → ((x : A) → f x ≡ g x)
      → update_many p f xs ≡ update_many p g xs
  update_many-alike p f g [] h = refl
  update_many-alike p f g (x ∷ xs) h = ground (arith, h x, update_many-alike p f g xs h)

  -- An update of what a test does not read leaves every search by that test in place.
  pub find_first-update_many :
      (q p : A → Bool) (f : A → A) (xs : List A)
      → ((x : A) → q (f x) ≡ q x)
      → find_first q (update_many p f xs)
        ≡ Option.map (λ x. if p x then f x else x) (find_first q xs)
  find_first-update_many q p f [] same = refl
  find_first-update_many q p f (x ∷ xs) same =
      ground (arith, same x, find_first-update_many q p f xs same)

  -- The row that a test finds is the updated row after an update by that test.
  pub find_first-updated :
      (p : A → Bool) (f : A → A) (xs : List A) {a : A}
      → ((x : A) → p (f x) ≡ p x)
      → find_first p xs ≡ some a
      → find_first p (update_many p f xs) ≡ some (f a)
  find_first-updated p f xs {a = a} same h =
      find_first-update_many p p f xs same ∙ rw (h, find_first-test p xs h) refl

  -- A row that is found after an update and passes the update's test is an updated one.
  pub find_first-changed :
      (q p : A → Bool) (f : A → A) (xs : List A) {y : A}
      → ((x : A) → p (f x) ≡ p x)
      → find_first q (update_many p f xs) ≡ some y
      → p y ≡ true
      → (x : A) × (y ≡ f x)
  find_first-changed q p f [] same h k = cc
  find_first-changed q p f (x ∷ xs) {y = y} same h k = elim (Bool-cases (p x)) [
    | inl e ↦
        let first : find_first q (f x ∷ update_many p f xs) ≡ some y = rw e at h in
        elim (Bool-cases (q (f x))) [
          | inl d ↦ (x, sym (some_eq (rw d at first)))
          | inr d ↦ find_first-changed q p f xs {y = y} same (rw d at first) k
        ]
    | inr e ↦
        let first : find_first q (x ∷ update_many p f xs) ≡ some y = rw e at h in
        elim (Bool-cases (q x)) [
          | inl d ↦
              let same_row : x ≡ y = some_eq (rw d at first) in
              let clash : false ≡ true = sym e ∙ ap p same_row ∙ k in cc
          | inr d ↦ find_first-changed q p f xs {y = y} same (rw d at first) k
        ]
  ]

  -- Two updates by the same function are one, where it may be done twice.
  pub update_many-twice :
      (p q : A → Bool) (f : A → A) (xs : List A)
      → ((x : A) → q (f x) ≡ q x)
      → ((x : A) → f (f x) ≡ f x)
      → update_many q f (update_many p f xs) ≡ update_many (λ x. p x || q x) f xs
  update_many-twice p q f [] same twice = refl
  update_many-twice p q f (x ∷ xs) same twice =
      ground (arith, same x, twice x, update_many-twice p q f xs same twice)

  -- A column that grows by `c` on every updated row grows by `c` for each of them in sum.
  pub sum_by-update_many :
      (w : A → ℤ) (c : ℤ) (p : A → Bool) (f : A → A) (xs : List A)
      → ((x : A) → w (f x) ≡ w x +ℤ c)
      → sum_by w (update_many p f xs) ≡ sum_by w xs +ℤ c *ℕ count p xs
  sum_by-update_many w c p f [] grows = omega int_laws
  sum_by-update_many w c p f (x ∷ xs) grows = elim (Bool-cases (p x)) [
    | inl e ↦ rw (e, grows x) (sum_counted (w x) c _ _ _ (sum_by-update_many w c p f xs grows))
    | inr e ↦ rw e (sum_passed (w x) c _ _ _ (sum_by-update_many w c p f xs grows))
  ]

  -- A column that an update leaves alone keeps its sum.
  pub sum_by-update_many_same :
      (w : A → ℤ) (p : A → Bool) (f : A → A) (xs : List A)
      → ((x : A) → w (f x) ≡ w x)
      → sum_by w (update_many p f xs) ≡ sum_by w xs
  sum_by-update_many_same w p f [] same = refl
  sum_by-update_many_same w p f (x ∷ xs) same =
      ground (arith, same x, sum_by-update_many_same w p f xs same)

  -- An update of what a test does not read leaves the number of rows that pass it.
  pub count-update_many :
      (q p : A → Bool) (f : A → A) (xs : List A)
      → ((x : A) → q (f x) ≡ q x)
      → count q (update_many p f xs) ≡ count q xs
  count-update_many q p f [] same = refl
  count-update_many q p f (x ∷ xs) same = ground (arith, same x, count-update_many q p f xs same)

  -- After an update whose rows no longer pass the test, no row passes it.
  pub count-update_many_out :
      (p : A → Bool) (f : A → A) (xs : List A)
      → ((x : A) → p (f x) ≡ false)
      → count p (update_many p f xs) ≡ 0
  count-update_many_out p f [] out = refl
  count-update_many_out p f (x ∷ xs) out = ground (arith, out x, count-update_many_out p f xs out)

  -- An update that lets no new row pass a test does not raise the number of rows that pass it.
  pub count-update_many_le :
      (q p : A → Bool) (f : A → A) (xs : List A)
      → ((x : A) → p x ≡ true → q (f x) ≡ true → q x ≡ true)
      → count q (update_many p f xs) ≤ count q xs
  count-update_many_le q p f [] only = omega arith
  count-update_many_le q p f (x ∷ xs) only =
      ground (arith, only x, count-update_many_le q p f xs only)

  -- Some row passes the test exactly when the number of such rows is not zero.
  pub any-count : (p : A → Bool) (xs : List A) → any p xs ≡ ltb 0 (count p xs)
  any-count p [] = refl
  any-count p (x ∷ xs) = ground (arith, any-count p xs)

  abbrev pub is_some : Option A → Bool
  is_some none = false
  is_some (some _) = true

  pub any-find_first : (p : A → Bool) (xs : List A) → any p xs ≡ is_some (find_first p xs)
  any-find_first p [] = refl
  any-find_first p (x ∷ xs) = ground (arith, any-find_first p xs)

  -- A row that is found fails every test that no row passes.
  pub find_first-count :
      (p q : A → Bool) (xs : List A) {a : A}
      → count p xs ≡ 0
      → find_first q xs ≡ some a
      → p a ≡ false
  find_first-count p q [] h e = cc
  find_first-count p q (x ∷ xs) {a = a} h e = elim (Bool-cases (q x)) [
    | inl yes_x ↦ let same : x ≡ a = ground arith in rw (← same) (ground arith)
    | inr no_x ↦ find_first-count p q xs {a = a} (ground arith) (rw no_x at e)
  ]
