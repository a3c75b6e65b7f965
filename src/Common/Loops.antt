-- ===== src/Common/Loops.antt =====
-- A loop that reads rows and then updates them one by one, each by its key, does what one update of
-- all these rows does, where keys are unique.
use Prim.Native.Nat.{ℕ}
use mathlib.Core.Path.{◌≡◌, refl, sym, ap, ◌∙◌}
use mathlib.Core.Logic.{inl, inr}
use mathlib.Core.Bool.{Bool, true, false}
use mathlib.Core.List.{List, [], ◌∷◌, map}
use native.Mathlib.Omega.{arith}
use afrique_os.Common.Tests.{◌==◌, if◌then◌else◌, Bool-cases, ==_refl}
use afrique_os.Common.Lists.{any, All, All-map}
use afrique_os.Common.Tables.{find_many, update_many}

-- No two rows have the same key.
abbrev pub UniqueKeys : {A : Type 0} → (A → ℕ) → List A → Type 0
UniqueKeys key [] = Unit
UniqueKeys key (x ∷ xs) = (any (λ y. key y == key x) xs ≡ false) × UniqueKeys key xs

module _ {A : Type 0} where
  pub any-find_many :
      (q p : A → Bool) (xs : List A) → any q xs ≡ false → any q (find_many p xs) ≡ false
  any-find_many q p [] h = refl
  any-find_many q p (x ∷ xs) h = ground (arith, any-find_many q p xs)

  cons_eq : {x y : A} {xs ys : List A} → x ≡ y → xs ≡ ys → x ∷ xs ≡ y ∷ ys
  cons_eq h k = cc

  map-update_many :
      (p : A → Bool) (f h : A → A) (xs : List A)
      → map h (update_many p f xs) ≡ map (λ x. h (if p x then f x else x)) xs
  map-update_many p f h [] = refl
  map-update_many p f h (x ∷ xs) =
      ap (λ r. h (if p x then f x else x) ∷ r) (map-update_many p f h xs)

module _ {A : Type 0} (key : A → ℕ) (g : A → A → A) where
  unfoldable pub update_each : List A → List A → List A
  update_each [] xs = xs
  update_each (a ∷ rows) xs = update_each rows (update_many (λ x. key x == key a) (g a) xs)

  unfoldable each : List A → A → A
  each [] x = x
  each (a ∷ rows) x = each rows (if key x == key a then g a x else x)

  update_each-map : (rows xs : List A) → update_each rows xs ≡ map (each rows) xs
  unfolding update_each each
  update_each-map [] [] = refl
  update_each-map [] (x ∷ xs) = ap (λ r. x ∷ r) (update_each-map [] xs)
  update_each-map (a ∷ rows) xs =
      update_each-map rows (update_many (λ x. key x == key a) (g a) xs)
      ∙ map-update_many (λ x. key x == key a) (g a) (each rows) xs

  each_miss : (rows : List A) (x : A) → any (λ a. key a == key x) rows ≡ false → each rows x ≡ x
  unfolding each
  each_miss [] x h = refl
  each_miss (a ∷ rows) x h = ground (arith, each_miss rows x)

  skip_first :
      (a : A) (rows xs : List A)
      → any (λ y. key y == key a) xs ≡ false
      → map (each (a ∷ rows)) xs ≡ map (each rows) xs
  unfolding each
  skip_first a rows [] h = refl
  skip_first a rows (x ∷ xs) h = ground (arith, skip_first a rows xs)

  module _ (same : (a x : A) → key (g a x) ≡ key x) where
    first_hit :
        (x : A) (rows : List A) → any (λ a. key a == key x) rows ≡ false → each (x ∷ rows) x ≡ g x x
    unfolding each
    first_hit x rows h = rw (==_refl (key x)) (each_miss rows (g x x) (rw (same x x) h))

    hits :
        (p : A → Bool) (xs : List A)
        → UniqueKeys key xs
        → map (each (find_many p xs)) xs ≡ update_many p (λ x. g x x) xs
    hits p [] u = refl
    hits p (x ∷ xs) (fresh, u) = elim (Bool-cases (p x)) [
      | inl e ↦
          let found : find_many p (x ∷ xs) ≡ x ∷ find_many p xs = rw e refl in
          let updated : update_many p (λ y. g y y) (x ∷ xs)
              ≡ g x x ∷ update_many p (λ y. g y y) xs =
            rw e refl in
          ap (λ r. map (each r) (x ∷ xs)) found
          ∙ cons_eq (first_hit x (find_many p xs) (any-find_many _ p xs fresh))
              (skip_first x (find_many p xs) xs fresh ∙ hits p xs u)
          ∙ sym updated
      | inr e ↦
          let found : find_many p (x ∷ xs) ≡ find_many p xs = rw e refl in
          let updated : update_many p (λ y. g y y) (x ∷ xs) ≡ x ∷ update_many p (λ y. g y y) xs =
            rw e refl in
          ap (λ r. map (each r) (x ∷ xs)) found
          ∙ cons_eq (each_miss (find_many p xs) x (any-find_many _ p xs fresh)) (hits p xs u)
          ∙ sym updated
    ]

    pub update_each-once :
        (p : A → Bool) (xs : List A)
        → UniqueKeys key xs
        → update_each (find_many p xs) xs ≡ update_many p (λ x. g x x) xs
    update_each-once p xs u = update_each-map (find_many p xs) xs ∙ hits p xs u

module _ {A : Type 0} where
  All-find_many : (P : A → Type 0) (p : A → Bool) (xs : List A) → All P xs → All P (find_many p xs)
  All-find_many P p [] h = tt
  All-find_many P p (x ∷ xs) h = elim (Bool-cases (p x)) [
    | inl e ↦ rw e (h.0, All-find_many P p xs h.1)
    | inr e ↦ rw e (All-find_many P p xs h.1)
  ]

  -- Each row's key is in the table.
  abbrev pub Keyed : (A → ℕ) → List A → List A → Type 0
  Keyed key xs = All (λ a. any (λ x. key x == key a) xs ≡ true)

  own_keys : (key : A → ℕ) (xs : List A) → Keyed key xs xs
  own_keys key [] = tt
  own_keys key (x ∷ xs) =
      (rw (==_refl (key x)) refl, All-map xs (λ a h. ground arith) (own_keys key xs))

  pub find_many-Keyed : (key : A → ℕ) (p : A → Bool) (xs : List A) → Keyed key xs (find_many p xs)
  find_many-Keyed key p xs = All-find_many _ p xs (own_keys key xs)

  any-update_many :
      (q p : A → Bool) (f : A → A) (xs : List A)
      → ((x : A) → q (f x) ≡ q x)
      → any q (update_many p f xs) ≡ any q xs
  any-update_many q p f [] same = refl
  any-update_many q p f (x ∷ xs) same = ground (arith, same x, any-update_many q p f xs same)

  -- An update that keeps the keys keeps them in the table.
  pub Keyed-update_many :
      (key : A → ℕ) (p : A → Bool) (f : A → A) (xs rows : List A)
      → ((x : A) → key (f x) ≡ key x)
      → Keyed key xs rows
      → Keyed key (update_many p f xs) rows
  Keyed-update_many key p f xs rows same h =
      All-map rows (λ a k. any-update_many _ p f xs (λ x. ap (λ n. n == key a) (same x)) ∙ k) h
