-- ===== src/Phone/Normal.antt =====
-- The normal form of a telephone number.
use afrique_os.Common.{
  ℕ, ◌≡◌, refl, false, ◌||◌, ◌&&◌, not, Bool, if◌then◌else◌, ==→eq, ap, List, [], ◌∷◌, arith, inl,
  inr, Bool-cases,
}
use afrique_os.Phone.{is_digit, is_plus, keep_dialled, drop_plus, normalize_phone}

-- The digits of a text, in their order.
abbrev pub digits_of : List ℕ → List ℕ
digits_of [] = []
digits_of (c ∷ t) = if is_digit c then c ∷ digits_of t else digits_of t

-- Whether a plus stands before every digit.
abbrev pub leads_plus : List ℕ → Bool
leads_plus [] = false
leads_plus (c ∷ t) = is_plus c || (not (is_digit c) && leads_plus t)

digits_lem : (t : List ℕ) → drop_plus (keep_dialled t) ≡ digits_of t
unfolding drop_plus keep_dialled
digits_lem [] = refl
digits_lem (c ∷ t) = ground (arith, digits_lem t)

-- Whatever is typed, the normalised number is all its digits in their order, after one plus where the
-- text has a plus before its first digit; separators and every other plus are gone.
pub normalize_phone-reference :
    (t : List ℕ) → normalize_phone t ≡ (if leads_plus t then 43 ∷ digits_of t else digits_of t)
unfolding normalize_phone
normalize_phone-reference [] = refl
normalize_phone-reference (c ∷ t) = elim (Bool-cases (is_plus c)) [
  | inl p ↦
      let same : c ≡ 43 = ==→eq c 43 p in
      let other : is_digit c ≡ false = ground arith in
      rw (p, other, digits_lem t) (ap (λ x. x ∷ digits_of t) same)
  | inr p ↦ elim (Bool-cases (is_digit c)) [
    | inl d ↦ rw (p, d, digits_lem t) refl
    | inr d ↦ rw (p, d) (normalize_phone-reference t)
  ]
]
