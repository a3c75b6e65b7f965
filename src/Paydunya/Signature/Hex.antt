-- ===== src/Paydunya/Signature/Hex.antt =====
-- Hexadecimal digits and the bytes that they stand for.
use afrique_os.Common.{
  ℕ, ◌+◌, ◌*◌, ◌/◌, ◌%◌, ◌<◌, ◌≡◌, refl, true, false, List, [], ◌∷◌, if◌then◌else◌, ltb, arith,
  length, All, ap, ◌∙◌,
}
use afrique_os.Database.Rows.{Text}
use afrique_os.Common.Text.{is_empty}
use afrique_os.Paydunya.Signature.{all_hex, from_hex, is_even, is_hex_digit, digit_value, is_hex}

-- The digits that node's `digest('hex')` writes.
abbrev pub hex_digit : ℕ → ℕ
hex_digit n = if ltb n 10 then 48 + n else 87 + n

unfoldable pub to_hex : List ℕ → Text
to_hex [] = []
to_hex (b ∷ bytes) = hex_digit (b / 16) ∷ hex_digit (b % 16) ∷ to_hex bytes

digit_value-hex_digit : (n : ℕ) → n < 16 → digit_value (hex_digit n) ≡ n
digit_value-hex_digit n h = ground arith

hex_digit-is_hex : (n : ℕ) → n < 16 → is_hex_digit (hex_digit n) ≡ true
hex_digit-is_hex n h = ground arith

byte :
    (b : ℕ) → b < 256 → digit_value (hex_digit (b / 16)) * 16 + digit_value (hex_digit (b % 16)) ≡ b
byte b h =
    let hi : b / 16 < 16 = omega arith in
    let lo : b % 16 < 16 = omega arith in
    rw (digit_value-hex_digit (b / 16) hi, digit_value-hex_digit (b % 16) lo) (omega arith)

-- Reading what is written of any bytes gives them back.
pub from_hex-to_hex : (bytes : List ℕ) → All (λ b. b < 256) bytes → from_hex (to_hex bytes) ≡ bytes
unfolding from_hex to_hex
from_hex-to_hex [] h = refl
from_hex-to_hex (b ∷ bytes) (h, hs) = rw (byte b h, from_hex-to_hex bytes hs) refl

all_hex-to_hex : (bytes : List ℕ) → All (λ b. b < 256) bytes → all_hex (to_hex bytes) ≡ true
unfolding all_hex to_hex
all_hex-to_hex [] h = refl
all_hex-to_hex (b ∷ bytes) (h, hs) =
    rw (hex_digit-is_hex (b / 16) (omega arith), hex_digit-is_hex (b % 16) (omega arith))
      (all_hex-to_hex bytes hs)

length-to_hex : (bytes : List ℕ) → length (to_hex bytes) ≡ 2 * length bytes
unfolding to_hex
length-to_hex [] = refl
length-to_hex (b ∷ bytes) = omega (arith, length-to_hex bytes)

hex_of :
    (t : Text) → is_empty t ≡ false → all_hex t ≡ true → is_even (length t) ≡ true → is_hex t ≡ true
hex_of t e h k = ground arith

even_double : (n : ℕ) → is_even (2 * n) ≡ true
unfolding is_even
even_double n = ground arith

not_empty : (b : ℕ) (bytes : List ℕ) → is_empty (to_hex (b ∷ bytes)) ≡ false
unfolding to_hex
not_empty b bytes = refl

pub is_hex-to_hex :
    (b : ℕ) (bytes : List ℕ) → All (λ b. b < 256) (b ∷ bytes) → is_hex (to_hex (b ∷ bytes)) ≡ true
is_hex-to_hex b bytes h =
    hex_of (to_hex (b ∷ bytes)) (not_empty b bytes) (all_hex-to_hex (b ∷ bytes) h)
      (ap is_even (length-to_hex (b ∷ bytes)) ∙ even_double (length (b ∷ bytes)))
