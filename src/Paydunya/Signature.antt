-- ===== src/Paydunya/Signature.antt =====
-- verifyWebhookSignature of backend/src/paydunya/paydunya.service.ts. The digests of node's `crypto`
-- are parameters, which give bytes; a text is its code units.
pub mod Hex
pub mod Sound
use afrique_os.Common.{
  ℕ, zero, suc, ◌+◌, ◌-◌, ◌*◌, ◌%◌, Bool, true, false, ◌&&◌, ◌||◌, not, Option, none, some, List,
  [], ◌∷◌, ◌++◌, if◌then◌else◌, ◌==◌, leb, ltb, length, any,
}
use afrique_os.Common.Text.{trim, is_empty, text_eq}
use afrique_os.Database.Rows.{Text}

-- The class [0-9a-fA-F].
abbrev pub is_hex_digit : ℕ → Bool
is_hex_digit c = (leb 48 c && leb c 57) || (leb 97 c && leb c 102) || (leb 65 c && leb c 70)

-- `/^[0-9a-fA-F]+$/`.
unfoldable pub all_hex : Text → Bool
all_hex [] = true
all_hex (c ∷ t) = is_hex_digit c && all_hex t

abbrev pub digit_value : ℕ → ℕ
digit_value c = if leb c 57 then c - 48 else if leb c 70 then c - 55 else c - 87

-- `Buffer.from(t, 'hex')` on a text of hexadecimal digits.
unfoldable pub from_hex : Text → List ℕ
from_hex [] = []
from_hex (a ∷ []) = []
from_hex (a ∷ b ∷ t) = (digit_value a * 16 + digit_value b) ∷ from_hex t

unfoldable pub is_even : ℕ → Bool
is_even n = n % 2 == 0

unfoldable pub starts_with : Text → Text → Bool
starts_with [] t = true
starts_with (c ∷ p) [] = false
starts_with (c ∷ p) (d ∷ t) = c == d && starts_with p t

unfoldable pub drop : ℕ → Text → Text
drop zero t = t
drop (suc n) [] = []
drop (suc n) (c ∷ t) = drop n t

abbrev add_to_first : ℕ → List Text → List Text
add_to_first c [] = (c ∷ []) ∷ []
add_to_first c (part ∷ parts) = (c ∷ part) ∷ parts

-- `split(',')`.
unfoldable pub split_commas : Text → List Text
split_commas [] = [] ∷ []
split_commas (c ∷ t) =
    let parts = split_commas t in if c == 44 then [] ∷ parts else add_to_first c parts

-- One part of the header, on the timestamp and the signature found so far.
unfoldable pub read_part : Text → Text × Text → Text × Text
unfolding starts_with drop
read_part part (timestamp, signature) =
    if starts_with (116 ∷ 61 ∷ []) part
    then (drop 2 part, signature)
    else if starts_with (115 ∷ 61 ∷ []) part
    then (timestamp, drop 2 part)
    else if starts_with (118 ∷ 49 ∷ 61 ∷ []) part
    then (timestamp, drop 3 part)
    else if any (λ c. c == 61) part
    then (timestamp, signature)
    else (timestamp, part)

unfoldable pub read_parts : List Text → Text × Text → Text × Text
unfolding read_part trim
read_parts [] found = found
read_parts (part ∷ parts) found = read_parts parts (read_part (trim part) found)

-- Equality of length and `timingSafeEqual` of two buffers.
unfoldable pub same_bytes : List ℕ → List ℕ → Bool
unfolding text_eq
same_bytes a b = length a == length b && text_eq a b

abbrev pub is_hex : Text → Bool
is_hex t = not (is_empty t) && all_hex t && is_even (length t)

module _ (sha512 : Text → List ℕ) (hmac256 hmac512 : Text → Text → List ℕ) where
  -- The three digests that a signature is compared with; the first needs a timestamp.
  unfoldable pub matches_hmac : Text → Text → Text → List ℕ → Bool
  unfolding same_bytes
  matches_hmac key body timestamp target =
      (not (is_empty timestamp) && same_bytes target (hmac256 key (timestamp ++ 46 ∷ body)))
      || same_bytes target (hmac256 key body)
      || same_bytes target (hmac512 key body)

  unfoldable pub verify_hmac : Text → Text → Text × Text → Bool
  unfolding all_hex is_even from_hex matches_hmac
  verify_hmac key body (timestamp, signature) =
      is_hex signature && matches_hmac key body timestamp (from_hex signature)

  unfoldable pub verify_cleaned : Text → Text → Text → Bool
  unfolding all_hex is_even from_hex same_bytes split_commas read_parts verify_hmac
  verify_cleaned body cleaned key =
      not (is_empty cleaned)
      && ((is_hex cleaned && same_bytes (from_hex cleaned) (sha512 key))
          || verify_hmac key body (read_parts (split_commas cleaned) ([], [])))

  unfoldable pub verify_webhook_signature : Text → Text → Text → Bool
  unfolding trim verify_cleaned
  verify_webhook_signature body received key = verify_cleaned body (trim received) key
