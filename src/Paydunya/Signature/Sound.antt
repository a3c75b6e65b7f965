-- ===== src/Paydunya/Signature/Sound.antt =====
-- What a signature that is accepted shows.
use afrique_os.Common.{
  ℕ, ◌<◌, All, ◌≡◌, refl, Bool, true, false, ◌&&◌, ◌||◌, not, List, [], ◌∷◌, ◌++◌, arith, ◌⊎◌, inl,
  inr, Bool-cases,
}
use afrique_os.Common.Text.{trim, is_empty, text_eq→eq, text_eq_refl}
use afrique_os.Database.Rows.{Text}
use afrique_os.Paydunya.Signature.Hex.{to_hex, from_hex-to_hex, is_hex-to_hex}
use mathlib.Core.Path.{sym, ap, ◌∙◌}
use afrique_os.Paydunya.Signature.{
  from_hex, is_hex, same_bytes, split_commas, read_parts, matches_hmac, verify_hmac, verify_cleaned,
  verify_webhook_signature,
}

same_bytes→eq : (a b : List ℕ) → same_bytes a b ≡ true → a ≡ b
unfolding same_bytes
same_bytes→eq a b h = text_eq→eq a b (ground arith)

second_way : (a b c d e : Bool) → (a && ((b && c) || (d && e))) ≡ true → c ≡ false → e ≡ true
second_way a b c d e h k = ground arith

first_way : (a b c d : Bool) → a ≡ true → b ≡ true → c ≡ true → (a && ((b && c) || d)) ≡ true
first_way a b c d h k l = ground arith

hex_not_empty : (t : Text) → is_hex t ≡ true → not (is_empty t) ≡ true
hex_not_empty [] h = h
hex_not_empty (c ∷ t) h = refl

same_bytes_refl : (a : List ℕ) → same_bytes a a ≡ true
unfolding same_bytes
same_bytes_refl a = rw (text_eq_refl a) (ground arith)

module _ (sha512 : Text → List ℕ) (hmac256 hmac512 : Text → Text → List ℕ) where
  -- The bytes written in the header are the digest of the key, or one of the three digests of the
  -- body under the key.
  unfoldable pub IsSignature : Text → Text → Text → Type 0
  IsSignature body received key =
      let (timestamp, signature) = read_parts (split_commas (trim received)) ([], []) in
      (from_hex (trim received) ≡ sha512 key)
      ⊎ ((from_hex signature ≡ hmac256 key (timestamp ++ 46 ∷ body))
          ⊎ ((from_hex signature ≡ hmac256 key body) ⊎ (from_hex signature ≡ hmac512 key body)))

  hmac_found :
      (key body timestamp : Text) (target : List ℕ)
      → matches_hmac sha512 hmac256 hmac512 key body timestamp target ≡ true
      → (target ≡ hmac256 key (timestamp ++ 46 ∷ body))
        ⊎ ((target ≡ hmac256 key body) ⊎ (target ≡ hmac512 key body))
  unfolding matches_hmac
  hmac_found key body timestamp target h =
      elim (Bool-cases (same_bytes target (hmac256 key body))) [
        | inl e ↦ inr (inl (same_bytes→eq _ _ e))
        | inr e ↦ elim (Bool-cases (same_bytes target (hmac512 key body))) [
          | inl e' ↦ inr (inr (same_bytes→eq _ _ e'))
          | inr e' ↦ inl (same_bytes→eq _ _ (ground arith))
        ]
      ]

  -- A signature is accepted only where the bytes written in it are one of those digests.
  pub verify-IsSignature :
      (body received key : Text)
      → verify_webhook_signature sha512 hmac256 hmac512 body received key ≡ true
      → IsSignature body received key
  unfolding verify_webhook_signature verify_cleaned verify_hmac IsSignature
  verify-IsSignature body received key h =
      elim (Bool-cases (same_bytes (from_hex (trim received)) (sha512 key))) [
        | inl e ↦ inl (same_bytes→eq _ _ e)
        | inr e ↦
            let found = read_parts (split_commas (trim received)) ([], []) in
            inr (hmac_found key body found.0 (from_hex found.1) (second_way _ _ _ _ _ h e))
      ]

  -- The digest of the key, where it is not empty, written in hexadecimal is accepted with every
  -- body: it is not bound to what it signs.
  pub verify_any_body :
      (body received key : Text) (b : ℕ) (bytes : List ℕ)
      → All (λ b. b < 256) (b ∷ bytes)
      → sha512 key ≡ b ∷ bytes
      → trim received ≡ to_hex (sha512 key)
      → verify_webhook_signature sha512 hmac256 hmac512 body received key ≡ true
  unfolding verify_webhook_signature verify_cleaned
  verify_any_body body received key b bytes small e t =
      let hex : is_hex (trim received) ≡ true =
        ap is_hex (t ∙ ap to_hex e) ∙ is_hex-to_hex b bytes small in
      first_way (not (is_empty (trim received))) (is_hex (trim received))
        (same_bytes (from_hex (trim received)) (sha512 key))
        (verify_hmac sha512 hmac256 hmac512 key body
          (read_parts (split_commas (trim received)) ([], [])))
        (hex_not_empty (trim received) hex) hex
        (ap (λ x. same_bytes x (sha512 key))
            (ap from_hex (t ∙ ap to_hex e) ∙ from_hex-to_hex (b ∷ bytes) small ∙ sym e)
          ∙ same_bytes_refl (sha512 key))
