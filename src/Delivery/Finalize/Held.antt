-- ===== src/Delivery/Finalize/Held.antt =====
-- What a verified delivery of backend/src/delivery/delivery.service.ts leaves of the wallet of
-- backend/src/boutiques: the seller's money is not free yet.
use afrique_os.Common.{
  ℕ, ◌+◌, ◌≡◌, refl, ap, ◌∙◌, Bool, true, ◌&&◌, ◌||◌, not, List, [], ◌∷◌, arith, Bool-cases, inl,
  inr, All,
}
use afrique_os.Common.Tables.{update_many}
use afrique_os.Common.Loops.{UniqueKeys}
use afrique_os.Database.Enums.{is_held, is_seller}
use afrique_os.Database.Rows.{Allocation, Db}
use afrique_os.Database.Action.{ok, outcome, after}
use afrique_os.Delivery.Finalize.{finalize_verified_delivery, is_part_of, window_ms}
use afrique_os.Delivery.Finalize.Parts.{settled, finalize_verified_delivery-settled}
use afrique_os.Boutiques.Wallet.{held_amount, is_held_for}

-- A seller's part of the shipment is money that is held.
abbrev pub held_part_of : ℕ → Allocation → Bool
held_part_of id a = not (is_part_of id a && is_seller a.beneficiary_type) || is_held a.status

settled-is_held_for :
    (now deadline id boutique : ℕ) (a : Allocation)
    → held_part_of id a ≡ true
    → is_part_of id a ≡ true
    → is_held_for boutique (settled now deadline a a) ≡ is_held_for boutique a
settled-is_held_for now deadline id boutique a h k = ground arith

settled-net_amount :
    (now deadline : ℕ) (a : Allocation) → (settled now deadline a a).net_amount ≡ a.net_amount
settled-net_amount now deadline a = ground arith

held_amount-cons :
    (boutique : ℕ) (a b : Allocation) (xs ys : List Allocation)
    → is_held_for boutique a ≡ is_held_for boutique b
    → a.net_amount ≡ b.net_amount
    → held_amount boutique xs ≡ held_amount boutique ys
    → held_amount boutique (a ∷ xs) ≡ held_amount boutique (b ∷ ys)
unfolding held_amount
held_amount-cons boutique a b xs ys h k rest = elim (Bool-cases (is_held_for boutique b)) [
  | inl e ↦ rw (h, e, k, rest) refl
  | inr e ↦ rw (h, e) rest
]

settled-held_amount :
    (now deadline id boutique : ℕ) (xs : List Allocation)
    → All (λ a. held_part_of id a ≡ true) xs
    → held_amount boutique (update_many (is_part_of id) (λ x. settled now deadline x x) xs)
      ≡ held_amount boutique xs
settled-held_amount now deadline id boutique [] h = refl
settled-held_amount now deadline id boutique (a ∷ xs) (here, h) =
    let rest = settled-held_amount now deadline id boutique xs h in
    elim (Bool-cases (is_part_of id a)) [
      | inl e ↦ rw e (
          held_amount-cons boutique (settled now deadline a a) a _ xs
            (settled-is_held_for now deadline id boutique a here e)
            (settled-net_amount now deadline a) rest)
      | inr e ↦ rw e (held_amount-cons boutique a a _ xs refl refl rest)
    ]

-- A verified delivery frees no money of a seller: where the seller's parts of the shipment are held
-- and the parts have different ids, what is held for every shop is what was held before.
pub finalize_verified_delivery-held_amount :
    (now id boutique : ℕ) (db : Db)
    → UniqueKeys (λ a. a.id) db.allocations
    → All (λ a. held_part_of id a ≡ true) db.allocations
    → outcome (finalize_verified_delivery now id) db ≡ ok tt
    → held_amount boutique (after (finalize_verified_delivery now id) db).allocations
      ≡ held_amount boutique db.allocations
finalize_verified_delivery-held_amount now id boutique db unique held done =
    ap (held_amount boutique) (finalize_verified_delivery-settled now id db unique done)
    ∙ settled-held_amount now (now + window_ms db) id boutique db.allocations held
