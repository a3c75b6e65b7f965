-- ===== src/Orders/Credit/Rates.antt =====
-- The commission that the seller's plan gives.
use afrique_os.Common.{
  ℕ, ◌≤◌, ◌≡◌, Bool, true, List, [], ◌∷◌, ◌==◌, any, All, All-map, any-false_both, All-intro,
  any-false, arith, inl, inr, Bool-cases, ◌⊎◌,
}
use afrique_os.Database.Enums.{Plan, is_enterprise, is_business}
use afrique_os.Database.Rows.{Boutique}
use afrique_os.Orders.Credit.{plan_of}

-- The rate that a shop's own plan would give.
abbrev pub plan_rate : Plan → ℕ
plan_rate Plan.enterprise = 150
plan_rate Plan.business = 200
plan_rate _ = 500

any_found :
    (p q : Boutique → Bool) (shops : List Boutique)
    → ((s : Boutique) → p s ≡ true → q s ≡ true)
    → any p shops ≡ true
    → any q shops ≡ true
any_found p q [] step h = cc
any_found p q (s ∷ shops) step h = ground (arith, step s, any_found p q shops step)

-- No shop of the list has a plan with a lower rate.
pub plan_of-le : (shops : List Boutique) → All (λ s. (plan_of shops).1 ≤ plan_rate s.plan) shops
unfolding plan_of
plan_of-le shops = elim (Bool-cases (any (λ b. is_enterprise b.plan) shops)) [
  | inl e ↦ rw e (All-intro shops λ s. ground arith)
  | inr e ↦ elim (Bool-cases (any (λ b. is_business b.plan) shops)) [
    | inl b ↦ rw (e, b) (All-map shops (λ s n. ground arith) (any-false _ shops e))
    | inr b ↦ rw (e, b) (All-map shops (λ s n. ground arith) (any-false_both _ _ shops e b))
  ]
]

-- The rate is the default, or that of some shop of the list.
pub plan_of_attained :
    (shops : List Boutique)
    → ((plan_of shops).1 ≡ 500) ⊎ (any (λ s. (plan_of shops).1 == plan_rate s.plan) shops ≡ true)
unfolding plan_of
plan_of_attained shops = elim (Bool-cases (any (λ b. is_enterprise b.plan) shops)) [
  | inl e ↦ inr (rw e (any_found _ _ shops (λ s h. ground arith) e))
  | inr e ↦ elim (Bool-cases (any (λ b. is_business b.plan) shops)) [
    | inl b ↦ inr (rw (e, b) (any_found _ _ shops (λ s h. ground arith) b))
    | inr b ↦ inl (rw (e, b))
  ]
]
