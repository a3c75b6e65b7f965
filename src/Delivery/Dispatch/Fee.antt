-- ===== src/Delivery/Dispatch/Fee.antt =====
-- The fee of a mission in backend/src/delivery/delivery.service.ts, and what its dispatch creates.
use afrique_os.Common.{ℕ, ◌+◌, ◌*◌, ◌/◌, ◌≤◌, ◌≡◌, arith}
use afrique_os.Common.Int.{pos, ◌+ℤ◌, ◌-ℤ◌, ◌*ℕ◌, max_ℤ, ◌≤ℤ◌}
use afrique_os.Delivery.Dispatch.{platform_commission, net_courier_payout}

-- In whole francs, at a rate of a hundred percent at most.
commission_below :
    (francs rate : ℕ) → rate ≤ 10000 → (francs * 100 * rate + 500000) / 1000000 ≤ francs
commission_below francs rate h = grind arith

pos_times : (n k : ℕ) → pos n *ℕ k ≡ pos (n * k)
unfolding ◌*ℕ◌
pos_times n k = ground arith

pos_plus : (a b : ℕ) → pos a +ℤ pos b ≡ pos (a + b)
unfolding ◌+ℤ◌
pos_plus a b = ground arith

commission_pos :
    (n rate : ℕ) → platform_commission (pos n) rate ≡ pos ((n * rate + 500000) / 1000000 * 100)
unfolding platform_commission
commission_pos n rate =
    rw (pos_times n rate, pos_plus (n * rate) 500000)
      (pos_times ((n * rate + 500000) / 1000000) 100)

left_over :
    (a b : ℕ)
    → b ≤ a
    → (max_ℤ (pos 0) (pos a -ℤ pos b) +ℤ pos b ≡ pos a) × (pos 0 ≤ℤ max_ℤ (pos 0) (pos a -ℤ pos b))
unfolding ◌+ℤ◌ ◌-ℤ◌
left_over a b h = ground arith

-- Of a fee in whole francs at a rate of a hundred percent at most, the commission and what the carrier
-- gets add up to the fee.
pub net_courier_payout-platform_commission :
    (francs rate : ℕ)
    → rate ≤ 10000
    → (net_courier_payout (pos (francs * 100)) rate +ℤ platform_commission (pos (francs * 100)) rate
        ≡ pos (francs * 100))
      × (pos 0 ≤ℤ net_courier_payout (pos (francs * 100)) rate)
unfolding net_courier_payout
net_courier_payout-platform_commission francs rate h =
    let below = commission_below francs rate h in
    rw (commission_pos (francs * 100) rate) (
      left_over (francs * 100) ((francs * 100 * rate + 500000) / 1000000 * 100)
        (omega (arith, below)))
