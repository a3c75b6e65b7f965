-- ===== src/Delivery/Quote.antt =====
-- calculateQuote of backend/src/delivery/delivery.service.ts. Fees are in
-- hundredths; the product of a fee and a size's factor is taken exactly. Communes are compared as the
-- numbers that stand for their names in lower case.
use afrique_os.Common.{
  ℕ, ◌≡◌, Bool, true, false, ◌||◌, Option, none, some, if◌then◌else◌, ◌==◌, arith,
}
use afrique_os.Common.Int.{ℤ, pos, ◌+ℤ◌, ◌-ℤ◌, ◌*ℕ◌, floor_div, max_ℤ, pos_part, negsuc, ◌≤ℤ◌}
use afrique_os.Database.Enums.{DeliveryMode, PackageSize, ZoneType}
use afrique_os.Delivery.Config.{or_else}

-- What the quote reads: the shop's city before the request's, the zones and the rate rule that the
-- database has for the two communes, and the commune's type in the built-in table.
pub record QuoteInput : Type 0 where
  pub origin : ℕ
  pub destination : ℕ
  pub mode : DeliveryMode
  pub size : Option PackageSize
  pub selected_pack : Option ℤ
  pub rule_price : Option ℤ
  pub table_type : Option ZoneType
  pub zone_type : Option ZoneType

pub record Quote : Type 0 where
  pub quoted : ℤ
  pub charged : ℤ
  pub subsidy : ℤ
  pub included : Bool
  pub interurban : Bool

abbrev is_seller_self : DeliveryMode → Bool
is_seller_self DeliveryMode.seller_self = true
is_seller_self _ = false

abbrev is_station_pickup : DeliveryMode → Bool
is_station_pickup DeliveryMode.station_pickup = true
is_station_pickup _ = false

abbrev is_interurban_station : DeliveryMode → Bool
is_interurban_station DeliveryMode.interurban_station = true
is_interurban_station _ = false

abbrev pub is_interurban_mode : DeliveryMode → Bool
is_interurban_mode DeliveryMode.interurban_station = true
is_interurban_mode DeliveryMode.interurban_home = true
is_interurban_mode _ = false

abbrev is_periurban : Option ZoneType → Bool
is_periurban (some ZoneType.periurban) = true
is_periurban _ = false

abbrev is_interurban_zone : Option ZoneType → Bool
is_interurban_zone (some ZoneType.interurban) = true
is_interurban_zone _ = false

unfoldable pub table_fee : QuoteInput → ℤ
table_fee q =
    if is_seller_self q.mode
    then or_else q.selected_pack (pos 100000)
    else if q.origin == q.destination
    then (if is_station_pickup q.mode then pos 70000 else pos 100000)
    else if is_periurban q.table_type
    then (if is_station_pickup q.mode then pos 100000 else pos 150000)
    else if is_interurban_station q.mode || is_station_pickup q.mode
    then pos 250000
    else pos 350000

unfoldable pub base_fee : QuoteInput → ℤ
unfolding table_fee
base_fee q = elim q.rule_price [ none ↦ table_fee q | some price ↦ price ]

-- Tenths.
abbrev size_multiplier : PackageSize → ℕ
size_multiplier PackageSize.large = 15
size_multiplier PackageSize.fragile = 13
size_multiplier _ = 10

-- To the nearest 50 francs, halves up.
unfoldable pub to_fifty : ℤ → ℕ → ℤ
to_fifty fee tenths = floor_div (fee *ℕ tenths +ℤ pos 25000) 50000 *ℕ 5000

abbrev is_zero : ℤ → Bool
is_zero (pos n) = n == 0
is_zero _ = false

unfoldable pub calculate_quote : QuoteInput → Quote
unfolding base_fee to_fifty
calculate_quote q =
    let quoted = to_fifty (base_fee q) (size_multiplier (or_else q.size PackageSize.standard)) in
    let charged = or_else q.selected_pack quoted in
    record {
      quoted = quoted;
      charged = charged;
      subsidy = max_ℤ (pos 0) (quoted -ℤ charged);
      included = elim q.selected_pack [ none ↦ false | some price ↦ is_zero price ];
      interurban = is_interurban_mode q.mode || is_interurban_zone q.zone_type;
    }

max_ℤ-zero : (a : ℤ) → max_ℤ (pos 0) a ≡ pos (pos_part a)
max_ℤ-zero a = ground arith

subsidy_bounds :
    (quoted charged : ℤ)
    → pos 0 ≤ℤ charged
    → pos 0 ≤ℤ quoted
    → (quoted ≤ℤ charged +ℤ max_ℤ (pos 0) (quoted -ℤ charged))
      × (max_ℤ (pos 0) (quoted -ℤ charged) ≤ℤ quoted)
unfolding ◌-ℤ◌ ◌+ℤ◌
subsidy_bounds (pos q) (pos c) h k = ground arith
subsidy_bounds (negsuc q) c h k = ground arith
subsidy_bounds q (negsuc c) h k = ground arith
