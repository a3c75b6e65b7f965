-- ===== src/Delivery/Config.antt =====
-- getDeliveryPlatformConfig, updateDeliveryPlatformConfig and DEFAULT_DELIVERY_PLATFORM_CONFIG of
-- backend/src/delivery/delivery.service.ts. A rate is in hundredths of a percent.
use afrique_os.Common.{ℕ, ◌≡◌, refl, Bool, true, false, Option, none, some}
use afrique_os.Database.Rows.{DeliverySettings, Db}
use afrique_os.Database.Action.{Action, gets, modify, pure, after, ◌>>=◌, ◌>>◌}

pub record DeliveryConfig : Type 0 where
  pub agency_rate : ℕ
  pub independent_rate : ℕ
  pub personal_rate : ℕ
  pub conformity_hours : ℕ
  pub manual_payout : Bool
  pub auto_payout : Bool
  pub public_cod : Bool
  pub interurban_cod : Bool
  pub occasional_carrier : Bool

abbrev pub default_config : DeliveryConfig
default_config = record {
  agency_rate = 1000;
  independent_rate = 1000;
  personal_rate = 0;
  conformity_hours = 24;
  manual_payout = true;
  auto_payout = false;
  public_cod = false;
  interurban_cod = false;
  occasional_carrier = true;
}

abbrev pub or_else {ℓ} : {A : Type ℓ} → Option A → A → A
or_else none d = d
or_else (some a) d = a

abbrev read_settings : Option DeliverySettings → DeliveryConfig
read_settings none = default_config
read_settings (some raw) = record {
  agency_rate = or_else raw.agency_rate default_config.agency_rate;
  independent_rate = or_else raw.independent_rate default_config.independent_rate;
  personal_rate = or_else raw.personal_rate default_config.personal_rate;
  conformity_hours = or_else raw.conformity_hours default_config.conformity_hours;
  manual_payout = or_else raw.manual_payout default_config.manual_payout;
  auto_payout = false;
  public_cod = or_else raw.public_cod default_config.public_cod;
  interurban_cod = or_else raw.interurban_cod default_config.interurban_cod;
  occasional_carrier = or_else raw.occasional_carrier default_config.occasional_carrier;
}

unfoldable pub get_config : Db → DeliveryConfig
get_config db = read_settings db.delivery_settings

-- The changes that a request gives; one of `none` leaves the setting.
abbrev pub change_config : DeliverySettings → DeliveryConfig → DeliveryConfig
change_config dto current = record {
  agency_rate = or_else dto.agency_rate current.agency_rate;
  independent_rate = or_else dto.independent_rate current.independent_rate;
  personal_rate = or_else dto.personal_rate current.personal_rate;
  conformity_hours = or_else dto.conformity_hours current.conformity_hours;
  manual_payout = or_else dto.manual_payout current.manual_payout;
  auto_payout = false;
  public_cod = or_else dto.public_cod current.public_cod;
  interurban_cod = or_else dto.interurban_cod current.interurban_cod;
  occasional_carrier = or_else dto.occasional_carrier current.occasional_carrier;
}

-- What is stored of a configuration.
abbrev write_settings : DeliveryConfig → DeliverySettings
write_settings c = record {
  agency_rate = some c.agency_rate;
  independent_rate = some c.independent_rate;
  personal_rate = some c.personal_rate;
  conformity_hours = some c.conformity_hours;
  manual_payout = some c.manual_payout;
  public_cod = some c.public_cod;
  interurban_cod = some c.interurban_cod;
  occasional_carrier = some c.occasional_carrier;
}

unfoldable pub update_config : DeliverySettings → Action DeliveryConfig
unfolding get_config
update_config dto = do
  current ← gets get_config
  modify (λ db. record db { delivery_settings = some (write_settings (change_config dto current)) })
  pure (change_config dto current)

-- What an update answers is what is read afterwards: the changes that were asked for on top of the
-- settings that were in force, and never an automatic payout.
pub get_config-update_config :
    (dto : DeliverySettings) (db : Db)
    → (get_config (after (update_config dto) db) ≡ change_config dto (get_config db))
      × ((get_config (after (update_config dto) db)).auto_payout ≡ false)
unfolding update_config
get_config-update_config dto db = (refl, refl)
