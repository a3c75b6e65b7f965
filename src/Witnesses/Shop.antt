-- ===== src/Witnesses/Shop.antt =====
-- A small database: a shop on the business plan with one product, a buyer, an order that waits for
-- its payment and one that was cancelled. The rounding is to the nearest hundredth, halves up.
use afrique_os.Common.{ℕ, true, none, some, [], ◌∷◌}
use afrique_os.Common.Int.{ℤ, pos, ◌+ℤ◌, ◌*ℕ◌, floor_div}
use afrique_os.Database.Enums.{
  Role, UserStatus, BoutiqueStatus, VerificationStatus, OrderStatus, PaymentMethod, Plan,
  BeneficiaryType, SettlementStatus,
}
use afrique_os.Database.Rows.{Text, User, Boutique, Product, Order, OrderItem, Allocation, Db}

abbrev pub to_cents : ℤ → ℕ → ℤ
to_cents gross rate = floor_div (gross *ℕ rate +ℤ pos 5000) 10000

abbrev pub phone : Text
phone = 48 ∷ 55 ∷ 48 ∷ 56 ∷ []

abbrev pub buyer : User
buyer = record {
  id = 1;
  email = 1;
  password = none;
  role = Role.client;
  status = UserStatus.active;
  points_balance = pos 500;
  referred_by_id = none;
  refresh_token_hash = none;
}

abbrev pub shop : Boutique
shop = record {
  id = 10;
  owner_id = 2;
  status = BoutiqueStatus.active;
  verification_status = VerificationStatus.verified;
  plan = Plan.business;
  balance = pos 1000000;
}

abbrev pub bag : Product
bag = record { id = 100; boutique_id = 10; is_active = true; price = pos 250000; stock = 5 }

abbrev pub bag_item : OrderItem
bag_item = record {
  product_id = some 100;
  variant_id = none;
  quantity = 2;
  unit_price = pos 250000;
}

abbrev pub waiting : Order
waiting = record {
  id = 1000;
  reference = 77;
  boutique_id = 10;
  user_id = some 1;
  customer_phone = phone;
  status = OrderStatus.pending;
  payment_method = PaymentMethod.mobile_money;
  points_used = pos 100;
  payment_ref = none;
  paid_at = none;
  cancellation_reason = none;
  delivery_contact = none;
  delivery_price = pos 0;
  total = pos 490000;
  commission_rate = none;
  commission_amount = none;
  net_amount = none;
  plan_at_purchase = none;
  items = bag_item ∷ [];
}

abbrev pub cancelled_order : Order
cancelled_order = record waiting { id = 1001; reference = 78; status = OrderStatus.cancelled }

abbrev pub paid_order : Order
paid_order = record waiting { id = 1002; reference = 79; status = OrderStatus.paid }

abbrev pub held_part : Allocation
held_part = record {
  id = 5000;
  order_id = 1002;
  shipment_id = none;
  beneficiary_type = BeneficiaryType.seller_boutique;
  beneficiary_id = 10;
  gross_amount = pos 300000;
  commission_rate = 200;
  commission_amount = pos 6000;
  net_amount = pos 294000;
  status = SettlementStatus.awaiting_delivery_verification;
  eligible_for_release_at = none;
  released_at = none;
}

abbrev pub db : Db
db = record {
  users = buyer ∷ [];
  boutiques = shop ∷ [];
  products = bag ∷ [];
  variants = [];
  conversations = [];
  orders = waiting ∷ cancelled_order ∷ paid_order ∷ [];
  points = [];
  allocations = held_part ∷ [];
  shipments = [];
  missions = [];
  legs = [];
  evidences = [];
  events = [];
  couriers = [];
  agencies = [];
  memberships = [];
  delivery_settings = none;
  messages = [];
  accesses = [];
  disputes = [];
  refunds = [];
  withdrawals = [];
  otp_codes = [];
  plans = [];
  subscriptions = [];
  keys = [];
  effects = [];
}
