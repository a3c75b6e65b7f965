-- ===== src/Orders/View.antt =====
-- toOrderView, toFrontStatus and toFrontPayment of backend/src/orders/orders.service.ts.
use afrique_os.Common.{ℕ, ◌+◌, Option, List, [], ◌∷◌}
use afrique_os.Common.Int.{ℤ}
use afrique_os.Database.Enums.{OrderStatus, PaymentMethod}
use afrique_os.Database.Rows.{Text, OrderItem, Order}

pub data FrontStatus : Type 0 where
  pending paid shipping delivered cancelled : FrontStatus

pub data FrontPayment : Type 0 where
  mobile_money cash_on_delivery card whatsapp_direct paydunya : FrontPayment

unfoldable pub to_front_status : OrderStatus → FrontStatus
to_front_status OrderStatus.pending = FrontStatus.pending
to_front_status OrderStatus.paid = FrontStatus.paid
to_front_status OrderStatus.whatsapp_confirmed = FrontStatus.paid
to_front_status OrderStatus.shipping = FrontStatus.shipping
to_front_status OrderStatus.delivered = FrontStatus.delivered
to_front_status OrderStatus.cancelled = FrontStatus.cancelled

unfoldable pub to_front_payment : PaymentMethod → FrontPayment
to_front_payment PaymentMethod.mobile_money = FrontPayment.mobile_money
to_front_payment PaymentMethod.cash_on_delivery = FrontPayment.cash_on_delivery
to_front_payment PaymentMethod.card = FrontPayment.card
to_front_payment PaymentMethod.whatsapp_direct = FrontPayment.whatsapp_direct
to_front_payment PaymentMethod.paydunya = FrontPayment.paydunya

-- The fields of the view that are computed or that a caller decides by; the texts are left out.
pub record OrderView : Type 0 where
  pub id : ℕ
  pub order_number : ℕ
  pub customer_phone : Text
  pub status : FrontStatus
  pub payment_method : FrontPayment
  pub payment_ref : Option ℕ
  pub cancellation_reason : Option Text
  pub quantity : ℕ
  pub total_price : ℤ
  pub items : List OrderItem
  pub delivery_price : ℤ

unfoldable pub total_quantity : List OrderItem → ℕ
total_quantity [] = 0
total_quantity (i ∷ items) = i.quantity + total_quantity items

unfoldable pub to_order_view : Order → OrderView
unfolding to_front_status to_front_payment total_quantity
to_order_view o = record {
  id = o.id;
  order_number = o.reference;
  customer_phone = o.customer_phone;
  status = to_front_status o.status;
  payment_method = to_front_payment o.payment_method;
  payment_ref = o.payment_ref;
  cancellation_reason = o.cancellation_reason;
  quantity = total_quantity o.items;
  total_price = o.total;
  items = o.items;
  delivery_price = o.delivery_price;
}
