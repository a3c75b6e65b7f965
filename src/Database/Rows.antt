-- ===== src/Database/Rows.antt =====
-- The rows of backend/prisma/schema.prisma, with the columns that the modelled services read or
-- write. Identifiers, references and hashes are only compared, so they are numbers; times are
-- milliseconds; a Decimal(…, 2) is an integer of hundredths; a text is its code units.
use afrique_os.Common.{ℕ, Bool, Option, List}
use afrique_os.Common.Int.{ℤ}
use afrique_os.Database.Enums.{
  Role, UserStatus, BoutiqueStatus, VerificationStatus, OrderStatus, PaymentMethod, RefundStatus,
  Plan, PointReason, BeneficiaryType, SettlementStatus, ShipmentStatus, DisputeScope, DisputeStatus,
  MissionStatus, DispatchMode, DeliveryMode, AgencyStatus, CourierType, CourierStatus,
  MembershipStatus, LegType, LegStatus, HandoverStep, OtpPurpose,
}

abbrev pub Text : Type 0
Text = List ℕ

pub record User : Type 0 where
  pub id : ℕ
  pub email : ℕ
  pub password : Option ℕ
  pub role : Role
  pub status : UserStatus
  pub points_balance : ℤ
  pub referred_by_id : Option ℕ
  pub refresh_token_hash : Option ℕ

pub record Boutique : Type 0 where
  pub id : ℕ
  pub owner_id : ℕ
  pub status : BoutiqueStatus
  pub verification_status : VerificationStatus
  pub plan : Plan
  pub balance : ℤ

pub record Product : Type 0 where
  pub id : ℕ
  pub boutique_id : ℕ
  pub is_active : Bool
  pub price : ℤ
  pub stock : ℕ

pub record Variant : Type 0 where
  pub id : ℕ
  pub product_id : ℕ
  pub price_delta : Option ℤ
  pub stock : ℕ

-- A conversation of a buyer with a shop, or, where it has a courier, of a buyer with that courier.
pub record Conversation : Type 0 where
  pub id : ℕ
  pub boutique_id : ℕ
  pub user_id : Option ℕ
  pub customer_phone : Text
  pub product_id : Option ℕ
  pub agreed_price : Option ℤ
  pub courier_user_id : Option ℕ
  pub order_id : Option ℕ

pub record OrderItem : Type 0 where
  pub product_id : Option ℕ
  pub variant_id : Option ℕ
  pub quantity : ℕ
  pub unit_price : ℤ

pub record Order : Type 0 where
  pub id : ℕ
  pub reference : ℕ
  pub boutique_id : ℕ
  pub user_id : Option ℕ
  pub customer_phone : Text
  pub status : OrderStatus
  pub payment_method : PaymentMethod
  pub points_used : ℤ
  pub payment_ref : Option ℕ
  pub paid_at : Option ℕ
  pub cancellation_reason : Option Text
  pub delivery_contact : Option Text
  pub delivery_price : ℤ
  pub total : ℤ
  pub commission_rate : Option ℕ
  pub commission_amount : Option ℤ
  pub net_amount : Option ℤ
  pub plan_at_purchase : Option Plan
  pub items : List OrderItem

pub record PointTransaction : Type 0 where
  pub user_id : ℕ
  pub amount : ℤ
  pub reason : PointReason
  pub order_id : ℕ

pub record Allocation : Type 0 where
  pub id : ℕ
  pub order_id : ℕ
  pub shipment_id : Option ℕ
  pub beneficiary_type : BeneficiaryType
  pub beneficiary_id : ℕ
  pub gross_amount : ℤ
  pub commission_rate : ℕ
  pub commission_amount : ℤ
  pub net_amount : ℤ
  pub status : SettlementStatus
  pub eligible_for_release_at : Option ℕ
  pub released_at : Option ℕ

pub record Shipment : Type 0 where
  pub id : ℕ
  pub order_id : ℕ
  pub boutique_id : ℕ
  pub customer_user_id : Option ℕ
  pub status : ShipmentStatus
  pub delivery_mode : DeliveryMode
  pub dispatch_mode : Option DispatchMode
  pub quoted_fee : ℤ
  pub assigned_agency_id : Option ℕ
  pub assigned_courier_id : Option ℕ
  pub dispatched_at : Option ℕ
  pub delivery_code_hash : Option ℕ
  pub delivery_code_expires_at : Option ℕ
  pub delivery_code_attempts : ℕ
  pub delivery_code_locked_until : Option ℕ
  pub guest_tracking_token_hash : Option ℕ
  pub picked_up_at : Option ℕ
  pub arrived_at_station_at : Option ℕ
  pub delivered_verified_at : Option ℕ
  pub conformity_deadline_at : Option ℕ
  pub buyer_accepted_at : Option ℕ

pub record Mission : Type 0 where
  pub id : ℕ
  pub shipment_id : ℕ
  pub leg_id : Option ℕ
  pub mission_mode : DispatchMode
  pub status : MissionStatus
  pub agency_id : Option ℕ
  pub courier_id : Option ℕ
  pub requested_courier_id : Option ℕ
  pub agency_approved_preferred : Option Bool
  pub agreed_fee : ℤ
  pub commission_rate : ℕ
  pub commission : ℤ
  pub net_payout : ℤ
  pub is_external_payment : Bool
  pub expires_at : Option ℕ
  pub accepted_at : Option ℕ
  pub picked_up_at : Option ℕ
  pub completed_at : Option ℕ

-- The legs of a shipment stand in the table in their sequence.
pub record Leg : Type 0 where
  pub id : ℕ
  pub shipment_id : ℕ
  pub leg_type : LegType
  pub status : LegStatus
  pub arrived_at : Option ℕ

pub record Evidence : Type 0 where
  pub shipment_id : ℕ
  pub step : HandoverStep
  pub is_verified : Bool

-- An event names its kind, and the states before and after of what it is about.
pub data EventKind : Type 0 where
  handover : HandoverStep → EventKind
  delivery_verified buyer_accepted_conformity admin_payout_approved dispute_opened
        dispatched_personal_courier mission_offered_to_agency mission_published
        public_mission_accepted agency_assigned_courier shipment_created :
      EventKind

pub data EventState : Type 0 where
  no_state : EventState
  of_shipment : ShipmentStatus → EventState
  of_mission : MissionStatus → EventState
  of_settlement : SettlementStatus → EventState

pub record DeliveryEvent : Type 0 where
  pub shipment_id : ℕ
  pub kind : EventKind
  pub old_state : EventState
  pub new_state : EventState

pub record Courier : Type 0 where
  pub id : ℕ
  pub user_id : ℕ
  pub courier_type : CourierType
  pub verification_status : VerificationStatus
  pub status : CourierStatus
  pub active_agency_id : Option ℕ
  pub display_name : Text
  pub phone : Text
  pub balance : ℤ
  pub completed_missions : ℕ

pub record Agency : Type 0 where
  pub id : ℕ
  pub owner_id : ℕ
  pub verification_status : VerificationStatus
  pub status : AgencyStatus
  pub name : Text
  pub balance : ℤ
  pub completed_deliveries : ℕ

pub record Membership : Type 0 where
  pub agency_id : ℕ
  pub courier_id : ℕ
  pub status : MembershipStatus
  pub can_be_requested : Bool

-- The settings of the deliveries as they are stored: each may be missing.
pub record DeliverySettings : Type 0 where
  pub agency_rate : Option ℕ
  pub independent_rate : Option ℕ
  pub personal_rate : Option ℕ
  pub conformity_hours : Option ℕ
  pub manual_payout : Option Bool
  pub public_cod : Option Bool
  pub interurban_cod : Option Bool
  pub occasional_carrier : Option Bool

pub record Message : Type 0 where
  pub conversation_id : ℕ
  pub sender_id : ℕ
  pub from_courier : Bool

pub record Access : Type 0 where
  pub id : ℕ
  pub shipment_id : ℕ
  pub mission_id : ℕ
  pub conversation_id : ℕ
  pub customer_user_id : Option ℕ
  pub courier_user_id : ℕ
  pub is_active : Bool

pub record Dispute : Type 0 where
  pub id : ℕ
  pub shipment_id : ℕ
  pub scope : DisputeScope
  pub status : DisputeStatus
  pub seller_frozen : Bool
  pub delivery_frozen : Bool

pub record RefundRequest : Type 0 where
  pub id : ℕ
  pub order_id : ℕ
  pub client_id : ℕ
  pub boutique_id : ℕ
  pub status : RefundStatus

pub record Withdrawal : Type 0 where
  pub boutique_id : ℕ
  pub amount : ℤ

pub record OtpCode : Type 0 where
  pub id : ℕ
  pub identifier : ℕ
  pub purpose : OtpPurpose
  pub code_hash : ℕ
  pub attempts : ℕ
  pub expires_at : ℕ
  pub consumed_at : Option ℕ
  pub created_at : ℕ

-- What the services hand to the notification and messaging services and do not wait for.
pub data Effect : Type 0 where
  new_order_notice low_stock_notice cancellation_notice payment_notice : ℕ → Effect
  courier_message reminder_message : ℕ → Effect
  audit_log : ℕ → OrderStatus → OrderStatus → Effect
  otp_mail : ℕ → Effect

-- The answers that are kept under an idempotency key: that of a new order is the view of the order,
-- that of a webhook is its status.
pub data Body : Type 0 where
  order_answer : Order → Body
  ignored order_paid_success order_already_paid subscription_activated : Body

pub record IdempotencyKey : Type 0 where
  pub key : ℕ
  pub path : ℕ
  pub status_code : ℕ
  pub body : Body
  pub expires_at : ℕ

pub record PlanRow : Type 0 where
  pub slug : Plan
  pub price : ℤ
  pub is_active : Bool
  pub sort_order : ℕ

-- The plan of a subscription is named by its slug, which is unique.
pub record Subscription : Type 0 where
  pub boutique_id : ℕ
  pub plan : Plan
  pub is_active : Bool
  pub price : ℤ
  pub starts_at : ℕ
  pub current_period_start : ℕ
  pub current_period_end : Option ℕ
  pub cancelled_at : Option ℕ

pub record Db : Type 0 where
  pub users : List User
  pub boutiques : List Boutique
  pub products : List Product
  pub variants : List Variant
  pub conversations : List Conversation
  pub orders : List Order
  pub points : List PointTransaction
  pub allocations : List Allocation
  pub shipments : List Shipment
  pub missions : List Mission
  pub legs : List Leg
  pub evidences : List Evidence
  pub events : List DeliveryEvent
  pub couriers : List Courier
  pub agencies : List Agency
  pub memberships : List Membership
  pub delivery_settings : Option DeliverySettings
  pub messages : List Message
  pub accesses : List Access
  pub disputes : List Dispute
  pub refunds : List RefundRequest
  pub withdrawals : List Withdrawal
  pub otp_codes : List OtpCode
  pub plans : List PlanRow
  pub subscriptions : List Subscription
  pub keys : List IdempotencyKey
  pub effects : List Effect
