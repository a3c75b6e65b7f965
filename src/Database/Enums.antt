-- ===== src/Database/Enums.antt =====
-- The enumerations of backend/prisma/schema.prisma.
use mathlib.Core.Bool.{Bool, true, false, ◌||◌}

pub data Role : Type 0 where
  admin vendeur client : Role

pub data UserStatus : Type 0 where
  active blocked : UserStatus

pub data BoutiqueStatus : Type 0 where
  pending active suspended closed : BoutiqueStatus

pub data VerificationStatus : Type 0 where
  unverified pending verified rejected : VerificationStatus

pub data OrderStatus : Type 0 where
  pending paid whatsapp_confirmed shipping delivered cancelled : OrderStatus

pub data PaymentMethod : Type 0 where
  mobile_money cash_on_delivery card whatsapp_direct paydunya : PaymentMethod

pub data RefundStatus : Type 0 where
  pending vendor_replied reviewing approved rejected completed : RefundStatus

pub data Plan : Type 0 where
  starter pro business enterprise : Plan

pub data PointReason : Type 0 where
  spent_on_order cashback_purchase cashback_referral refund_on_order_cancel : PointReason

pub data BeneficiaryType : Type 0 where
  seller_boutique delivery_agency independent_courier platform_commission : BeneficiaryType

pub data SettlementStatus : Type 0 where
  pending_payment held_by_psp awaiting_delivery_verification awaiting_buyer_conformity
        eligible_for_release on_hold_dispute released_to_wallet externally_settled refunded
        cancelled :
      SettlementStatus

pub data ShipmentStatus : Type 0 where
  draft awaiting_preparation ready_for_dispatch awaiting_assignment assigned picked_up in_transit
        handover_pending arrived_at_station pickup_confirmation_pending
        delivery_pending_verification delivered_verified buyer_accepted failed_attempt returning
        returned lost cancelled under_review :
      ShipmentStatus

pub data DisputeScope : Type 0 where
  product_only delivery_only both : DisputeScope

pub data DisputeStatus : Type 0 where
  opened under_review resolved_refund_buyer resolved_release_seller resolved_release_courier
        resolved_split rejected :
      DisputeStatus

pub data MissionStatus : Type 0 where
  offered reserved assigned accepted collecting carrying handover_pending completed declined expired
        failed cancelled reassigned :
      MissionStatus

pub data LegType : Type 0 where
  collection interurban_transit last_mile station_pickup direct_local : LegType

pub data LegStatus : Type 0 where
  planned awaiting_assignment assigned in_progress handover_declared arrived_at_station completed
        failed cancelled :
      LegStatus

pub data HandoverStep : Type 0 where
  pickup_from_seller handover_to_carrier arrival_at_station pickup_from_station delivery_to_buyer
        buyer_conformity_confirmation :
      HandoverStep

pub data OtpPurpose : Type 0 where
  register reset_password : OtpPurpose

pub data DispatchMode : Type 0 where
  seller_personal_courier partner_agency public_pool : DispatchMode

pub data DeliveryMode : Type 0 where
  home seller_self station_pickup interurban_station interurban_home : DeliveryMode

pub data PackageSize : Type 0 where
  small standard large fragile : PackageSize

pub data ZoneType : Type 0 where
  urban periurban interurban : ZoneType

pub data AgencyStatus : Type 0 where
  pending active suspended closed : AgencyStatus

pub data CourierType : Type 0 where
  independent agency_member : CourierType

pub data CourierStatus : Type 0 where
  pending active suspended blocked : CourierStatus

pub data MembershipStatus : Type 0 where
  pending active suspended detached : MembershipStatus

-- The tests `=== X` that the services make.
abbrev pub is_pending : OrderStatus → Bool
is_pending OrderStatus.pending = true
is_pending _ = false

abbrev pub is_paid : OrderStatus → Bool
is_paid OrderStatus.paid = true
is_paid _ = false

abbrev pub is_cancelled : OrderStatus → Bool
is_cancelled OrderStatus.cancelled = true
is_cancelled _ = false

abbrev pub is_shipping : OrderStatus → Bool
is_shipping OrderStatus.shipping = true
is_shipping _ = false

abbrev pub is_delivered : OrderStatus → Bool
is_delivered OrderStatus.delivered = true
is_delivered _ = false

abbrev pub is_seller : BeneficiaryType → Bool
is_seller BeneficiaryType.seller_boutique = true
is_seller _ = false

abbrev pub is_courier : BeneficiaryType → Bool
is_courier BeneficiaryType.independent_courier = true
is_courier _ = false

abbrev pub is_agency : BeneficiaryType → Bool
is_agency BeneficiaryType.delivery_agency = true
is_agency _ = false

abbrev pub is_on_hold : SettlementStatus → Bool
is_on_hold SettlementStatus.on_hold_dispute = true
is_on_hold _ = false

abbrev pub is_refunded : SettlementStatus → Bool
is_refunded SettlementStatus.refunded = true
is_refunded _ = false

abbrev pub is_eligible : SettlementStatus → Bool
is_eligible SettlementStatus.eligible_for_release = true
is_eligible _ = false

abbrev pub is_enterprise : Plan → Bool
is_enterprise Plan.enterprise = true
is_enterprise _ = false

abbrev pub is_business : Plan → Bool
is_business Plan.business = true
is_business _ = false

abbrev pub is_verified : VerificationStatus → Bool
is_verified VerificationStatus.verified = true
is_verified _ = false

abbrev pub is_active_boutique : BoutiqueStatus → Bool
is_active_boutique BoutiqueStatus.active = true
is_active_boutique _ = false

abbrev pub is_blocked : UserStatus → Bool
is_blocked UserStatus.blocked = true
is_blocked _ = false

-- The money is still reserved, and not to be withdrawn.
abbrev pub is_held : SettlementStatus → Bool
is_held SettlementStatus.awaiting_delivery_verification = true
is_held SettlementStatus.awaiting_buyer_conformity = true
is_held SettlementStatus.on_hold_dispute = true
is_held _ = false

abbrev pub is_active_membership : MembershipStatus → Bool
is_active_membership MembershipStatus.active = true
is_active_membership _ = false

abbrev pub is_public_pool : DispatchMode → Bool
is_public_pool DispatchMode.public_pool = true
is_public_pool _ = false

abbrev pub is_offered : MissionStatus → Bool
is_offered MissionStatus.offered = true
is_offered _ = false

-- The money of a delivery: the courier's or the agency's.
abbrev pub is_delivery_part : BeneficiaryType → Bool
is_delivery_part b = is_courier b || is_agency b

abbrev pub is_delivered_verified : ShipmentStatus → Bool
is_delivered_verified ShipmentStatus.delivered_verified = true
is_delivered_verified _ = false

abbrev pub is_buyer_accepted : ShipmentStatus → Bool
is_buyer_accepted ShipmentStatus.buyer_accepted = true
is_buyer_accepted _ = false
