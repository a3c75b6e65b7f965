-- ===== src/Delivery/Access.antt =====
-- activateConversationAccessInTx of backend/src/delivery/delivery.service.ts: the
-- conversation of a buyer with the courier of a mission.
use afrique_os.Common.{
  ℕ, Bool, true, ◌&&◌, Option, none, some, [], ◌∷◌, if◌then◌else◌, ◌==◌, any, is_id,
}
use afrique_os.Common.Tables.{find_first, update_many}
use afrique_os.Database.Rows.{Text, Conversation, Order, Shipment, Access, Db}
use afrique_os.Database.Action.{Action, pure, gets, modify, ◌>>=◌, ◌>>◌}

-- The thread of this courier with this buyer, or about this order where the buyer has no account.
abbrev pub is_thread : Shipment → ℕ → Conversation → Bool
is_thread s courier c = is_id c.courier_user_id courier && elim s.customer_user_id [
  | none ↦ is_id c.order_id s.order_id
  | some user ↦ is_id c.user_id user
]

abbrev phone_of : Option Order → Text
phone_of none = []
phone_of (some o) = o.customer_phone

unfoldable pub open_thread : Shipment → ℕ → ℕ → Option Conversation → Action ℕ
open_thread s courier new_id none = do
  order ← gets (λ db. find_first (λ o. o.id == s.order_id) db.orders)
  modify (λ db. record db {
    conversations =
        record {
          id = new_id;
          boutique_id = s.boutique_id;
          user_id = s.customer_user_id;
          customer_phone = phone_of order;
          product_id = none;
          agreed_price = none;
          courier_user_id = some courier;
          order_id = some s.order_id;
        }
        ∷ db.conversations;
  })
  pure new_id
open_thread s courier new_id (some c) = do
  modify (λ db. record db {
    conversations =
        update_many (λ x. x.id == c.id) (λ x. record x { order_id = some s.order_id })
          db.conversations;
  })
  pure c.id

abbrev pub is_access : ℕ → ℕ → Access → Bool
is_access mission conversation a = a.mission_id == mission && a.conversation_id == conversation

unfoldable pub upsert_access : Shipment → ℕ → ℕ → ℕ → ℕ → Db → Db
upsert_access s mission courier new_id conversation db =
    if any (is_access mission conversation) db.accesses
    then record db {
      accesses =
          update_many (is_access mission conversation) (λ a. record a { is_active = true })
            db.accesses;
    }
    else record db {
      accesses =
          record {
            id = new_id;
            shipment_id = s.id;
            mission_id = mission;
            conversation_id = conversation;
            customer_user_id = s.customer_user_id;
            courier_user_id = courier;
            is_active = true;
          }
          ∷ db.accesses;
    }

unfoldable pub activate_conversation_access : Shipment → ℕ → ℕ → ℕ → Action (Unit {0})
unfolding open_thread upsert_access
activate_conversation_access s mission courier new_id = do
  found ← gets (λ db. find_first (is_thread s courier) db.conversations)
  conversation ← open_thread s courier new_id found
  modify (upsert_access s mission courier new_id conversation)
