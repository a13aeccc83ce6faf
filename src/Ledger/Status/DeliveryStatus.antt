-- ===== src/Ledger/Status/DeliveryStatus.antt =====
-- The values of the column codex_interactions.delivery_status, and the tests of it that
-- runtime/ledger.py makes.
use multiverse.Base.{Bool, true, false}

pub data DeliveryStatus : Type 0 where
  not_sent pending sent confirmed : DeliveryStatus

-- `delivery_status IN ('pending', 'sent')`
abbrev pub is_under_way : DeliveryStatus → Bool
is_under_way pending = true
is_under_way sent = true
is_under_way _ = false

-- `delivery_status in {"sent", "confirmed"}`
abbrev pub is_sent : DeliveryStatus → Bool
is_sent sent = true
is_sent confirmed = true
is_sent _ = false
