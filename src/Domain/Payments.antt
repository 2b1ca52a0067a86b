-- ===== src/Domain/Payments.antt =====
-- backend/app/domain/payments.py and backend/app/domain/verification.py: what a provider says of an
-- invoice, and what a manual check reports.
use tg_bot.Base.{Bool, true, false, Option}
use tg_bot.Domain.Enums.{PaymentProvider, PurchaseStatus}
use tg_bot.Domain.Entities.{Uuid}
use tg_bot.Domain.Commands.{DeliveryResult}

pub data PaymentState : Type 0 where
  pending paid expired : PaymentState

pub data VerificationOutcome : Type 0 where
  already_delivered delivered_now settled_and_delivered delivery_failed : VerificationOutcome
  still_unpaid expired_unpaid no_provider_evidence refunded : VerificationOutcome
  provider_unavailable : VerificationOutcome

-- `VerificationOutcome.is_resolved`
abbrev pub is_resolved : VerificationOutcome → Bool
is_resolved already_delivered = true
is_resolved delivered_now = true
is_resolved settled_and_delivered = true
is_resolved _ = false

pub record VerificationReport : Type 0 where
  pub purchase_id : Uuid
  pub provider : PaymentProvider
  pub outcome : VerificationOutcome
  pub status_before : PurchaseStatus
  pub status_after : PurchaseStatus
  pub provider_state : Option PaymentState
  pub delivery : Option DeliveryResult
