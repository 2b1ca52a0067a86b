-- ===== src/Domain.antt =====
-- backend/app/domain: the shop's enumerations, entities, commands and rules.
pub mod Enums
pub mod Entities
pub mod Commands
pub mod Payments
pub mod Slug
pub mod Locks
unfoldable pub use Enums.*
unfoldable pub use Entities.*
unfoldable pub use Commands.*
unfoldable pub use Locks.*
pub use Payments.{PaymentState, VerificationOutcome, VerificationReport, is_resolved}
