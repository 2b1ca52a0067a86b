-- ===== src/World.antt =====
-- What the services work on: the tables, the outside world that answers them, and actions.
--
-- `World.tick` counts the questions put to the outside world, and `Env` answers the question that
-- has a given number: the clock, random identifiers, the payment providers, Telegram, and whether a
-- Redis lock is still held by somebody else at the end of the waiting window.
pub mod Actions
pub mod Schema
pub mod Outside
pub mod Inversion
unfoldable pub use Actions.*
unfoldable pub use Schema.*
unfoldable pub use Outside.*
