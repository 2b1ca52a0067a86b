-- ===== src/Lib.antt =====
-- A model of the shop's backend (backend/app) and proofs about it.
--
-- The program sells digital goods through Telegram. Buyers open a product's card by a deep link, pay an
-- invoice in Telegram Stars or in USDT through Crypto Pay, and get a link. Three tables (products,
-- users, purchases) in PostgreSQL hold everything that lasts; Redis holds locks.
--
-- How it is modelled
--   An operation is a `Run A` (World/Actions): it takes a `World` and gives a value or an `Error`, and
--   the world it leaves. The world has the tables, a counter of the questions put to the outside, the
--   messages that reached a buyer, the invoices asked for, and the pauses between attempts. An exception
--   keeps what was written before it, unless a `unit_of_work` rolls it back, as in
--   backend/app/infrastructure/db/uow.py.
--   What is not in the repository is a parameter, a field of `Env` (World/Outside): the clock, `uuid4`,
--   whether a lock is busy, what Telegram and Crypto Pay answer, and PostgreSQL's verdict on a row. The
--   answers may depend on the number of the question, so no two of them need agree. What is relied on of
--   PostgreSQL is `Enforces`: a row that it accepts meets each constraint, and the constraint that it
--   blames does not hold. World/Schema says when a constraint holds, from
--   backend/app/infrastructure/db/models.py, and `unstorable` which products have a value that a column
--   or the driver refuses. A price in USDT is rounded to cents as it is stored.
--   Operations run one after another; a lock that is busy stands for the other processes. A UUID, a
--   Telegram id, a datetime (in microseconds) and a Decimal (in millionths) are natural numbers. Python
--   ints do not wrap, so no width is modelled.
--
-- Files
--   Domain     backend/app/domain: enums, entities, commands, slugs, payments, locks
--   Errors     backend/app/core/exceptions.py
--   Texts      Python's str.strip and urlparse, and which slugs and links pass them
--   World      backend/app/infrastructure/db/{uow,models}.py, and the outside
--   Repository backend/app/infrastructure/db/repositories/{purchases,products,users}.py
--   Services   backend/app/services/{purchases,delivery,checkout,products}.py
--   Catalog    how creating and editing a product ends
--   Api        backend/app/api: the product, verify and resend endpoints, their bodies and statuses
--   Search     the search and the listings of the administrator, in backend/app/infrastructure/db, and
--              backend/app/domain/pagination.py
--   Dashboard  backend/app/services/stats.py and its queries
--   CryptoPay  backend/app/infrastructure/payments/cryptobot.py
--   Bot        backend/app/bot: handlers/payments.py, handlers/start.py, keyboards.py, webhooks.py, workers.py,
--              the throttle of middlewares.py, the texts of texts.py; and
--              backend/app/infrastructure/telegram/{errors,gateways}.py
--   Locks      backend/app/infrastructure/cache/locks.py
--   Requests   what can be asked of the services, as a sequence of requests
--   Sound      the invariant of the tables, and how every operation changes them
--   Delivery   the attempts to send a message, their pauses, and the refusals that end them
--   Payment    what confirming, settling, refunding and losing a payment leave behind
--   Admin      backend/app/services/auth.py, infrastructure/cache/rate_limit.py and the login
--              endpoint, with tokens and their revocation as parameters
--   Selling    what can be reserved and expires, the card, and the last check before a charge
--   Tests      a small shop, and each theorem at a concrete input
--
-- Loops and fuel
--   The loop of `_send_with_retries` is a recursion on the rounds that are left, `max_attempts` of them,
--   as in the source's `range`. The wait for a lock is a recursion on fuel, and Locks/Waiting shows how
--   much is enough. The batches of `fetch_states` have one round for each id, since a round takes at
--   least one id, and a client that walks the pages gets one page more than there are rows. The other
--   loops walk a list.
--
-- Not modelled
--   The refresh cookie and the shape of the answers of the admin API, the constant texts
--   of the bot, wiring, configuration, migrations and the web frontend: glue round libraries.
--   The comparison of letters in ILIKE, the order of texts in the database, `isdigit` and `int`, the
--   network locations that urlparse refuses, Redis, PyJWT, argon2, aiogram, HTTP and HMAC are
--   parameters. Logging has no effect here.
pub mod Base
pub mod Domain
pub mod Errors
pub mod World
pub mod Repository
pub mod Texts
pub mod Services
pub mod Catalog
pub mod Requests
pub mod Sound
pub mod Delivery
pub mod Payment
pub mod Locks
pub mod Bot
pub mod Selling
pub mod Admin
pub mod Api
pub mod Search
pub mod Dashboard
pub mod CryptoPay
pub mod Tests
