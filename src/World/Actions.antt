-- ===== src/World/Actions.antt =====
-- Actions over the world: backend/app/domain/uow.py and backend/app/infrastructure/db/uow.py.
use tg_bot.Base.{ℕ, ◌+◌, Bool, Option, none, some, List, [], ◌∷◌, if◌then◌else◌}
use tg_bot.Errors.{Error, multiple_results}
use tg_bot.Domain.{Product, User, Purchase, DeliveryMessage, InvoiceRequest}

-- The three tables. SQL gives rows no order; the newest version of a row stands first.
pub record Db : Type 0 where
  pub products : List Product
  pub users : List User
  pub purchases : List Purchase

-- `outbox` holds the messages that reached a buyer, the last one first, `invoices` what was asked of
-- a payment provider, and `sleeps` the pauses between attempts.
pub record World : Type 0 where
  pub db : Db
  pub tick : ℕ
  pub outbox : List DeliveryMessage
  pub invoices : List InvoiceRequest
  pub sleeps : List ℕ

pub data Result {ℓ} (A : Type ℓ) : Type ℓ where
  ok : A → Result A
  err : Error → Result A

-- An exception leaves behind what was written before it.
abbrev pub Run : Type 0 → Type 0
Run A = World → Result A × World

module _ {A : Type 0} where
  unfoldable pub pure : A → Run A
  pure a w = (ok a, w)

  unfoldable pub raise : Error → Run A
  raise e w = (err e, w)

  unfoldable pub lift : Result A → Run A
  lift r w = (r, w)

  unfoldable pub gets : (World → A) → Run A
  gets f w = (ok (f w), w)

  unfoldable pub or_raise : Error → Option A → Run A
  unfolding pure raise
  or_raise e none = raise e
  or_raise e (some a) = pure a

  -- One question to the outside world.
  unfoldable pub ask : (ℕ → A) → Run A
  ask answer w = (ok (answer w.tick), record w { tick = w.tick + 1 })

  -- `scalar_one_or_none()`
  abbrev pub one_or_none : List A → Result (Option A)
  one_or_none [] = ok none
  one_or_none (a ∷ []) = ok (some a)
  one_or_none (a ∷ b ∷ _) = err multiple_results

  -- an `except` clause that raises another error in its place
  abbrev pub raising : (Error → Error) → Result A × World → Result A × World
  raising f (ok a, w) = (ok a, w)
  raising f (err e, w) = (err (f e), w)

  unfoldable pub translating : (Error → Error) → Run A → Run A
  translating f m w = raising f (m w)

  abbrev pub close : Db → Result A × World → Result A × World
  close before (ok a, w) = (ok a, w)
  close before (err e, w) = (err e, record w { db = before })

  -- `async with self.uow_factory() as uow`: commit at the end, roll back on any exception
  unfoldable pub unit_of_work : Run A → Run A
  unit_of_work body w = close w.db (body w)

module _ {A : Type 0} where
  abbrev pub caught : (Error → Run A) → Result A × World → Result A × World
  caught handler (ok a, w) = (ok a, w)
  caught handler (err e, w) = handler e w

  -- `try` with its `except` clauses, which raise again what they do not handle
  unfoldable pub catching : (Error → Run A) → Run A → Run A
  catching handler body w = caught handler (body w)

unfoldable pub raise_if : Bool → Error → Run (Unit {0})
raise_if c e w = (if c then err e else ok tt, w)

module _ {A B : Type 0} where
  abbrev pub proceed : (A → Run B) → Result A × World → Result B × World
  proceed f (ok a, w) = f a w
  proceed f (err e, w) = (err e, w)

module _ {A B : Type 0} where
  -- what may raise, and then what follows
  abbrev pub then_on : Result A → (A → Result B) → Result B
  then_on (ok a) f = f a
  then_on (err e) f = err e

infixl 5 ◌>>=◌ ◌>>◌
-- Opening this opens the plain actions too.
unfoldable pub ◌>>=◌ : {A B : Type 0} → Run A → (A → Run B) → Run B
unfolding pure raise lift gets or_raise ask translating unit_of_work raise_if catching
◌>>=◌ m f w = proceed f (m w)

abbrev pub ◌>>◌ : {A B : Type 0} → Run A → Run B → Run B
m >> n = m >>= λ _. n
