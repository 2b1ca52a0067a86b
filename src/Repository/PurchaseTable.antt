-- ===== src/Repository/PurchaseTable.antt =====
-- backend/app/infrastructure/db/repositories/purchases.py, without the search of the admin panel.
use tg_bot.Base.{
  ℕ, String, Bool, false, not, ◌&&◌, Option, none, some, List, [], ◌∷◌, map, length, take, select,
  find, is_some, or_else, ltb, leb, ◌==◌, str_eq, if◌then◌else◌,
}
use tg_bot.Errors.{
  Error, Constraint, integrity, conflict, duplicate_purchase, purchase_not_found,
  uq_purchases_user_product_paid, uq_purchases_provider_external_id,
  uq_purchases_telegram_charge_id,
}
use tg_bot.Domain.{
  Uuid, DateTime, PaymentProvider, pending, paid, delivered, refunded, expired, is_pending,
  is_delivered, is_refunded, grants_access, same_provider, Purchase, grants, PurchaseDraft,
}
use tg_bot.World.{
  Env, Run, ok, err, ◌>>=◌, ◌>>◌, pure, raise, lift, gets, or_raise, one_or_none, translating, ask,
  has_id,
}

-- `if text` of an optional string: neither None nor empty
abbrev pub truthy : Option String → Bool
truthy none = false
truthy (some s) = not (str_eq s "")

-- the rows other than the one with this id
abbrev pub without : Uuid → List Purchase → List Purchase
without id = select (λ q. not (q.id == id))

-- `SqlAlchemyPurchaseRepository._translate`
unfoldable pub translate : Error → Error
translate (integrity uq_purchases_user_product_paid) = duplicate_purchase
translate (integrity uq_purchases_provider_external_id) = conflict
translate (integrity uq_purchases_telegram_charge_id) = conflict
translate e = e

abbrev pub matches_invoice : PaymentProvider → String → Purchase → Bool
matches_invoice provider external_id p =
    same_provider p.provider provider && str_eq p.external_id external_id

abbrev pub matches_charge : String → Purchase → Bool
matches_charge charge p = elim p.telegram_charge_id [ none ↦ false | some c ↦ str_eq c charge ]

abbrev pub matches_owner : ℕ → Uuid → Purchase → Bool
matches_owner user_id product_id p = p.user_id == user_id && p.product_id == product_id && grants p

unfoldable pub get : Uuid → Run (Option Purchase)
get id = gets (λ w. find (has_id id) w.db.purchases)

unfoldable pub get_by_external_id : PaymentProvider → String → Run (Option Purchase)
get_by_external_id provider external_id w =
    lift (one_or_none (select (matches_invoice provider external_id) w.db.purchases)) w

unfoldable pub get_by_charge_id : String → Run (Option Purchase)
get_by_charge_id charge w = lift (one_or_none (select (matches_charge charge) w.db.purchases)) w

unfoldable pub find_access_granting : ℕ → Uuid → Run (Option Purchase)
find_access_granting user_id product_id w =
    lift (one_or_none (select (matches_owner user_id product_id) w.db.purchases)) w

-- `_lock`: SELECT ... FOR UPDATE
unfoldable pub lock : Uuid → Run Purchase
lock id w = or_raise purchase_not_found (find (has_id id) w.db.purchases) w

-- one row is due
abbrev pub stale : DateTime → Purchase → Bool
stale older_than p = is_pending p.status && ltb p.created_at older_than

abbrev pub expire : DateTime → Purchase → Purchase
expire older_than p = record p { status = if stale older_than p then expired else p.status }

-- The number of rows that the UPDATE returns.
unfoldable pub expire_pending : DateTime → Run ℕ
expire_pending older_than w = (
  ok (length (select (stale older_than) w.db.purchases)),
  record w { db = record (w.db) { purchases = map (expire older_than) w.db.purchases } },
)

-- ORDER BY created_at ASC
unfoldable pub insert_by_age : Purchase → List Purchase → List Purchase
insert_by_age p [] = p ∷ []
insert_by_age p (q ∷ qs) =
    if leb p.created_at q.created_at then p ∷ q ∷ qs else q ∷ insert_by_age p qs

unfoldable pub by_age : List Purchase → List Purchase
by_age [] = []
by_age (p ∷ ps) = insert_by_age p (by_age ps)

abbrev awaits : PaymentProvider → Purchase → Bool
awaits provider p = same_provider p.provider provider && is_pending p.status

unfoldable pub list_pending : PaymentProvider → ℕ → Run (List Purchase)
list_pending provider limit =
    gets (λ w. take limit (by_age (select (awaits provider) w.db.purchases)))

-- what a flush does with PostgreSQL's verdict on a row beside the given others
abbrev pub stored : List Purchase → Purchase → Option Constraint → Run (Unit {0})
stored rows p (some c) w = (err (integrity c), w)
stored rows p none w = (ok tt, record w { db = record (w.db) { purchases = p ∷ rows } })

module _ (env : Env) where
  -- a flush of one row beside the given others
  unfoldable pub write : (List Purchase → List Purchase) → Purchase → Run (Unit {0})
  write others p w =
      let rows = others w.db.purchases in stored rows p (env.purchase_violation w.db rows p) w

  -- UPDATE of a loaded row
  unfoldable pub update : Purchase → Run Purchase
  update p = do write (without p.id) p; pure p

  -- INSERT
  unfoldable pub insert : Purchase → Run Purchase
  insert p = do write (λ ps. ps) p; pure p

  -- `moment or datetime.now(UTC)`
  unfoldable pub moment_or_now : Option DateTime → Run DateTime
  moment_or_now none = ask env.clock
  moment_or_now (some t) = pure t

  unfoldable pub create : PurchaseDraft → Run Purchase
  create draft = do
    id ← ask env.uuid4
    created_at ← ask env.clock
    now ← ask env.clock
    let status = or_else draft.status pending
    translating translate (
        insert (record {
          id = id;
          user_id = draft.user_id;
          product_id = draft.product_id;
          provider = draft.provider;
          status = status;
          amount = draft.amount;
          currency = draft.currency;
          external_id = draft.external_id;
          telegram_charge_id = none;
          delivered_url = none;
          created_at = created_at;
          paid_at = if grants_access status then some now else none;
          delivered_at = none;
        }))

  -- the replay branch of `mark_paid`
  unfoldable pub note_charge : Purchase → Option String → Run Purchase
  note_charge p charge =
      if truthy charge && not (is_some p.telegram_charge_id)
      then update (record p { telegram_charge_id = charge })
      else pure p

  unfoldable pub pay : Purchase → DateTime → Option String → Run Purchase
  pay p moment charge = translating translate (
      update (record p {
        status = paid;
        paid_at = some moment;
        telegram_charge_id = if truthy charge then charge else p.telegram_charge_id;
      }))

  unfoldable pub mark_paid : Uuid → Option DateTime → Option String → Run Purchase
  mark_paid id paid_at charge = do
    p ← lock id
    (if grants p
        then note_charge p charge
        else if is_refunded p.status
        then raise conflict
        else do moment ← moment_or_now paid_at; pay p moment charge)

  unfoldable pub mark_delivered : Uuid → String → Option DateTime → Run Purchase
  mark_delivered id delivered_url delivered_at = do
    p ← lock id
    (if is_delivered p.status then pure p else if not (grants p) then raise conflict else do
      moment ← moment_or_now delivered_at
      update (record p {
        status = delivered;
        delivered_url = some delivered_url;
        delivered_at = some moment;
      }))

  unfoldable pub mark_refunded : Uuid → Run Purchase
  mark_refunded id = do
    p ← lock id
    if is_refunded p.status then pure p else update (record p { status = refunded })
