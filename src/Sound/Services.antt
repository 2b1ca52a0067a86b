-- ===== src/Sound/Services.antt =====
-- How the service operations change the tables, whether they return or raise, whatever the outside
-- world answers.
use tg_bot.Base.{◌≡◌, refl, ℕ, zero, suc, ◌+◌, String, Bool, Option, List}
use tg_bot.Domain.{
  Uuid, DateTime, PaymentProvider, Product, UserDraft, ProductDraft, ProductUpdate, DeliveryMessage,
  DeliveryResult,
}
use tg_bot.World.{Env, Enforces, Sending, accepted, transient, permanent, World, Run, ◌>>=◌}
use tg_bot.Repository.PurchaseTable
use tg_bot.Repository.CatalogTable
use tg_bot.Services.PurchaseService
use tg_bot.Services.ProductService
use tg_bot.Services.PurchaseService.{
  price, options, sellable, visit, open_card, remember_user, reserve, start_purchase, confirm,
  confirm_payment, mark_delivered, refund, refund_by_charge_id, expire_stale, get,
  product_for_checkout, find_by_invoice, find_owned, list_pending,
}
use tg_bot.Services.DeliveryService.{
  Context, load_context, outcome, send, sleep, follow, attempts_from, send_with_retries,
  record_delivery, hand_over, deliver, deliver_purchase, redeliver,
}
use tg_bot.Sound.Evolution.{
  Evolves-refl, Keeps, Keeps-bind, Keeps-pure, Keeps-unit_of_work, Keeps-ask, Keeps-lift,
  keeps_rules,
}
use tg_bot.Sound.Writes
use tg_bot.Sound.Expiry
use tg_bot.Sound.Catalog

-- The queries change nothing.
row_get-Keeps : (id : Uuid) → Keeps (PurchaseTable.get id)
unfolding PurchaseTable.get
row_get-Keeps id = search keeps_rules

invoice-Keeps :
    (provider : PaymentProvider) (ext : String)
    → Keeps (PurchaseTable.get_by_external_id provider ext)
unfolding PurchaseTable.get_by_external_id ◌>>=◌
invoice-Keeps provider ext = record { at = λ w. Evolves-refl w.db }

charge-Keeps : (charge : String) → Keeps (PurchaseTable.get_by_charge_id charge)
unfolding PurchaseTable.get_by_charge_id ◌>>=◌
charge-Keeps charge = record { at = λ w. Evolves-refl w.db }

owner-Keeps : (user : ℕ) (product : Uuid) → Keeps (PurchaseTable.find_access_granting user product)
unfolding PurchaseTable.find_access_granting ◌>>=◌
owner-Keeps user product = record { at = λ w. Evolves-refl w.db }

pending-Keeps :
    (provider : PaymentProvider) (limit : ℕ) → Keeps (PurchaseTable.list_pending provider limit)
unfolding PurchaseTable.list_pending
pending-Keeps provider limit = search keeps_rules

product_get-Keeps : (id : Uuid) → Keeps (CatalogTable.get id)
unfolding CatalogTable.get
product_get-Keeps id = search keeps_rules

slug-Keeps : (slug : String) (active : Bool) → Keeps (CatalogTable.get_by_slug slug active)
unfolding CatalogTable.get_by_slug ◌>>=◌
slug-Keeps slug active = record { at = λ w. Evolves-refl w.db }

user_get-Keeps : (id : ℕ) → Keeps (CatalogTable.get_user id)
unfolding CatalogTable.get_user
user_get-Keeps id = search keeps_rules

ruleset row_rules = (
  keeps_rules, row_get-Keeps, invoice-Keeps, charge-Keeps, owner-Keeps, pending-Keeps,
  product_get-Keeps, slug-Keeps, user_get-Keeps,
)

options-Keeps : (product : Product) (ps : List PaymentProvider) → Keeps (options product ps)
unfolding options
options-Keeps product List.[] = search row_rules
options-Keeps product (List.◌∷◌ p ps) =
    Keeps-bind _ _ (Keeps-bind _ _ (Keeps-lift _) (λ amount. Keeps-pure _))
      (λ o. Keeps-bind _ _ (options-Keeps product ps) (λ x. Keeps-pure _))

sellable-Keeps : (id : Uuid) → Keeps (sellable id)
unfolding sellable
sellable-Keeps id = search row_rules depth 9

pub get-Keeps : (id : Uuid) → Keeps (get id)
unfolding get
get-Keeps id = search row_rules

pub find_owned-Keeps : (user : ℕ) (product : Uuid) → Keeps (find_owned user product)
unfolding find_owned
find_owned-Keeps user product = search row_rules

pub find_by_invoice-Keeps :
    (provider : PaymentProvider) (ext : String) → Keeps (find_by_invoice provider ext)
unfolding find_by_invoice
find_by_invoice-Keeps provider ext = search row_rules

pub product_for_checkout-Keeps : (id : Uuid) → Keeps (product_for_checkout id)
unfolding product_for_checkout
product_for_checkout-Keeps id = search row_rules depth 9

pub list_pending-Keeps :
    (provider : PaymentProvider) (limit : ℕ) → Keeps (list_pending provider limit)
unfolding list_pending
list_pending-Keeps provider limit = search row_rules

pub load_context-Keeps : (id : Uuid) → Keeps (load_context id)
unfolding load_context
load_context-Keeps id = search row_rules depth 12

module _ (env : Env) (pg : Enforces env) where
  visit-Keeps : (profile : UserDraft) (slug : String) → Keeps (visit env profile slug)
  unfolding visit
  visit-Keeps profile slug = search (row_rules, Catalog.upsert-Keeps) depth 12

  pub open_card-Keeps : (profile : UserDraft) (slug : String) → Keeps (open_card env profile slug)
  unfolding open_card
  open_card-Keeps profile slug = search (row_rules, visit-Keeps, options-Keeps) depth 9

  reserve-Keeps :
      (user : ℕ) (product : Uuid) (provider : PaymentProvider) (ext : String)
      → Keeps (reserve env user product provider ext)
  unfolding reserve
  reserve-Keeps user product provider ext =
      search (row_rules, sellable-Keeps, Writes.create-Keeps env pg) depth 15

  pub start_purchase-Keeps :
      (user : ℕ) (product : Uuid) (provider : PaymentProvider) (ext : String)
      → Keeps (start_purchase env user product provider ext)
  unfolding start_purchase
  start_purchase-Keeps user product provider ext = search (row_rules, reserve-Keeps)

  confirm-Keeps :
      (provider : PaymentProvider) (ext : String) (charge : Option String) (t : Option DateTime)
      → Keeps (confirm env provider ext charge t)
  unfolding confirm
  confirm-Keeps provider ext charge t = search (row_rules, Writes.mark_paid-Keeps env pg) depth 9

  pub confirm_payment-Keeps :
      (provider : PaymentProvider) (ext : String) (charge : Option String) (t : Option DateTime)
      → Keeps (confirm_payment env provider ext charge t)
  unfolding confirm_payment
  confirm_payment-Keeps provider ext charge t = search (row_rules, confirm-Keeps)

  pub mark_delivered-Keeps : (id : Uuid) (url : String) → Keeps (mark_delivered env id url)
  unfolding mark_delivered
  mark_delivered-Keeps id url = search (row_rules, Writes.mark_delivered-Keeps env pg)

  pub refund-Keeps : (id : Uuid) → Keeps (refund env id)
  unfolding refund
  refund-Keeps id = search (row_rules, Writes.mark_refunded-Keeps env pg)

  pub refund_by_charge_id-Keeps : (charge : String) → Keeps (refund_by_charge_id env charge)
  unfolding refund_by_charge_id
  refund_by_charge_id-Keeps charge = search (row_rules, Writes.mark_refunded-Keeps env pg) depth 9

  pub expire_stale-Keeps : (now : Option DateTime) → Keeps (expire_stale env now)
  unfolding expire_stale
  expire_stale-Keeps now =
      search (row_rules, Writes.moment_or_now-Keeps env pg, Expiry.expire_pending-Keeps) depth 9

  outcome-db :
      (m : DeliveryMessage) (answer : Sending) (w : World) → (outcome env m answer w).db ≡ w.db
  outcome-db m accepted w = refl
  outcome-db m (transient _ _) w = refl
  outcome-db m (permanent _) w = refl

  send-Keeps : (m : DeliveryMessage) → Keeps (send env m)
  unfolding send
  send-Keeps m = record { at = λ w. rw outcome-db (Evolves-refl w.db) }

  sleep-Keeps : (attempt : ℕ) (hint : Option ℕ) → Keeps (sleep env attempt hint)
  unfolding sleep
  sleep-Keeps attempt hint =
      Keeps-bind _ _ (Keeps-ask _) (λ draw. record { at = λ w. Evolves-refl w.db })

  follow-Keeps :
      (m : DeliveryMessage) (attempt remaining : ℕ) (next : Run DeliveryResult) (answer : Sending)
      → Keeps next
      → Keeps (follow env m attempt remaining next answer)
  follow-Keeps m attempt remaining next accepted k = search row_rules
  follow-Keeps m attempt remaining next (permanent e) k = search row_rules
  follow-Keeps m attempt zero next (transient e hint) k = search row_rules
  follow-Keeps m attempt (suc r) next (transient e hint) k = search (row_rules, sleep-Keeps)

  attempts_from-Keeps :
      (rounds attempt : ℕ) (m : DeliveryMessage) → Keeps (attempts_from env rounds attempt m)
  unfolding attempts_from
  attempts_from-Keeps zero attempt m = search row_rules
  attempts_from-Keeps (suc rounds) attempt m = Keeps-bind _ _ (send-Keeps m) (λ answer.
      follow-Keeps m attempt rounds _ answer (attempts_from-Keeps rounds (attempt + 1) m))

  send_with_retries-Keeps : (m : DeliveryMessage) → Keeps (send_with_retries env m)
  unfolding send_with_retries
  send_with_retries-Keeps m = attempts_from-Keeps _ _ m

  record_delivery-Keeps :
      (c : Context) (id : Uuid) (result : DeliveryResult) → Keeps (record_delivery env c id result)
  unfolding record_delivery
  record_delivery-Keeps c id result = search (row_rules, mark_delivered-Keeps)

  hand_over-Keeps : (id : Uuid) (repeat resend : Bool) → Keeps (hand_over env id repeat resend)
  unfolding hand_over
  hand_over-Keeps id repeat resend =
      search (row_rules, load_context-Keeps, send_with_retries-Keeps, record_delivery-Keeps) depth 9

  deliver-Keeps : (id : Uuid) (repeat resend : Bool) → Keeps (deliver env id repeat resend)
  unfolding deliver
  deliver-Keeps id repeat resend = search (row_rules, hand_over-Keeps)

  pub deliver_purchase-Keeps : (id : Uuid) → Keeps (deliver_purchase env id)
  unfolding deliver_purchase
  deliver_purchase-Keeps id = deliver-Keeps id _ _

  pub redeliver-Keeps : (id : Uuid) → Keeps (redeliver env id)
  unfolding redeliver
  redeliver-Keeps id = deliver-Keeps id _ _

  pub remember_user-Keeps :
      (profile : UserDraft) → Keeps (PurchaseService.remember_user env profile)
  unfolding PurchaseService.remember_user
  remember_user-Keeps profile = Keeps-unit_of_work _ (Catalog.upsert-Keeps env profile)

  change-Keeps :
      (id : Uuid) (prepared : ProductUpdate) → Keeps (ProductService.change env id prepared)
  unfolding ProductService.change
  change-Keeps id prepared = search (row_rules, Catalog.update-Keeps env pg) depth 9

  pub create-Keeps :
      (malformed : List ℕ → Bool) (draft : ProductDraft)
      → Keeps (ProductService.create env malformed draft)
  unfolding ProductService.create
  create-Keeps malformed draft = search (row_rules, Catalog.create-Keeps env pg)

  pub update-Keeps :
      (malformed : List ℕ → Bool) (id : Uuid) (changes : ProductUpdate)
      → Keeps (ProductService.update env malformed id changes)
  unfolding ProductService.update
  update-Keeps malformed id changes = search (row_rules, change-Keeps)

pub delete-Keeps : (id : Uuid) → Keeps (ProductService.delete id)
unfolding ProductService.delete
delete-Keeps id = search (row_rules, Catalog.delete-Keeps)
