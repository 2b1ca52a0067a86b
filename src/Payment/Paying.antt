-- ===== src/Payment/Paying.antt =====
-- `confirm_payment` of backend/app/services/purchases.py on an unpaid purchase that nothing stands
-- against.
use tg_bot.Base.{
  ◌≡◌, refl, ◌+◌, false, not, String, Option, none, some, List, ◌∷◌, All, All-select, All-find,
  find, ◌==◌, eq_iff, if◌then◌else◌, arith, inl, inr, Bool-cases, Option-cases,
}
use tg_bot.Domain.{DateTime, PaymentProvider, Purchase, grants, is_refunded, paid, payment_lock_key}
use tg_bot.World.{Env, Enforces, Db, World, ok, ◌>>=◌, locked, has_id, same_charge, same_text}
use tg_bot.Repository.PurchaseTable.{
  truthy, without, matches_invoice, matches_owner, matches_charge, pay, update, write, mark_paid,
  lock, moment_or_now,
}
use tg_bot.Services.PurchaseService.{confirm, confirm_payment}
use tg_bot.Sound.Rows.{Apart, IsPurchaseRow, IsSound}
use tg_bot.Sound.Lookup.{get_by_external_id-find, row_of_find}
use tg_bot.Payment.Accepted.{All-both, absent-All, Apart-from_others, fits-accepted}

-- the row that a payment writes
abbrev pub paid_row : Purchase → DateTime → Option String → Purchase
paid_row p moment charge = record p {
  status = paid;
  paid_at = some moment;
  telegram_charge_id = if truthy charge then charge else p.telegram_charge_id;
}

-- Nothing stands against the payment of `p`: it is neither paid nor refunded, its buyer owns the product
-- by no purchase, and the charge that comes with the payment is noted nowhere.
pub record IsPayable (ps : List Purchase) (p : Purchase) (charge : Option String) : Type 0 where
  pub unpaid : grants p ≡ false
  pub kept : is_refunded p.status ≡ false
  pub not_owned : find (matches_owner p.user_id p.product_id) ps ≡ none
  pub fresh : (c : String) → charge ≡ some c → find (matches_charge c) ps ≡ none

abbrev Other : Purchase → Option String → Purchase → Type 0
Other p charge r =
    (matches_owner p.user_id p.product_id r ≡ false)
    × ((c : String) → charge ≡ some c → matches_charge c r ≡ false)

fresh_charge :
    (c : String) (r : Purchase)
    → matches_charge c r ≡ false
    → same_text (some c) r.telegram_charge_id ≡ false
fresh_charge c r miss = elim (Option-cases r.telegram_charge_id) [
  | inl absent ↦ rw absent refl
  | inr (d, has) ↦ let other = (rw has at miss) in rw has (ground (arith, eq_iff c d, eq_iff d c))
]

pub paid_charge :
    (p r : Purchase) (moment : DateTime) (charge : Option String)
    → same_charge p r ≡ false
    → ((c : String) → charge ≡ some c → matches_charge c r ≡ false)
    → same_charge (paid_row p moment charge) r ≡ false
paid_charge p r moment none h f = h
paid_charge p r moment (some c) h f = elim (Bool-cases (truthy (some c))) [
  | inl real ↦ rw real (fresh_charge c r (f c refl))
  | inr empty ↦ rw empty h
]

paid_row-Apart :
    (p : Purchase) (moment : DateTime) (charge : Option String) (r : Purchase)
    → Apart p r
    → Other p charge r
    → Apart (paid_row p moment charge) r
paid_row-Apart p moment charge r a other = record {
  ids = a.ids;
  invoices = a.invoices;
  owners = let miss = other.0 in ground arith;
  charges = paid_charge p r moment charge a.charges other.1;
}

pub absent_charge :
    (ps : List Purchase) (charge : Option String)
    → ((c : String) → charge ≡ some c → find (matches_charge c) ps ≡ none)
    → All (λ r. (c : String) → charge ≡ some c → matches_charge c r ≡ false) ps
absent_charge List.[] charge h = tt
absent_charge (r ∷ ps) charge h = (
  λ c e. let gone = absent-All (matches_charge c) (r ∷ ps) (h c e) in gone.0,
  absent_charge ps charge (λ c e. elim (Bool-cases (matches_charge c r)) [
    | inl hit ↦ let bad = h c e in absurd (ground arith)
    | inr miss ↦ let gone = h c e in (rw miss at gone)
  ]),
)

module _ (env : Env) (pg : Enforces env) (db : Db) (s : IsSound db) where
  paid_row-accepted :
      (p : Purchase) (moment : DateTime) (charge : Option String)
      → find (has_id p.id) db.purchases ≡ some p
      → IsPayable db.purchases p charge
      → env.purchase_violation db (without p.id db.purchases) (paid_row p moment charge) ≡ none
  paid_row-accepted p moment charge stored fine =
      let row =
        All-find (IsPurchaseRow db.products db.users) (has_id p.id) db.purchases p s.purchases
          stored in
      let apart = Apart-from_others p db.purchases s.apart stored in
      let free = absent-All (matches_owner p.user_id p.product_id) db.purchases fine.not_owned in
      let fresh = absent_charge db.purchases charge fine.fresh in
      let others =
        All-select (Other p charge) (λ q. not (q.id == p.id)) db.purchases
          (All-both _ _ (Other p charge) (λ r a b. (a, b)) db.purchases free fresh) in
      fits-accepted env pg db (without p.id db.purchases) (paid_row p moment charge)
        (All-both (Apart p) (Other p charge) _ (paid_row-Apart p moment charge) _ apart others)
        (record {
          amount = row.amount;
          paid = refl;
          delivered = refl;
          buyer = row.buyer;
          product = row.product;
        })

-- the tables with a new version of a row
abbrev pub rewritten : World → Purchase → World
rewritten w q = record w { db = record (w.db) { purchases = q ∷ without q.id w.db.purchases } }

module _ (env : Env) (pg : Enforces env) where
  pay-paid :
      (w : World) (p : Purchase) (moment : DateTime) (charge : Option String)
      → IsSound w.db
      → find (has_id p.id) w.db.purchases ≡ some p
      → IsPayable w.db.purchases p charge
      → pay env p moment charge w
        ≡ (ok (paid_row p moment charge), rewritten w (paid_row p moment charge))
  unfolding pay update write ◌>>=◌
  pay-paid w p moment charge s stored fine =
      rw (paid_row-accepted env pg w.db s p moment charge stored fine)

  -- On sound tables, with the lock free, a payment that nothing stands against is recorded.
  pub confirm_payment-paid :
      (provider : PaymentProvider) (ext : String) (charge : Option String) (w : World)
      (p : Purchase)
      → IsSound w.db
      → find (matches_invoice provider ext) w.db.purchases ≡ some p
      → IsPayable w.db.purchases p charge
      → env.busy w.tick (payment_lock_key provider ext) ≡ false
      → confirm_payment env provider ext charge none w ≡ (
        ok (paid_row p (env.clock (w.tick + 1)) charge),
        rewritten (record w { tick = w.tick + 1 + 1 }) (paid_row p (env.clock (w.tick + 1)) charge),
      )
  unfolding confirm_payment confirm locked mark_paid lock moment_or_now ◌>>=◌
  confirm_payment-paid provider ext charge w p s found fine free =
      let w₁ = record w { tick = w.tick + 1 } in
      let w₂ = record w { tick = w.tick + 1 + 1 } in
      let stored = row_of_find (matches_invoice provider ext) p w.db.purchases s.apart found in
      rw (
        free,
        get_by_external_id-find w₁ s provider ext,
        found,
        stored,
        fine.unpaid,
        fine.kept,
        pay-paid w₂ p (env.clock (w.tick + 1)) charge s stored fine,
      )
