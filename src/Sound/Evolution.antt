-- ===== src/Sound/Evolution.antt =====
-- How the tables may change: they stay sound, and no purchase is lost, changes hands, or goes back in
-- its life. `Keeps m` says that the action `m` changes them so, whether it returns or raises.
use tg_bot.Base.{
  ℕ, ◌+◌, ◌≤◌, inl, inr, Bool-cases, ◌≡◌, refl, ◌∙◌, Bool, true, false, Option, none, some, find,
  if◌then◌else◌, arith,
}
use tg_bot.Errors.{Error}
use tg_bot.Domain.{
  Uuid, PurchaseStatus, pending, paid, delivered, refunded, expired, Purchase, LockKey,
}
use tg_bot.World.{
  Env, Db, World, Result, ok, err, Run, ◌>>=◌, proceed, pure, raise, lift, gets, or_raise, ask,
  raise_if, raising, translating, close, unit_of_work, locked, has_id, catching, caught,
}
use tg_bot.Sound.Rows.{IsSound}

-- pending, expired, paid, delivered, refunded: the order of a purchase's life
abbrev pub rank : PurchaseStatus → ℕ
rank pending = 0
rank expired = 1
rank paid = 2
rank delivered = 3
rank refunded = 4

-- `q` is a later version of `p`
pub record Follows (p q : Purchase) : Type 0 where
  pub user : q.user_id ≡ p.user_id
  pub product : q.product_id ≡ p.product_id
  pub provider : q.provider ≡ p.provider
  pub amount : q.amount ≡ p.amount
  pub currency : q.currency ≡ p.currency
  pub invoice : q.external_id ≡ p.external_id
  pub created : q.created_at ≡ p.created_at
  pub life : rank p.status ≤ rank q.status

pub Follows-refl : (p : Purchase) → Follows p p
Follows-refl p = record {
  user = refl;
  product = refl;
  provider = refl;
  amount = refl;
  currency = refl;
  invoice = refl;
  created = refl;
  life = omega arith;
}

pub Follows-trans : {p q r : Purchase} → Follows p q → Follows q r → Follows p r
Follows-trans a b = record {
  user = b.user ∙ a.user;
  product = b.product ∙ a.product;
  provider = b.provider ∙ a.provider;
  amount = b.amount ∙ a.amount;
  currency = b.currency ∙ a.currency;
  invoice = b.invoice ∙ a.invoice;
  created = b.created ∙ a.created;
  life = omega arith;
}

abbrev pub Later : Purchase → Option Purchase → Type 0
Later p o = (q : Purchase) × (o ≡ some q) × Follows p q

pub record Evolves (before after : Db) : Type 0 where
  pub sound : IsSound before → IsSound after
  pub purchases :
      (id : Uuid) (p : Purchase)
      → find (has_id id) before.purchases ≡ some p
      → Later p (find (has_id id) after.purchases)

pub Evolves-refl : (db : Db) → Evolves db db
Evolves-refl db = record { sound = λ s. s; purchases = λ id p e. (p, e, Follows-refl p) }

pub Evolves-trans : {a b c : Db} → Evolves a b → Evolves b c → Evolves a c
Evolves-trans f g = record {
  sound = λ s. g.sound (f.sound s);
  purchases = λ id p e.
      let (q, eq, pq) = f.purchases id p e in
      let (r, er, qr) = g.purchases id q eq in (r, er, Follows-trans pq qr);
}

pub record Keeps {A : Type 0} (m : Run A) : Type 0 where
  pub at : (w : World) → Evolves w.db (m w).1.db

module _ {A : Type 0} where
  pub Keeps-pure : (a : A) → Keeps (pure a)
  unfolding pure
  Keeps-pure a = record { at = λ w. Evolves-refl w.db }

  pub Keeps-raise : (e : Error) → Keeps (raise {A = A} e)
  unfolding raise
  Keeps-raise e = record { at = λ w. Evolves-refl w.db }

  pub Keeps-lift : (r : Result A) → Keeps (lift r)
  unfolding lift
  Keeps-lift r = record { at = λ w. Evolves-refl w.db }

  pub Keeps-gets : (f : World → A) → Keeps (gets f)
  unfolding gets
  Keeps-gets f = record { at = λ w. Evolves-refl w.db }

  pub Keeps-ask : (f : ℕ → A) → Keeps (ask f)
  unfolding ask
  Keeps-ask f = record { at = λ w. Evolves-refl w.db }

  pub Keeps-or_raise : (e : Error) (o : Option A) → Keeps (or_raise e o)
  unfolding or_raise
  Keeps-or_raise e none = record { at = λ w. Evolves-refl w.db }
  Keeps-or_raise e (some a) = record { at = λ w. Evolves-refl w.db }

  pub Keeps-if : (b : Bool) (m n : Run A) → Keeps m → Keeps n → Keeps (if b then m else n)
  Keeps-if true m n km kn = km
  Keeps-if false m n km kn = kn

  pub db-raising : (f : Error → Error) (r : Result A × World) → (raising f r).1.db ≡ r.1.db
  db-raising f (ok a, w) = refl
  db-raising f (err e, w) = refl

  pub Keeps-translating : (f : Error → Error) (m : Run A) → Keeps m → Keeps (translating f m)
  unfolding translating
  Keeps-translating f m k = record { at = λ w. rw db-raising (k.at w) }

  Evolves-close :
      (before : Db) (r : Result A × World)
      → Evolves before r.1.db
      → Evolves before (close before r).1.db
  Evolves-close before (ok a, w) h = h
  Evolves-close before (err e, w) h = Evolves-refl before

  pub Keeps-unit_of_work : (m : Run A) → Keeps m → Keeps (unit_of_work m)
  unfolding unit_of_work
  Keeps-unit_of_work m k = record { at = λ w. Evolves-close w.db (m w) (k.at w) }

  pub Keeps-locked : (env : Env) (key : LockKey) (m : Run A) → Keeps m → Keeps (locked env key m)
  unfolding locked
  Keeps-locked env key m k = record {
    at = λ w. elim (Bool-cases (env.busy w.tick key)) [
      | inl taken ↦ rw taken (Evolves-refl w.db)
      | inr free ↦ rw free (k.at (record w { tick = w.tick + 1 }))
    ];
  }

module _ {A : Type 0} where
  Evolves-caught :
      (h : Error → Run A) (before : Db) (r : Result A × World)
      → Evolves before r.1.db
      → ((e : Error) → Keeps (h e))
      → Evolves before (caught h r).1.db
  Evolves-caught h before (ok a, w) k kh = k
  Evolves-caught h before (err e, w) k kh = Evolves-trans k ((kh e).at w)

  pub Keeps-catching :
      (h : Error → Run A) (m : Run A) → Keeps m → ((e : Error) → Keeps (h e)) → Keeps (catching h m)
  unfolding catching
  Keeps-catching h m k kh = record { at = λ w. Evolves-caught h w.db (m w) (k.at w) kh }

pub Keeps-raise_if : (c : Bool) (e : Error) → Keeps (raise_if c e)
unfolding raise_if
Keeps-raise_if c e = record { at = λ w. Evolves-refl w.db }

module _ {A B : Type 0} where
  Evolves-proceed :
      (f : A → Run B) (before : Db) (r : Result A × World)
      → Evolves before r.1.db
      → ((a : A) → Keeps (f a))
      → Evolves before (proceed f r).1.db
  Evolves-proceed f before (ok a, w) h k = Evolves-trans h ((k a).at w)
  Evolves-proceed f before (err e, w) h k = h

  pub Keeps-bind : (m : Run A) (f : A → Run B) → Keeps m → ((a : A) → Keeps (f a)) → Keeps (m >>= f)
  unfolding ◌>>=◌
  Keeps-bind m f km kf = record { at = λ w. Evolves-proceed f w.db (m w) (km.at w) kf }

pub ruleset keeps_rules = (
  Keeps-pure, Keeps-raise, Keeps-lift, Keeps-gets, Keeps-ask, Keeps-or_raise, Keeps-if,
  Keeps-translating, Keeps-unit_of_work, Keeps-locked, Keeps-raise_if, Keeps-bind, Keeps-catching,
)
