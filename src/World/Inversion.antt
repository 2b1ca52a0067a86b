-- ===== src/World/Inversion.antt =====
-- What the steps of an action did, where the whole returned.
use tg_bot.Base.{◌+◌, ◌≡◌, refl, Bool, true, false, Option, none, some, arith, inl, inr, Bool-cases}
use tg_bot.Errors.{Error}
use tg_bot.Domain.{LockKey}
use tg_bot.World.Actions.{
  World, Db, Result, ok, err, Run, ◌>>=◌, proceed, pure, or_raise, raise_if, unit_of_work, close,
  translating, raising,
}
use tg_bot.World.Outside.{Env, locked}

module _ {A B : Type 0} where
  proceed-ok :
      (f : A → Run B) (r : Result A × World) (b : B) (w' : World)
      → proceed f r ≡ (ok b, w')
      → (a : A) × (w₁ : World) × (r ≡ (ok a, w₁)) × (f a w₁ ≡ (ok b, w'))
  proceed-ok f (ok a, w) b w' h = (a, w, refl, h)
  proceed-ok f (err e, w) b w' h = cc

  pub bind-ok :
      (m : Run A) (f : A → Run B) (w : World) (b : B) (w' : World)
      → (m >>= f) w ≡ (ok b, w')
      → (a : A) × (w₁ : World) × (m w ≡ (ok a, w₁)) × (f a w₁ ≡ (ok b, w'))
  unfolding ◌>>=◌
  bind-ok m f w b w' h = proceed-ok f (m w) b w' h

module _ {A : Type 0} where
  pub pure-ok : (a b : A) (w w' : World) → pure a w ≡ (ok b, w') → (a ≡ b) × (w ≡ w')
  unfolding pure
  pure-ok a b w w' h = (ground arith, ground arith)

  pub or_raise-ok :
      (e : Error) (o : Option A) (w w' : World) (a : A)
      → or_raise e o w ≡ (ok a, w')
      → (o ≡ some a) × (w ≡ w')
  unfolding ◌>>=◌
  or_raise-ok e none w w' a h = cc
  or_raise-ok e (some b) w w' a h = (ground arith, ground arith)

  close-ok :
      (db : Db) (r : Result A × World) (a : A) (w' : World)
      → close db r ≡ (ok a, w')
      → r ≡ (ok a, w')
  close-ok db (ok b, w) a w' h = h
  close-ok db (err e, w) a w' h = cc

  pub unit_of_work-ok :
      (m : Run A) (w : World) (a : A) (w' : World)
      → unit_of_work m w ≡ (ok a, w')
      → m w ≡ (ok a, w')
  unfolding unit_of_work
  unit_of_work-ok m w a w' h = close-ok w.db (m w) a w' h

  raising-ok :
      (f : Error → Error) (r : Result A × World) (a : A) (w' : World)
      → raising f r ≡ (ok a, w')
      → r ≡ (ok a, w')
  raising-ok f (ok b, w) a w' h = h
  raising-ok f (err e, w) a w' h = cc

  pub translating-ok :
      (f : Error → Error) (m : Run A) (w : World) (a : A) (w' : World)
      → translating f m w ≡ (ok a, w')
      → m w ≡ (ok a, w')
  unfolding translating
  translating-ok f m w a w' h = raising-ok f (m w) a w' h

  pub locked-ok :
      (env : Env) (key : LockKey) (m : Run A) (w : World) (a : A) (w' : World)
      → locked env key m w ≡ (ok a, w')
      → (env.busy w.tick key ≡ false) × (m (record w { tick = w.tick + 1 }) ≡ (ok a, w'))
  unfolding locked
  locked-ok env key m w a w' h = elim (Bool-cases (env.busy w.tick key)) [
    | inl busy ↦ let bad = (rw busy at h) in absurd (cc)
    | inr free ↦ (free, rw free at h)
  ]

pub raise_if-ok :
    (c : Bool) (e : Error) (w w' : World) (u : Unit {0})
    → raise_if c e w ≡ (ok u, w')
    → (c ≡ false) × (w ≡ w')
unfolding raise_if
raise_if-ok true e w w' u h = cc
raise_if-ok false e w w' u h = (refl, ground arith)
