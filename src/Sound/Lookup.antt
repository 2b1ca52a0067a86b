-- ===== src/Sound/Lookup.antt =====
-- Lookups in a sound table, by a unique key and by the id of a row.
use tg_bot.Base.{
  All-find, ℕ, String, ◌≡◌, refl, Bool, true, false, none, some, List, [], ◌∷◌, All, select, find,
  find-select, ◌==◌, eq_iff, if◌then◌else◌, arith, inl, inr, Bool-cases, Option-cases,
}
use tg_bot.Domain.{Uuid, PaymentProvider, Purchase}
use tg_bot.World.{◌>>=◌, World, ok, one_or_none, has_id}
use tg_bot.Repository.PurchaseTable.{
  without, matches_invoice, matches_charge, matches_owner, get_by_external_id, get_by_charge_id,
  find_access_granting,
}
use tg_bot.Sound.Rows.{Apart, AreApart, IsSound}

-- No two rows that stand apart both pass this test.
abbrev pub Separates : (Purchase → Bool) → Type 0
Separates t = (p q : Purchase) → Apart p q → t p ≡ true → t q ≡ false

none_selected :
    (t : Purchase → Bool)
    → Separates t
    → (p : Purchase) (ps : List Purchase) → All (Apart p) ps
    → t p ≡ true
    → select t ps ≡ []
none_selected t sep p [] h e = refl
none_selected t sep p (q ∷ ps) h e = ground (arith, sep p q h.0 e, none_selected t sep p ps h.1 e)

pub one_or_none-find :
    (t : Purchase → Bool)
    → Separates t
    → (ps : List Purchase) → AreApart ps
    → one_or_none (select t ps) ≡ ok (find t ps)
one_or_none-find t sep [] h = refl
one_or_none-find t sep (p ∷ ps) h = elim (Bool-cases (t p)) [
  | inl hit ↦ rw (hit, none_selected t sep p ps h.0 hit)
  | inr miss ↦ rw miss (one_or_none-find t sep ps h.1)
]

invoice-Separates :
    (provider : PaymentProvider) (ext : String) → Separates (matches_invoice provider ext)
invoice-Separates provider ext p q a e =
    let c = a.invoices in
    ground (
      arith,
      eq_iff p.external_id ext,
      eq_iff q.external_id ext,
      eq_iff p.external_id q.external_id,
    )

charge-Separates : (charge : String) → Separates (matches_charge charge)
charge-Separates charge p q a e = elim (Option-cases p.telegram_charge_id) [
  | inl missing ↦ ground arith
  | inr (c, pc) ↦ elim (Option-cases q.telegram_charge_id) [
    | inl missing ↦ ground arith
    | inr (d, qd) ↦
        let diff = a.charges in ground (arith, eq_iff c charge, eq_iff d charge, eq_iff c d)
  ]
]

pub owner-Separates : (user : ℕ) (product : Uuid) → Separates (matches_owner user product)
owner-Separates user product p q a e = let diff = a.owners in ground arith

-- In a sound table a row that passes such a test is the one that the test finds.
find_of_row :
    (t : Purchase → Bool)
    → Separates t
    → (id : Uuid) (q : Purchase) (ps : List Purchase) → AreApart ps
    → find (has_id id) ps ≡ some q
    → t q ≡ true
    → find t ps ≡ some q
find_of_row t sep id q [] h e hit = ground arith
find_of_row t sep id q (p ∷ ps) h e hit = elim (Bool-cases (p.id == id)) [
  | inl here ↦ let same : p ≡ q = ground arith in rw (same, hit)
  | inr there ↦ elim (Bool-cases (t p)) [
    | inl also ↦
        let apart = All-find (Apart p) (has_id id) ps q h.0 (rw there at e) in
        let bad = sep p q apart also in absurd (ground arith)
    | inr miss ↦ rw miss (find_of_row t sep id q ps h.1 (rw there at e) hit)
  ]
]

pub find_of_invoice :
    (provider : PaymentProvider) (ext : String) (id : Uuid) (q : Purchase) (ps : List Purchase)
    → AreApart ps
    → find (has_id id) ps ≡ some q
    → matches_invoice provider ext q ≡ true
    → find (matches_invoice provider ext) ps ≡ some q
find_of_invoice provider ext = find_of_row _ (invoice-Separates provider ext)

pub find_of_owner :
    (user : ℕ) (product : Uuid) (id : Uuid) (q : Purchase) (ps : List Purchase)
    → AreApart ps
    → find (has_id id) ps ≡ some q
    → matches_owner user product q ≡ true
    → find (matches_owner user product) ps ≡ some q
find_of_owner user product = find_of_row _ (owner-Separates user product)

-- A row found by another test is the stored row of its id.
pub row_of_find :
    (t : Purchase → Bool) (q : Purchase) (ps : List Purchase)
    → AreApart ps
    → find t ps ≡ some q
    → find (has_id q.id) ps ≡ some q
row_of_find t q [] h e = ground arith
row_of_find t q (p ∷ ps) h e = elim (Bool-cases (t p)) [
  | inl hit ↦
      let same : p ≡ q = ground arith in
      rw same (let i : (q.id == q.id) ≡ true = ground arith in rw i)
  | inr miss ↦
      let apart = (All-find (Apart p) t ps q h.0 (rw miss at e)).ids in
      rw apart (row_of_find t q ps h.1 (rw miss at e))
]

module _ (w : World) (s : IsSound w.db) where
  pub get_by_external_id-find :
      (provider : PaymentProvider) (ext : String)
      → get_by_external_id provider ext w
        ≡ (ok (find (matches_invoice provider ext) w.db.purchases), w)
  unfolding get_by_external_id ◌>>=◌
  get_by_external_id-find provider ext =
      rw (one_or_none-find _ (invoice-Separates provider ext) w.db.purchases s.apart)

  pub get_by_charge_id-find :
      (charge : String)
      → get_by_charge_id charge w ≡ (ok (find (matches_charge charge) w.db.purchases), w)
  unfolding get_by_charge_id ◌>>=◌
  get_by_charge_id-find charge =
      rw (one_or_none-find _ (charge-Separates charge) w.db.purchases s.apart)

  pub find_access_granting-find :
      (user : ℕ) (product : Uuid)
      → find_access_granting user product w
        ≡ (ok (find (matches_owner user product) w.db.purchases), w)
  unfolding find_access_granting ◌>>=◌
  find_access_granting-find user product =
      rw (one_or_none-find _ (owner-Separates user product) w.db.purchases s.apart)

-- The row of an id after that row, or another, was written.
pub find-write :
    (id : Uuid) (p : Purchase) (ps : List Purchase)
    → find (has_id id) (p ∷ without p.id ps) ≡ (if p.id == id then some p else find (has_id id) ps)
find-write id p ps = elim (Bool-cases (p.id == id)) [
  | inl hit ↦ rw hit
  | inr miss ↦ rw miss (find-select _ (has_id id) ps (λ q e. ground arith))
]

absent_of_Apart :
    (p : Purchase) (ps : List Purchase) (id : Uuid)
    → All (Apart p) ps
    → (p.id == id) ≡ true
    → find (has_id id) ps ≡ none
absent_of_Apart p [] id h e = refl
absent_of_Apart p (q ∷ ps) id h e =
    let diff = h.0.ids in ground (arith, absent_of_Apart p ps id h.1 e)

-- A fresh row hides no other.
pub find-insert :
    (id : Uuid) (p q : Purchase) (ps : List Purchase)
    → All (Apart p) ps
    → find (has_id id) ps ≡ some q
    → find (has_id id) (p ∷ ps) ≡ some q
find-insert id p q ps h e = elim (Bool-cases (p.id == id)) [
  | inl hit ↦ let gone = absent_of_Apart p ps id h hit in ground arith
  | inr miss ↦ rw miss e
]

-- On sound tables none of the three lookups by a unique key ever meets two rows: each returns the first
-- row that its condition selects, or none, and changes nothing.
pub lookups-find :
    (w : World)
    → IsSound w.db
    → ((provider : PaymentProvider) (ext : String)
        → get_by_external_id provider ext w
          ≡ (ok (find (matches_invoice provider ext) w.db.purchases), w))
      × ((charge : String)
          → get_by_charge_id charge w ≡ (ok (find (matches_charge charge) w.db.purchases), w))
      × ((user : ℕ) (product : Uuid)
          → find_access_granting user product w
            ≡ (ok (find (matches_owner user product) w.db.purchases), w))
lookups-find w s =
    (get_by_external_id-find w s, get_by_charge_id-find w s, find_access_granting-find w s)
