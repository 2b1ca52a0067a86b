-- ===== src/Search/Rows.antt =====
-- The rows of a search: ids, order and joins.
use tg_bot.Base.{
  ℕ, suc, ◌≡◌, refl, ap, ◌∙◌, Bool, true, false, ◌||◌, Option, none, some, List, [], ◌∷◌, ◌++◌,
  length, select, find, All, ◌==◌, arith, inl, inr, Bool-cases, Option-cases,
}
use tg_bot.Domain.{Uuid, Purchase}
use tg_bot.World.{Db, has_id, is_user, is_product}
use tg_bot.Sound.Rows.{IsPurchaseRow, Apart, AreApart}
use tg_bot.Search.Purchases.{has, newer, insert_newest, newest_first, joined, ids_where}

pub has-append : (x : ℕ) (as' bs : List ℕ) → has x (as' ++ bs) ≡ (has x as' || has x bs)
has-append x [] bs = refl
has-append x (y ∷ as') bs = ground (arith, has-append x as' bs)

-- does the row of this id pass a test?
abbrev row_passes : (Purchase → Bool) → Option Purchase → Bool
row_passes test none = false
row_passes test (some q) = test q

no_id :
    (test : Purchase → Bool) (p : Purchase) (id : Uuid) (ps : List Purchase)
    → All (Apart p) ps
    → (p.id == id) ≡ true
    → has id (ids_where test ps) ≡ false
no_id test p id [] h e = refl
no_id test p id (q ∷ ps) h e = let diff = h.0.ids in ground (arith, no_id test p id ps h.1 e)

-- An id is among those of the rows that pass exactly if its row passes.
pub has-ids_where :
    (test : Purchase → Bool) (id : Uuid) (ps : List Purchase)
    → AreApart ps
    → has id (ids_where test ps) ≡ row_passes test (find (has_id id) ps)
has-ids_where test id [] h = refl
has-ids_where test id (p ∷ ps) h = elim (Bool-cases (p.id == id)) [
  | inl hit ↦ let gone = no_id test p id ps h.0 hit in ground arith
  | inr miss ↦ ground (arith, has-ids_where test id ps h.1)
]

-- Every row of the table is the row of its id.
own_row : (p : Purchase) (ps : List Purchase) → find (has_id p.id) (p ∷ ps) ≡ some p
own_row p ps = let same : (p.id == p.id) ≡ true = ground arith in rw same

later_rows :
    (p : Purchase) (ps qs : List Purchase)
    → All (Apart p) qs
    → All (λ q. find (has_id q.id) ps ≡ some q) qs
    → All (λ q. find (has_id q.id) (p ∷ ps) ≡ some q) qs
later_rows p ps [] h k = tt
later_rows p ps (q ∷ qs) h k = (let diff = h.0.ids in rw diff k.0, later_rows p ps qs h.1 k.1)

pub own_rows : (ps : List Purchase) → AreApart ps → All (λ q. find (has_id q.id) ps ≡ some q) ps
own_rows [] h = tt
own_rows (p ∷ ps) h = (own_row p ps, later_rows p ps ps h.0 (own_rows ps h.1))

pub select_agree :
    (f g : Purchase → Bool) (ps : List Purchase)
    → All (λ p. f p ≡ g p) ps
    → select f ps ≡ select g ps
select_agree f g [] h = refl
select_agree f g (p ∷ ps) h = rw (h.0, select_agree f g ps h.1)

length-insert_newest :
    (p : Purchase) (ps : List Purchase) → length (insert_newest p ps) ≡ suc (length ps)
unfolding insert_newest
length-insert_newest p [] = refl
length-insert_newest p (q ∷ qs) = ground (arith, length-insert_newest p qs)

pub length-newest_first : (ps : List Purchase) → length (newest_first ps) ≡ length ps
unfolding newest_first
length-newest_first [] = refl
length-newest_first (p ∷ ps) =
    length-insert_newest p (newest_first ps) ∙ ap suc (length-newest_first ps)

All-insert_newest :
    (P : Purchase → Type 0) (p : Purchase) (ps : List Purchase)
    → P p
    → All P ps
    → All P (insert_newest p ps)
unfolding insert_newest
All-insert_newest P p [] h k = (h, tt)
All-insert_newest P p (q ∷ qs) h k = elim (Bool-cases (newer q p)) [
  | inl first ↦ rw first (k.0, All-insert_newest P p qs h k.1)
  | inr last ↦ rw last (h, (k.0, k.1))
]

pub All-newest_first :
    (P : Purchase → Type 0) (ps : List Purchase) → All P ps → All P (newest_first ps)
unfolding newest_first
All-newest_first P [] h = tt
All-newest_first P (p ∷ ps) h =
    All-insert_newest P p (newest_first ps) h.0 (All-newest_first P ps h.1)

-- The joins drop no row whose buyer and product are known.
pub length-joined :
    (db : Db) (ps : List Purchase)
    → All (IsPurchaseRow db.products db.users) ps
    → length (joined db ps) ≡ length ps
unfolding joined
length-joined db [] h = refl
length-joined db (p ∷ ps) h =
    let buyer = h.0.buyer in
    let product = h.0.product in
    elim (Option-cases (find (is_user p.user_id) db.users)) [
      | inl none_such ↦ let bad = (rw none_such at buyer) in absurd (cc bad)
      | inr (u, eu) ↦ elim (Option-cases (find (is_product p.product_id) db.products)) [
        | inl none_such ↦ let bad = (rw none_such at product) in absurd (cc bad)
        | inr (q, eq) ↦ rw (eu, eq, length-joined db ps h.1)
      ]
    ]
