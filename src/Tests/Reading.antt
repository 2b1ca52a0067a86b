-- ===== src/Tests/Reading.antt =====
-- The theorem on the bot's messages, at the guide and a small reader of HTML.
use tg_bot.Base.{
  ℕ, ◌≡◌, refl, sym, subst, true, Option, none, some, List, [], ◌∷◌, ◌++◌, ◌==◌, if◌then◌else◌,
  arith, inl, inr, Bool-cases,
}
use mathlib.Core.List.{append_assoc}
use tg_bot.Domain.{stars, crypto, xtr, usdt, decimal, DeliveryMessage, ProductCard}
use tg_bot.Domain.Slug.{codes}
use tg_bot.Texts.Urls.{same_codes}
use tg_bot.Bot.Messages.{line_end, option_lines, product_card, header, delivery_message}
use tg_bot.Bot.Reading.{ReadsHtml, described, read_messages}
use tg_bot.Tests.Model.{guide}

-- in the text, in a tag, or behind an ampersand with what is read of the name
data Mode : Type 0 where
  in_text in_tag : Mode
  in_entity : List ℕ → Mode

abbrev named : List ℕ → Option ℕ
named name =
    if same_codes name (codes "amp")
    then some b'&'
    else if same_codes name (codes "lt")
    then some b'<'
    else if same_codes name (codes "gt")
    then some b'>'
    else if same_codes name (codes "quot")
    then some b'"'
    else if same_codes name (codes "#x27")
    then some 39
    else none

abbrev put : Option ℕ → Option (List ℕ) → Option (List ℕ)
put (some c) (some cs) = some (c ∷ cs)
put _ _ = none

abbrev read_in : Mode → List ℕ → Option (List ℕ)
read_in in_text [] = some []
read_in _ [] = none
read_in in_text (c ∷ cs) =
    let text = read_in in_text cs in
    let tag = read_in in_tag cs in
    let name = read_in (in_entity []) cs in
    if c == b'<' then tag else if c == b'&' then name else put (some c) text
read_in in_tag (c ∷ cs) =
    let text = read_in in_text cs in let tag = read_in in_tag cs in if c == b'>' then text else tag
read_in (in_entity name) (c ∷ cs) =
    let text = read_in in_text cs in
    let more = read_in (in_entity (name ++ c ∷ [])) cs in
    if c == b';' then put (named name) text else more

abbrev read_html : List ℕ → Option (List ℕ)
read_html = read_in in_text

-- What follows goes on as it did.
put_longer :
    (o : Option ℕ) (rest rest' : Option (List ℕ)) (x y : List ℕ)
    → put o rest ≡ some x
    → ((z : List ℕ) → rest ≡ some z → rest' ≡ some (z ++ y))
    → put o rest' ≡ some (x ++ y)
put_longer none rest rest' x y h k = absurd (ground arith)
put_longer (some c) none rest' x y h k = absurd (ground arith)
put_longer (some c) (some z) rest' x y h k =
    let same : c ∷ z ≡ x = cc in
    subst (λ (u : List ℕ). put (some c) rest' ≡ some (u ++ y)) same (rw (k z refl) refl)

read_append :
    (m : Mode) (a t x y : List ℕ)
    → read_in m a ≡ some x
    → read_in in_text t ≡ some y
    → read_in m (a ++ t) ≡ some (x ++ y)
read_append in_text [] t x y h k =
    let same : [] ≡ x = cc in subst (λ (u : List ℕ). read_in in_text t ≡ some (u ++ y)) same k
read_append in_tag [] t x y h k = absurd (ground arith)
read_append (in_entity name) [] t x y h k = absurd (ground arith)
read_append in_text (c ∷ a) t x y h k = elim (Bool-cases (c == b'<')) [
  | inl tag ↦ rw tag (read_append in_tag a t x y (rw tag at h) k)
  | inr other ↦ elim (Bool-cases (c == b'&')) [
    | inl amp ↦ rw (other, amp) (read_append (in_entity []) a t x y (rw (other, amp) at h) k)
    | inr simple ↦
        rw (other, simple)
          (put_longer (some c) (read_in in_text a) (read_in in_text (a ++ t)) x y
            (rw (other, simple) at h) (λ z e. read_append in_text a t z y e k))
  ]
]
read_append in_tag (c ∷ a) t x y h k = elim (Bool-cases (c == b'>')) [
  | inl closed ↦ rw closed (read_append in_text a t x y (rw closed at h) k)
  | inr other ↦ rw other (read_append in_tag a t x y (rw other at h) k)
]
read_append (in_entity name) (c ∷ a) t x y h k = elim (Bool-cases (c == b';')) [
  | inl ended ↦ rw ended (
      put_longer (named name) (read_in in_text a) (read_in in_text (a ++ t)) x y (rw ended at h)
        (λ z e. read_append in_text a t z y e k))
  | inr other ↦ rw other (read_append (in_entity (name ++ c ∷ [])) a t x y (rw other at h) k)
]

read_html-ReadsHtml : ReadsHtml read_html
read_html-ReadsHtml = record {
  nothing = refl;
  plain = λ c t x e h. ground arith;
  amp = λ t x h. rw h refl;
  lt = λ t x h. rw h refl;
  gt = λ t x h. rw h refl;
  quot = λ t x h. rw h refl;
  apos = λ t x h. rw h refl;
  bold_text = λ a t x y h k.
      subst (λ (u : List ℕ). read_in in_text u ≡ some (x ++ y))
        (sym (append_assoc a (codes "</b>") t)) (read_append in_text a (codes "</b>" ++ t) x y h k);
}

abbrev warning : DeliveryMessage
warning = record {
  chat_id = 7;
  purchase_id = 1;
  product_title = "Salt & <Pepper>";
  delivery_url = "https://shop.example/?a=1&b='2'";
  is_repeat = true;
}

abbrev guide_card : ProductCard
guide_card = record {
  product = guide;
  options =
      record { provider = stars; amount = decimal 100; currency = xtr }
      ∷ record { provider = crypto; amount = 2500000; currency = usdt }
      ∷ [];
  owned_purchase = none;
}

read_messages_example :
    (read_html (delivery_message warning)
      ≡ some (
          header true
          ++ line_end
            ∷ (codes warning.product_title ++ line_end ∷ line_end ∷ codes warning.delivery_url)))
    × (read_html (product_card guide_card)
        ≡ some (
            codes guide.title
            ++ (described (codes guide.description) ++ line_end ∷ option_lines guide_card.options)))
read_messages_example = read_messages read_html read_html-ReadsHtml warning guide_card

card_lines : option_lines guide_card.options ≡ codes "\n⭐ 100 XTR\n💎 2.5 USDT"
card_lines = refl
