-- ===== src/Bot/Reading.antt =====
-- What a buyer reads of the messages that the bot writes in HTML.
use tg_bot.Base.{
  ℕ, zero, suc, ◌+◌, ◌*◌, ◌/◌, ◌%◌, ◌≡◌, refl, sym, subst, ◌<◌, Bool, true, false, not, ◌&&◌, ◌||◌,
  Option, some, List, [], ◌∷◌, ◌++◌, ◌==◌, if◌then◌else◌, inl, inr, Bool-cases, arith,
}
use mathlib.Core.List.{append_assoc, append-nil}
use tg_bot.Domain.{Currency, xtr, usdt, PaymentOption, ProductCard, DeliveryMessage}
use tg_bot.Domain.Slug.{codes}
use tg_bot.Bot.Messages.{
  entity, escape, bold, line_end, digits, integer, fraction, money, symbol, currency_value,
  option_line, option_lines, description_lines, product_card, header, delivery_message,
}

-- What Telegram's HTML parse mode documents, for a reader that gives the text on the screen, or none
-- where it refuses the markup: an entity stands for its character, bold text is shown without its
-- tags, and every character but these two stands for itself.
pub record ReadsHtml (read : List ℕ → Option (List ℕ)) : Type 0 where
  pub nothing : read [] ≡ some []
  pub plain :
      (c : ℕ) (t x : List ℕ)
      → (c == b'<' || c == b'&') ≡ false
      → read t ≡ some x
      → read (c ∷ t) ≡ some (c ∷ x)
  pub amp : (t x : List ℕ) → read t ≡ some x → read (codes "&amp;" ++ t) ≡ some (b'&' ∷ x)
  pub lt : (t x : List ℕ) → read t ≡ some x → read (codes "&lt;" ++ t) ≡ some (b'<' ∷ x)
  pub gt : (t x : List ℕ) → read t ≡ some x → read (codes "&gt;" ++ t) ≡ some (b'>' ∷ x)
  pub quot : (t x : List ℕ) → read t ≡ some x → read (codes "&quot;" ++ t) ≡ some (b'"' ∷ x)
  pub apos : (t x : List ℕ) → read t ≡ some x → read (codes "&#x27;" ++ t) ≡ some (39 ∷ x)
  pub bold_text :
      (a t x y : List ℕ)
      → read a ≡ some x
      → read t ≡ some y
      → read (codes "<b>" ++ a ++ codes "</b>" ++ t) ≡ some (x ++ y)

abbrev is_plain : List ℕ → Bool
is_plain [] = true
is_plain (c ∷ cs) = not (c == b'<' || c == b'&') && is_plain cs

module _ (read : List ℕ → Option (List ℕ)) (r : ReadsHtml read) where
  read_entity : (c : ℕ) (t x : List ℕ) → read t ≡ some x → read (entity c ++ t) ≡ some (c ∷ x)
  read_entity c t x h = elim (Bool-cases (c == b'&')) [
    | inl hit ↦ let same : c ≡ b'&' = ground arith in rw same (r.amp t x h)
    | inr other ↦ elim (Bool-cases (c == b'<')) [
      | inl hit ↦ let same : c ≡ b'<' = ground arith in rw same (r.lt t x h)
      | inr another ↦ elim (Bool-cases (c == b'>')) [
        | inl hit ↦ let same : c ≡ b'>' = ground arith in rw same (r.gt t x h)
        | inr third ↦ elim (Bool-cases (c == b'"')) [
          | inl hit ↦ let same : c ≡ b'"' = ground arith in rw same (r.quot t x h)
          | inr fourth ↦ elim (Bool-cases (c == 39)) [
            | inl hit ↦ let same : c ≡ 39 = ground arith in rw same (r.apos t x h)
            | inr fifth ↦
                let e : (c == b'<' || c == b'&') ≡ false = rw (another, other) in
                rw (other, another, third, fourth, fifth) (r.plain c t x e h)
          ]
        ]
      ]
    ]
  ]

  read_escape : (s t x : List ℕ) → read t ≡ some x → read (escape s ++ t) ≡ some (s ++ x)
  unfolding escape
  read_escape [] t x h = h
  read_escape (c ∷ s) t x h =
      subst (λ (u : List ℕ). read u ≡ some (c ∷ (s ++ x)))
        (sym (append_assoc (entity c) (escape s) t))
        (read_entity c (escape s ++ t) (s ++ x) (read_escape s t x h))

  read_plain :
      (s t x : List ℕ) → is_plain s ≡ true → read t ≡ some x → read (s ++ t) ≡ some (s ++ x)
  read_plain [] t x e h = h
  read_plain (c ∷ s) t x e h =
      r.plain c (s ++ t) (s ++ x) (ground arith) (read_plain s t x (ground arith) h)

  read_link : (s : List ℕ) → read (escape s) ≡ some s
  read_link s =
      subst (λ (u : List ℕ). read (escape s) ≡ some u) (append-nil s)
        (subst (λ (u : List ℕ). read u ≡ some (s ++ [])) (append-nil (escape s))
          (read_escape s [] [] r.nothing))

  read_bold : (s t x : List ℕ) → read t ≡ some x → read (bold (escape s) t) ≡ some (s ++ x)
  read_bold s t x h = r.bold_text (escape s) t s x (read_link s) h

-- the lines of a card as they are on the screen
is_plain-append : (a b : List ℕ) → is_plain a ≡ true → is_plain b ≡ true → is_plain (a ++ b) ≡ true
is_plain-append [] b h k = k
is_plain-append (c ∷ a) b h k = ground (arith, is_plain-append a b)

digits_plain : (count n : ℕ) → is_plain (digits count n) ≡ true
digits_plain zero n = refl
digits_plain (suc count) n = elim (Bool-cases (n == 0)) [
  | inl nought ↦ rw nought refl
  | inr other ↦
      let digit : is_plain ((b'0' + n % 10) ∷ []) ≡ true = ground arith in
      rw other (
        is_plain-append (digits count (n / 10)) ((b'0' + n % 10) ∷ []) (digits_plain count (n / 10))
          digit)
]

integer_plain : (n : ℕ) → is_plain (integer n) ≡ true
integer_plain n = elim (Bool-cases (n == 0)) [
  | inl nought ↦ rw nought refl
  | inr other ↦ rw other (digits_plain n n)
]

fraction_plain : (count f : ℕ) → f < 1000000 → is_plain (fraction count f) ≡ true
fraction_plain zero f h = refl
fraction_plain (suc count) f h = elim (Bool-cases (f == 0)) [
  | inl nought ↦ rw nought refl
  | inr other ↦
      let digit : f * 10 / 1000000 < 10 = omega (arith, h) in
      let first : (b'0' + f * 10 / 1000000 == b'<' || b'0' + f * 10 / 1000000 == b'&') ≡ false =
        ground arith in
      rw (other, first) (fraction_plain count (f * 10 % 1000000) (omega arith))
]

if_plain :
    (b : Bool) (x y : List ℕ)
    → is_plain x ≡ true
    → is_plain y ≡ true
    → is_plain (if b then x else y) ≡ true
if_plain true x y h k = h
if_plain false x y h k = k

money_plain : (amount : ℕ) → is_plain (money amount) ≡ true
money_plain amount =
    let whole = integer (amount / 1000000) in
    let broken = fraction 6 (amount % 1000000) in
    let digits_kept = integer_plain (amount / 1000000) in
    if_plain (amount % 1000000 == 0) whole (whole ++ b'.' ∷ broken) digits_kept (
      is_plain-append whole (b'.' ∷ broken) digits_kept
        (fraction_plain 6 (amount % 1000000) (omega arith)))

option_line_plain : (o : PaymentOption) → is_plain (option_line o) ≡ true
option_line_plain o = by_currency o.currency (money o.amount) (money_plain o.amount)
  where
    by_currency :
        (c : Currency) (m : List ℕ)
        → is_plain m ≡ true
        → is_plain (symbol c ∷ b' ' ∷ (m ++ b' ' ∷ currency_value c)) ≡ true
    by_currency xtr m h = is_plain-append m (b' ' ∷ codes "XTR") h refl
    by_currency usdt m h = is_plain-append m (b' ' ∷ codes "USDT") h refl

option_lines_plain : (os : List PaymentOption) → is_plain (option_lines os) ≡ true
option_lines_plain [] = refl
option_lines_plain (o ∷ os) =
    is_plain-append (option_line o) (option_lines os) (option_line_plain o) (option_lines_plain os)

-- what stands on the screen under the title of a card
abbrev pub described : List ℕ → List ℕ
described [] = []
described (c ∷ cs) = line_end ∷ line_end ∷ c ∷ cs

module _ (read : List ℕ → Option (List ℕ)) (r : ReadsHtml read) where
  broken : (t x : List ℕ) → read t ≡ some x → read (line_end ∷ t) ≡ some (line_end ∷ x)
  broken t x h = r.plain line_end t x refl h

  read_alone : (s : List ℕ) → is_plain s ≡ true → read s ≡ some s
  read_alone s h =
      subst (λ (u : List ℕ). read u ≡ some u) (append-nil s) (read_plain read r s [] [] h r.nothing)

  read_header :
      (b : Bool) {t x : List ℕ} → read t ≡ some x → read (header b ++ t) ≡ some (header b ++ x)
  read_header true {t} {x} h = read_plain read r (header true) t x refl h
  read_header false {t} {x} h = read_plain read r (header false) t x refl h

  read_described :
      (s t x : List ℕ) → read t ≡ some x → read (description_lines s ++ t) ≡ some (described s ++ x)
  read_described [] t x h = h
  read_described (c ∷ cs) t x h =
      broken (line_end ∷ (escape (c ∷ cs) ++ t)) (line_end ∷ c ∷ (cs ++ x))
        (broken (escape (c ∷ cs) ++ t) (c ∷ (cs ++ x)) (read_escape read r (c ∷ cs) t x h))

  read_delivery :
      (again : Bool) (title url : List ℕ)
      → read (header again ++ line_end ∷ bold (escape title) (line_end ∷ line_end ∷ escape url))
        ≡ some (header again ++ line_end ∷ (title ++ line_end ∷ line_end ∷ url))
  read_delivery again title url =
      let link = broken (escape url) url (read_link read r url) in
      let rest = broken (line_end ∷ escape url) (line_end ∷ url) link in
      let body =
        read_bold read r title (line_end ∷ line_end ∷ escape url) (line_end ∷ line_end ∷ url)
          rest in
      read_header again (
        broken (bold (escape title) (line_end ∷ line_end ∷ escape url))
          (title ++ line_end ∷ line_end ∷ url) body)

  read_card :
      (title about : List ℕ) (options : List PaymentOption)
      → read (bold (escape title) (description_lines about ++ line_end ∷ option_lines options))
        ≡ some (title ++ (described about ++ line_end ∷ option_lines options))
  read_card title about options =
      let prices = option_lines options in
      read_bold read r title (description_lines about ++ line_end ∷ prices)
        (described about ++ line_end ∷ prices)
        (read_described about (line_end ∷ prices) (line_end ∷ prices)
          (broken prices prices (read_alone prices (option_lines_plain options))))

  -- Whatever characters a title, a description or a link hold: a buyer who reads the two messages by
  -- the rules of Telegram's HTML sees them literally. Of a delivery that is the header, the title and
  -- the link; of a card the title, the description if there is one, and a line for each price.
  pub read_messages :
      (m : DeliveryMessage) (card : ProductCard)
      → (read (delivery_message m)
          ≡ some (
              header m.is_repeat
              ++ line_end ∷ (codes m.product_title ++ line_end ∷ line_end ∷ codes m.delivery_url)))
        × (read (product_card card)
            ≡ some (
                codes card.product.title
                ++ (described (codes card.product.description)
                    ++ line_end ∷ option_lines card.options)))
  unfolding delivery_message product_card
  read_messages m card = (
    read_delivery m.is_repeat (codes m.product_title) (codes m.delivery_url),
    read_card (codes card.product.title) (codes card.product.description) card.options,
  )
