-- ===== src/Bot/Messages.antt =====
-- backend/app/bot/texts.py: the texts with values from the database, as lists of code points. Only
-- `delivery_message` and `product_card` are written in HTML.
use tg_bot.Base.{
  ℕ, zero, suc, ◌+◌, ◌*◌, ◌/◌, ◌%◌, Bool, true, false, List, [], ◌∷◌, ◌++◌, ◌==◌, if◌then◌else◌,
}
use tg_bot.Domain.{Currency, xtr, usdt, Decimal, PaymentOption, ProductCard, DeliveryMessage}
use tg_bot.Domain.Slug.{codes}

-- `html.escape` of one character
abbrev pub entity : ℕ → List ℕ
entity c =
    if c == b'&'
    then codes "&amp;"
    else if c == b'<'
    then codes "&lt;"
    else if c == b'>'
    then codes "&gt;"
    else if c == b'"'
    then codes "&quot;"
    else if c == 39
    then codes "&#x27;"
    else c ∷ []

unfoldable pub escape : List ℕ → List ℕ
escape [] = []
escape (c ∷ cs) = entity c ++ escape cs

abbrev pub bold : List ℕ → List ℕ → List ℕ
bold text rest = codes "<b>" ++ text ++ codes "</b>" ++ rest

abbrev pub line_end : ℕ
line_end = 10

-- the digits of a number that has no more than this many
abbrev pub digits : ℕ → ℕ → List ℕ
digits zero n = []
digits (suc count) n =
    let front = digits count (n / 10) in if n == 0 then [] else front ++ (b'0' + n % 10) ∷ []

-- `str` of an integer
abbrev pub integer : ℕ → List ℕ
integer n = if n == 0 then b'0' ∷ [] else digits n n

-- the digits of a number of millionths behind the point, without the zeros at the end
abbrev pub fraction : ℕ → ℕ → List ℕ
fraction zero f = []
fraction (suc count) f =
    let rest = fraction count (f * 10 % 1000000) in
    if f == 0 then [] else (b'0' + f * 10 / 1000000) ∷ rest

-- `_money`
abbrev pub money : Decimal → List ℕ
money amount =
    if amount % 1000000 == 0
    then integer (amount / 1000000)
    else integer (amount / 1000000) ++ b'.' ∷ fraction 6 (amount % 1000000)

abbrev pub symbol : Currency → ℕ
symbol xtr = 11088
symbol usdt = 128142

abbrev pub currency_value : Currency → List ℕ
currency_value xtr = codes "XTR"
currency_value usdt = codes "USDT"

abbrev pub option_line : PaymentOption → List ℕ
option_line o = symbol o.currency ∷ b' ' ∷ (money o.amount ++ b' ' ∷ currency_value o.currency)

abbrev pub option_lines : List PaymentOption → List ℕ
option_lines [] = []
option_lines (o ∷ os) = line_end ∷ (option_line o ++ option_lines os)

abbrev pub description_lines : List ℕ → List ℕ
description_lines [] = []
description_lines (c ∷ cs) = line_end ∷ line_end ∷ escape (c ∷ cs)

-- The lines of the card, joined: the title, the description between empty lines, and the prices.
unfoldable pub product_card : ProductCard → List ℕ
product_card card =
    bold (escape (codes card.product.title))
      (description_lines (codes card.product.description) ++ line_end ∷ option_lines card.options)

abbrev pub header : Bool → List ℕ
header true = codes "Ваша ссылка на товар:"
header false = codes "Спасибо за покупку."

unfoldable pub delivery_message : DeliveryMessage → List ℕ
delivery_message m =
    header m.is_repeat
    ++ line_end
      ∷ bold (escape (codes m.product_title)) (line_end ∷ line_end ∷ escape (codes m.delivery_url))
