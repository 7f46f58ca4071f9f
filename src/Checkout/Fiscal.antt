-- ===== src/Checkout/Fiscal.antt =====
-- internal/context/payment/checkout/domain/detail.go: the fiscal breakdown of a receipt.
use payme_mock.Base.{Bool, true, false, not, ◌&&◌, Option, none, some, List, [], ◌∷◌}
use payme_mock.Base.Int.{ℤ, pos, leb_ℤ, ltb_ℤ}
use payme_mock.Base.Int64.{add64, sub64, mul64}
use payme_mock.Base.Text.{Text, is_empty}
use payme_mock.Kernel.Base64.{encode, decode}

pub record Shipping : Type 0 where
  pub title : Text
  pub price : ℤ

pub record Item : Type 0 where
  pub title : Text
  pub price : ℤ
  pub count : ℤ
  pub code : Text
  pub package_code : Text
  pub vat_percent : ℤ
  pub discount : ℤ
  pub units : ℤ

pub record Detail : Type 0 where
  pub receipt_type : ℤ
  pub shipping : Option Shipping
  pub items : List Item

-- `Item.Total`
unfoldable pub item_total : Item → ℤ
unfolding mul64 sub64
item_total i = sub64 (mul64 i.price i.count) i.discount

unfoldable pub item_valid : Item → Bool
item_valid i =
    not (is_empty i.title)
    && not (ltb_ℤ i.price (pos 0))
    && not (leb_ℤ i.count (pos 0))
    && not (is_empty i.code)

abbrev items_valid : List Item → Bool
items_valid [] = true
items_valid (i ∷ is) = item_valid i && items_valid is

abbrev no_items : List Item → Bool
no_items [] = true
no_items (i ∷ is) = false

-- `Detail.Validate`: false is ErrMalformed.
unfoldable pub validate : Detail → Bool
unfolding item_valid
validate d = not (no_items d.items) && items_valid d.items

-- The loop of `Total`.
unfoldable pub total_from : ℤ → List Item → ℤ
unfolding item_total add64
total_from total [] = total
total_from total (i ∷ is) = total_from (add64 total (item_total i)) is

with_shipping : Option Shipping → ℤ → ℤ
unfolding add64
with_shipping none total = total
with_shipping (some s) total = add64 total s.price

-- `Detail.Total`
unfoldable pub total : Detail → ℤ
unfolding total_from with_shipping
total d = with_shipping d.shipping (total_from (pos 0) d.items)

-- `EncodeDetail` and `DecodeDetail`, over encoding/json.
unfoldable pub encode_detail : (Detail → Text) → Detail → Text
unfolding encode
encode_detail marshal d = encode (marshal d)

unmarshalled : (Text → Option Detail) → Option Text → Option Detail
unmarshalled unmarshal none = none
unmarshalled unmarshal (some raw) = unmarshal raw

unfoldable pub decode_detail : (Text → Option Detail) → Text → Option Detail
unfolding unmarshalled decode
decode_detail unmarshal encoded = unmarshalled unmarshal (decode encoded)
