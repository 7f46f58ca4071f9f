-- ===== src/Billing/Cashbox.antt =====
-- billing/domain/cashbox.go: the direction a register moves money in, and the balance it moves.
pub mod Laws
use payme_mock.Base.{String, Bool, true, false, not, if◌then◌else◌}
use payme_mock.Base.Int.{ℤ, ltb_ℤ}
use payme_mock.Base.Int64.{add64, sub64}
use payme_mock.Base.Text.{Text}
use payme_mock.Kernel.Errors.{ProtocolError, err_cannot_perform, with_message, new_message}
use payme_mock.Kernel.Effect.{
  Error, Result, ok, err, fail, Action, pure, raise, refuse, lift, ◌>>=◌, ◌>>◌,
}
use payme_mock.Billing.Order.{Account}

-- The type is a string; `other` is any text but the three.
pub data Kind : Type 0 where
  topup dividend deposit : Kind
  other : Text → Kind

unfoldable pub kind_valid : Kind → Bool
kind_valid Kind.topup = true
kind_valid Kind.dividend = true
kind_valid Kind.deposit = true
kind_valid (Kind.other s) = false

unfoldable pub inbound : Kind → Bool
inbound Kind.topup = true
inbound Kind.dividend = false
inbound Kind.deposit = false
inbound (Kind.other s) = false

abbrev pub err_insufficient_funds : ProtocolError
err_insufficient_funds = with_message err_cannot_perform (
    new_message "Недостаточно средств на кассе" "Kassada mablag' yetarli emas"
      "Insufficient funds in the cash register")

-- `Account.Usable`
unfoldable pub usable : Account → Result (Unit {0})
usable a = if a.blocked then fail err_cannot_perform else ok tt

-- The rest of `Account.Apply`, after the account was found usable.
move : Kind → ℤ → Action Account (Unit {0})
unfolding inbound
move kind amount a =
    if inbound kind
    then (ok tt, record a { balance = add64 a.balance amount })
    else if ltb_ℤ a.balance amount
    then (fail err_insufficient_funds, a)
    else (ok tt, record a { balance = sub64 a.balance amount })

-- `Account.Apply`: the account comes back as the call left it.
unfoldable pub apply : Kind → ℤ → Action Account (Unit {0})
unfolding kind_valid usable move ◌>>=◌
apply kind amount a =
    if not (kind_valid kind)
    then (err (Error.other "unknown register kind"), a)
    else (lift (usable a) >> move kind amount) a

-- `Account.Reverse`
unfoldable pub reverse : Kind → ℤ → Account → Account
unfolding inbound
reverse kind amount a =
    if inbound kind
    then record a { balance = sub64 a.balance amount }
    else record a { balance = add64 a.balance amount }
