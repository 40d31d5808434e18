-- ===== src/Economy/Command.antt =====
-- economy_command.h and economy_command.cpp: EconomyCommand and ValidateCommand. The operation is
-- the underlying value of EconomyOp. A count of an item delta is an int32_t.
use cami.Common.{
  ℕ, List, [], ◌∷◌, Bool, true, false, not, ◌&&◌, ◌||◌, leb, ◌==◌, if◌then◌else◌, length,
}
use cami.Common.Bytes.{Bytes}
use cami.Common.Int.{ℤ, pos, ltb_ℤ, leb_ℤ}
use cami.Common.Errors.{Result, ok, err, invalid_argument}
use cami.Economy.Entry.{ItemDelta}
use cami.Economy.Wallet.{unknown_currency}

abbrev pub add_currency : ℕ
add_currency = 0

abbrev pub remove_currency : ℕ
remove_currency = 1

abbrev pub add_items : ℕ
add_items = 2

abbrev pub remove_items : ℕ
remove_items = 3

abbrev pub transfer : ℕ
transfer = 4

abbrev pub purchase : ℕ
purchase = 5

abbrev pub reward : ℕ
reward = 6

abbrev pub refund : ℕ
refund = 7

abbrev pub op_count : ℕ
op_count = 8

pub record EconomyCommand : Type 0 where
  pub request_id : ℕ
  pub trace_id : ℕ
  pub transaction_id : ℕ
  pub idempotency_key : Bytes
  pub player : ℕ
  pub peer : ℕ
  pub op : ℕ
  pub amount : ℤ
  pub currency : ℕ
  pub item_deltas : List ItemDelta
  pub reason : Bytes
  pub source : Bytes
  pub timestamp_ms : ℤ

abbrev pub is_empty {ℓ} : {A : Type ℓ} → List A → Bool
is_empty [] = true
is_empty (x ∷ xs) = false

abbrev pub is_positive : ℤ → Bool
is_positive v = ltb_ℤ (pos 0) v

abbrev uses_currency : ℕ → Bool
uses_currency op = op == add_currency || op == remove_currency

abbrev uses_items : ℕ → Bool
uses_items op =
    op == add_items || op == remove_items || op == purchase || op == reward || op == refund

abbrev is_zero : ℤ → Bool
is_zero v = leb_ℤ v (pos 0) && leb_ℤ (pos 0) v

-- A check of ValidateCommand that no delta fails.
abbrev all_deltas : (ItemDelta → Bool) → List ItemDelta → Bool
all_deltas test [] = true
all_deltas test (d ∷ ds) = test d && all_deltas test ds

-- ValidateDeltas
unfoldable pub validate_deltas : List ItemDelta → Bool
validate_deltas ds =
    not (is_empty ds) && all_deltas (λ d. not (d.def_id == 0) && not (is_zero d.count)) ds

abbrev all_positive : List ItemDelta → Bool
all_positive = all_deltas (λ d. is_positive d.count)

abbrev all_negative : List ItemDelta → Bool
all_negative = all_deltas (λ d. ltb_ℤ d.count (pos 0))

-- The fields that every command has.
unfoldable pub is_complete : EconomyCommand → Bool
is_complete cmd =
    not (cmd.transaction_id == 0)
    && not (is_empty cmd.idempotency_key)
    && not (cmd.player == 0)
    && not (leb op_count cmd.op)
    && not (is_empty cmd.reason)
    && not (is_empty cmd.source)

unfoldable pub currency_valid : EconomyCommand → Bool
currency_valid cmd =
    if uses_currency cmd.op
    then not (unknown_currency cmd.currency) && is_positive cmd.amount
    else true

unfoldable pub transfer_valid : EconomyCommand → Bool
transfer_valid cmd =
    if cmd.op == transfer
    then (let has_money = is_positive cmd.amount in
        not (cmd.peer == 0)
        && not (cmd.peer == cmd.player)
        && not (has_money && unknown_currency cmd.currency)
        && not (not has_money && is_empty cmd.item_deltas)
        && not (ltb_ℤ cmd.amount (pos 0))
        && (is_empty cmd.item_deltas
            || validate_deltas cmd.item_deltas && all_positive cmd.item_deltas))
    else true

abbrev direction_valid : EconomyCommand → Bool
direction_valid cmd =
    if cmd.op == add_items || cmd.op == purchase || cmd.op == reward
    then all_positive cmd.item_deltas
    else if cmd.op == remove_items
    then all_negative cmd.item_deltas
    else true

unfoldable pub items_valid : EconomyCommand → Bool
items_valid cmd =
    if uses_items cmd.op
    then (not (cmd.op == purchase && not (length cmd.item_deltas == 1))
        && validate_deltas cmd.item_deltas
        && direction_valid cmd)
    else true

unfoldable pub grant_valid : EconomyCommand → Bool
grant_valid cmd =
    if cmd.op == reward || cmd.op == refund
    then (let has_money = is_positive cmd.amount in
        not (not has_money && is_empty cmd.item_deltas)
        && not (has_money && unknown_currency cmd.currency))
    else true

-- ValidateCommand: each check fails with the same code.
unfoldable pub validate_command : EconomyCommand → Result (Unit {0})
validate_command cmd =
    if is_complete cmd
      && currency_valid cmd
      && transfer_valid cmd
      && items_valid cmd
      && grant_valid cmd
    then ok tt
    else err invalid_argument
