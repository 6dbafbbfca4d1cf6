-- ===== src/Postgres/Json.antt =====
-- internal/eventstore/postgres_store.go: what `json.Marshal` writes of an event and `decodeEvent`
-- reads, after the field names and tags of internal/domain/events.go and the methods of `Money` in
-- internal/domain/money.go. A payload is its object's members; those that decoding does not name are
-- skipped, and a field without a member keeps its zero value.
pub mod RoundTrip
use Prim.Native.String.{◌++◌ as concat}
use go_odtbank.Base.{
  ℕ, String, Bool, true, false, pos, eqb_ℤ, min_int64, List, [], ◌∷◌, ◌++◌, Option, none, some,
  Dict, lookup, str_eq, if◌then◌else◌,
}
use go_odtbank.Domain.Event.{
  Time, Money, Opening, Posting, Hold, Event, account_opened, money_credited, money_debited,
  funds_reserved, reservation_captured, reservation_released,
}
use go_odtbank.Domain.Error.{Result, ok, err, Error, other, error_text}
use go_odtbank.Domain.Money.{money_text, parse_money}

-- A member: a text, the text of a decimal number, a natural number or an instant of time.
pub data Json : Type 0 where
  text : String → Json
  decimal : String → Json
  natural : ℕ → Json
  instant : Time → Json

abbrev pub Payload : Type 0
Payload = Dict Json

infixl 5 ◌>>=◌
abbrev pub ◌>>=◌ {ℓ κ} : {A : Type ℓ} {B : Type κ} → Result A → (A → Result B) → Result B
err problem >>= next = err problem
ok value >>= next = next value

-- `Money.MarshalJSON`. Only the text of the least int64, with its two signs, is not JSON.
unfoldable pub marshal_money : Money → Result Json
marshal_money m =
    if eqb_ℤ m min_int64
    then err (other "json: error calling MarshalJSON for type domain.Money")
    else ok (decimal (money_text m))

-- The members tagged `omitempty`.
unfoldable pub omitempty : List (String × String) → Payload
omitempty [] = []
omitempty ((k, v) ∷ fs) =
    let rest = omitempty fs in if str_eq v "" then rest else (k, text v) ∷ rest

abbrev pub optional_fields : Posting → List (String × String)
optional_fields e =
    ("transfer_id", e.transfer_id)
    ∷ ("purpose", e.purpose)
    ∷ ("counterparty_account_id", e.counterparty_account_id)
    ∷ ("adjustment_id", e.adjustment_id)
    ∷ ("adjustment_reason", e.adjustment_reason)
    ∷ ("case_reference", e.case_reference)
    ∷ ("original_reference", e.original_reference)
    ∷ []

-- The members without a tag, and then the others.
abbrev pub header : String → String → ℕ → Time → String → String → Json → Payload → Payload
header aggregate name seq occurred id field amount rest =
    ("Aggregate", text aggregate)
    ∷ ("Type", text name)
    ∷ ("Seq", natural seq)
    ∷ ("Occurred", instant occurred)
    ∷ ("ID", text id)
    ∷ (field, amount)
    ∷ rest

unfoldable pub marshal_opening : Opening → Result Payload
marshal_opening e = do
  amount ← marshal_money e.initial_balance
  ok (header e.aggregate e.event_type e.seq e.occurred e.id "InitialBalance" amount [])

unfoldable pub marshal_posting : Posting → Result Payload
marshal_posting e = do
  amount ← marshal_money e.amount
  ok (
      header e.aggregate e.event_type e.seq e.occurred e.id "Amount" amount
        (omitempty (optional_fields e)))

unfoldable pub marshal_hold : Hold → Result Payload
marshal_hold e = do
  amount ← marshal_money e.amount
  ok (
      header e.aggregate e.event_type e.seq e.occurred e.id "Amount" amount
        (("transfer_id", text e.transfer_id) ∷ []))

-- `json.Marshal(event)`
unfoldable pub marshal_event : Event → Result Payload
marshal_event (account_opened e) = marshal_opening e
marshal_event (money_credited e) = marshal_posting e
marshal_event (money_debited e) = marshal_posting e
marshal_event (funds_reserved e) = marshal_hold e
marshal_event (reservation_captured e) = marshal_hold e
marshal_event (reservation_released e) = marshal_hold e

abbrev mismatch : Error
mismatch = other "json: cannot unmarshal into Go struct field"

abbrev pub as_text : Option Json → Result String
as_text none = ok ""
as_text (some (text s)) = ok s
as_text (some _) = err mismatch

abbrev pub as_natural : Option Json → Result ℕ
as_natural none = ok 0
as_natural (some (natural n)) = ok n
as_natural (some _) = err mismatch

abbrev pub as_instant : Option Json → Result Time
as_instant none = ok 0
as_instant (some (instant t)) = ok t
as_instant (some _) = err mismatch

-- `Money.UnmarshalJSON`, which takes a number or the text of one.
abbrev pub as_money : Option Json → Result Money
as_money none = ok (pos 0)
as_money (some (decimal s)) = parse_money s
as_money (some (text s)) = parse_money s
as_money (some (natural n)) = err mismatch
as_money (some (instant t)) = err mismatch

unfoldable pub unmarshal_opening : String → Payload → Result Opening
unmarshal_opening aggregate p = do
  name ← as_text (lookup "Type" p)
  seq ← as_natural (lookup "Seq" p)
  occurred ← as_instant (lookup "Occurred" p)
  id ← as_text (lookup "ID" p)
  amount ← as_money (lookup "InitialBalance" p)
  ok (record {
    aggregate = aggregate;
    event_type = name;
    seq = seq;
    occurred = occurred;
    id = id;
    initial_balance = amount;
  })

unfoldable pub unmarshal_posting : String → Payload → Result Posting
unmarshal_posting aggregate p = do
  name ← as_text (lookup "Type" p)
  seq ← as_natural (lookup "Seq" p)
  occurred ← as_instant (lookup "Occurred" p)
  id ← as_text (lookup "ID" p)
  amount ← as_money (lookup "Amount" p)
  transfer_id ← as_text (lookup "transfer_id" p)
  purpose ← as_text (lookup "purpose" p)
  counterparty ← as_text (lookup "counterparty_account_id" p)
  adjustment_id ← as_text (lookup "adjustment_id" p)
  adjustment_reason ← as_text (lookup "adjustment_reason" p)
  case_reference ← as_text (lookup "case_reference" p)
  original_reference ← as_text (lookup "original_reference" p)
  ok (record {
    aggregate = aggregate;
    event_type = name;
    seq = seq;
    occurred = occurred;
    id = id;
    amount = amount;
    transfer_id = transfer_id;
    purpose = purpose;
    counterparty_account_id = counterparty;
    adjustment_id = adjustment_id;
    adjustment_reason = adjustment_reason;
    case_reference = case_reference;
    original_reference = original_reference;
  })

unfoldable pub unmarshal_hold : String → Payload → Result Hold
unmarshal_hold aggregate p = do
  name ← as_text (lookup "Type" p)
  seq ← as_natural (lookup "Seq" p)
  occurred ← as_instant (lookup "Occurred" p)
  id ← as_text (lookup "ID" p)
  amount ← as_money (lookup "Amount" p)
  transfer_id ← as_text (lookup "transfer_id" p)
  ok (record {
    aggregate = aggregate;
    event_type = name;
    seq = seq;
    occurred = occurred;
    id = id;
    amount = amount;
    transfer_id = transfer_id;
  })

-- `fmt.Errorf("eventstore: decode <name>: %w", err)`, or the decoded event.
abbrev pub decoded : {A : Type 0} → String → (A → Event) → Result A → Result Event
decoded name make (ok a) = ok (make a)
decoded name make (err e) =
    err (other (concat "eventstore: decode " (concat name (concat ": " (error_text e)))))

unfoldable pub decode_event : String → String → Payload → Result Event
decode_event aggregate name p =
    if str_eq name "AccountOpened"
    then decoded name account_opened (unmarshal_opening aggregate p)
    else if str_eq name "MoneyDebited"
    then decoded name money_debited (unmarshal_posting aggregate p)
    else if str_eq name "MoneyCredited"
    then decoded name money_credited (unmarshal_posting aggregate p)
    else if str_eq name "FundsReserved"
    then decoded name funds_reserved (unmarshal_hold aggregate p)
    else if str_eq name "ReservationCaptured"
    then decoded name reservation_captured (unmarshal_hold aggregate p)
    else if str_eq name "ReservationReleased"
    then decoded name reservation_released (unmarshal_hold aggregate p)
    else err (other (concat "eventstore: unknown event type " name))
