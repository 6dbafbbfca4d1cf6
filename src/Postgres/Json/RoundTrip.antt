-- ===== src/Postgres/Json/RoundTrip.antt =====
-- Decoding after encoding: the members of a payload are found under their names.
use go_odtbank.Base.{
  String, ◌≡◌, refl, Bool, true, false, not, ◌&&◌, InRange64, eqb_ℤ, min_int64, ap, List, [], ◌∷◌,
  lookup, str_eq, str_eq_sound, if◌then◌else◌, arith, sym, subst,
}
use go_odtbank.Domain.Event.{
  Money, Event, account_opened, money_credited, money_debited, funds_reserved, reservation_captured,
  reservation_released, aggregate_id, event_type, Opening, Posting, Hold,
}
use go_odtbank.Domain.Error.{Result, ok}
use go_odtbank.Domain.Money.{money_text}
use go_odtbank.Domain.Money.RoundTrip.{parse_money-money_text}
use go_odtbank.Postgres.Json.{
  text, decimal, as_text, omitempty, marshal_money, marshal_event, decode_event, Payload, header,
  decoded, marshal_opening, marshal_posting, marshal_hold, unmarshal_opening, unmarshal_posting,
  unmarshal_hold, optional_fields,
}

absent : String → List (String × String) → Bool
absent k [] = true
absent k ((j, v) ∷ fs) = let rest = absent k fs in not (str_eq j k) && rest

distinct : List (String × String) → Bool
unfolding absent
distinct [] = true
distinct ((k, v) ∷ fs) = let rest = distinct fs in absent k fs && rest

field : String → List (String × String) → String
field k [] = ""
field k ((j, v) ∷ fs) = let rest = field k fs in if str_eq j k then v else rest

field-absent :
    (k : String) (fs : List (String × String))
    → absent k fs ≡ true
    → as_text (lookup k (omitempty fs)) ≡ ok ""
unfolding absent omitempty lookup
field-absent k [] h = refl
field-absent k ((j, v) ∷ fs) h = ground (arith, field-absent k fs)

-- An omitted member reads as the empty text, which it was.
read-omitempty :
    (k : String) (fs : List (String × String))
    → distinct fs ≡ true
    → as_text (lookup k (omitempty fs)) ≡ ok (field k fs)
unfolding distinct absent omitempty lookup field
read-omitempty k [] h = refl
read-omitempty k ((j, v) ∷ fs) h =
    ground (arith, str_eq_sound j k, str_eq_sound v "", field-absent k fs, read-omitempty k fs)

-- The type that an event names is the one that it has.
abbrev pub NamesItself : Event → Type 0
NamesItself (account_opened e) = e.event_type ≡ "AccountOpened"
NamesItself (money_credited e) = e.event_type ≡ "MoneyCredited"
NamesItself (money_debited e) = e.event_type ≡ "MoneyDebited"
NamesItself (funds_reserved e) = e.event_type ≡ "FundsReserved"
NamesItself (reservation_captured e) = e.event_type ≡ "ReservationCaptured"
NamesItself (reservation_released e) = e.event_type ≡ "ReservationReleased"

abbrev pub amount_of : Event → Money
amount_of (account_opened e) = e.initial_balance
amount_of (money_credited e) = e.amount
amount_of (money_debited e) = e.amount
amount_of (funds_reserved e) = e.amount
amount_of (reservation_captured e) = e.amount
amount_of (reservation_released e) = e.amount

-- An amount that JSON can hold.
abbrev pub IsStorable : Money → Type 0
IsStorable n = InRange64 n × (eqb_ℤ n min_int64 ≡ false)

marshal_money-storable : (n : Money) → IsStorable n → marshal_money n ≡ ok (decimal (money_text n))
unfolding marshal_money
marshal_money-storable n h = rw (h.1)

-- A payload that encoding writes, and that decoding reads as the event.
abbrev Rounds : {A : Type 0} → (A → Result Payload) → (Payload → Result A) → A → Type 0
Rounds write read e = (p : Payload) × (write e ≡ ok p) × (read p ≡ ok e)

opening-Rounds :
    (e : Opening)
    → IsStorable e.initial_balance
    → Rounds marshal_opening (unmarshal_opening e.aggregate) e
unfolding marshal_opening unmarshal_opening lookup
opening-Rounds e h =
    let n = e.initial_balance in
    (
      header e.aggregate e.event_type e.seq e.occurred e.id "InitialBalance"
          (decimal (money_text n)) [],
      rw (marshal_money-storable n h),
      rw (parse_money-money_text n h.0),
    )

hold-Rounds : (e : Hold) → IsStorable e.amount → Rounds marshal_hold (unmarshal_hold e.aggregate) e
unfolding marshal_hold unmarshal_hold lookup
hold-Rounds e h = (
  header e.aggregate e.event_type e.seq e.occurred e.id "Amount" (decimal (money_text e.amount))
      (("transfer_id", text e.transfer_id) ∷ []),
  rw (marshal_money-storable e.amount h),
  rw (parse_money-money_text e.amount h.0),
)

posting-Rounds :
    (e : Posting) → IsStorable e.amount → Rounds marshal_posting (unmarshal_posting e.aggregate) e
unfolding marshal_posting unmarshal_posting lookup distinct absent field
posting-Rounds e h =
    let found = λ (k : String). read-omitempty k (optional_fields e) refl in
    (
      header e.aggregate e.event_type e.seq e.occurred e.id "Amount" (decimal (money_text e.amount))
          (omitempty (optional_fields e)),
      rw (marshal_money-storable e.amount h),
      rw (
        parse_money-money_text e.amount h.0,
        found "transfer_id",
        found "purpose",
        found "counterparty_account_id",
        found "adjustment_id",
        found "adjustment_reason",
        found "case_reference",
        found "original_reference",
      ),
    )

renamed :
    (a : String) {name s : String} (p : Payload) {r : Result Event}
    → name ≡ s
    → decode_event a s p ≡ r
    → decode_event a name p ≡ r
renamed a p {r = r} n e = subst (λ x. decode_event a x p ≡ r) (sym n) e

-- Each event whose type is its own, and whose amount is above the least int64, is encoded, and the
-- payload decodes under the event's aggregate and type to that event.
pub decode_event-marshal_event :
    (e : Event)
    → NamesItself e
    → IsStorable (amount_of e)
    → (p : Payload) × (marshal_event e ≡ ok p)
      × (decode_event (aggregate_id e) (event_type e) p ≡ ok e)
unfolding marshal_event decode_event
decode_event-marshal_event (account_opened e) n h =
    let (p, w, r) = opening-Rounds e h in
    (p, w, renamed e.aggregate p n (ap (decoded "AccountOpened" account_opened) r))
decode_event-marshal_event (money_credited e) n h =
    let (p, w, r) = posting-Rounds e h in
    (p, w, renamed e.aggregate p n (ap (decoded "MoneyCredited" money_credited) r))
decode_event-marshal_event (money_debited e) n h =
    let (p, w, r) = posting-Rounds e h in
    (p, w, renamed e.aggregate p n (ap (decoded "MoneyDebited" money_debited) r))
decode_event-marshal_event (funds_reserved e) n h =
    let (p, w, r) = hold-Rounds e h in
    (p, w, renamed e.aggregate p n (ap (decoded "FundsReserved" funds_reserved) r))
decode_event-marshal_event (reservation_captured e) n h =
    let (p, w, r) = hold-Rounds e h in
    (p, w, renamed e.aggregate p n (ap (decoded "ReservationCaptured" reservation_captured) r))
decode_event-marshal_event (reservation_released e) n h =
    let (p, w, r) = hold-Rounds e h in
    (p, w, renamed e.aggregate p n (ap (decoded "ReservationReleased" reservation_released) r))
