-- ===== src/Tests/Payloads.antt =====
-- The payloads of events on concrete data.
use go_odtbank.Base.{pos, negsuc, ◌≡◌, refl, arith, []}
use go_odtbank.Domain.Event.{Event, money_debited}
use go_odtbank.Domain.Error.{ok, err, other}
use go_odtbank.Domain.Money.{money_text, parse_money}
use go_odtbank.Domain.Money.RoundTrip.{parse_money-money_text}
use go_odtbank.Store.Transfers.{transfer_posting}
use go_odtbank.Postgres.Json.{Payload, marshal_event, decode_event}
use go_odtbank.Postgres.Json.RoundTrip.{decode_event-marshal_event}
use go_odtbank.Tests.Fixtures.{payment}

parse_money-money_text_example : parse_money (money_text (negsuc 1249)) ≡ ok (negsuc 1249)
parse_money-money_text_example = parse_money-money_text (negsuc 1249) (omega arith)

abbrev debit : Event
debit = money_debited (transfer_posting payment "acc1" "acc2" (pos 100) "fee" "MoneyDebited" 9 1)

decode_event-marshal_event_example :
    (p : Payload) × (marshal_event debit ≡ ok p) × (decode_event "acc1" "MoneyDebited" p ≡ ok debit)
decode_event-marshal_event_example = decode_event-marshal_event debit refl ((omega arith), refl)

-- An event of another type is not decoded.
decode_unknown :
    decode_event "acc1" "AccountClosed" []
    ≡ err (other "eventstore: unknown event type AccountClosed")
unfolding decode_event
decode_unknown = refl
