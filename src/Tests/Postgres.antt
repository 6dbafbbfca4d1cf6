-- ===== src/Tests/Postgres.antt =====
-- The Postgres store on the tables of two open accounts and one transfer between them.
use go_odtbank.Base.{
  String, ◌%◌, trim_space, add64, sub64, wrap64, ◌+ℤ◌, ◌-ℤ◌, subst, some_inj, pos, ◌≡◌, refl, arith,
  ◌⊎◌, none, some, [], ◌∷◌, ◌++◌, str_eq_complete, insert, stream, lookup, leb, if◌then◌else◌,
}
use go_odtbank.Domain.Event.{Event, account_opened, money_credited}
use go_odtbank.Domain.Account.{replay_account, fold_all, fold}
use go_odtbank.Domain.Money.{parse_money}
use go_odtbank.Policy.{mul64, div64}
use go_odtbank.Store.Transfers.{plain_posting}
use go_odtbank.Postgres.Json.RoundTrip.{IsStorable}
use go_odtbank.Domain.Error.{ok, err, other, concurrency_conflict}
use go_odtbank.Store.{MemoryStore, MemoryReservation, captured}
use go_odtbank.Store.Customers.{opening}
use go_odtbank.Store.Events as Memory
use go_odtbank.Store.Transfers as MemoryTransfers
use go_odtbank.Postgres.{Database, empty_database, EventRow, Wire, Faults, lost, quiet}
use go_odtbank.Postgres.Json.{
  Payload, marshal_event, decode_event, unmarshal_opening, decimal, header,
}
use go_odtbank.Postgres.Steady.{AllOrNothing}
use go_odtbank.Postgres.Events
use go_odtbank.Postgres.Events.{row_of}
use go_odtbank.Postgres.Events.Rows.{insert-Holds, with_rows}
use go_odtbank.Postgres.Events.Appends.{append-Agrees, append_ahead}
use go_odtbank.Postgres.Represents.{Represents, Agrees}
use go_odtbank.Postgres.Holds
use go_odtbank.Postgres.Holds.Reserve.{reserve-Agrees}
use go_odtbank.Postgres.Holds.Post.{post-Agrees, PostsUnknown}
use go_odtbank.Postgres.Holds.Finish.{finish-Agrees}
use go_odtbank.Postgres.Holds.Withdraw.{withdraw-Agrees}
use go_odtbank.Postgres.Holds.Atomicity.{transactions-AllOrNothing}
use go_odtbank.Postgres.Holds.Retries.{attempts, PostedOnce, post-exactly_once}
use go_odtbank.Tests.Fixtures.{seeded, payment}

abbrev opened_row : String → String → EventRow
opened_row id amount = record {
  sequence = 0;
  event_type = "AccountOpened";
  payload = header id "AccountOpened" 0 1 id "InitialBalance" (decimal amount) [];
  occurred_at = 1;
}

abbrev tables : Database
tables = record empty_database {
  events =
      ("acc1", opened_row "acc1" "100.00" ∷ []) ∷ ("acc2", opened_row "acc2" "50.00" ∷ []) ∷ [];
  transfers = ("trf_1", payment) ∷ [];
}

abbrev start : Wire
start = record { calls = 0; tables = tables }

acc1_decodes :
    decode_event "acc1" "AccountOpened" (opened_row "acc1" "100.00").payload
    ≡ ok (account_opened (opening "acc1" (pos 10000) 1))
unfolding decode_event unmarshal_opening lookup parse_money trim_space div64 sub64 wrap64 ◌-ℤ◌ add64
    ◌+ℤ◌ mul64
acc1_decodes = refl

acc2_decodes :
    decode_event "acc2" "AccountOpened" (opened_row "acc2" "50.00").payload
    ≡ ok (account_opened (opening "acc2" (pos 5000) 1))
unfolding decode_event unmarshal_opening lookup parse_money trim_space div64 sub64 wrap64 ◌-ℤ◌ add64
    ◌+ℤ◌ mul64
acc2_decodes = refl

start-Represents : Represents tables seeded
unfolding insert stream lookup
start-Represents = record {
  rows =
      insert-Holds "acc2" (opened_row "acc2" "50.00" ∷ [])
        (account_opened (opening "acc2" (pos 5000) 1) ∷ [])
        (("acc1", opened_row "acc1" "100.00" ∷ []) ∷ [])
        (("acc1", account_opened (opening "acc1" (pos 10000) 1) ∷ []) ∷ [])
        (insert-Holds "acc1" (opened_row "acc1" "100.00" ∷ [])
          (account_opened (opening "acc1" (pos 10000) 1) ∷ []) [] [] (λ id. tt)
          (refl, acc1_decodes, tt))
        (refl, acc2_decodes, tt);
  holds = λ id. refl;
  posted = λ id. refl;
}

abbrev salary : Event
salary = money_credited (plain_posting "acc1" (pos 700) 9 "MoneyCredited" 1)

append-Agrees_example : Agrees (Events.append salary 1 quiet start) (Memory.append salary 1 seeded)
unfolding stream lookup
append-Agrees_example =
    append-Agrees salary 1 start seeded start-Represents refl ((omega arith), refl) (omega arith)

append_ahead_example :
    (p : Payload) × (marshal_event salary ≡ ok p)
    × (Events.append salary 5 quiet start
        ≡ (ok tt, with_rows "acc1" (stream "acc1" tables.events ++ row_of salary 5 p ∷ []) start))
    × (Memory.append salary 5 seeded ≡ (err concurrency_conflict, seeded))
unfolding stream lookup
append_ahead_example =
    append_ahead salary 5 start seeded start-Represents refl ((omega arith), refl) (omega arith)

reserve-Agrees_example :
    Agrees
      (Holds.reserve_transfer_funds payment 6 quiet start)
      (MemoryTransfers.reserve_transfer_funds payment 6 seeded)
unfolding lookup add64 wrap64 ◌+ℤ◌
reserve-Agrees_example = reserve-Agrees payment 6 start seeded start-Represents refl refl

post-Agrees_example :
    Agrees
      (Holds.post_transfer_ledger payment 7 quiet start)
      (MemoryTransfers.post_transfer_ledger payment 7 seeded)
    ⊎ PostsUnknown payment 7 seeded
        (Holds.post_transfer_ledger payment 7 quiet start)
        (MemoryTransfers.post_transfer_ledger payment 7 seeded)
unfolding lookup stream
post-Agrees_example =
    post-Agrees payment 7 start seeded start-Represents refl ((omega arith), refl)
      ((omega arith), refl) (str_eq_complete "acc2" "acc1" refl)

-- The store and the tables after the reservation.
abbrev held_tables : Wire
held_tables = (Holds.reserve_transfer_funds payment 6 quiet start).1

abbrev held_store : MemoryStore
held_store = (MemoryTransfers.reserve_transfer_funds payment 6 seeded).1

abbrev HeldSum : MemoryReservation → Type 0
HeldSum h = IsStorable h.amount

held-IsStorable :
    (h : MemoryReservation) → lookup "trf_1" held_store.reservations ≡ some h → IsStorable h.amount
unfolding lookup MemoryTransfers.reserve_transfer_funds insert add64 wrap64 ◌+ℤ◌ stream
    replay_account sub64 ◌-ℤ◌ fold_all fold
held-IsStorable h e = subst HeldSum (some_inj e) ((omega arith), refl)

finish-Agrees_example :
    Agrees
      (Holds.finish_transfer_reservation payment 8 captured quiet held_tables)
      (MemoryTransfers.finish_reservation payment 8 captured held_store)
finish-Agrees_example =
    finish-Agrees payment 8 captured held_tables held_store reserve-Agrees_example.1 held-IsStorable

withdraw-Agrees_example :
    Agrees
      (Holds.withdraw_available "acc2" (pos 5001) 8 quiet start)
      (MemoryTransfers.withdraw_available "acc2" (pos 5001) 8 seeded)
withdraw-Agrees_example =
    withdraw-Agrees "acc2" (pos 5001) 8 start seeded start-Represents ((omega arith), refl)

-- The answer of each tenth call is lost.
abbrev unlucky : Faults
unlucky k = if leb 1 (k % 10) then none else some (lost (other "timeout"))

transactions-AllOrNothing_example :
    AllOrNothing (Holds.reserve_transfer_funds payment 6) unlucky start
    × AllOrNothing (Holds.post_transfer_ledger payment 6) unlucky start
    × AllOrNothing (Holds.finish_transfer_reservation payment 6 captured) unlucky start
    × AllOrNothing (Holds.withdraw_available "acc1" (pos 700) 6) unlucky start
transactions-AllOrNothing_example =
    transactions-AllOrNothing payment "acc1" (pos 700) 6 captured unlucky start

post-exactly_once_example :
    ((attempts payment (7 ∷ 8 ∷ 9 ∷ []) unlucky start).tables ≡ tables)
    ⊎ PostedOnce payment
        (7 ∷ 8 ∷ 9 ∷ [])
        tables
        (attempts payment (7 ∷ 8 ∷ 9 ∷ []) unlucky start).tables
post-exactly_once_example = post-exactly_once payment (7 ∷ 8 ∷ 9 ∷ []) unlucky start
