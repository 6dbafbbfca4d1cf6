-- ===== src/Tests/Transfers.antt =====
-- The steps of a transfer's money, and their repetition.
use go_odtbank.Base.{
  str_eq_complete, true, false, ◌≡◌, ◌≢◌, refl, pos, some, lookup, insert, stream, arith, sub64,
  add64, wrap64, ◌+ℤ◌, ◌-ℤ◌, inr,
}
use go_odtbank.Domain.Account.{replay_account, fold, fold_all}
use go_odtbank.Domain.Error.{ok, err, idempotency_conflict}
use go_odtbank.Domain.Transfer.{
  TransferRecord, TransferSagaUpdate, pending, created, funds_reserved,
}
use go_odtbank.Store.{MemoryStore, MemoryReservation, HoldState, reserved, captured, account_of}
use go_odtbank.Store.Transfers.{
  reserve_transfer_funds, post_transfer_ledger, finish_reservation, create_transfer,
  update_transfer_saga, find_existing,
}
use go_odtbank.Store.Transfers.Holds.{Reserves, reserve_lem, Closes, finish_lem}
use go_odtbank.Store.Transfers.Ledger.{Posts, post_lem}
use go_odtbank.Store.Transfers.Repeats.{post_twice, finish_once}
use go_odtbank.Store.Transfers.Idempotency.{create_twice, create-UniqueKeys, UniqueKeys, Repeats}
use go_odtbank.Store.Transfers.Sagas.{update_once}
use go_odtbank.Service.Transfer.{update_to}
use go_odtbank.Tests.Fixtures.{seeded, payment, accepted}

reserve_lem_example : Reserves payment accepted (reserve_transfer_funds payment 6 accepted)
unfolding lookup
reserve_lem_example = reserve_lem payment 6 accepted refl

abbrev held : MemoryStore
held = (reserve_transfer_funds payment 6 accepted).1

abbrev hold : MemoryReservation
hold = record { account_id = "acc1"; amount = pos 2600; state = reserved }

held_hold : lookup "trf_1" held.reservations ≡ some hold
unfolding reserve_transfer_funds stream lookup insert replay_account fold_all fold add64 sub64
    wrap64 ◌+ℤ◌ ◌-ℤ◌
held_hold = refl

finish_lem_example : Closes payment hold captured held (finish_reservation payment 8 captured held)
finish_lem_example = finish_lem payment 8 captured hold held (λ e. cc e) held_hold refl

post_lem_example : Posts payment held (post_transfer_ledger payment 7 held)
unfolding reserve_transfer_funds stream lookup insert replay_account fold_all fold add64 sub64
    wrap64 ◌+ℤ◌ ◌-ℤ◌
post_lem_example = post_lem payment 7 held refl (str_eq_complete "acc1" "acc2" refl) (omega arith)

abbrev posted : MemoryStore
posted = (post_transfer_ledger payment 7 accepted).1

post_twice_example :
    post_transfer_ledger payment 9 posted ≡ (ok (account_of "acc1" posted).balance, posted)
unfolding post_transfer_ledger stream lookup insert replay_account fold_all fold add64 sub64 wrap64
    ◌+ℤ◌ ◌-ℤ◌
post_twice_example = post_twice payment 7 9 accepted posted (pos 7400) refl

finish_once_example :
    let (res, m') = finish_reservation payment 8 captured held in
    (res ≡ ok tt)
    × (finish_reservation payment 9 captured m' ≡ (ok tt, m'))
    × ((other : HoldState)
        → other ≢ captured
        → finish_reservation payment 9 other m' ≡ (err idempotency_conflict, m'))
finish_once_example = finish_once payment 8 9 captured hold held (λ e. cc e) held_hold refl

-- The same key again, under another identifier.
abbrev repeated : TransferRecord
repeated = record payment { id = "trf_2"; created_at = 9 }

create_twice_example :
    let (first, m') = create_transfer payment seeded in
    (first ≡ ok (payment, true))
    × (lookup "trf_1" m'.transfers ≡ some payment)
    × Repeats payment repeated m' (create_transfer repeated m')
unfolding find_existing
create_twice_example = create_twice payment repeated seeded refl (refl, refl)

create-UniqueKeys_example : UniqueKeys (create_transfer repeated accepted).1.transfers
unfolding find_existing
create-UniqueKeys_example = create-UniqueKeys repeated accepted (refl, tt)

abbrev forward : TransferSagaUpdate
forward = update_to created funds_reserved pending 6

update_once_example :
    let m' = (update_transfer_saga "trf_1" forward 6 accepted).1 in
    update_transfer_saga "trf_1" forward 7 m' ≡ (ok false, m')
unfolding update_transfer_saga lookup
update_once_example =
    update_once "trf_1" forward forward 6 7 accepted
      (update_transfer_saga "trf_1" forward 6 accepted).1 refl (inr (λ e. cc e)) refl
