-- ===== src/Tests/Accounts.antt =====
-- Replays, snapshots and appends.
use go_odtbank.Base.{
  insert, pos, ◌≡◌, refl, List, [], ◌∷◌, ◌++◌, some, ◌+ℤ◌, ◌-ℤ◌, wrap64, add64, sub64, stream,
  lookup, arith,
}
use go_odtbank.Domain.Event.{
  Event, version, account_opened, money_credited, money_debited, funds_reserved,
}
use go_odtbank.Domain.Account.{
  AccountSnapshot, fold, fold_all, fold_after, replay_account, replay_account_from,
}
use go_odtbank.Domain.Account.Balances.{replay_exact, total_moved, total_held}
use go_odtbank.Domain.Account.Snapshots.{replay-snapshot, Captures}
use go_odtbank.Domain.Error.{ok, err, concurrency_conflict}
use go_odtbank.Store.{new_memory_store}
use go_odtbank.Store.Customers.{opening}
use go_odtbank.Store.Transfers.{plain_posting, hold_event}
use go_odtbank.Store.Events.{append, load, load_snapshot, save_snapshot}
use go_odtbank.Store.Events.Concurrency.{append_conflict}
use go_odtbank.Store.Streams.{StoreInv}
use go_odtbank.Store.Steps.{
  Server, new_server, load_step, snapshot_step, save_step, Reach-StoreInv, Reach, here, next, calls,
  loads, resumes, saves, AllTrue,
}
use go_odtbank.Store.Steps.Calls.{appends}
use go_odtbank.Repository.{find_by_id, returned, snapshot, maybe_snapshot, last_event}
use go_odtbank.Repository.Reads.{find_by_id-replays, Answers}
use go_odtbank.Tests.Fixtures.{payment}

abbrev tail : List Event
tail =
    money_credited (plain_posting "acc1" (pos 300) 2 "MoneyCredited" 1)
    ∷ money_debited (plain_posting "acc1" (pos 50) 3 "MoneyDebited" 2)
    ∷ funds_reserved (hold_event payment "acc1" (pos 20) 4 "FundsReserved" 3)
    ∷ []

abbrev history : List Event
history = account_opened (opening "acc1" (pos 1000) 1) ∷ tail

replay_history : replay_account "acc1" history ≡ record {
  id = "acc1";
  balance = pos 1250;
  reserved_balance = pos 20;
  available_balance = pos 1230;
}
unfolding replay_account fold_all fold add64 sub64 wrap64 ◌+ℤ◌ ◌-ℤ◌
replay_history = refl

replay_exact_example :
    let a = replay_account "acc1" history in
    (a.balance ≡ pos 1000 +ℤ total_moved tail)
    × (a.reserved_balance ≡ total_held tail)
    × (a.available_balance ≡ pos 1000 +ℤ total_moved tail -ℤ total_held tail)
unfolding ◌+ℤ◌ ◌-ℤ◌
replay_exact_example =
    replay_exact "acc1" (opening "acc1" (pos 1000) 1) tail (omega arith) (tt, (tt, (tt, tt)))
      (omega arith) (omega arith) (omega arith)

abbrev early : AccountSnapshot
early = record {
  aggregate_id = "acc1";
  balance = pos 1300;
  reserved_balance = pos 0;
  available_balance = pos 1300;
  as_of_sequence = 1;
  occurred_at = 2;
}

abbrev covered : List Event
covered =
    account_opened (opening "acc1" (pos 1000) 1)
    ∷ money_credited (plain_posting "acc1" (pos 300) 2 "MoneyCredited" 1)
    ∷ []

abbrev uncovered : List Event
uncovered = money_debited (plain_posting "acc1" (pos 50) 3 "MoneyDebited" 2) ∷ []

early-Captures : Captures "acc1" early covered
unfolding replay_account fold_all fold add64 sub64 wrap64 ◌+ℤ◌ ◌-ℤ◌
early-Captures = record { same_id = refl; same_balance = refl; same_reserved = refl; covers = refl }

replay-snapshot_example :
    replay_account_from "acc1" (some early) (covered ++ uncovered)
    ≡ replay_account "acc1" (covered ++ uncovered)
replay-snapshot_example =
    replay-snapshot "acc1" early covered uncovered (refl, (refl, (refl, tt))) early-Captures

abbrev opened : Event
opened = account_opened (opening "acc1" (pos 1000) 1)

abbrev with_event : Event → Server → Server
with_event e s = record s { store = (append e (version e) s.store).1 }

opened-Reach : Reach new_server (with_event opened new_server)
opened-Reach = next here (calls (appends opened))

abbrev pay_in : Event
pay_in = money_credited (plain_posting "acc1" (pos 300) 2 "MoneyCredited" 1)

-- A payment comes in between the two calls of the read 0 that load, and the read 1 as a whole.
abbrev raced : Server
raced = save_step 0 (
    snapshot_step 0 (
      save_step 1 (
        snapshot_step 1 (
          load_step 1 1 "acc1"
            (with_event pay_in (load_step 0 1 "acc1" (with_event opened new_server)))))))

raced-Reach : Reach new_server raced
raced-Reach =
    next
      (next
        (next
          (next
            (next (next (next opened-Reach (loads 0 1 "acc1")) (calls (appends pay_in)))
              (loads 1 1 "acc1"))
            (resumes 1))
          (saves 1))
        (resumes 0))
      (saves 0)

-- The read 0 answers with the payment, which it never loaded, and its snapshot is too old to be kept.
raced_answers :
    (raced.reads 0
      ≡ returned "acc1" (opened ∷ []) (
          ok (record {
            id = "acc1";
            balance = pos 1300;
            reserved_balance = pos 0;
            available_balance = pos 1300;
          })))
    × (raced.store.snapshots
        ≡ (
          "acc1",
          record {
            aggregate_id = "acc1";
            balance = pos 1300;
            reserved_balance = pos 0;
            available_balance = pos 1300;
            as_of_sequence = 1;
            occurred_at = 2;
          },
        )
          ∷ [])
unfolding append stream lookup insert load snapshot load_snapshot maybe_snapshot save_snapshot
    last_event replay_account_from fold_all fold_after fold add64 sub64 wrap64 ◌+ℤ◌ ◌-ℤ◌
raced_answers = (refl, refl)

Reach-StoreInv_example :
    StoreInv raced.store
    × AllTrue raced
    × Answers "acc1" (stream "acc1" raced.store.streams) (find_by_id 1 "acc1" raced.store).0
Reach-StoreInv_example = Reach-StoreInv 1 "acc1" raced-Reach

find_by_id-replays_example :
    let m = (append opened 0 new_memory_store).1 in
    let (res, m') = find_by_id 1 "acc1" m in
    Answers "acc1" (stream "acc1" m.streams) res × (m'.streams ≡ m.streams) × StoreInv m'
find_by_id-replays_example =
    find_by_id-replays 1 "acc1" (append opened 0 new_memory_store).1
      (Reach-StoreInv 1 "acc1" opened-Reach).0

abbrev deposit_event : Event
deposit_event = money_credited (plain_posting "acc1" (pos 300) 2 "MoneyCredited" 0)

append_conflict_example :
    let m' = (append opened 0 new_memory_store).1 in
    append deposit_event 0 m' ≡ (err concurrency_conflict, m')
unfolding append stream lookup
append_conflict_example =
    append_conflict opened deposit_event 0 new_memory_store (append opened 0 new_memory_store).1
      refl refl
