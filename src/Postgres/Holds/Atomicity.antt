-- ===== src/Postgres/Holds/Atomicity.antt =====
-- The transactions on the accounts, whatever calls fail.
use go_odtbank.Base.{List, Option, none, some, String}
use go_odtbank.Domain.Event.{Event, Money, Time}
use go_odtbank.Domain.Transfer.{TransferRecord}
use go_odtbank.Store.{MemoryReservation, HoldState}
use go_odtbank.Postgres.{Faults, Wire, Db, ◌>>◌}
use go_odtbank.Postgres.Events.{load_events_tx, insert_event_tx}
use go_odtbank.Postgres.Steady.{
  IsSteady, AllOrNothing, >>=-IsSteady, exec-IsSteady, lift-IsSteady, pure-IsSteady, raise-IsSteady,
  if-IsSteady, guard-IsSteady, transaction-AllOrNothing,
}
use go_odtbank.Postgres.Holds.{
  lock_account_tx, current_balance, reserve_body, reserve_transfer_funds, post_fee, post_body,
  post_transfer_ledger, finish_held, finish_body, finish_transfer_reservation, withdraw_body,
  withdraw_available,
}

lock-IsSteady : (id : String) → IsSteady (lock_account_tx id)
unfolding lock_account_tx
lock-IsSteady id = exec-IsSteady _

load-IsSteady : (id : String) → IsSteady (load_events_tx id)
unfolding load_events_tx
load-IsSteady id = >>=-IsSteady _ _ (exec-IsSteady _) (λ rows. lift-IsSteady _)

insert-IsSteady : (e : Event) → IsSteady (insert_event_tx e)
unfolding insert_event_tx
insert-IsSteady e = >>=-IsSteady _ _ (lift-IsSteady _) (λ payload. exec-IsSteady _)

balance-IsSteady : (id : String) → IsSteady (current_balance id)
balance-IsSteady id = >>=-IsSteady _ _ (load-IsSteady id) (λ events. pure-IsSteady _)

-- One call after another, where the first gives nothing.
then-IsSteady :
    {B : Type 0} (m : Db (Unit {0})) (k : Db B) → IsSteady m → IsSteady k → IsSteady (m >> k)
then-IsSteady m k f g = >>=-IsSteady m (λ _. k) f (λ _. g)

ruleset steady = (
  >>=-IsSteady, then-IsSteady, exec-IsSteady, lift-IsSteady, pure-IsSteady, raise-IsSteady,
  if-IsSteady, guard-IsSteady, lock-IsSteady, load-IsSteady, insert-IsSteady, balance-IsSteady,
)

reserve_body-IsSteady : (r : TransferRecord) (at : Time) → IsSteady (reserve_body r at)
unfolding reserve_body
reserve_body-IsSteady r at = search steady depth 20

post_fee-IsSteady :
    (r : TransferRecord) (at : Time) (src : List Event) → IsSteady (post_fee r at src)
unfolding post_fee
post_fee-IsSteady r at src = search steady depth 20

pub post_body-IsSteady : (r : TransferRecord) (at : Time) → IsSteady (post_body r at)
unfolding post_body
post_body-IsSteady r at = search (steady, post_fee-IsSteady) depth 20

finish_held-IsSteady :
    (r : TransferRecord) (at : Time) (target : HoldState) (h : Option MemoryReservation)
    → IsSteady (finish_held r at target h)
finish_held-IsSteady r at target none = search steady
finish_held-IsSteady r at target (some h) = search steady depth 20

finish_body-IsSteady :
    (r : TransferRecord) (at : Time) (target : HoldState) → IsSteady (finish_body r at target)
unfolding finish_body
finish_body-IsSteady r at target = search (steady, finish_held-IsSteady) depth 20

withdraw_body-IsSteady :
    (id : String) (amount : Money) (at : Time) → IsSteady (withdraw_body id amount at)
unfolding withdraw_body
withdraw_body-IsSteady id amount at = search steady depth 20

-- Whatever calls of the database fail, and even where only their answers are lost, each of
-- ReserveTransferFunds, PostTransferLedger, the capture or release, and WithdrawAvailable leaves
-- either the tables from before or those of the run in which no call fails.
pub transactions-AllOrNothing :
    (r : TransferRecord) (id : String) (amount : Money) (at : Time) (target : HoldState)
    (faults : Faults) (w : Wire)
    → AllOrNothing (reserve_transfer_funds r at) faults w
      × AllOrNothing (post_transfer_ledger r at) faults w
      × AllOrNothing (finish_transfer_reservation r at target) faults w
      × AllOrNothing (withdraw_available id amount at) faults w
unfolding reserve_transfer_funds post_transfer_ledger finish_transfer_reservation withdraw_available
transactions-AllOrNothing r id amount at target faults w = (
  transaction-AllOrNothing _ faults w (reserve_body-IsSteady r at),
  transaction-AllOrNothing _ faults w (post_body-IsSteady r at),
  transaction-AllOrNothing _ faults w (finish_body-IsSteady r at target),
  transaction-AllOrNothing _ faults w (withdraw_body-IsSteady id amount at),
)
