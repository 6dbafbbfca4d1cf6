-- ===== src/Service/Transfer/Rounds.antt =====
-- `Process` on the good path, one step of the saga at a time: what the rounds have in common.
pub mod Holding
pub mod Posting
use go_odtbank.Base.{
  ℕ, String, Bool, true, false, ◌≡◌, ◌≢◌, refl, ap, subst, ◌∙◌, inl, inr, [], ◌∷◌, some, none,
  lookup, insert, lookup-insert_self, stream, pos, add64, sub64, wrap64, ◌-ℤ◌, ◌≤ℤ◌, arith,
}
use go_odtbank.Domain.Event.{Time, Money}
use go_odtbank.Domain.Account.{TransferCompletedEvent}
use go_odtbank.Domain.Account.Appends.{with_reserved, with_balance}
use go_odtbank.Domain.Error.{Result, ok, err}
use go_odtbank.Domain.Transfer.{
  TransferRecord, TransferSagaUpdate, TransferStatus, pending, completed, SagaStep, created,
  funds_reserved, compliance_approved, ledger_posted, reservation_captured,
}
use go_odtbank.Store.{
  MemoryStore, MemoryReservation, HoldState, Outcome, reserved, captured, account_of,
}
use go_odtbank.Store.Transfers.{
  update_transfer_saga, updated_transfer, reserve_transfer_funds, post_transfer_ledger,
  record_compliance_decision, finish_reservation, capture_transfer_reservation, flag,
}
use go_odtbank.Store.Transfers.Holds.{Reserves, reserve_lem, taken, Closes, finish_lem}
use go_odtbank.Store.Transfers.Ledger.{Posts, post_lem}
use go_odtbank.Store.Transfers.Sagas.{update_applies, update_frame}
use go_odtbank.Service.Transfer.{
  Processed, process, process_step, process_created, process_reserved, process_decision,
  process_approved, process_posted, process_captured, advance, silent, update_to,
}

-- What a transfer is about, whatever its step.
pub record Deal : Type 0 where
  pub id : String
  pub source : String
  pub destination : String
  pub amount : Money
  pub fee : Money

abbrev pub deal_of : TransferRecord → Deal
deal_of t = record {
  id = t.id;
  source = t.source_account_id;
  destination = t.destination_account_id;
  amount = t.amount;
  fee = t.fee;
}

-- The stored transfer `next` is `t` at another step: the parties and the amounts are the same.
pub record Carries (t next : TransferRecord) (s : SagaStep) (st : TransferStatus) : Type 0 where
  pub same_deal : deal_of next ≡ deal_of t
  pub at_step : next.current_step ≡ s
  pub has_status : next.status ≡ st

-- The transfer `t` is stored, waits at the step `s`, and a call of `Process` may take it up.
pub record WaitsAt (s : SagaStep) (t : TransferRecord) (m : MemoryStore) : Type 0 where
  pub stored : lookup t.id m.transfers ≡ some t
  pub is_waiting : t.status ≡ pending
  pub at_step : t.current_step ≡ s

-- The call returned with no error, and left the transfer at the step `s` with the status `st`.
pub record Goes (t : TransferRecord) (s : SagaStep) (st : TransferStatus) (out : Processed)
    : Type 0 where
  pub returned : out.0 ≡ ok tt
  pub next : TransferRecord
  pub stored : lookup t.id out.1.transfers ≡ some next
  pub carries : Carries t next s st

pub advance_lem :
    (t : TransferRecord) (u : TransferSagaUpdate) (at : Time) (m : MemoryStore)
    → lookup t.id m.transfers ≡ some t
    → t.status ≡ pending
    → t.current_step ≡ u.expected_step
    → advance t u at m
      ≡ (ok tt, record m { transfers = insert t.id (updated_transfer t u at) m.transfers })
unfolding advance
advance_lem t u at m found p s = rw (update_applies t.id u at m t found p s)

updated-Carries :
    (t : TransferRecord) (u : TransferSagaUpdate) (at : Time)
    → Carries t (updated_transfer t u at) u.current_step u.status
unfolding updated_transfer
updated-Carries t u at = record { same_deal = refl; at_step = refl; has_status = refl }

pub process_at :
    (check : TransferRecord → Result Bool) (t : TransferRecord) (clock : ℕ → Time) (m : MemoryStore)
    (s : SagaStep)
    → t.current_step ≡ s
    → process check t clock m ≡ process_step s check t clock m
unfolding process
process_at check t clock m s e = ap (λ (x : SagaStep). process_step x check t clock m) e

-- A round whose store operation left `m'`, and that advances the saga by `u`.
pub advance-Goes :
    (t : TransferRecord) (u : TransferSagaUpdate) (at : Time) (m' : MemoryStore)
    → lookup t.id m'.transfers ≡ some t
    → t.status ≡ pending
    → t.current_step ≡ u.expected_step
    → Goes t u.current_step u.status (silent (advance t u at m'))
advance-Goes t u at m' found p s = rw (advance_lem t u at m' found p s) (record {
  returned = refl;
  next = updated_transfer t u at;
  stored = lookup-insert_self t.id _ m'.transfers;
  carries = updated-Carries t u at;
})

pub advance_keeps :
    (t : TransferRecord) (u : TransferSagaUpdate) (at : Time) (m' : MemoryStore)
    → (advance t u at m').1 ≡ record m' { transfers = (advance t u at m').1.transfers }
unfolding advance
advance_keeps t u at m' = (update_frame t.id u at m').0
