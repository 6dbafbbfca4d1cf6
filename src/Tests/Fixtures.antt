-- ===== src/Tests/Fixtures.antt =====
-- A store with two open accounts and one transfer between them, as cmd/server seeds it.
use go_odtbank.Base.{pos, [], ◌∷◌, none}
use go_odtbank.Domain.Event.{Time, account_opened}
use go_odtbank.Domain.Transfer.{TransferRecord, pending, completed, created, reservation_captured}
use go_odtbank.Domain.Adjustment.{AdjustmentRequest}
use go_odtbank.Domain.Adjustment
use go_odtbank.Store.{MemoryStore, new_memory_store}
use go_odtbank.Store.Customers.{opening}

abbrev pub seeded : MemoryStore
seeded = record new_memory_store {
  streams =
      ("acc1", account_opened (opening "acc1" (pos 10000) 1) ∷ [])
      ∷ ("acc2", account_opened (opening "acc2" (pos 5000) 1) ∷ [])
      ∷ [];
}

abbrev pub payment : TransferRecord
payment = record {
  id = "trf_1";
  source_account_id = "acc1";
  destination_account_id = "acc2";
  idempotency_key = "key";
  amount = pos 2500;
  fee = pos 100;
  status = pending;
  failure_code = "";
  initial_source_balance = pos 0;
  final_source_balance = pos 0;
  created_at = 5;
  updated_at = 5;
  current_step = created;
  compliance_status = "";
  attempt_count = 0;
  next_attempt_at = 5;
  last_error = "";
}

-- The same store with the transfer accepted.
abbrev pub accepted : MemoryStore
accepted = record seeded { transfers = ("trf_1", payment) ∷ [] }

abbrev pub request : AdjustmentRequest
request = record {
  id = "adj_1";
  kind = "manual";
  status = Adjustment.waiting;
  account_id = "acc1";
  direction = "credit";
  amount = pos 700;
  fee = pos 0;
  counterparty_account_id = "";
  original_transfer_id = "";
  original_account_id = "";
  original_event_sequence = none;
  reason = "goodwill payment";
  case_reference = "case 12";
  created_by = "adm_1";
  reviewed_by = "";
  rejection_reason = "";
  created_at = 7;
  reviewed_at = none;
}

-- A request to reverse the payment, as it is stored.
abbrev pub reversal_request : AdjustmentRequest
reversal_request = record request {
  kind = "reversal";
  direction = "reversal";
  amount = pos 2500;
  fee = pos 100;
  counterparty_account_id = "acc2";
  original_transfer_id = "trf_1";
}

-- The payment after completion.
abbrev pub settled : MemoryStore
settled = record seeded {
  transfers =
      ("trf_1", record payment { status = completed; current_step = reservation_captured }) ∷ [];
}

abbrev pub clock : Time → Time
clock k = k
