-- ===== src/Service/Transfer/Runs.antt =====
-- A run of the worker on one transfer: calls of `Process`, each on the transfer as it is stored.
pub mod Settling
use go_odtbank.Base.{
  ℕ, zero, suc, String, Bool, true, false, ◌≡◌, ◌≢◌, refl, sym, ap, subst, ◌∙◌, List, [], ◌∷◌, ◌++◌,
  append-nil, some, none, lookup, stream, pos, add64, sub64, wrap64, wrap64-sub, wrap64_id,
  InRange64, ◌+ℤ◌, ◌-ℤ◌, ◌≤ℤ◌, int_laws,
}
use go_odtbank.Domain.Event.{Time, Money}
use go_odtbank.Domain.Account.{Account, TransferCompletedEvent, replay_account}
use go_odtbank.Domain.Account.Appends.{with_balance}
use go_odtbank.Domain.Error.{Result, ok}
use go_odtbank.Domain.Transfer.{
  TransferRecord, TransferStatus, pending, completed, SagaStep, created, funds_reserved,
  compliance_approved, ledger_posted, reservation_captured,
}
use go_odtbank.Store.{MemoryStore, account_of, reserved}
use go_odtbank.Store.Transfers.{flag}
use go_odtbank.Service.Transfer.{process}
use go_odtbank.Service.Transfer.Rounds.{Deal, deal_of, Goes, WaitsAt}
use go_odtbank.Service.Transfer.Rounds.Holding.{
  HoldsFunds, SameMoney, round_created, round_reserved,
}
use go_odtbank.Service.Transfer.Rounds.Posting.{
  MovesFunds, DropsHold, round_approved, round_posted, round_captured,
}

module _ (check : TransferRecord → Result Bool) where
  -- One call of `Process` on the transfer as it is stored, with the events that it publishes.
  pub worker_round : (ℕ → Time) → String → MemoryStore → MemoryStore × List TransferCompletedEvent
  worker_round clock id m = elim (lookup id m.transfers) [
    | none ↦ (m, [])
    | some t ↦ let (_, m', events) = process check t clock m in (m', events)
  ]

  -- `n` such calls; the k-th reads the times `clocks k`.
  pub worker_rounds :
      ℕ → (ℕ → ℕ → Time) → ℕ → String → MemoryStore → MemoryStore × List TransferCompletedEvent
  worker_rounds zero clocks k id m = (m, [])
  worker_rounds (suc n) clocks k id m =
      let (m', now) = worker_round (clocks k) id m in
      let (m'', later) = worker_rounds n clocks (suc k) id m' in (m'', now ++ later)

-- The deal is stored, at this step and with this status.
pub record StandsAt (d : Deal) (s : SagaStep) (st : TransferStatus) (m : MemoryStore) : Type 0 where
  pub transfer : TransferRecord
  pub stored : lookup d.id m.transfers ≡ some transfer
  pub same_deal : deal_of transfer ≡ d
  pub at_step : transfer.current_step ≡ s
  pub has_status : transfer.status ≡ st

-- What the bus is told when the deal completes at `now`.
abbrev pub completed_deal : Deal → Time → TransferCompletedEvent
completed_deal d now = record {
  timestamp = now;
  transfer_id = d.id;
  amount = d.amount;
  source_account_id = d.source;
  destination_account_id = d.destination;
  fee = d.fee;
}

module _ (check : TransferRecord → Result Bool) (clock : ℕ → Time) (m : MemoryStore)
    (s s' : SagaStep) (st : TransferStatus) (P : Deal → Type 0)
    (Q : Deal → MemoryStore → List TransferCompletedEvent → Type 0) where
  -- A fact about `Process` on a record is one about a round on its deal.
  round_of :
      ((t : TransferRecord)
        → WaitsAt s t m
        → P (deal_of t)
        → let out = process check t clock m in Goes t s' st out × Q (deal_of t) out.1 out.2)
      → (d : Deal) → StandsAt d s pending m
      → P d
      → let out = worker_round check clock d.id m in StandsAt d s' st out.0 × Q d out.0 out.1
  unfolding worker_round
  round_of step d at p =
      subst
        (λ (d : Deal).
          lookup d.id m.transfers ≡ some at.transfer
          → P d
          → let out = worker_round check clock d.id m in StandsAt d s' st out.0 × Q d out.0 out.1)
        at.same_deal on_record at.stored p
    where
      on_record :
          lookup at.transfer.id m.transfers ≡ some at.transfer
          → P (deal_of at.transfer)
          → let out = worker_round check clock at.transfer.id m in
            StandsAt (deal_of at.transfer) s' st out.0 × Q (deal_of at.transfer) out.0 out.1
      on_record stored p =
          let t = at.transfer in
          let (goes, q) =
            step t (record { stored = stored; is_waiting = at.has_status; at_step = at.at_step })
              p in
          rw (stored, worker_round)
            (
              record {
                transfer = goes.next;
                stored = goes.stored;
                same_deal = goes.carries.same_deal;
                at_step = goes.carries.at_step;
                has_status = goes.carries.has_status;
              },
              q,
            )

-- The transfer is new to the books, between two known and different accounts, and covered.
pub record CanSettle (d : Deal) (m : MemoryStore) : Type 0 where
  pub apart : d.source ≢ d.destination
  pub fee_nonneg : pos 0 ≤ℤ d.fee
  pub no_hold : lookup d.id m.reservations ≡ none
  pub no_posting : flag (lookup d.id m.ledger_postings) ≡ false
  pub no_decision : lookup d.id m.compliance_decisions ≡ none
  pub source_known : stream d.source m.streams ≢ []
  pub destination_known : stream d.destination m.streams ≢ []
  pub covered : add64 d.amount d.fee ≤ℤ (account_of d.source m).available_balance
  pub hold_in_range : InRange64 (account_of d.source m).reserved_balance

module _ (check : TransferRecord → Result Bool) (m : MemoryStore) where
  pub hold_round :
      (clock : ℕ → Time) (d : Deal)
      → StandsAt d created pending m
      → CanSettle d m
      → let out = worker_round check clock d.id m in
        StandsAt d funds_reserved pending out.0 × (HoldsFunds d m out.0 × (out.1 ≡ []))
  hold_round clock =
      round_of check clock m created funds_reserved pending (λ d. CanSettle d m)
        (λ d m' events. HoldsFunds d m m' × (events ≡ []))
        λ t w p.
          let (g, h, e) =
            round_created check t clock m w p.no_hold p.source_known p.destination_known
              p.covered in
          (g, (h, e))

  pub comply_round :
      (clock : ℕ → Time) (d : Deal)
      → StandsAt d funds_reserved pending m
      → ((t : TransferRecord) → check t ≡ ok true) × (lookup d.id m.compliance_decisions ≡ none)
      → let out = worker_round check clock d.id m in
        StandsAt d compliance_approved pending out.0 × (SameMoney m out.0 × (out.1 ≡ []))
  comply_round clock =
      round_of check clock m funds_reserved compliance_approved pending
        (λ d.
          ((t : TransferRecord) → check t ≡ ok true) × (lookup d.id m.compliance_decisions ≡ none))
        (λ d m' events. SameMoney m m' × (events ≡ []))
        λ t w p. let (g, h, e) = round_reserved check t clock m w (p.0 t) p.1 in (g, (h, e))

  pub post_round :
      (clock : ℕ → Time) (d : Deal)
      → StandsAt d compliance_approved pending m
      → (flag (lookup d.id m.ledger_postings) ≡ false)
        × (d.source ≢ d.destination)
        × (pos 0 ≤ℤ d.fee)
        × (stream d.source m.streams ≢ [])
        × (stream d.destination m.streams ≢ [])
      → let out = worker_round check clock d.id m in
        StandsAt d ledger_posted pending out.0 × (MovesFunds d m out.0 × (out.1 ≡ []))
  post_round clock =
      round_of check clock m compliance_approved ledger_posted pending
        (λ d.
          (flag (lookup d.id m.ledger_postings) ≡ false)
          × (d.source ≢ d.destination)
          × (pos 0 ≤ℤ d.fee)
          × (stream d.source m.streams ≢ [])
          × (stream d.destination m.streams ≢ []))
        (λ d m' events. MovesFunds d m m' × (events ≡ []))
        λ t w p. let (g, h, e) = round_approved check t clock m w p.0 p.1 p.2 p.3 p.4 in (g, (h, e))

  pub capture_round :
      (clock : ℕ → Time) (d : Deal)
      → StandsAt d ledger_posted pending m
      → lookup d.id m.reservations
        ≡ some (record { account_id = d.source; amount = add64 d.amount d.fee; state = reserved })
      → let out = worker_round check clock d.id m in
        StandsAt d reservation_captured pending out.0
        × (DropsHold d.source (add64 d.amount d.fee) m out.0 × (out.1 ≡ []))
  capture_round clock =
      round_of check clock m ledger_posted reservation_captured pending
        (λ d.
          lookup d.id m.reservations
          ≡ some
              (record { account_id = d.source; amount = add64 d.amount d.fee; state = reserved }))
        (λ d m' events. DropsHold d.source (add64 d.amount d.fee) m m' × (events ≡ []))
        λ t w p. let (g, h, e) = round_posted check t clock m _ w p refl in (g, (h, e))

  pub complete_round :
      (clock : ℕ → Time) (d : Deal)
      → StandsAt d reservation_captured pending m
      → let out = worker_round check clock d.id m in
        StandsAt d reservation_captured completed out.0
        × ((out.0.streams ≡ m.streams) × (out.1 ≡ completed_deal d (clock 0) ∷ []))
  complete_round clock d at =
      round_of check clock m reservation_captured reservation_captured completed (λ d. Unit {0})
        (λ d m' events. (m'.streams ≡ m.streams) × (events ≡ completed_deal d (clock 0) ∷ []))
        (λ t w p. let (g, h, e) = round_captured check t clock m w in (g, (h, e))) d at tt
