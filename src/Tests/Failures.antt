-- ===== src/Tests/Failures.antt =====
-- Transfers that fail, and the reservation of the one that was turned down.
use go_odtbank.Base.{
  ◌≡◌, refl, pos, [], ◌∷◌, some, lookup, stream, arith, sub64, add64, wrap64, ◌+ℤ◌, ◌-ℤ◌, Bool,
  false,
}
use go_odtbank.Domain.Account.{replay_account, fold, fold_all}
use go_odtbank.Domain.Error.{Result, ok}
use go_odtbank.Domain.Transfer.{TransferRecord, created, funds_reserved}
use go_odtbank.Store.{MemoryStore, MemoryReservation, reserved, released}
use go_odtbank.Service.Transfer.{process, approve_all}
use go_odtbank.Service.Transfer.Rounds.{WaitsAt}
use go_odtbank.Service.Transfer.Rounds.Posting.{DropsHold}
use go_odtbank.Service.Transfer.Failures.{Fails, process_short, process_turned_down}
use go_odtbank.Tests.Fixtures.{seeded, payment, clock}

-- More than the source has.
abbrev costly : TransferRecord
costly = record payment { amount = pos 20000 }

abbrev overdrawn : MemoryStore
overdrawn = record seeded { transfers = ("trf_1", costly) ∷ [] }

costly-WaitsAt : WaitsAt created costly overdrawn
unfolding lookup
costly-WaitsAt = record { stored = refl; is_waiting = refl; at_step = refl }

process_short_example :
    let out = process approve_all costly clock overdrawn in
    Fails costly "insufficient_funds" out
    × (out.1 ≡ record overdrawn { transfers = out.1.transfers })
unfolding lookup stream replay_account fold_all fold add64 sub64 wrap64 ◌+ℤ◌ ◌-ℤ◌
process_short_example =
    process_short approve_all costly clock overdrawn costly-WaitsAt refl (λ e. cc e) (λ e. cc e)
      (omega arith)

abbrev reserved_payment : TransferRecord
reserved_payment = record payment { current_step = funds_reserved }

abbrev hold : MemoryReservation
hold = record { account_id = "acc1"; amount = pos 2600; state = reserved }

abbrev holding : MemoryStore
holding = record seeded {
  transfers = ("trf_1", reserved_payment) ∷ [];
  reservations = ("trf_1", hold) ∷ [];
}

reserved_payment-WaitsAt : WaitsAt funds_reserved reserved_payment holding
unfolding lookup
reserved_payment-WaitsAt = record { stored = refl; is_waiting = refl; at_step = refl }

abbrev turn_down : TransferRecord → Result Bool
turn_down t = ok false

process_turned_down_example :
    let out = process turn_down reserved_payment clock holding in
    Fails reserved_payment "compliance_rejected" out
    × DropsHold "acc1" (pos 2600) holding out.1
    × (lookup "trf_1" out.1.reservations ≡ some (record hold { state = released }))
    × (lookup "trf_1" out.1.compliance_decisions ≡ some "rejected")
unfolding lookup
process_turned_down_example =
    process_turned_down turn_down reserved_payment clock holding hold reserved_payment-WaitsAt refl
      refl refl refl
