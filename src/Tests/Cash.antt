-- ===== src/Tests/Cash.antt =====
-- Deposits and withdrawals.
use go_odtbank.Base.{pos}
use go_odtbank.Store.{MemoryStore}
use go_odtbank.Store.Streams.{Extends-refl}
use go_odtbank.Service.Cash.{deposit, withdraw}
use go_odtbank.Service.Cash.Deposits.{Deposits, deposit_lem}
use go_odtbank.Service.Cash.Withdrawals.{Withdraws, withdraw_lem}
use go_odtbank.Tests.Fixtures.{seeded}

abbrev alone : MemoryStore → MemoryStore
alone m = m

deposit_lem_example :
    Deposits (pos 1500) "acc1" seeded seeded (deposit alone (pos 1500) "acc1" 6 seeded)
deposit_lem_example = deposit_lem alone (pos 1500) "acc1" 6 seeded (Extends-refl seeded.streams)

withdraw_lem_example : Withdraws (pos 2000) "acc1" seeded (withdraw (pos 2000) "acc1" 6 seeded)
withdraw_lem_example = withdraw_lem (pos 2000) "acc1" 6 seeded
