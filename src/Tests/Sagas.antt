-- ===== src/Tests/Sagas.antt =====
-- A transfer from acceptance to completion.
use go_odtbank.Base.{
  str_eq_complete, ℕ, ◌≡◌, refl, [], ◌∷◌, true, lookup, stream, arith, sub64, add64, wrap64, ◌+ℤ◌,
  ◌-ℤ◌,
}
use go_odtbank.Domain.Event.{Time}
use go_odtbank.Domain.Account.{replay_account, fold, fold_all}
use go_odtbank.Domain.Error.{ok}
use go_odtbank.Domain.Transfer.{TransferRecord, created, pending}
use go_odtbank.Service.Transfer.{approve_all}
use go_odtbank.Service.Transfer.Rounds.{deal_of}
use go_odtbank.Service.Transfer.Runs.{StandsAt, CanSettle, completed_deal, worker_rounds}
use go_odtbank.Service.Transfer.Runs.Settling.{Settled, worker_rounds-settle}
use go_odtbank.Tests.Fixtures.{payment, accepted}

abbrev at_created : StandsAt (deal_of payment) created pending accepted
unfolding lookup
at_created = record {
  transfer = payment;
  stored = refl;
  same_deal = refl;
  at_step = refl;
  has_status = refl;
}

abbrev can : CanSettle (deal_of payment) accepted
unfolding lookup stream replay_account fold_all fold add64 sub64 wrap64 ◌+ℤ◌ ◌-ℤ◌
can = record {
  apart = str_eq_complete "acc1" "acc2" refl;
  fee_nonneg = omega arith;
  no_hold = refl;
  no_posting = refl;
  no_decision = refl;
  source_known = λ e. cc e;
  destination_known = λ e. cc e;
  covered = omega arith;
  hold_in_range = omega arith;
}

abbrev readings : ℕ → ℕ → Time
readings k j = 10

approve_all-ok : (t : TransferRecord) → approve_all t ≡ ok true
unfolding approve_all
approve_all-ok t = refl

worker_rounds-settle_example :
    let out = worker_rounds approve_all 5 readings 0 "trf_1" accepted in
    Settled (deal_of payment) accepted out.0 × (out.1 ≡ completed_deal (deal_of payment) 10 ∷ [])
worker_rounds-settle_example =
    worker_rounds-settle approve_all readings (deal_of payment) accepted approve_all-ok at_created
      can
