-- ===== src/Service/Transfer/Failures.antt =====
-- `Process` where a step fails: how the transfer ends, and what becomes of the reservation.
use go_odtbank.Base.{
  ℕ, String, Bool, false, ◌≡◌, ◌≢◌, refl, ap, ◌∙◌, inl, inr, List, [], some, none, lookup,
  lookup-insert_self, stream, ◌<ℤ◌, arith, Dict, sub64,
}
use go_odtbank.Domain.Event.{Event, Time, Money}
use go_odtbank.Domain.Account.{replay_account}
use go_odtbank.Domain.Account.Appends.{with_reserved}
use go_odtbank.Domain.Error.{Result, ok, err, insufficient_funds}
use go_odtbank.Domain.Transfer.{
  TransferRecord, TransferSagaUpdate, pending, failed, created, funds_reserved,
}
use go_odtbank.Store.{
  HoldState, MemoryStore, MemoryReservation, Outcome, reserved, released, account_of,
}
use go_odtbank.Store.Transfers.{
  updated_transfer, record_compliance_decision, release_transfer_reservation, finish_reservation,
}
use go_odtbank.Store.Transfers.Holds.{Reserves, reserve_lem, taken, finish_lem, Closes}
use go_odtbank.Service.Transfer.{
  Processed, process, process_step, process_created, process_reserved, process_decision,
  handle_step_error, advance, silent,
}
use go_odtbank.Service.Transfer.Rounds.{WaitsAt, deal_of, process_at, advance_lem, advance_keeps}
use go_odtbank.Service.Transfer.Rounds.Holding.{decision_fresh}
use go_odtbank.Service.Transfer.Rounds.Posting.{
  DropsHold, DropsHold-advance, finish_succeeds, finish_frame,
}

-- The call returned with no error and published nothing, and the stored transfer is now failed, with
-- this code, and has the same parties and amounts.
pub record Fails (t : TransferRecord) (code : String) (out : Processed) : Type 0 where
  pub returned : out.0 ≡ ok tt
  pub next : TransferRecord
  pub stored : lookup t.id out.1.transfers ≡ some next
  pub same_deal : deal_of next ≡ deal_of t
  pub is_failed : next.status ≡ failed
  pub has_code : next.failure_code ≡ code
  pub silence : out.2 ≡ []

advance-Fails :
    (t : TransferRecord) (u : TransferSagaUpdate) (at : Time) (m' : MemoryStore)
    → lookup t.id m'.transfers ≡ some t
    → t.status ≡ pending
    → t.current_step ≡ u.expected_step
    → u.status ≡ failed
    → Fails t u.failure_code (silent (advance t u at m'))
unfolding updated_transfer
advance-Fails t u at m' found p s f = rw (advance_lem t u at m' found p s) (record {
  returned = refl;
  next = updated_transfer t u at;
  stored = lookup-insert_self t.id _ m'.transfers;
  same_deal = refl;
  is_failed = f;
  has_code = refl;
  silence = refl;
})

reserve_short :
    (t : TransferRecord) (m : MemoryStore) (o : Outcome Money)
    → Reserves t m o
    → stream t.source_account_id m.streams ≢ []
    → stream t.destination_account_id m.streams ≢ []
    → (account_of t.source_account_id m).available_balance <ℤ taken t
    → o ≡ (err (insufficient_funds (account_of t.source_account_id m) (taken t)), m)
reserve_short t m (ok b, m') h s d short = absurd (omega (arith, h.1, short))
reserve_short t m (err e, m') (same, inl (_, inl none_there)) s d short = absurd (s none_there)
reserve_short t m (err e, m') (same, inl (_, inr none_there)) s d short = absurd (d none_there)
reserve_short t m (err e, m') (same, inr (reason, _)) s d short = cc

-- A transfer just accepted, not yet reserved for, between two known accounts, whose amount and fee
-- are above the source's available balance: one call of `Process` ends it as failed for
-- insufficient funds, publishes nothing, and changes nothing in the store beside that transfer.
pub process_short :
    (check : TransferRecord → Result Bool) (t : TransferRecord) (clock : ℕ → Time) (m : MemoryStore)
    → WaitsAt created t m
    → lookup t.id m.reservations ≡ none
    → stream t.source_account_id m.streams ≢ []
    → stream t.destination_account_id m.streams ≢ []
    → (account_of t.source_account_id m).available_balance <ℤ taken t
    → let out = process check t clock m in
      Fails t "insufficient_funds" out × (out.1 ≡ record m { transfers = out.1.transfers })
unfolding process_step process_created handle_step_error updated_transfer
process_short check t clock m w fresh s d short =
    let e = reserve_short t m _ (reserve_lem t (clock 0) m fresh) s d short in
    rw (process_at check t clock m created w.at_step, process_step)
      (rw (ap (λ (o : Outcome Money). o.0) e, process_created)
        (rw (ap (λ (o : Outcome Money). o.1) e) (
          advance-Fails t _ (clock 2) m w.stored w.is_waiting refl refl,
          advance_keeps t _ (clock 2) m,
        )))

DropsHold-streams :
    (account : String) (amount : Money) (m m1 m' : MemoryStore)
    → m1.streams ≡ m.streams
    → DropsHold account amount m1 m'
    → DropsHold account amount m m'
DropsHold-streams account amount m m1 m' e h = record {
  holder =
      h.holder
      ∙ ap
          (λ (d : Dict (List Event)).
            let a = replay_account account (stream account d) in
            with_reserved (sub64 a.reserved_balance amount) a)
          e;
  others = λ j k. h.others j k ∙ ap (stream j) e;
}

Closes-marks :
    (t : TransferRecord) (hold : MemoryReservation) (state : HoldState) (m : MemoryStore)
    (o : Outcome (Unit {0}))
    → Closes t hold state m o
    → lookup t.id o.1.reservations ≡ some (record hold { state = state })
Closes-marks t hold state m (ok _, m') h = h.1
Closes-marks t hold state m (err e, m') h = absurd h

finish_decisions :
    (t : TransferRecord) (at : Time) (state : HoldState) (m : MemoryStore)
    → (finish_reservation t at state m).1.compliance_decisions ≡ m.compliance_decisions
unfolding finish_reservation
finish_decisions t at state m = ground arith

-- A transfer that waits for compliance, with its reservation open and no decision recorded, and a
-- checker that turns it down: one call of `Process` ends it as failed for compliance, records the
-- decision, closes the reservation as released, takes the sum off what the account has on hold,
-- keeps every balance and every other stream, and publishes nothing.
pub process_turned_down :
    (check : TransferRecord → Result Bool) (t : TransferRecord) (clock : ℕ → Time) (m : MemoryStore)
    (hold : MemoryReservation)
    → WaitsAt funds_reserved t m
    → check t ≡ ok false
    → lookup t.id m.compliance_decisions ≡ none
    → lookup t.id m.reservations ≡ some hold
    → hold.state ≡ reserved
    → let out = process check t clock m in
      Fails t "compliance_rejected" out
      × DropsHold hold.account_id hold.amount m out.1
      × (lookup t.id out.1.reservations ≡ some (record hold { state = released }))
      × (lookup t.id out.1.compliance_decisions ≡ some "rejected")
unfolding process_step process_reserved process_decision release_transfer_reservation
process_turned_down check t clock m hold w refused fresh found held =
    let at = clock 0 in
    let recorded = decision_fresh t.id "rejected" at m fresh in
    let m1 = (record_compliance_decision t.id "rejected" at m).1 in
    let same = ap (λ (x : Outcome (Unit {0})). x.1) recorded in
    let o = release_transfer_reservation t at m1 in
    let closes =
      finish_lem t at released hold m1 (λ k. cc k)
        (ap (λ (x : MemoryStore). lookup t.id x.reservations) same ∙ found) held in
    let (e, dropped) = finish_succeeds t hold released m1 o closes in
    let stored =
      ap (lookup t.id) (finish_frame t at released m1)
      ∙ ap (λ (x : MemoryStore). lookup t.id x.transfers) same
      ∙ w.stored in
    rw (process_at check t clock m funds_reserved w.at_step, process_step)
      (rw (refused, process_reserved)
        (rw (ap (λ (x : Outcome (Unit {0})). x.0) recorded, process_decision)
          (rw (e, process_decision)
            (
              advance-Fails t _ (clock 1) o.1 stored w.is_waiting refl refl,
              DropsHold-advance t _ (clock 1) hold.account_id hold.amount m o.1 (
                  DropsHold-streams hold.account_id hold.amount m m1 o.1
                    (ap (λ (x : MemoryStore). x.streams) same) dropped),
              ap (λ (x : MemoryStore). lookup t.id x.reservations) (advance_keeps t _ (clock 1) o.1)
                  ∙ Closes-marks t hold released m1 o closes,
              ap (λ (x : MemoryStore). lookup t.id x.compliance_decisions)
                    (advance_keeps t _ (clock 1) o.1)
                  ∙ ap (lookup t.id) (finish_decisions t at released m1)
                  ∙ ap (λ (x : MemoryStore). lookup t.id x.compliance_decisions) same
                  ∙ lookup-insert_self t.id "rejected" m.compliance_decisions,
            ))))
