-- ===== src/Service/Transfer/Rounds/Posting.antt =====
-- The cases of `Process` that post to the ledger, capture the hold and complete the transfer.
use go_odtbank.Base.{
  ℕ, String, Bool, true, false, ◌≡◌, ◌≢◌, refl, ap, subst, ◌∙◌, inl, inr, [], ◌∷◌, some, lookup,
  lookup-insert_self, stream, pos, add64, sub64, wrap64, ◌-ℤ◌, ◌≤ℤ◌, arith,
}
use go_odtbank.Domain.Event.{Time, Money}
use go_odtbank.Domain.Account.{TransferCompletedEvent}
use go_odtbank.Domain.Account.Appends.{with_reserved, with_balance}
use go_odtbank.Domain.Error.{Result, ok, err}
use go_odtbank.Domain.Transfer.{
  TransferRecord, TransferSagaUpdate, pending, completed, SagaStep, compliance_approved,
  ledger_posted, reservation_captured,
}
use go_odtbank.Store.{
  MemoryStore, MemoryReservation, HoldState, Outcome, reserved, captured, account_of,
}
use go_odtbank.Store.Transfers.{
  update_transfer_saga, updated_transfer, post_transfer_ledger, finish_reservation,
  capture_transfer_reservation, flag,
}
use go_odtbank.Store.Transfers.Holds.{Closes, finish_lem}
use go_odtbank.Store.Transfers.Ledger.{Posts, post_lem}
use go_odtbank.Store.Transfers.Sagas.{update_applies}
use go_odtbank.Service.Transfer.{
  process, process_step, process_approved, process_posted, process_captured, advance, update_to,
}
use go_odtbank.Service.Transfer.Rounds.{
  Deal, deal_of, Carries, WaitsAt, Goes, updated-Carries, process_at, advance-Goes, advance_keeps,
}

post_frame :
    (t : TransferRecord) (at : Time) (m : MemoryStore)
    → let m' = (post_transfer_ledger t at m).1 in
      (m'.transfers ≡ m.transfers) × (m'.reservations ≡ m.reservations)
unfolding post_transfer_ledger
post_frame t at m = ground arith

-- What the third round leaves: the amount and the fee have left the source, the amount has reached
-- the destination, and the hold is still there.
pub record MovesFunds (d : Deal) (m m' : MemoryStore) : Type 0 where
  pub source_account :
      account_of d.source m'
      ≡ with_balance
          (wrap64 ((account_of d.source m).balance -ℤ d.fee -ℤ d.amount))
          (account_of d.source m)
  pub destination_account :
      account_of d.destination m'
      ≡ with_balance
          (add64 (account_of d.destination m).balance d.amount)
          (account_of d.destination m)
  pub others :
      (j : String) → j ≢ d.source → j ≢ d.destination → stream j m'.streams ≡ stream j m.streams
  pub same_reservations : m'.reservations ≡ m.reservations

MovesFunds-advance :
    (t : TransferRecord) (u : TransferSagaUpdate) (at : Time) (m m' : MemoryStore)
    → MovesFunds (deal_of t) m m'
    → MovesFunds (deal_of t) m (advance t u at m').1
MovesFunds-advance t u at m m' h = rw (advance_keeps t u at m') (record {
  source_account = h.source_account;
  destination_account = h.destination_account;
  others = h.others;
  same_reservations = h.same_reservations;
})

post_succeeds :
    (t : TransferRecord) (m : MemoryStore) (o : Outcome Money)
    → Posts t m o
    → stream t.source_account_id m.streams ≢ []
    → stream t.destination_account_id m.streams ≢ []
    → (b : Money) × (o.0 ≡ ok b) × Posts t m (ok b, o.1)
post_succeeds t m (ok b, m') h s d = (b, refl, h)
post_succeeds t m (err e, m') (_, _, inl none_there) s d = absurd (s none_there)
post_succeeds t m (err e, m') (_, _, inr none_there) s d = absurd (d none_there)

-- From `compliance_approved`: between two different known accounts, with a fee of zero or more and
-- no posting yet, the money moves.
pub round_approved :
    (check : TransferRecord → Result Bool) (t : TransferRecord) (clock : ℕ → Time) (m : MemoryStore)
    → WaitsAt compliance_approved t m
    → flag (lookup t.id m.ledger_postings) ≡ false
    → t.source_account_id ≢ t.destination_account_id
    → pos 0 ≤ℤ t.fee
    → stream t.source_account_id m.streams ≢ []
    → stream t.destination_account_id m.streams ≢ []
    → let out = process check t clock m in
      Goes t ledger_posted pending out × MovesFunds (deal_of t) m out.1 × (out.2 ≡ [])
unfolding process_step process_approved
round_approved check t clock m w fresh apart fee s d =
    let o = post_transfer_ledger t (clock 0) m in
    let (b, e, moved) = post_succeeds t m o (post_lem t (clock 0) m fresh apart fee) s d in
    let frame = post_frame t (clock 0) m in
    rw (process_at check t clock m compliance_approved w.at_step, process_step)
      (rw (e, process_approved)
        (
          advance-Goes t _ (clock 1) o.1 (ap (lookup t.id) frame.0 ∙ w.stored) w.is_waiting refl,
          MovesFunds-advance t _ (clock 1) m o.1 (record {
            source_account = moved.1;
            destination_account = moved.2;
            others = moved.4;
            same_reservations = frame.1;
          }),
          refl,
        ))

pub finish_frame :
    (t : TransferRecord) (at : Time) (state : HoldState) (m : MemoryStore)
    → (finish_reservation t at state m).1.transfers ≡ m.transfers
unfolding finish_reservation
finish_frame t at state m = ground arith

-- What the fourth round leaves: the hold is gone from the account that had it.
pub record DropsHold (account : String) (amount : Money) (m m' : MemoryStore) : Type 0 where
  pub holder :
      account_of account m'
      ≡ with_reserved (sub64 (account_of account m).reserved_balance amount) (account_of account m)
  pub others : (j : String) → j ≢ account → stream j m'.streams ≡ stream j m.streams

pub DropsHold-advance :
    (t : TransferRecord) (u : TransferSagaUpdate) (at : Time) (account : String) (amount : Money)
    (m m' : MemoryStore)
    → DropsHold account amount m m'
    → DropsHold account amount m (advance t u at m').1
DropsHold-advance t u at account amount m m' h =
    rw (advance_keeps t u at m') (record { holder = h.holder; others = h.others })

pub finish_succeeds :
    (t : TransferRecord) (hold : MemoryReservation) (state : HoldState) (m : MemoryStore)
    (o : Outcome (Unit {0}))
    → Closes t hold state m o
    → (o.0 ≡ ok tt) × DropsHold hold.account_id hold.amount m o.1
finish_succeeds t hold state m (ok _, m') h = (refl, record { holder = h.0; others = h.2 })
finish_succeeds t hold state m (err e, m') h = absurd h

-- From `ledger_posted`: the hold, still open, is captured.
pub round_posted :
    (check : TransferRecord → Result Bool) (t : TransferRecord) (clock : ℕ → Time) (m : MemoryStore)
    (hold : MemoryReservation)
    → WaitsAt ledger_posted t m
    → lookup t.id m.reservations ≡ some hold
    → hold.state ≡ reserved
    → let out = process check t clock m in
      Goes t reservation_captured pending out
      × DropsHold hold.account_id hold.amount m out.1
      × (out.2 ≡ [])
unfolding process_step process_posted capture_transfer_reservation
round_posted check t clock m hold w found held =
    let o = finish_reservation t (clock 0) captured m in
    let (e, dropped) =
      finish_succeeds t hold captured m o
        (finish_lem t (clock 0) captured hold m (λ k. cc k) found held) in
    rw (process_at check t clock m ledger_posted w.at_step, process_step)
      (rw (e, process_posted)
        (
          advance-Goes t _ (clock 1) o.1
              (ap (lookup t.id) (finish_frame t (clock 0) captured m) ∙ w.stored) w.is_waiting refl,
          DropsHold-advance t _ (clock 1) hold.account_id hold.amount m o.1 dropped,
          refl,
        ))

-- What the bus is told when the transfer `t` completes at `now`.
abbrev pub completion : TransferRecord → Time → TransferCompletedEvent
completion t now = record {
  timestamp = now;
  transfer_id = t.id;
  amount = t.amount;
  source_account_id = t.source_account_id;
  destination_account_id = t.destination_account_id;
  fee = t.fee;
}

-- From `reservation_captured`: the transfer completes, one event is published, and no money moves.
pub round_captured :
    (check : TransferRecord → Result Bool) (t : TransferRecord) (clock : ℕ → Time) (m : MemoryStore)
    → WaitsAt reservation_captured t m
    → let out = process check t clock m in
      Goes t reservation_captured completed out
      × (out.1.streams ≡ m.streams)
      × (out.2 ≡ completion t (clock 0) ∷ [])
unfolding process_step process_captured
round_captured check t clock m w =
    let u = update_to t.current_step t.current_step completed (clock 0) in
    let o = update_transfer_saga t.id u (clock 0) m in
    let written = update_applies t.id u (clock 0) m t w.stored w.is_waiting refl in
    let e : o.0 ≡ ok true = ap (λ (x : Outcome Bool). x.0) written in
    rw (process_at check t clock m reservation_captured w.at_step, process_step)
      (rw (e, process_captured)
        (
          record {
            returned = refl;
            next = updated_transfer t u (clock 0);
            stored =
                ap (λ (x : Outcome Bool). lookup t.id x.1.transfers) written
                ∙ lookup-insert_self t.id _ m.transfers;
            carries =
                subst (λ (s : SagaStep). Carries t (updated_transfer t u (clock 0)) s completed)
                  w.at_step (updated-Carries t u (clock 0));
          },
          ap (λ (x : Outcome Bool). x.1.streams) written,
          refl,
        ))
