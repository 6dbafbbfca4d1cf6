-- ===== src/Store/Transfers/Repeats.antt =====
-- The saga's store operations run again on the same transfer, as after a crash between a step and
-- the advance that records it.
use go_odtbank.Base.{
  add64, true, ◌≡◌, ◌≢◌, refl, sym, inl, inr, some, lookup, lookup-insert_self, arith, Option-cases,
}
use go_odtbank.Domain.Event.{Time, Money}
use go_odtbank.Domain.Error.{ok, err, idempotency_conflict}
use go_odtbank.Domain.Transfer.{TransferRecord}
use go_odtbank.Store.{MemoryStore, MemoryReservation, Outcome, HoldState, reserved, account_of}
use go_odtbank.Store.Transfers.{
  reserve_transfer_funds, post_transfer_ledger, finish_reservation, flag,
}
use go_odtbank.Store.Transfers.Holds.{Closes, finish_lem}

-- Once a reservation or posting has been made it is not made again, and once a reservation is
-- closed it stays as it was closed.
reserved_again :
    (r : TransferRecord) (at : Time) (m : MemoryStore) (h : MemoryReservation)
    → lookup r.id m.reservations ≡ some h
    → reserve_transfer_funds r at m ≡ (ok (account_of r.source_account_id m).balance, m)
unfolding reserve_transfer_funds
reserved_again r at m h e = rw (e, reserve_transfer_funds) refl

reserve_marks :
    (r : TransferRecord) (at : Time) (m m' : MemoryStore) (b : Money)
    → reserve_transfer_funds r at m ≡ (ok b, m')
    → (h : MemoryReservation) × (lookup r.id m'.reservations ≡ some h)
unfolding reserve_transfer_funds
reserve_marks r at m m' b e = elim (Option-cases (lookup r.id m'.reservations)) [
  | inr found ↦ found
  | inl lost ↦ absurd (elim (Option-cases (lookup r.id m.reservations)) [
    | inr (h, old) ↦ ground arith
    | inl new ↦ ground (
      arith,
      lookup-insert_self r.id
          (record {
            account_id = r.source_account_id;
            amount = add64 r.amount r.fee;
            state = reserved;
          })
          m.reservations,
    )
  ])
]

-- A reservation that succeeded, run again at any time, succeeds with the source's balance and
-- changes nothing.
pub reserve_twice :
    (r : TransferRecord) (at later : Time) (m m' : MemoryStore) (b : Money)
    → reserve_transfer_funds r at m ≡ (ok b, m')
    → reserve_transfer_funds r later m' ≡ (ok (account_of r.source_account_id m').balance, m')
reserve_twice r at later m m' b e =
    let (h, found) = reserve_marks r at m m' b e in reserved_again r later m' h found

post_marks :
    (r : TransferRecord) (at : Time) (m m' : MemoryStore) (b : Money)
    → post_transfer_ledger r at m ≡ (ok b, m')
    → flag (lookup r.id m'.ledger_postings) ≡ true
unfolding post_transfer_ledger
post_marks r at m m' b e = ground (arith, lookup-insert_self r.id true m.ledger_postings)

-- A posting that succeeded, run again at any time, succeeds with the source's balance and posts
-- nothing more.
pub post_twice :
    (r : TransferRecord) (at later : Time) (m m' : MemoryStore) (b : Money)
    → post_transfer_ledger r at m ≡ (ok b, m')
    → post_transfer_ledger r later m' ≡ (ok (account_of r.source_account_id m').balance, m')
unfolding post_transfer_ledger
post_twice r at later m m' b e = unfold post_transfer_ledger in rw (post_marks r at m m' b e) refl

finished_again :
    (r : TransferRecord) (at : Time) (hold : MemoryReservation) (m : MemoryStore)
    → lookup r.id m.reservations ≡ some hold
    → finish_reservation r at hold.state m ≡ (ok tt, m)
unfolding finish_reservation
finished_again r at hold m e = rw (e, finish_reservation) (ground arith)

finished_other :
    (r : TransferRecord) (at : Time) (state : HoldState) (hold : MemoryReservation)
    (m : MemoryStore)
    → lookup r.id m.reservations ≡ some hold
    → hold.state ≢ state
    → hold.state ≢ reserved
    → finish_reservation r at state m ≡ (err idempotency_conflict, m)
unfolding finish_reservation
finished_other r at state hold m e ne closed = rw (e, finish_reservation) (ground arith)

-- An open reservation that is captured or released stays closed: to close it the same way again
-- succeeds and changes nothing, and to close it the other way is a conflict and changes nothing.
pub finish_once :
    (r : TransferRecord) (at later : Time) (state : HoldState) (hold : MemoryReservation)
    (m : MemoryStore)
    → state ≢ reserved
    → lookup r.id m.reservations ≡ some hold
    → hold.state ≡ reserved
    → let (res, m') = finish_reservation r at state m in
      (res ≡ ok tt)
      × (finish_reservation r later state m' ≡ (ok tt, m'))
      × ((other : HoldState)
          → other ≢ state
          → finish_reservation r later other m' ≡ (err idempotency_conflict, m'))
finish_once r at later state hold m ne e held =
    let o = finish_reservation r at state m in
    let (done, marked) = closes_marks r state hold m o (finish_lem r at state hold m ne e held) in
    let closed = record hold { state = state } in
    (
      done,
      finished_again r later closed o.1 marked,
      λ other d. finished_other r later other closed o.1 marked (λ k. d (sym k)) ne,
    )
  where
    closes_marks :
        (r : TransferRecord) (state : HoldState) (hold : MemoryReservation) (m : MemoryStore)
        (o : Outcome (Unit {0}))
        → Closes r hold state m o
        → (o.0 ≡ ok tt) × (lookup r.id o.1.reservations ≡ some (record hold { state = state }))
    closes_marks r state hold m (ok _, m') h = (refl, h.1)
    closes_marks r state hold m (err x, m') h = absurd h
