-- ===== src/Postgres/Holds/Finish.antt =====
-- `finishTransferReservation` of the two stores, when no call of the database fails.
use go_odtbank.Base.{
  ◌+◌, ◌≡◌, refl, ◌∙◌, inl, inr, Bool-cases, Option-cases, List, [], ◌∷◌, ◌++◌, some, lookup,
  insert, stream, length,
}
use go_odtbank.Domain.Event.{Event, Time}
use go_odtbank.Domain.Error.{ok, idempotency_conflict}
use go_odtbank.Domain.Transfer.{TransferRecord}
use go_odtbank.Store.{MemoryStore, MemoryReservation, HoldState, reserved, captured, released}
use go_odtbank.Store.Transfers.{hold_event, hold_state_eq, closing_event, closing_name}
use go_odtbank.Store.Transfers as Memory
use go_odtbank.Postgres.{EventRow, Wire, exec, quiet, commits}
use go_odtbank.Postgres.Runs.{
  called, then_ok, transaction-commits, transaction-leaves, transaction-fails,
}
use go_odtbank.Postgres.Json.RoundTrip.{IsStorable}
use go_odtbank.Postgres.Events.{load_events_tx, insert_event_tx}
use go_odtbank.Postgres.Events.Rows.{Holds, with_rows, load_events_tx-quiet, insert_event_tx-Holds}
use go_odtbank.Postgres.Holds.{
  lock_account_tx, select_reservation, update_reservation, finish_held, close_hold, finish_body,
  finish_transfer_reservation,
}
use go_odtbank.Postgres.Represents.{Represents, Agrees, Agrees-of, insert_same}

module _ (r : TransferRecord) (at : Time) (target : HoldState) (m : MemoryStore) where
  finish_locked :
      (w : Wire)
      → Represents w.tables m
      → finish_body r at target quiet w
        ≡ finish_held r at target (lookup r.id m.reservations) quiet (called (called w))
  unfolding finish_body lock_account_tx exec
  finish_locked w rep =
      then_ok (lock_account_tx r.source_account_id) _ refl
      ∙ then_ok (exec (select_reservation r.id)) _ (rw (rep.holds r.id) refl)

module _ (r : TransferRecord) (at : Time) (target : HoldState) (h : MemoryReservation)
    (m : MemoryStore) where
  abbrev events : List Event
  events = stream h.account_id m.streams

  abbrev closing : Event
  closing =
      closing_event target
        (hold_event r h.account_id h.amount at (closing_name target) (length events))

  abbrev closed : MemoryReservation
  closed = record h { state = target }

  abbrev finished : MemoryStore
  finished = record m {
    reservations = insert r.id closed m.reservations;
    streams = insert h.account_id (events ++ closing ∷ []) m.streams;
  }

  abbrev with_closed : Wire → Wire
  with_closed w = record {
    calls = w.calls + 1;
    tables = record w.tables {
      account_reservations = insert r.id closed w.tables.account_reservations;
    };
  }

  update_reservation-quiet :
      (w : Wire)
      → lookup r.id w.tables.account_reservations ≡ some h
      → exec (update_reservation r.id target) quiet w ≡ (ok tt, with_closed w)
  unfolding exec update_reservation
  update_reservation-quiet w e = rw (e, update_reservation) refl

-- The closing event goes in, whichever it is.
closing-Holds :
    (r : TransferRecord) (at : Time) (target : HoldState) (h : MemoryReservation) (m : MemoryStore)
    (w : Wire)
    → Holds w.tables.events m.streams
    → IsStorable h.amount
    → (rows : List EventRow) × Holds
        (insert h.account_id rows w.tables.events)
        (insert h.account_id (events r at target h m ++ closing r at target h m ∷ []) m.streams)
      × (insert_event_tx (closing r at target h m) quiet w ≡ (ok tt, with_rows h.account_id rows w))
closing-Holds r at reserved h m w all s =
    insert_event_tx-Holds _ (events r at reserved h m) m.streams w all refl refl refl s
closing-Holds r at captured h m w all s =
    insert_event_tx-Holds _ (events r at captured h m) m.streams w all refl refl refl s
closing-Holds r at released h m w all s =
    insert_event_tx-Holds _ (events r at released h m) m.streams w all refl refl refl s

module _ (r : TransferRecord) (at : Time) (target : HoldState) (h : MemoryReservation)
    (m : MemoryStore) where
  finish_runs :
      (w : Wire)
      → Represents w.tables m
      → lookup r.id m.reservations ≡ some h
      → IsStorable h.amount
      → (w' : Wire) × Represents w'.tables (finished r at target h m)
        × (close_hold r at target h quiet w ≡ (ok (commits tt), w'))
  finish_runs w rep e s =
      let (rows, all, run) = closing-Holds r at target h m (called w) rep.rows s in
      let w2 = with_rows h.account_id rows (called w) in
      (
        with_closed r at target h m w2,
        record {
          rows = all;
          holds = insert_same r.id (closed r at target h m) _ _ rep.holds;
          posted = rep.posted;
        },
        then_ok (load_events_tx h.account_id) _
              (load_events_tx-quiet h.account_id (events r at target h m) w (rep.rows h.account_id))
            ∙ then_ok (insert_event_tx (closing r at target h m)) _ run
            ∙ then_ok (exec (update_reservation r.id target)) _
                (update_reservation-quiet r at target h m w2 (rep.holds r.id ∙ e)),
      )

  finish-Agrees_held :
      (w : Wire)
      → Represents w.tables m
      → lookup r.id m.reservations ≡ some h
      → IsStorable h.amount
      → Agrees
          (finish_transfer_reservation r at target quiet w)
          (Memory.finish_reservation r at target m)
  unfolding finish_transfer_reservation Memory.finish_reservation
  finish-Agrees_held w rep e s =
      let body = finish_body r at target in
      let locked = finish_locked r at target m (called w) rep in
      elim (Bool-cases (hold_state_eq h.state target)) [
        | inl c ↦
            Agrees-of
              (transaction-leaves body w {w' = called (called (called w))}
                (locked ∙ rw (e, c) refl))
              (rw (e, Memory.finish_reservation, c) refl) (refl, rep)
        | inr c ↦ elim (Bool-cases (hold_state_eq h.state reserved)) [
          | inr k ↦
              Agrees-of
                (transaction-fails body w {w' = called (called (called w))}
                  {e = idempotency_conflict} (locked ∙ rw (e, c, k) refl))
                (rw (e, Memory.finish_reservation, c, k) refl) (refl, rep)
          | inl k ↦
              let (w', rep', run) = finish_runs (called (called (called w))) rep e s in
              Agrees-of {y' = (ok tt, finished r at target h m)}
                (transaction-commits body w {w' = w'} (locked ∙ rw (e, c, k) run))
                (rw (e, Memory.finish_reservation, c, k) refl) (refl, rep')
        ]
      ]

-- Where the database carries out every call, the capture or release of a transfer's funds, whether
-- none are held, they are closed already or an amount that is storable is held, has the result of the
-- memory store, and leaves tables that hold what the memory store then holds.
pub finish-Agrees :
    (r : TransferRecord) (at : Time) (target : HoldState) (w : Wire) (m : MemoryStore)
    → Represents w.tables m
    → ((h : MemoryReservation) → lookup r.id m.reservations ≡ some h → IsStorable h.amount)
    → Agrees
        (finish_transfer_reservation r at target quiet w)
        (Memory.finish_reservation r at target m)
unfolding finish_transfer_reservation Memory.finish_reservation
finish-Agrees r at target w m rep s = elim (Option-cases (lookup r.id m.reservations)) [
  | inr (h, e) ↦ finish-Agrees_held r at target h m w rep e (s h e)
  | inl e ↦
      Agrees-of
        (transaction-leaves (finish_body r at target) w {w' = called (called (called w))}
          (finish_locked r at target m (called w) rep ∙ rw e refl))
        (rw (e, Memory.finish_reservation) refl) (refl, rep)
]
