-- ===== src/Postgres/Holds/Reserve.antt =====
-- `ReserveTransferFunds` of the two stores, when no call of the database fails.
use go_odtbank.Base.{
  ◌+◌, true, false, ◌≡◌, refl, ◌∙◌, inl, inr, Bool-cases, Option-cases, pos, add64, ltb_ℤ, List, [],
  ◌∷◌, ◌++◌, none, lookup, insert, stream, length, is_empty, arith, if◌then◌else◌, ◌||◌,
  wrap64-InRange64,
}
use go_odtbank.Domain.Event.{Event, Money, Time, funds_reserved}
use go_odtbank.Domain.Error.{Error, ok, err, account_not_found, insufficient_funds}
use go_odtbank.Domain.Transfer.{TransferRecord}
use go_odtbank.Store.{MemoryStore, reserved, account_of, MemoryReservation}
use go_odtbank.Store.Transfers.{hold_event, flag}
use go_odtbank.Store.Transfers as Memory
use go_odtbank.Postgres.{EventRow, Wire, guard, exec, quiet, leaves, commits}
use go_odtbank.Postgres.Runs.{
  called, then_ok, then_err, guard_passes, guard_stops, transaction-commits, transaction-leaves,
  transaction-fails,
}
use go_odtbank.Postgres.Json.RoundTrip.{IsStorable}
use go_odtbank.Postgres.Events.{load_events_tx, insert_event_tx}
use go_odtbank.Postgres.Events.Rows.{
  Stores, with_rows, insert-Holds, load_events_tx-quiet, insert_event_tx-quiet,
}
use go_odtbank.Postgres.Transfers.{is_some}
use go_odtbank.Postgres.Holds.{
  new_reservation, reserve_checked, current_balance, select_reservation, lock_account_tx,
  insert_reservation, reserve_body, reserve_transfer_funds,
}
use go_odtbank.Postgres.Represents.{Represents, Agrees, Agrees-of, insert_same}

-- A sum above 0 is an amount that JSON can hold.
add64-IsStorable : (a b : Money) → ltb_ℤ (pos 0) (add64 a b) ≡ true → IsStorable (add64 a b)
unfolding add64
add64-IsStorable a b h = (wrap64-InRange64 _, ground (arith, h))

module _ (r : TransferRecord) (at : Time) (m : MemoryStore) where
  abbrev src : List Event
  src = stream r.source_account_id m.streams

  abbrev dst : List Event
  dst = stream r.destination_account_id m.streams

  abbrev needed : Money
  needed = add64 r.amount r.fee

  reserve_loads :
      (w : Wire)
      → Represents w.tables m
      → new_reservation r at quiet w ≡ reserve_checked r at src dst quiet (called (called w))
  reserve_loads w rep =
      then_ok (load_events_tx r.source_account_id) _
        (load_events_tx-quiet r.source_account_id src w (rep.rows r.source_account_id))
      ∙ then_ok (load_events_tx r.destination_account_id) _ (
          load_events_tx-quiet r.destination_account_id dst (called w)
            (rep.rows r.destination_account_id))

  reserve_locked :
      (w : Wire)
      → reserve_body r at quiet w
        ≡ (if is_some (lookup r.id w.tables.account_reservations)
              then current_balance r.source_account_id
              else new_reservation r at)
            quiet
            (called (called w))
  unfolding reserve_body lock_account_tx exec
  reserve_locked w =
      then_ok (lock_account_tx r.source_account_id) _ refl
      ∙ then_ok (exec (select_reservation r.id)) _ refl

  reserve_held :
      (w : Wire)
      → Represents w.tables m
      → is_some (lookup r.id w.tables.account_reservations) ≡ true
      → reserve_body r at quiet w
        ≡ (ok (leaves (account_of r.source_account_id m).balance), called (called (called w)))
  reserve_held w rep e =
      reserve_locked w
      ∙ rw e (
          then_ok (load_events_tx r.source_account_id) _ (
            load_events_tx-quiet r.source_account_id src (called (called w))
              (rep.rows r.source_account_id)))

  reserve_stopped :
      (w : Wire) (e : Error)
      → Represents w.tables m
      → is_some (lookup r.id w.tables.account_reservations) ≡ false
      → reserve_checked r at src dst quiet (called (called (called (called w))))
        ≡ (err e, called (called (called (called w))))
      → reserve_body r at quiet w ≡ (err e, called (called (called (called w))))
  reserve_stopped w e rep n h = reserve_locked w ∙ rw n (reserve_loads (called (called w)) rep ∙ h)

  abbrev held : MemoryReservation
  held = record { account_id = r.source_account_id; amount = needed; state = reserved }

  abbrev with_hold : Wire → Wire
  with_hold w = record {
    calls = w.calls + 1;
    tables = record w.tables {
      account_reservations = insert r.id held w.tables.account_reservations;
    };
  }

  insert_reservation-quiet :
      (w : Wire)
      → ltb_ℤ (pos 0) needed ≡ true
      → is_some (lookup r.id w.tables.account_reservations) ≡ false
      → is_some (lookup r.id w.tables.transfers) ≡ true
      → exec (insert_reservation r.id held) quiet w ≡ (ok tt, with_hold w)
  unfolding exec insert_reservation
  insert_reservation-quiet w above free known = rw (above, free, known) refl

  abbrev hold : Event
  hold = funds_reserved (hold_event r r.source_account_id needed at "FundsReserved" (length src))

  abbrev holding : MemoryStore
  holding = record m {
    reservations = insert r.id held m.reservations;
    streams = insert r.source_account_id (src ++ hold ∷ []) m.streams;
  }

  reserve_done :
      (w : Wire)
      → Represents w.tables m
      → ltb_ℤ (pos 0) needed ≡ true
      → is_some (lookup r.id w.tables.account_reservations) ≡ false
      → is_some (lookup r.id w.tables.transfers) ≡ true
      → is_empty src || is_empty dst ≡ false
      → ltb_ℤ (account_of r.source_account_id m).available_balance needed ≡ false
      → (rows : List EventRow) × Stores 0 r.source_account_id rows (src ++ hold ∷ [])
        × (reserve_body r at quiet w ≡ (
          ok (commits (account_of r.source_account_id m).balance),
          with_rows r.source_account_id rows (with_hold (called (called (called (called w))))),
        ))
  reserve_done w rep above free known full enough =
      let w4 = called (called (called (called w))) in
      let (rows, stored, written) =
        insert_event_tx-quiet hold src (with_hold w4) (rep.rows r.source_account_id) refl refl
          (add64-IsStorable r.amount r.fee above) in
      (
        rows,
        stored,
        reserve_locked w
            ∙ rw free (
                reserve_loads (called (called w)) rep
                ∙ then_ok (guard (is_empty src || is_empty dst) account_not_found) _
                    (guard_passes _ _ quiet w4 full)
                ∙ then_ok
                    (guard (ltb_ℤ (account_of r.source_account_id m).available_balance needed)
                      (insufficient_funds (account_of r.source_account_id m) needed))
                    _ (guard_passes _ _ quiet w4 enough)
                ∙ then_ok (exec (insert_reservation r.id held)) _
                    (insert_reservation-quiet w4 above free known)
                ∙ then_ok (insert_event_tx hold) _ written),
      )

-- For a transfer that holds nothing yet.
reserve-Agrees_new :
    (r : TransferRecord) (at : Time) (w : Wire) (m : MemoryStore)
    → Represents w.tables m
    → is_some (lookup r.id w.tables.transfers) ≡ true
    → ltb_ℤ (pos 0) (add64 r.amount r.fee) ≡ true
    → lookup r.id m.reservations ≡ none
    → Agrees (reserve_transfer_funds r at quiet w) (Memory.reserve_transfer_funds r at m)
unfolding reserve_transfer_funds Memory.reserve_transfer_funds
reserve-Agrees_new r at w m rep known above e =
    let body = reserve_body r at in
    let w1 = called w in
    let a = account_of r.source_account_id m in
    let none_at_all = is_empty (src r at m) || is_empty (dst r at m) in
    let short = ltb_ℤ a.available_balance (needed r at m) in
    let free : is_some (lookup r.id w.tables.account_reservations) ≡ false =
      rw (rep.holds r.id, e) refl in
    elim (Bool-cases none_at_all) [
      | inl c ↦
          Agrees-of
            (transaction-fails body w (
              reserve_stopped r at m w1 account_not_found rep free
                (then_err (guard _ account_not_found) _ (guard_stops _ _ quiet _ c))))
            (rw (e, Memory.reserve_transfer_funds, c) refl) (refl, rep)
      | inr c ↦ elim (Bool-cases short) [
        | inl s ↦
            Agrees-of
              (transaction-fails body w (
                reserve_stopped r at m w1 (insufficient_funds a (needed r at m)) rep free (
                  then_ok (guard none_at_all account_not_found) _ (guard_passes _ _ quiet _ c)
                  ∙ then_err (guard short (insufficient_funds a (needed r at m))) _
                      (guard_stops _ _ quiet _ s))))
              (rw (e, Memory.reserve_transfer_funds, c, s) refl) (refl, rep)
        | inr s ↦
            let (rows, stored, run) = reserve_done r at m w1 rep above free known c s in
            Agrees-of {y' = (ok a.balance, holding r at m)} (transaction-commits body w run)
              (rw (e, Memory.reserve_transfer_funds, c, s) refl)
              (
                refl,
                record {
                  rows =
                      insert-Holds r.source_account_id rows _ w.tables.events m.streams rep.rows
                        stored;
                  holds = insert_same r.id (held r at m) _ _ rep.holds;
                  posted = rep.posted;
                },
              )
      ]
    ]

-- Where the database carries out every call, a reservation of an amount above 0 for a stored transfer
-- has the result of the memory store, held, refused or new, and leaves tables that hold what the
-- memory store then holds.
pub reserve-Agrees :
    (r : TransferRecord) (at : Time) (w : Wire) (m : MemoryStore)
    → Represents w.tables m
    → is_some (lookup r.id w.tables.transfers) ≡ true
    → ltb_ℤ (pos 0) (add64 r.amount r.fee) ≡ true
    → Agrees (reserve_transfer_funds r at quiet w) (Memory.reserve_transfer_funds r at m)
unfolding reserve_transfer_funds Memory.reserve_transfer_funds
reserve-Agrees r at w m rep known above =
    let body = reserve_body r at in
    let w1 = called w in
    elim (Option-cases (lookup r.id m.reservations)) [
      | inr (h, e) ↦
          Agrees-of
            (transaction-leaves body w (reserve_held r at m w1 rep (rw (rep.holds r.id, e) refl)))
            (rw (e, Memory.reserve_transfer_funds) refl) (refl, rep)
      | inl e ↦ reserve-Agrees_new r at w m rep known above e
    ]
