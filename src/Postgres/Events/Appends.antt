-- ===== src/Postgres/Events/Appends.antt =====
-- `Append` of the two stores, when no call of the database fails.
use go_odtbank.Base.{
  ℕ, ◌≤◌, ◌<◌, ap, if◌then◌else◌, ◌≡◌, refl, ◌∙◌, inl, inr, Bool, true, false, Bool-cases, List, [],
  ◌∷◌, ◌++◌, insert, stream, length, ◌==◌, arith,
}
use go_odtbank.Domain.Event.{Event, aggregate_id}
use go_odtbank.Domain.Error.{Result, ok, err, concurrency_conflict}
use go_odtbank.Store.{MemoryStore}
use go_odtbank.Store.Events as Memory
use go_odtbank.Postgres.{EventRow, Wire, exec, quiet, wrapped, prefixed, lift, pure, raise}
use go_odtbank.Postgres.Runs.{called, then_ok}
use go_odtbank.Postgres.Json.{Payload, marshal_event}
use go_odtbank.Postgres.Json.RoundTrip.{
  NamesItself, IsStorable, amount_of, decode_event-marshal_event,
}
use go_odtbank.Postgres.Events.{append, insert_event_if_free, row_of}
use go_odtbank.Postgres.Events.Rows.{
  Stores, with_rows, insert-Holds, Stores-insert_row, Stores-insert_taken, Stores-snoc,
}
use go_odtbank.Postgres.Represents.{Represents, Agrees, Agrees-of}

module _ (e : Event) (expected : ℕ) (w : Wire) (m : MemoryStore) where
  abbrev events : List Event
  events = stream (aggregate_id e) m.streams

  append_ends :
      (p : Payload)
      → marshal_event e ≡ ok p
      → (taken : Bool) (w' : Wire)
      → exec (insert_event_if_free (aggregate_id e) (row_of e expected p)) quiet w ≡ (ok taken, w')
      → append e expected quiet w ≡ (if taken then ok tt else err concurrency_conflict, w')
  unfolding append
  append_ends p written free w' run =
      then_ok (wrapped "eventstore: marshal event: " (lift (marshal_event e))) _
        (ap (λ (x : Result Payload). prefixed "eventstore: marshal event: " (x, w)) written)
      ∙ then_ok
          (wrapped "eventstore: insert event: "
            (exec (insert_event_if_free (aggregate_id e) (row_of e expected p))))
          _ (ap (prefixed "eventstore: insert event: ") run)
      ∙ ends free w'
    where
      ends :
          (b : Bool) (v : Wire)
          → (if b then pure tt else raise concurrency_conflict) quiet v
            ≡ (if b then ok tt else err concurrency_conflict, v)
      ends true v = refl
      ends false v = refl

  append_taken :
      Represents w.tables m
      → NamesItself e
      → IsStorable (amount_of e)
      → expected < length events
      → append e expected quiet w ≡ (err concurrency_conflict, called w)
  unfolding exec insert_event_if_free
  append_taken rep n s h =
      let (p, written, _) = decode_event-marshal_event e n s in
      let id = aggregate_id e in
      let taken =
        Stores-insert_taken 0 id (row_of e expected p) (stream id w.tables.events) events
          (rep.rows id) (omega arith) (omega arith) in
      append_ends p written false (called w) (rw (insert_event_if_free, taken) refl)

  -- The rows of the stream, and behind them a row for the event.
  abbrev rows_with : Payload → List EventRow
  rows_with p = stream (aggregate_id e) w.tables.events ++ row_of e expected p ∷ []

  -- A place from the end of the stream on is free.
  append_free :
      Represents w.tables m
      → NamesItself e
      → IsStorable (amount_of e)
      → length events ≤ expected
      → (p : Payload) × (marshal_event e ≡ ok p)
        × ((length events ≡ expected) → Stores 0 (aggregate_id e) (rows_with p) (events ++ e ∷ []))
        × (append e expected quiet w ≡ (ok tt, with_rows (aggregate_id e) (rows_with p) w))
  unfolding exec insert_event_if_free
  append_free rep n s h =
      let (p, written, read) = decode_event-marshal_event e n s in
      let id = aggregate_id e in
      let row = row_of e expected p in
      let old = stream id w.tables.events in
      let free = Stores-insert_row 0 id row old events (rep.rows id) (omega arith) in
      (
        p,
        written,
        λ v. Stores-snoc 0 id row e old events (rep.rows id) (omega arith) read,
        append_ends p written true (with_rows id (old ++ row ∷ []) w)
            (rw (insert_event_if_free, free) refl),
      )

-- Where the database carries out every call, an event that names its type and has a storable amount,
-- appended at a version up to the length of its stream, has the result of the memory store: the event
-- goes in at the length, a smaller version is a conflict. The tables hold what that store then holds.
pub append-Agrees :
    (e : Event) (expected : ℕ) (w : Wire) (m : MemoryStore)
    → Represents w.tables m
    → NamesItself e
    → IsStorable (amount_of e)
    → expected ≤ length (stream (aggregate_id e) m.streams)
    → Agrees (append e expected quiet w) (Memory.append e expected m)
unfolding Memory.append
append-Agrees e expected w m rep n s h =
    elim (Bool-cases (length (events e expected w m) == expected)) [
      | inr c ↦
          Agrees-of (append_taken e expected w m rep n s (ground arith)) (rw c refl) (refl, rep)
      | inl c ↦
          let (p, _, stored, run) = append_free e expected w m rep n s (ground arith) in
          let rows = rows_with e expected w m p in
          let id = aggregate_id e in
          let es = events e expected w m ++ e ∷ [] in
          Agrees-of {y' = (ok tt, record m { streams = insert id es m.streams })} run (rw c refl) (
            refl,
            record {
              rows =
                  insert-Holds id rows es w.tables.events m.streams rep.rows
                    (stored (ground arith));
              holds = rep.holds;
              posted = rep.posted;
            },
          )
    ]

-- Where the database carries out every call, an event that names its type and has a storable amount
-- goes in at a version beyond the length of its stream: the method succeeds, and the tables have one
-- row more, behind those of the stream and under that version, with the event's payload, and are
-- otherwise as they were. The memory store refuses the event, and is as it was.
pub append_ahead :
    (e : Event) (expected : ℕ) (w : Wire) (m : MemoryStore)
    → Represents w.tables m
    → NamesItself e
    → IsStorable (amount_of e)
    → length (stream (aggregate_id e) m.streams) < expected
    → (p : Payload) × (marshal_event e ≡ ok p)
      × (append e expected quiet w ≡ (
        ok tt,
        with_rows
            (aggregate_id e)
            (stream (aggregate_id e) w.tables.events ++ row_of e expected p ∷ [])
            w,
      ))
      × (Memory.append e expected m ≡ (err concurrency_conflict, m))
unfolding Memory.append
append_ahead e expected w m rep n s h =
    let (p, written, _, run) = append_free e expected w m rep n s (omega arith) in
    (p, written, run, ground arith)
