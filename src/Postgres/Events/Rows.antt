-- ===== src/Postgres/Events/Rows.antt =====
-- The rows of an aggregate against the events that they hold: what reading and writing them gives.
use go_odtbank.Base.{
  ℕ, suc, ◌+◌, String, ◌≡◌, refl, subst, List, [], ◌∷◌, ◌++◌, ◌≤◌, ◌<◌, none, some, Dict, inl, inr,
  String-cases, stream-insert_self, stream-insert_ne, insert, stream, length, arith,
}
use go_odtbank.Domain.Event.{Event, aggregate_id, version}
use go_odtbank.Domain.Error.{ok}
use go_odtbank.Postgres.Json.{decode_event}
use go_odtbank.Postgres.Json.RoundTrip.{
  NamesItself, IsStorable, amount_of, decode_event-marshal_event,
}
use go_odtbank.Postgres.{EventRow, Wire, exec, quiet, after}
use go_odtbank.Postgres.Runs.{called}
use go_odtbank.Postgres.Events.{
  insert_row, insert_event, decode_rows, load_events_tx, insert_event_tx, row_of,
}

-- From the place `n` on, each row stands at its place and decodes to its event.
abbrev pub Stores : ℕ → String → List EventRow → List Event → Type 0
Stores n id [] [] = Unit
Stores n id (r ∷ rs) (e ∷ es) =
    (r.sequence ≡ n) × (decode_event id r.event_type r.payload ≡ ok e) × Stores (suc n) id rs es
Stores n id [] (e ∷ es) = ⊥
Stores n id (r ∷ rs) [] = ⊥

pub Stores-decode_rows :
    (n : ℕ) (id : String) (rs : List EventRow) (es : List Event)
    → Stores n id rs es
    → decode_rows id rs ≡ ok es
unfolding decode_rows
Stores-decode_rows n id [] [] h = refl
Stores-decode_rows n id [] (e ∷ es) h = elim h [ ]
Stores-decode_rows n id (r ∷ rs) [] h = elim h [ ]
Stores-decode_rows n id (r ∷ rs) (e ∷ es) h =
    rw (decode_rows, h.1, Stores-decode_rows (suc n) id rs es h.2)

-- A row behind all others goes to the end.
pub Stores-insert_row :
    (n : ℕ) (id : String) (row : EventRow) (rs : List EventRow) (es : List Event)
    → Stores n id rs es
    → n + length es ≤ row.sequence
    → insert_row row rs ≡ some (rs ++ row ∷ [])
unfolding insert_row
Stores-insert_row n id row [] [] h v = refl
Stores-insert_row n id row [] (e ∷ es) h v = elim h [ ]
Stores-insert_row n id row (r ∷ rs) [] h v = elim h [ ]
Stores-insert_row n id row (r ∷ rs) (e ∷ es) h v =
    ground (arith, Stores-insert_row (suc n) id row rs es h.2)

-- A place that a row has is not free.
pub Stores-insert_taken :
    (n : ℕ) (id : String) (row : EventRow) (rs : List EventRow) (es : List Event)
    → Stores n id rs es
    → n ≤ row.sequence
    → row.sequence < n + length es
    → insert_row row rs ≡ none
unfolding insert_row
Stores-insert_taken n id row [] [] h u v = absurd (omega arith)
Stores-insert_taken n id row [] (e ∷ es) h u v = elim h [ ]
Stores-insert_taken n id row (r ∷ rs) [] h u v = elim h [ ]
Stores-insert_taken n id row (r ∷ rs) (e ∷ es) h u v =
    ground (arith, Stores-insert_taken (suc n) id row rs es h.2)

pub Stores-snoc :
    (n : ℕ) (id : String) (row : EventRow) (e : Event) (rs : List EventRow) (es : List Event)
    → Stores n id rs es
    → row.sequence ≡ n + length es
    → decode_event id row.event_type row.payload ≡ ok e
    → Stores n id (rs ++ row ∷ []) (es ++ e ∷ [])
Stores-snoc n id row e [] [] h v k = (omega arith, k, tt)
Stores-snoc n id row e [] (x ∷ es) h v k = elim h [ ]
Stores-snoc n id row e (r ∷ rs) [] h v k = elim h [ ]
Stores-snoc n id row e (r ∷ rs) (x ∷ es) h v k =
    (h.0, h.1, Stores-snoc (suc n) id row e rs es h.2 (omega arith) k)

pub load_events_tx-quiet :
    (id : String) (es : List Event) (w : Wire)
    → Stores 0 id (stream id w.tables.events) es
    → load_events_tx id quiet w ≡ (ok es, called w)
unfolding load_events_tx exec after
load_events_tx-quiet id es w h = rw (Stores-decode_rows 0 id _ es h)

-- One more call has written the rows of an aggregate.
abbrev pub with_rows : String → List EventRow → Wire → Wire
with_rows id rows w = record {
  calls = w.calls + 1;
  tables = record w.tables { events = insert id rows w.tables.events };
}

-- The next event of an aggregate goes in, and the rows then hold it too.
pub insert_event_tx-quiet :
    (e : Event) (es : List Event) (w : Wire)
    → Stores 0 (aggregate_id e) (stream (aggregate_id e) w.tables.events) es
    → version e ≡ length es
    → NamesItself e
    → IsStorable (amount_of e)
    → (rows : List EventRow) × Stores 0 (aggregate_id e) rows (es ++ e ∷ [])
      × (insert_event_tx e quiet w ≡ (ok tt, with_rows (aggregate_id e) rows w))
unfolding insert_event_tx exec insert_event after
insert_event_tx-quiet e es w h v n s =
    let (p, written, read) = decode_event-marshal_event e n s in
    let id = aggregate_id e in
    let row = row_of e (version e) p in
    let old = stream id w.tables.events in
    (
      old ++ row ∷ [],
      Stores-snoc 0 id row e old es h (omega arith) read,
      rw (written, insert_event, Stores-insert_row 0 id row old es h (omega arith)),
    )

-- Each aggregate's rows hold its events.
abbrev pub Holds : Dict (List EventRow) → Dict (List Event) → Type 0
Holds rows streams = (id : String) → Stores 0 id (stream id rows) (stream id streams)

pub insert-Holds :
    (k : String) (rows : List EventRow) (es : List Event) (d : Dict (List EventRow))
    (streams : Dict (List Event))
    → Holds d streams
    → Stores 0 k rows es
    → Holds (insert k rows d) (insert k es streams)
insert-Holds k rows es d streams all h id = elim (String-cases id k) [
  | inl same ↦ rw (same, stream-insert_self k rows d, stream-insert_self k es streams) h
  | inr other ↦
      rw (stream-insert_ne id k rows d other, stream-insert_ne id k es streams other) (all id)
]

-- The next event of an aggregate, with the events of all.
pub insert_event_tx-Holds :
    (e : Event) (es : List Event) (streams : Dict (List Event)) (w : Wire)
    → Holds w.tables.events streams
    → stream (aggregate_id e) streams ≡ es
    → version e ≡ length es
    → NamesItself e
    → IsStorable (amount_of e)
    → (rows : List EventRow) × Holds
        (insert (aggregate_id e) rows w.tables.events)
        (insert (aggregate_id e) (es ++ e ∷ []) streams)
      × (insert_event_tx e quiet w ≡ (ok tt, with_rows (aggregate_id e) rows w))
insert_event_tx-Holds e es streams w all same v n s =
    let id = aggregate_id e in
    let (rows, stored, run) =
      insert_event_tx-quiet e es w
        (subst (λ (xs : List Event). Stores 0 id (stream id w.tables.events) xs) same (all id)) v n
        s in
    (rows, insert-Holds id rows (es ++ e ∷ []) w.tables.events streams all stored, run)
