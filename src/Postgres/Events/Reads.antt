-- ===== src/Postgres/Events/Reads.antt =====
-- What reads of the rows and of the streams see of writes.
use go_odtbank.Base.{
  String, ◌≡◌, subst, inl, inr, String-cases, List, Dict, insert, stream, stream-insert_self,
  stream-insert_ne,
}
use go_odtbank.Domain.Event.{Event}
use go_odtbank.Postgres.{EventRow}
use go_odtbank.Postgres.Events.Rows.{Holds, Stores}

pub Holds-of :
    (d : Dict (List EventRow)) (a b : Dict (List Event))
    → ((id : String) → stream id a ≡ stream id b)
    → Holds d a
    → Holds d b
Holds-of d a b same h id =
    subst (λ (es : List Event). Stores 0 id (stream id d) es) (same id) (h id)

-- Storing what is there, and storing twice, is seen by no read.
pub insert_read :
    (k : String) (a : Dict (List Event)) (id : String)
    → stream id a ≡ stream id (insert k (stream k a) a)
insert_read k a id = elim (String-cases id k) [
  | inl same ↦ rw (same, stream-insert_self k (stream k a) a)
  | inr other ↦ rw (stream-insert_ne id k (stream k a) a other)
]

pub insert_twice :
    (k : String) (xs ys : List Event) (a : Dict (List Event)) (id : String)
    → stream id (insert k ys (insert k xs a)) ≡ stream id (insert k ys a)
insert_twice k xs ys a id = elim (String-cases id k) [
  | inl same ↦ rw (same, stream-insert_self k ys a, stream-insert_self k ys (insert k xs a))
  | inr other ↦ rw (
    stream-insert_ne id k ys a other,
    stream-insert_ne id k ys (insert k xs a) other,
    stream-insert_ne id k xs a other,
  )
]

pub insert_above :
    (k : String) (xs : List Event) (a b : Dict (List Event))
    → ((id : String) → stream id a ≡ stream id b)
    → (id : String) → stream id (insert k xs a) ≡ stream id (insert k xs b)
insert_above k xs a b h id = elim (String-cases id k) [
  | inl same ↦ rw (same, stream-insert_self k xs a, stream-insert_self k xs b)
  | inr other ↦ rw (stream-insert_ne id k xs a other, stream-insert_ne id k xs b other) (h id)
]
