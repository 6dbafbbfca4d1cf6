-- ===== src/Postgres/Represents.antt =====
-- The tables against the memory store of internal/eventstore/memory_store.go.
use go_odtbank.Base.{
  String, ◌≡◌, sym, subst, inl, inr, String-cases, Dict, lookup, insert, lookup-insert_self,
  lookup-insert_ne,
}
use go_odtbank.Domain.Error.{Result}
use go_odtbank.Store.{MemoryStore, Outcome}
use go_odtbank.Store.Transfers.{flag}
use go_odtbank.Postgres.{Database, Wire}
use go_odtbank.Postgres.Events.Rows.{Holds}
use go_odtbank.Postgres.Transfers.{is_some}

-- The tables hold what the memory store holds.
pub record Represents (d : Database) (m : MemoryStore) : Type 0 where
  pub rows : Holds d.events m.streams
  pub holds : (id : String) → lookup id d.account_reservations ≡ lookup id m.reservations
  pub posted :
      (id : String) → is_some (lookup id d.ledger_postings) ≡ flag (lookup id m.ledger_postings)

-- The same result, and tables that hold what the memory store then holds.
abbrev pub Agrees : {A : Type 0} → Result A × Wire → Outcome A → Type 0
Agrees x y = (x.0 ≡ y.0) × Represents x.1.tables y.1

-- The same entry goes into two tables that agree.
pub insert_same :
    {V : Type 0} (k : String) (v : V) (a b : Dict V)
    → ((id : String) → lookup id a ≡ lookup id b)
    → (id : String) → lookup id (insert k v a) ≡ lookup id (insert k v b)
insert_same k v a b h id = elim (String-cases id k) [
  | inl same ↦ rw (same, lookup-insert_self k v a, lookup-insert_self k v b)
  | inr other ↦ rw (lookup-insert_ne id k v a other, lookup-insert_ne id k v b other) (h id)
]

pub Agrees-of :
    {A : Type 0} {x x' : Result A × Wire} {y y' : Outcome A}
    → x ≡ x'
    → y ≡ y'
    → Agrees x' y'
    → Agrees x y
Agrees-of {x' = x'} {y = y} p q a =
    subst (λ z. Agrees z y) (sym p) (subst (λ z. Agrees x' z) (sym q) a)
