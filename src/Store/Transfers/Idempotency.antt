-- ===== src/Store/Transfers/Idempotency.antt =====
-- `CreateTransfer` and the repeats of the later steps: a repeated request changes nothing.
use go_odtbank.Base.{
  String, Bool, true, false, ◌&&◌, ◌≡◌, inl, inr, refl, [], ◌∷◌, Dict, some, none, lookup, insert,
  lookup-insert_self, str_eq, str_eq_self, str_eq_sound, eq_iff, arith, Bool-cases, Option-cases,
}
use go_odtbank.Domain.Error.{ok, err, idempotency_conflict}
use go_odtbank.Domain.Transfer.{TransferRecord}
use go_odtbank.Store.{MemoryStore, Outcome}
use go_odtbank.Store.Transfers.{create_transfer, find_existing, same_details}

abbrev pub SameKey : TransferRecord → TransferRecord → Type 0
SameKey t r = (t.source_account_id ≡ r.source_account_id) × (t.idempotency_key ≡ r.idempotency_key)

find_existing-some :
    (source key : String) (d : Dict TransferRecord) (t : TransferRecord)
    → find_existing source key d ≡ some t
    → (t.source_account_id ≡ source) × (t.idempotency_key ≡ key)
unfolding find_existing
find_existing-some source key [] t e = cc
find_existing-some source key ((id, x) ∷ d) t e = ground (
  arith,
  find_existing-some source key d t,
  str_eq_sound x.source_account_id source,
  str_eq_sound x.idempotency_key key,
)

-- After a new entry with this source and key, the search finds an entry with them.
find_existing-insert :
    (id : String) (r : TransferRecord) (d : Dict TransferRecord)
    → find_existing r.source_account_id r.idempotency_key d ≡ none
    → find_existing r.source_account_id r.idempotency_key (insert id r d) ≡ some r
unfolding find_existing insert
find_existing-insert id r [] e =
    ground (arith, str_eq_self r.source_account_id, str_eq_self r.idempotency_key)
find_existing-insert id r ((j, x) ∷ d) e = ground (
  arith,
  find_existing-insert id r d,
  str_eq_self r.source_account_id,
  str_eq_self r.idempotency_key,
)

-- A request for the same source and key as one accepted before: the transfer accepted first comes
-- back if the amount and the destination agree, and a conflict is reported if they do not. Nothing
-- is stored either way, whatever identifier, fee and times the repeat carries.
abbrev pub Repeats :
    TransferRecord → TransferRecord → MemoryStore → Outcome (TransferRecord × Bool) → Type 0
Repeats t r m (ok (t', new), m') = (t' ≡ t) × (new ≡ false) × (m' ≡ m) × (same_details t r ≡ true)
Repeats t r m (err e, m') = (e ≡ idempotency_conflict) × (m' ≡ m) × (same_details t r ≡ false)

create_existing :
    (t r : TransferRecord) (m : MemoryStore)
    → find_existing r.source_account_id r.idempotency_key m.transfers ≡ some t
    → Repeats t r m (create_transfer r m)
unfolding create_transfer
create_existing t r m e =
    rw (e, create_transfer)
      (elim (Bool-cases (same_details t r)) [
        | inl same ↦ rw same (refl, refl, refl, same)
        | inr differs ↦ rw differs (refl, refl, differs)
      ])

create_fresh :
    (t : TransferRecord) (m : MemoryStore)
    → find_existing t.source_account_id t.idempotency_key m.transfers ≡ none
    → create_transfer t m ≡ (ok (t, true), record m { transfers = insert t.id t m.transfers })
unfolding create_transfer
create_fresh t m e = rw (e, create_transfer) refl

-- A first request, for a source and key not seen before, is stored under its identifier. A second
-- request for the same source and key then gives the first transfer back if the amount and the
-- destination agree, and an idempotency conflict if they do not; it stores nothing either way,
-- whatever its identifier, fee and times.
pub create_twice :
    (t r : TransferRecord) (m : MemoryStore)
    → find_existing t.source_account_id t.idempotency_key m.transfers ≡ none
    → SameKey t r
    → let (first, m') = create_transfer t m in
      (first ≡ ok (t, true))
      × (lookup t.id m'.transfers ≡ some t)
      × Repeats t r m' (create_transfer r m')
create_twice t r m fresh key =
    let m' = record m { transfers = insert t.id t m.transfers } in
    rw (create_fresh t m fresh) (
      refl,
      lookup-insert_self t.id t m.transfers,
      create_existing t r m'
          (rw (← key.0, ← key.1) (find_existing-insert t.id t m.transfers fresh)),
    )

-- No two stored transfers have both the source and the key in common.
abbrev pub UniqueKeys : Dict TransferRecord → Type 0
UniqueKeys [] = Unit
UniqueKeys ((id, t) ∷ d) =
    (find_existing t.source_account_id t.idempotency_key d ≡ none) × UniqueKeys d

-- Another entry with another source or key is not found.
find_existing-insert_ne :
    (source key id : String) (r : TransferRecord) (d : Dict TransferRecord)
    → (str_eq r.source_account_id source && str_eq r.idempotency_key key) ≡ false
    → find_existing source key d ≡ none
    → find_existing source key (insert id r d) ≡ none
unfolding find_existing insert
find_existing-insert_ne source key id r [] ne e = ground arith
find_existing-insert_ne source key id r ((j, x) ∷ d) ne e =
    ground (arith, find_existing-insert_ne source key id r d)

-- What the head of a list is not found by, does not find the head.
not_same_key :
    (id : String) (t r : TransferRecord) (d : Dict TransferRecord)
    → find_existing r.source_account_id r.idempotency_key ((id, t) ∷ d) ≡ none
    → ((str_eq r.source_account_id t.source_account_id
          && str_eq r.idempotency_key t.idempotency_key)
        ≡ false)
      × (find_existing r.source_account_id r.idempotency_key d ≡ none)
unfolding find_existing
not_same_key id t r d e = ground (
  arith,
  eq_iff t.source_account_id r.source_account_id,
  eq_iff r.source_account_id t.source_account_id,
  eq_iff t.idempotency_key r.idempotency_key,
  eq_iff r.idempotency_key t.idempotency_key,
)

insert-UniqueKeys :
    (id : String) (r : TransferRecord) (d : Dict TransferRecord)
    → find_existing r.source_account_id r.idempotency_key d ≡ none
    → UniqueKeys d
    → UniqueKeys (insert id r d)
unfolding insert
insert-UniqueKeys id r [] e u = unfold find_existing in (refl, tt)
insert-UniqueKeys id r ((j, x) ∷ d) e u =
    let (ne, rest) = not_same_key j x r d e in
    ground (
      arith,
      insert-UniqueKeys id r d,
      find_existing-insert_ne x.source_account_id x.idempotency_key id r d,
    )

-- Accepting a transfer, new or repeated, keeps the pairs of source and key unique.
pub create-UniqueKeys :
    (r : TransferRecord) (m : MemoryStore)
    → UniqueKeys m.transfers
    → UniqueKeys (create_transfer r m).1.transfers
create-UniqueKeys r m u =
    elim (Option-cases (find_existing r.source_account_id r.idempotency_key m.transfers)) [
      | inl new ↦ rw (create_fresh r m new) (insert-UniqueKeys r.id r m.transfers new u)
      | inr (t, old) ↦ keeps t (create_transfer r m) (create_existing t r m old)
    ]
  where
    keeps :
        (t : TransferRecord) (o : Outcome (TransferRecord × Bool))
        → Repeats t r m o
        → UniqueKeys o.1.transfers
    keeps t (ok (t', new), m') h = rw h.2 u
    keeps t (err e, m') h = rw h.1 u
