-- ===== src/Store/Transfers/Holds.antt =====
-- What reserving funds and closing a reservation do to the accounts.
use mathlib.Core.List.{concat-ne-nil}
use go_odtbank.Base.{
  ◌∷◌, Bool, ◌||◌, String, ◌≡◌, ◌≢◌, ◌⊎◌, inl, inr, List, [], none, some, lookup, stream, add64,
  sub64, ltb_ℤ, true, arith, refl, stream-insert_self, stream-insert_ne, lookup-insert_self,
  is_empty, ◌<ℤ◌, ◌≤ℤ◌, Bool-cases,
}
use go_odtbank.Domain.Event.{Money, Time}
use go_odtbank.Domain.Account.{fold}
use go_odtbank.Domain.Account.Appends.{replay-append, with_reserved}
use go_odtbank.Domain.Error.{ok, err, account_not_found, insufficient_funds}
use go_odtbank.Domain.Transfer.{TransferRecord}
use go_odtbank.Store.{
  MemoryStore, MemoryReservation, HoldState, captured, released, Outcome, reserved, account_of,
}
use go_odtbank.Store.Transfers.{reserve_transfer_funds, finish_reservation}

-- The amount that a transfer takes from its source.
abbrev pub taken : TransferRecord → Money
taken r = add64 r.amount r.fee

-- What a first reservation for `r` in `m` has done, by how it ended.
abbrev pub Reserves : TransferRecord → MemoryStore → Outcome Money → Type 0
Reserves r m (ok b, m') =
    (b ≡ (account_of r.source_account_id m).balance)
    × (taken r ≤ℤ (account_of r.source_account_id m).available_balance)
    × (account_of r.source_account_id m'
        ≡ with_reserved (add64 (account_of r.source_account_id m).reserved_balance (taken r))
            (account_of r.source_account_id m))
    × (lookup r.id m'.reservations
        ≡ some (record { account_id = r.source_account_id; amount = taken r; state = reserved }))
    × ((j : String) → j ≢ r.source_account_id → stream j m'.streams ≡ stream j m.streams)
    × (stream r.source_account_id m'.streams ≢ [])
Reserves r m (err e, m') =
    (m' ≡ m)
    × (((e ≡ account_not_found)
          × ((stream r.source_account_id m.streams ≡ [])
              ⊎ (stream r.destination_account_id m.streams ≡ [])))
        ⊎ ((e ≡ insufficient_funds (account_of r.source_account_id m) (taken r))
            × ((account_of r.source_account_id m).available_balance <ℤ taken r)))

pub is_empty-nil {ℓ} : {A : Type ℓ} (xs : List A) → is_empty xs ≡ true → xs ≡ []
is_empty-nil [] h = refl
is_empty-nil (x ∷ xs) h = cc

pub or-cases : (a b : Bool) → a || b ≡ true → (a ≡ true) ⊎ (b ≡ true)
or-cases a b h = ground arith

-- A first reservation ends in one of three ways. If the source and the destination have events and
-- the source's available balance covers the amount and the fee, it returns the source's balance,
-- puts that sum on hold in the source's account and in the reservation, and changes no other stream.
-- If one of them has no events, or the balance does not cover, it says so and changes nothing.
pub reserve_lem :
    (r : TransferRecord) (at : Time) (m : MemoryStore)
    → lookup r.id m.reservations ≡ none
    → Reserves r m (reserve_transfer_funds r at m)
unfolding reserve_transfer_funds fold
reserve_lem r at m fresh =
    let src = stream r.source_account_id m.streams in
    let dst = stream r.destination_account_id m.streams in
    let a = account_of r.source_account_id m in
    rw (fresh, reserve_transfer_funds)
      (elim (Bool-cases (is_empty src || is_empty dst)) [
        | inl e ↦ rw e (
          refl,
          inl (
            refl,
            elim (or-cases _ _ e) [
              | inl p ↦ inl (is_empty-nil src p)
              | inr p ↦ inr (is_empty-nil dst p)
            ],
          ),
        )
        | inr full ↦ rw full (elim (Bool-cases (ltb_ℤ a.available_balance (taken r))) [
          | inl short ↦ rw short (refl, inr (refl, ground arith))
          | inr enough ↦ rw enough (
            refl,
            ground arith,
            (rw (stream-insert_self r.source_account_id _ m.streams)
                (replay-append r.source_account_id src _)),
            lookup-insert_self r.id _ m.reservations,
            λ j h. stream-insert_ne j r.source_account_id _ m.streams h,
            rw (stream-insert_self r.source_account_id _ m.streams) (concat-ne-nil _ src),
          )
        ])
      ])

-- What closing the reservation `hold` of `r` as `state` has done: the hold leaves the account's
-- reserved balance.
abbrev pub Closes :
    TransferRecord → MemoryReservation → HoldState → MemoryStore → Outcome (Unit {0}) → Type 0
Closes r hold state m (ok _, m') =
    (account_of hold.account_id m'
      ≡ with_reserved (sub64 (account_of hold.account_id m).reserved_balance hold.amount)
          (account_of hold.account_id m))
    × (lookup r.id m'.reservations ≡ some (record hold { state = state }))
    × ((j : String) → j ≢ hold.account_id → stream j m'.streams ≡ stream j m.streams)
Closes r hold state m (err e, m') = ⊥

-- Capturing or releasing an open reservation succeeds: the amount on hold leaves the reserved balance
-- of the account that was named when it was made, the balance stays, the reservation is marked, and
-- no other stream changes.
pub finish_lem :
    (r : TransferRecord) (at : Time) (state : HoldState) (hold : MemoryReservation)
    (m : MemoryStore)
    → state ≢ reserved
    → lookup r.id m.reservations ≡ some hold
    → hold.state ≡ reserved
    → Closes r hold state m (finish_reservation r at state m)
unfolding finish_reservation fold
finish_lem r at reserved hold m ne found held = absurd (ne refl)
finish_lem r at captured hold m ne found held =
    rw (found, finish_reservation)
      (rw (held, finish_reservation)
        (
          rw (stream-insert_self hold.account_id _ m.streams) (replay-append hold.account_id _ _),
          lookup-insert_self r.id _ m.reservations,
          λ j h. stream-insert_ne j hold.account_id _ m.streams h,
        ))
finish_lem r at released hold m ne found held =
    rw (found, finish_reservation)
      (rw (held, finish_reservation)
        (
          rw (stream-insert_self hold.account_id _ m.streams) (replay-append hold.account_id _ _),
          lookup-insert_self r.id _ m.reservations,
          λ j h. stream-insert_ne j hold.account_id _ m.streams h,
        ))
