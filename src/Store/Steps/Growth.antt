-- ===== src/Store/Steps/Growth.antt =====
-- Each method adds numbered events at most, or leaves the streams alone.
use go_odtbank.Base.{
  ◌==◌, ℕ, String, ◌≡◌, inl, inr, refl, [], ◌∷◌, ◌++◌, lookup, insert, stream, length, arith, add64,
  Bool-cases, Option-cases, ltb_ℤ, is_empty, not, ◌||◌,
}
use go_odtbank.Domain.Event.{Event, Money, Time, aggregate_id, version}
use go_odtbank.Domain.Account.{replay_account}
use go_odtbank.Domain.Transfer.{TransferRecord}
use go_odtbank.Store.{MemoryStore, MemoryReservation, HoldState, reserved, captured, released}
use go_odtbank.Store.Events.{append}
use go_odtbank.Store.Transfers.{
  reserve_transfer_funds, hold_event, finish_reservation, withdraw_available, closing_event,
  closing_name, hold_state_eq,
}
use go_odtbank.Store.Streams.{StoreInv, Keeps, adds_one-Keeps, same-Keeps}

closing_version :
    (r : TransferRecord) (at : Time) (state : HoldState) (h : MemoryReservation) (n : ℕ)
    → version (closing_event state (hold_event r h.account_id h.amount at (closing_name state) n))
      ≡ n
closing_version r at reserved h n = refl
closing_version r at captured h n = refl
closing_version r at released h n = refl

-- Streams and snapshots stay, or one stream has one more event with its position as the number.
pub data Grows (m m' : MemoryStore) : Type 0 where
  stays : m'.streams ≡ m.streams → m'.snapshots ≡ m.snapshots → Grows m m'
  adds :
      (k : String) (e : Event)
      → version e ≡ length (stream k m.streams)
      → m'.streams ≡ insert k (stream k m.streams ++ e ∷ []) m.streams
      → m'.snapshots ≡ m.snapshots
      → Grows m m'

pub Grows-Keeps : (m m' : MemoryStore) → Grows m m' → StoreInv m → Keeps m m'
Grows-Keeps m m' (stays s n) inv = same-Keeps m m' inv s n
Grows-Keeps m m' (adds k e v s n) inv = adds_one-Keeps k e m m' inv v s n

pub reserve-Grows :
    (r : TransferRecord) (at : Time) (m : MemoryStore) → Grows m (reserve_transfer_funds r at m).1
unfolding reserve_transfer_funds
reserve-Grows r at m =
    let src = stream r.source_account_id m.streams in
    let dst = stream r.destination_account_id m.streams in
    let a = replay_account r.source_account_id src in
    elim (Option-cases (lookup r.id m.reservations)) [
      | inr (h, e) ↦ rw (e, reserve_transfer_funds) (stays refl refl)
      | inl e ↦
          rw (e, reserve_transfer_funds)
            (elim (Bool-cases (is_empty src || is_empty dst)) [
              | inl unknown ↦ rw unknown (stays refl refl)
              | inr known ↦
                  rw known (elim (Bool-cases (ltb_ℤ a.available_balance (add64 r.amount r.fee))) [
                    | inl short ↦ rw short (stays refl refl)
                    | inr enough ↦ rw enough (adds r.source_account_id _ refl refl refl)
                  ])
            ])
    ]

pub finish-Grows :
    (r : TransferRecord) (at : Time) (state : HoldState) (m : MemoryStore)
    → Grows m (finish_reservation r at state m).1
unfolding finish_reservation
finish-Grows r at state m = elim (Option-cases (lookup r.id m.reservations)) [
  | inl e ↦ rw (e, finish_reservation) (stays refl refl)
  | inr (h, e) ↦
      rw (e, finish_reservation)
        (elim (Bool-cases (hold_state_eq h.state state)) [
          | inl again ↦ rw again (stays refl refl)
          | inr first ↦ rw first (elim (Bool-cases (not (hold_state_eq h.state reserved))) [
            | inl closed ↦ rw closed (stays refl refl)
            | inr open_hold ↦
                rw open_hold (adds h.account_id _ (closing_version r at state h _) refl refl)
          ])
        ])
]

pub withdraw-Grows :
    (id : String) (amount : Money) (at : Time) (m : MemoryStore)
    → Grows m (withdraw_available id amount at m).1
unfolding withdraw_available
withdraw-Grows id amount at m =
    let events = stream id m.streams in
    elim (Bool-cases (is_empty events)) [
      | inl unknown ↦ rw unknown (stays refl refl)
      | inr known ↦
          rw known (elim (Bool-cases (ltb_ℤ (replay_account id events).available_balance amount)) [
            | inl short ↦ rw short (stays refl refl)
            | inr enough ↦ rw enough (adds id _ refl refl refl)
          ])
    ]

pub append-Grows : (e : Event) (m : MemoryStore) → Grows m (append e (version e) m).1
unfolding append
append-Grows e m =
    let s = stream (aggregate_id e) m.streams in
    elim (Bool-cases (length s == version e)) [
      | inl now ↦
          let v : version e ≡ length s = ground arith in
          rw now (adds (aggregate_id e) e v refl refl)
      | inr stale ↦ rw stale (stays refl refl)
    ]
