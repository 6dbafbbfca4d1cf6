-- ===== src/Postgres/Holds/Withdraw.antt =====
-- `WithdrawAvailable` of the two stores, when no call of the database fails.
use go_odtbank.Base.{
  String, false, ◌≡◌, refl, ◌∙◌, inl, inr, Bool-cases, ltb_ℤ, List, [], ◌∷◌, ◌++◌, insert, stream,
  length, is_empty,
}
use go_odtbank.Domain.Event.{Event, Money, Time, money_debited}
use go_odtbank.Domain.Account.{Account, replay_account}
use go_odtbank.Domain.Error.{ok, account_not_found, insufficient_funds}
use go_odtbank.Store.{MemoryStore, account_of}
use go_odtbank.Store.Transfers.{plain_posting}
use go_odtbank.Store.Transfers as Memory
use go_odtbank.Postgres.{Wire, exec, guard, quiet, commits}
use go_odtbank.Postgres.Runs.{
  called, then_ok, then_err, guard_passes, guard_stops, transaction-commits, transaction-fails,
}
use go_odtbank.Postgres.Json.RoundTrip.{IsStorable}
use go_odtbank.Postgres.Events.{load_events_tx, insert_event_tx}
use go_odtbank.Postgres.Events.Rows.{with_rows, load_events_tx-quiet, insert_event_tx-Holds}
use go_odtbank.Postgres.Holds.{lock_account_tx, withdraw_loaded, withdraw_body, withdraw_available}
use go_odtbank.Postgres.Represents.{Represents, Agrees, Agrees-of}

module _ (id : String) (amount : Money) (at : Time) (m : MemoryStore) where
  abbrev events : List Event
  events = stream id m.streams

  abbrev initial : Account
  initial = account_of id m

  abbrev debit : Event
  debit = money_debited (plain_posting id amount at "MoneyDebited" (length events))

  withdraw_loads :
      (w : Wire)
      → Represents w.tables m
      → withdraw_body id amount at quiet w
        ≡ withdraw_loaded id amount at events quiet (called (called w))
  unfolding withdraw_body lock_account_tx exec
  withdraw_loads w rep =
      then_ok (lock_account_tx id) _ refl
      ∙ then_ok (load_events_tx id) _ (load_events_tx-quiet id events (called w) (rep.rows id))

  abbrev withdrawn : MemoryStore
  withdrawn = record m { streams = insert id (events ++ debit ∷ []) m.streams }

  withdraw_runs :
      (w : Wire)
      → Represents w.tables m
      → IsStorable amount
      → is_empty events ≡ false
      → ltb_ℤ initial.available_balance amount ≡ false
      → (w' : Wire) × Represents w'.tables withdrawn
        × (withdraw_body id amount at quiet w
            ≡ (ok (commits (initial, replay_account id (events ++ debit ∷ []))), w'))
  withdraw_runs w rep s some_there enough =
      let w2 = called (called w) in
      let (rows, h, run) =
        insert_event_tx-Holds debit events m.streams w2 rep.rows refl refl refl s in
      (
        with_rows id rows w2,
        record { rows = h; holds = rep.holds; posted = rep.posted },
        withdraw_loads w rep
            ∙ then_ok (guard (is_empty events) account_not_found) _
                (guard_passes _ _ quiet w2 some_there)
            ∙ then_ok
                (guard (ltb_ℤ initial.available_balance amount) (insufficient_funds initial amount))
                _ (guard_passes _ _ quiet w2 enough)
            ∙ then_ok (insert_event_tx debit) _ run,
      )

-- Where the database carries out every call, a withdrawal of a storable amount has the result of the
-- memory store, refused or not, and leaves tables that hold what the memory store then holds.
pub withdraw-Agrees :
    (id : String) (amount : Money) (at : Time) (w : Wire) (m : MemoryStore)
    → Represents w.tables m
    → IsStorable amount
    → Agrees (withdraw_available id amount at quiet w) (Memory.withdraw_available id amount at m)
unfolding withdraw_available Memory.withdraw_available
withdraw-Agrees id amount at w m rep s =
    let body = withdraw_body id amount at in
    let none_there = is_empty (events id amount at m) in
    let a = initial id amount at m in
    let short = ltb_ℤ a.available_balance amount in
    let loads = withdraw_loads id amount at m (called w) rep in
    elim (Bool-cases none_there) [
      | inl c ↦
          Agrees-of
            (transaction-fails body w
              (loads ∙ then_err (guard none_there account_not_found) _ (guard_stops _ _ quiet _ c)))
            (rw c refl) (refl, rep)
      | inr c ↦ elim (Bool-cases short) [
        | inl p ↦
            Agrees-of
              (transaction-fails body w (
                loads
                ∙ then_ok (guard none_there account_not_found) _ (guard_passes _ _ quiet _ c)
                ∙ then_err (guard short (insufficient_funds a amount)) _
                    (guard_stops _ _ quiet _ p)))
              (rw (c, p) refl) (refl, rep)
        | inr p ↦
            let (w', rep', run) = withdraw_runs id amount at m (called w) rep s c p in
            let after_it = replay_account id (events id amount at m ++ debit id amount at m ∷ []) in
            Agrees-of {y' = (ok (a, after_it), withdrawn id amount at m)}
              (transaction-commits body w run) (rw (c, p) refl) (refl, rep')
      ]
    ]
