-- ===== src/Postgres/Holds/Post.antt =====
-- `PostTransferLedger` of the two stores, when no call of the database fails.
use go_odtbank.Base.{
  ℕ, ◌+◌, String, true, false, ◌≡◌, ◌≢◌, ◌⊎◌, refl, sym, ◌∙◌, inl, inr, Bool-cases, String-cases,
  pos, ltb_ℤ, List, Dict, lookup, insert, stream, lookup-insert_self, lookup-insert_ne,
  stream-insert_self, stream-insert_ne, length, is_empty, if◌then◌else◌, ◌||◌,
}
use go_odtbank.Domain.Event.{Event, Money, Time}
use go_odtbank.Domain.Account.{replay_account}
use go_odtbank.Domain.Error.{Result, ok, err, account_not_found}
use go_odtbank.Domain.Transfer.{TransferRecord}
use go_odtbank.Store.{MemoryStore, Outcome, account_of}
use go_odtbank.Store.Transfers.{flag, with_fee, with_debit, with_credit}
use go_odtbank.Store.Transfers as Memory
use go_odtbank.Postgres.{EventRow, Wire, exec, quiet, leaves, commits}
use go_odtbank.Postgres.Runs.{called, then_ok, transaction-commits, transaction-leaves}
use go_odtbank.Postgres.Json.RoundTrip.{IsStorable}
use go_odtbank.Postgres.Events.{load_events_tx, insert_event_tx}
use go_odtbank.Postgres.Events.Rows.{Holds, with_rows, load_events_tx-quiet, insert_event_tx-Holds}
use go_odtbank.Postgres.Events.Reads.{Holds-of, insert_read, insert_twice, insert_above}
use go_odtbank.Postgres.Transfers.{is_some}
use go_odtbank.Postgres.Holds.{
  lock_account_tx, select_posted, current_balance, post_fee, fee_event, debit_event, credit_event,
  post_settled, post_loaded, new_posting, insert_posting, post_body, post_transfer_ledger,
  min_string, max_string,
}
use go_odtbank.Postgres.Represents.{Represents, Agrees, Agrees-of}

-- Calls that have changed `events` alone.
abbrev on_events : ℕ → Dict (List EventRow) → Wire → Wire
on_events calls rows w = record { calls = calls; tables = record w.tables { events = rows } }

module _ (r : TransferRecord) (at : Time) (m : MemoryStore) where
  abbrev src : List Event
  src = stream r.source_account_id m.streams

  abbrev dst : List Event
  dst = stream r.destination_account_id m.streams

  abbrev charged : List Event
  charged = with_fee r at src

  post_fee-Holds :
      (w : Wire)
      → Holds w.tables.events m.streams
      → IsStorable r.fee
      → (calls : ℕ) × (rows : Dict (List EventRow)) × Holds rows
          (insert r.source_account_id charged m.streams)
        × (post_fee r at src quiet w ≡ (ok charged, on_events calls rows w))
  unfolding post_fee
  post_fee-Holds w all s = elim (Bool-cases (ltb_ℤ (pos 0) r.fee)) [
    | inl c ↦
        let fee = fee_event r at (length src) in
        let (rows, h, run) = insert_event_tx-Holds fee src m.streams w all refl refl refl s in
        rw c (
          w.calls + 1,
          insert r.source_account_id rows w.tables.events,
          h,
          then_ok (insert_event_tx fee) _ run,
        )
    | inr c ↦ rw c (
      w.calls,
      w.tables.events,
      Holds-of w.tables.events m.streams _ (insert_read r.source_account_id m.streams) all,
      refl,
    )
  ]

  abbrev settled : List Event
  settled = with_debit r at charged

  abbrev posted_streams : Dict (List Event)
  posted_streams =
      insert r.destination_account_id (with_credit r at dst)
        (insert r.source_account_id settled m.streams)

  abbrev with_posting : Wire → Wire
  with_posting w = record {
    calls = w.calls + 1;
    tables = record w.tables { ledger_postings = insert r.id at w.tables.ledger_postings };
  }

  abbrev posted_wire : ℕ → Dict (List EventRow) → List EventRow → List EventRow → Wire → Wire
  posted_wire calls rows debit credit w = with_posting (
      with_rows r.destination_account_id credit
        (with_rows r.source_account_id debit (on_events calls rows w)))

  insert_posting-quiet :
      (w : Wire)
      → is_some (lookup r.id w.tables.ledger_postings) ≡ false
      → is_some (lookup r.id w.tables.transfers) ≡ true
      → exec (insert_posting r.id at) quiet w ≡ (ok tt, with_posting w)
  unfolding exec insert_posting
  insert_posting-quiet w free known = rw (free, known) refl

  -- The postings after the fee.
  settle-Holds :
      (w : Wire) (calls : ℕ) (rows : Dict (List EventRow))
      → Holds rows (insert r.source_account_id charged m.streams)
      → r.destination_account_id ≢ r.source_account_id
      → IsStorable r.amount
      → is_some (lookup r.id w.tables.ledger_postings) ≡ false
      → is_some (lookup r.id w.tables.transfers) ≡ true
      → (debit : List EventRow) × (credit : List EventRow) × Holds
          (insert r.destination_account_id credit (insert r.source_account_id debit rows))
          posted_streams
        × (post_settled r at charged dst quiet (on_events calls rows w) ≡ (
          ok (commits (replay_account r.source_account_id settled).balance),
          posted_wire calls rows debit credit w,
        ))
  settle-Holds w calls rows all other s free known =
      let source = r.source_account_id in
      let destination = r.destination_account_id in
      let before = insert source charged m.streams in
      let debit_at = debit_event r at (length charged) in
      let credit_at = credit_event r at (length dst) in
      let w0 = on_events calls rows w in
      let (debit, h, run) =
        insert_event_tx-Holds debit_at charged before w0 all
          (stream-insert_self source charged m.streams) refl refl s in
      let w1 = with_rows source debit w0 in
      let untouched : stream destination (insert source settled before) ≡ dst =
        stream-insert_ne destination source settled before other
        ∙ stream-insert_ne destination source charged m.streams other in
      let (credit, h', run') =
        insert_event_tx-Holds credit_at dst (insert source settled before) w1 h untouched refl refl
          s in
      let w2 = with_rows destination credit w1 in
      (
        debit,
        credit,
        Holds-of _ _ _
            (insert_above destination (with_credit r at dst) _ _
              (insert_twice source charged settled m.streams))
            h',
        then_ok (insert_event_tx debit_at) _ run
            ∙ then_ok (insert_event_tx credit_at) _ run'
            ∙ then_ok (exec (insert_posting r.id at)) _ (insert_posting-quiet w2 free known),
      )

  post_locked :
      (w : Wire)
      → post_body r at quiet w
        ≡ (if is_some (lookup r.id w.tables.ledger_postings)
              then current_balance r.source_account_id
              else new_posting r at)
            quiet
            (called (called (called w)))
  unfolding post_body lock_account_tx exec
  post_locked w =
      then_ok (lock_account_tx (min_string r.source_account_id r.destination_account_id)) _ refl
      ∙ then_ok (lock_account_tx (max_string r.source_account_id r.destination_account_id)) _ refl
      ∙ then_ok (exec (select_posted r.id)) _ refl

  post_repeated :
      (w : Wire)
      → Represents w.tables m
      → is_some (lookup r.id w.tables.ledger_postings) ≡ true
      → post_body r at quiet w ≡ (
        ok (leaves (account_of r.source_account_id m).balance),
        called (called (called (called w))),
      )
  post_repeated w rep e =
      post_locked w
      ∙ rw e (
          then_ok (load_events_tx r.source_account_id) _ (
            load_events_tx-quiet r.source_account_id src (called (called (called w)))
              (rep.rows r.source_account_id)))

  post_loads :
      (w : Wire)
      → Represents w.tables m
      → new_posting r at quiet w ≡ post_loaded r at src dst quiet (called (called w))
  post_loads w rep =
      then_ok (load_events_tx r.source_account_id) _
        (load_events_tx-quiet r.source_account_id src w (rep.rows r.source_account_id))
      ∙ then_ok (load_events_tx r.destination_account_id) _ (
          load_events_tx-quiet r.destination_account_id dst (called w)
            (rep.rows r.destination_account_id))

  abbrev posted_store : MemoryStore
  posted_store = record m {
    streams = posted_streams;
    ledger_postings = insert r.id true m.ledger_postings;
  }

  posting_marks :
      (w : Wire)
      → Represents w.tables m
      → (id : String)
      → is_some (lookup id (insert r.id at w.tables.ledger_postings))
        ≡ flag (lookup id (insert r.id true m.ledger_postings))
  posting_marks w rep id = elim (String-cases id r.id) [
    | inl same ↦ rw (
      same,
      lookup-insert_self r.id at w.tables.ledger_postings,
      lookup-insert_self r.id true m.ledger_postings,
    )
    | inr other ↦
        rw
          (
            lookup-insert_ne id r.id at w.tables.ledger_postings other,
            lookup-insert_ne id r.id true m.ledger_postings other,
          )
          (rep.posted id)
  ]

  post_runs :
      (w : Wire)
      → Represents w.tables m
      → is_some (lookup r.id w.tables.transfers) ≡ true
      → IsStorable r.amount
      → IsStorable r.fee
      → r.destination_account_id ≢ r.source_account_id
      → is_some (lookup r.id w.tables.ledger_postings) ≡ false
      → (w' : Wire) × Represents w'.tables posted_store
        × (post_body r at quiet w
            ≡ (ok (commits (replay_account r.source_account_id settled).balance), w'))
  post_runs w rep known s t other free =
      let w5 = called (called (called (called (called w)))) in
      let (calls, rows, h, run) = post_fee-Holds w5 rep.rows t in
      let (debit, credit, h', run') = settle-Holds w5 calls rows h other s free known in
      (
        posted_wire calls rows debit credit w5,
        record { rows = h'; holds = rep.holds; posted = posting_marks w rep },
        post_locked w
            ∙ rw free (
                post_loads (called (called (called w))) rep
                ∙ then_ok (post_fee r at src) _ run
                ∙ run'),
      )

-- For a transfer that is not posted: the tables hold the posting, and the balance is the answer.
post_first :
    (r : TransferRecord) (at : Time) (w : Wire) (m : MemoryStore)
    → Represents w.tables m
    → is_some (lookup r.id w.tables.transfers) ≡ true
    → IsStorable r.amount
    → IsStorable r.fee
    → r.destination_account_id ≢ r.source_account_id
    → is_some (lookup r.id w.tables.ledger_postings) ≡ false
    → (w' : Wire) × Represents w'.tables (posted_store r at m)
      × (post_transfer_ledger r at quiet w
          ≡ (ok (replay_account r.source_account_id (settled r at m)).balance, w'))
unfolding post_transfer_ledger
post_first r at w m rep known s t other free =
    let (w', rep', run) = post_runs r at m (called w) rep known s t other free in
    (called w', rep', transaction-commits (post_body r at) w run)

-- The postings, made without an account: the streams of both accounts, of which one was empty, have
-- them, and the transfer is marked, where the memory store answers that there is no such account.
abbrev pub PostsUnknown :
    TransferRecord → Time → MemoryStore → Result Money × Wire → Outcome Money → Type 0
PostsUnknown r at m (res, w') out =
    (is_empty (stream r.source_account_id m.streams)
        || is_empty (stream r.destination_account_id m.streams)
      ≡ true)
    × (flag (lookup r.id m.ledger_postings) ≡ false)
    × (res ≡ ok (replay_account r.source_account_id (settled r at m)).balance)
    × Represents w'.tables (record m {
      streams =
          insert r.destination_account_id
            (with_credit r at (stream r.destination_account_id m.streams))
            (insert r.source_account_id
              (with_debit r at (with_fee r at (stream r.source_account_id m.streams))) m.streams);
      ledger_postings = insert r.id true m.ledger_postings;
    })
    × (out ≡ (err account_not_found, m))

-- Where the database carries out every call, posting a stored transfer, of storable amounts between
-- two different accounts, has the result of the memory store, whether it is posted already or not, and
-- leaves tables that hold what the memory store then holds. The one exception: where the transfer is
-- not posted and one of the accounts has no events, the memory store refuses it as of an unknown
-- account and is as it was, but the tables take the postings on both streams, and their mark.
pub post-Agrees :
    (r : TransferRecord) (at : Time) (w : Wire) (m : MemoryStore)
    → Represents w.tables m
    → is_some (lookup r.id w.tables.transfers) ≡ true
    → IsStorable r.amount
    → IsStorable r.fee
    → r.destination_account_id ≢ r.source_account_id
    → Agrees (post_transfer_ledger r at quiet w) (Memory.post_transfer_ledger r at m)
      ⊎ PostsUnknown r at m (post_transfer_ledger r at quiet w) (Memory.post_transfer_ledger r at m)
unfolding post_transfer_ledger Memory.post_transfer_ledger
post-Agrees r at w m rep known s t other =
    let unknown = is_empty (src r at m) || is_empty (dst r at m) in
    elim (Bool-cases (is_some (lookup r.id w.tables.ledger_postings))) [
      | inl c ↦ inl (
          Agrees-of (transaction-leaves (post_body r at) w (post_repeated r at m (called w) rep c))
            (rw (sym (rep.posted r.id) ∙ c) refl) (refl, rep))
      | inr c ↦
          let (w', rep', run) = post_first r at w m rep known s t other c in
          let balance = (replay_account r.source_account_id (settled r at m)).balance in
          let free : flag (lookup r.id m.ledger_postings) ≡ false = sym (rep.posted r.id) ∙ c in
          elim (Bool-cases unknown) [
            | inr full ↦ inl (
                Agrees-of {y' = (ok balance, posted_store r at m)} run (rw (free, full) refl)
                  (refl, rep'))
            | inl e ↦ inr (rw run (e, free, refl, rep', rw (free, e) refl))
          ]
    ]
