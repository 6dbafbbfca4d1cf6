-- ===== src/Postgres/Holds/Retries.antt =====
-- `PostTransferLedger` tried again and again, with whatever faults, as the recovery of sagas does
-- after an error.
use go_odtbank.Base.{
  ℕ, String, true, ◌≡◌, refl, sym, subst, ◌∙◌, ◌⊎◌, inl, inr, Bool-cases, List, [], ◌∷◌, length,
  lookup, lookup-insert_self, if◌then◌else◌,
}
use mathlib.Core.List.{Memᴰ}
use go_odtbank.Domain.Event.{Event, Money, Time}
use go_odtbank.Domain.Error.{Result, ok}
use go_odtbank.Domain.Transfer.{TransferRecord}
use go_odtbank.Postgres.{Database, Faults, Wire, Ending, commits, exec, quiet}
use go_odtbank.Postgres.Runs.{called, then_ok, transaction-commits}
use go_odtbank.Postgres.Steady.{IsSteady, split_ok, transaction-cases}
use go_odtbank.Postgres.Events.{load_events_tx, insert_event_tx}
use go_odtbank.Postgres.Transfers.{is_some}
use go_odtbank.Postgres.Holds.{
  lock_account_tx, select_posted, current_balance, new_posting, post_settled, post_fee,
  insert_posting, debit_event, credit_event, post_body, post_transfer_ledger, min_string,
  max_string,
}
use go_odtbank.Postgres.Holds.Atomicity.{post_body-IsSteady}

-- The transfer is posted.
abbrev pub IsPosted : TransferRecord → Database → Type 0
IsPosted r d = is_some (lookup r.id d.ledger_postings) ≡ true

post_starts :
    (r : TransferRecord) (at : Time) (w : Wire)
    → post_body r at quiet w
      ≡ (if is_some (lookup r.id w.tables.ledger_postings)
            then current_balance r.source_account_id
            else new_posting r at)
          quiet
          (called (called (called w)))
unfolding post_body lock_account_tx exec
post_starts r at w =
    then_ok (lock_account_tx (min_string r.source_account_id r.destination_account_id)) _ refl
    ∙ then_ok (lock_account_tx (max_string r.source_account_id r.destination_account_id)) _ refl
    ∙ then_ok (exec (select_posted r.id)) _ refl

balance_leaves :
    (id : String) (w : Wire) (b : Money) (w' : Wire)
    → ¬ (current_balance id quiet w ≡ (ok (commits b), w'))
balance_leaves id w b w' h =
    let (events, w1, _, last) = split_ok (load_events_tx id) _ quiet w (commits b) w' h in cc last

-- The body reaches its `Commit` only where the transfer is not posted.
commits-not-IsPosted :
    (r : TransferRecord) (at : Time) (w : Wire) (b : Money) (w' : Wire)
    → post_body r at quiet w ≡ (ok (commits b), w')
    → ¬ IsPosted r w.tables
commits-not-IsPosted r at w b w' h posted =
    let runs : current_balance r.source_account_id quiet (called (called (called w)))
        ≡ post_body r at quiet w =
      sym (post_starts r at w ∙ rw posted refl) in
    balance_leaves r.source_account_id _ b w' (runs ∙ h)

posting_marks :
    (r : TransferRecord) (at : Time) (w : Wire) (w' : Wire)
    → exec (insert_posting r.id at) quiet w ≡ (ok tt, w')
    → IsPosted r w'.tables
unfolding exec insert_posting
posting_marks r at w w' h = elim (Bool-cases (is_some (lookup r.id w.tables.ledger_postings))) [
  | inl c ↦ absurd (cc (rw (insert_posting, c) at h))
  | inr c ↦ elim (Bool-cases (is_some (lookup r.id w.tables.transfers))) [
    | inr t ↦ absurd (cc (rw (insert_posting, c, t) at h))
    | inl t ↦
        subst (λ (x : Result (Unit {0}) × Wire). IsPosted r x.1.tables)
          (rw (insert_posting, c, t) at h)
          (rw (lookup-insert_self r.id at w.tables.ledger_postings) refl)
  ]
]

settled_marks :
    (r : TransferRecord) (at : Time) (src : List Event) (dst : List Event) (w : Wire) (b : Money)
    (w' : Wire)
    → post_settled r at src dst quiet w ≡ (ok (commits b), w')
    → IsPosted r w'.tables
settled_marks r at src dst w b w' h =
    let (_, w1, _, h1) =
      split_ok (insert_event_tx (debit_event r at (length src))) _ quiet w (commits b) w' h in
    let (_, w2, _, h2) =
      split_ok (insert_event_tx (credit_event r at (length dst))) _ quiet w1 (commits b) w' h1 in
    let (_, w3, e3, h3) = split_ok (exec (insert_posting r.id at)) _ quiet w2 (commits b) w' h2 in
    subst (λ (x : Result (Ending Money) × Wire). IsPosted r x.1.tables) h3
      (posting_marks r at w2 w3 e3)

new_posting_marks :
    (r : TransferRecord) (at : Time) (w : Wire) (b : Money) (w' : Wire)
    → new_posting r at quiet w ≡ (ok (commits b), w')
    → IsPosted r w'.tables
new_posting_marks r at w b w' h =
    let (src, w1, _, h1) =
      split_ok (load_events_tx r.source_account_id) _ quiet w (commits b) w' h in
    let (dst, w2, _, h2) =
      split_ok (load_events_tx r.destination_account_id) _ quiet w1 (commits b) w' h1 in
    let (src', w3, _, h3) = split_ok (post_fee r at src) _ quiet w2 (commits b) w' h2 in
    settled_marks r at src' dst w3 b w' h3

-- The body that reaches its `Commit` has posted the transfer.
commits-posts :
    (r : TransferRecord) (at : Time) (w : Wire) (b : Money) (w' : Wire)
    → post_body r at quiet w ≡ (ok (commits b), w')
    → IsPosted r w'.tables
commits-posts r at w b w' h = elim (Bool-cases (is_some (lookup r.id w.tables.ledger_postings))) [
  | inl c ↦ absurd (commits-not-IsPosted r at w b w' h c)
  | inr c ↦ new_posting_marks r at _ b w' (sym (rw c at (post_starts r at w)) ∙ h)
]

-- The tries, each at its time, in one sequence of calls with its faults.
pub attempts : TransferRecord → List Time → Faults → Wire → Wire
attempts r [] faults w = w
attempts r (at ∷ ats) faults w = attempts r ats faults (post_transfer_ledger r at faults w).1

-- A try of a posted transfer changes nothing.
post_again :
    (r : TransferRecord) (at : Time) (faults : Faults) (w : Wire)
    → IsPosted r w.tables
    → (post_transfer_ledger r at faults w).1.tables ≡ w.tables
unfolding post_transfer_ledger IsSteady
post_again r at faults w posted = elim (transaction-cases (post_body r at) faults w) [
  | inl e ↦ e
  | inr (b, w1, h, e) ↦ absurd (
      commits-not-IsPosted r at (called w) b w1
        (post_body-IsSteady r at faults (called w) (commits b) w1 h) posted)
]

attempts-posted :
    (r : TransferRecord) (ats : List Time) (faults : Faults) (w : Wire)
    → IsPosted r w.tables
    → (attempts r ats faults w).tables ≡ w.tables
unfolding attempts
attempts-posted r [] faults w posted = refl
attempts-posted r (at ∷ ats) faults w posted =
    let e = post_again r at faults w posted in
    attempts-posted r ats faults (post_transfer_ledger r at faults w).1
      (subst (IsPosted r) (sym e) posted)
    ∙ e

-- The tables are those of one posting, at one of the times, in which no call fails.
abbrev pub PostedOnce : TransferRecord → List Time → Database → Database → Type 0
PostedOnce r ats before d =
    (at : Time) × (calls : ℕ) × (b : Money) × (w' : Wire) × Memᴰ at ats
    × (post_transfer_ledger r at quiet (record { calls = calls; tables = before }) ≡ (ok b, w'))
    × (d ≡ w'.tables)

PostedOnce-later :
    (r : TransferRecord) (at : Time) (ats : List Time) (before d : Database)
    → PostedOnce r ats before d
    → PostedOnce r (at ∷ ats) before d
PostedOnce-later r at ats before d (t, calls, b, w', member, run, e) =
    (t, calls, b, w', Memᴰ.tail member, run, e)

-- However often a posting is tried, at whatever times and whatever calls of the database fail or only
-- lose their answers, the tables are in the end those from before, or those of one posting in which no
-- call fails.
pub post-exactly_once :
    (r : TransferRecord) (ats : List Time) (faults : Faults) (w : Wire)
    → ((attempts r ats faults w).tables ≡ w.tables)
      ⊎ PostedOnce r ats w.tables (attempts r ats faults w).tables
unfolding attempts post_transfer_ledger IsSteady
post-exactly_once r [] faults w = inl refl
post-exactly_once r (at ∷ ats) faults w =
    let w2 = (post_transfer_ledger r at faults w).1 in
    elim (transaction-cases (post_body r at) faults w) [
      | inl e ↦ elim (post-exactly_once r ats faults w2) [
        | inl same ↦ inl (same ∙ e)
        | inr once ↦ inr (
            PostedOnce-later r at ats w.tables _
              (subst (λ d. PostedOnce r ats d (attempts r ats faults w2).tables) e once))
      ]
      | inr (b, w1, h, e) ↦
          let h' = post_body-IsSteady r at faults (called w) (commits b) w1 h in
          let posted = commits-posts r at (called w) b w1 h' in
          inr (
            at,
            w.calls,
            b,
            called w1,
            Memᴰ.head refl,
            transaction-commits (post_body r at) w h',
            attempts-posted r ats faults w2 (subst (IsPosted r) (sym e) posted) ∙ e,
          )
    ]
