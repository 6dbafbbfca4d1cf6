-- ===== src/Service/Transfer/Rounds/Holding.antt =====
-- The cases of `Process` that hold the funds and ask for compliance.
use go_odtbank.Base.{
  ℕ, String, Bool, true, ◌≡◌, ◌≢◌, refl, ap, ◌∙◌, inl, inr, [], some, none, lookup, insert, stream,
  add64, ◌≤ℤ◌, arith,
}
use go_odtbank.Domain.Event.{Time, Money}
use go_odtbank.Domain.Account.Appends.{with_reserved}
use go_odtbank.Domain.Error.{Result, ok, err}
use go_odtbank.Domain.Transfer.{
  TransferRecord, TransferSagaUpdate, pending, created, funds_reserved, compliance_approved,
}
use go_odtbank.Store.{MemoryStore, Outcome, reserved, account_of}
use go_odtbank.Store.Transfers.{reserve_transfer_funds, record_compliance_decision}
use go_odtbank.Store.Transfers.Holds.{Reserves, reserve_lem, taken}
use go_odtbank.Service.Transfer.{
  process, process_step, process_created, process_reserved, process_decision, advance,
}
use go_odtbank.Service.Transfer.Rounds.{
  Deal, deal_of, WaitsAt, Goes, process_at, advance-Goes, advance_keeps,
}

reserve_frame :
    (t : TransferRecord) (at : Time) (m : MemoryStore)
    → let m' = (reserve_transfer_funds t at m).1 in
      (m'.transfers ≡ m.transfers)
      × (m'.ledger_postings ≡ m.ledger_postings)
      × (m'.compliance_decisions ≡ m.compliance_decisions)
unfolding reserve_transfer_funds
reserve_frame t at m = ground arith

-- What the first round leaves: the funds are on hold.
pub record HoldsFunds (d : Deal) (m m' : MemoryStore) : Type 0 where
  pub source_account :
      account_of d.source m'
      ≡ with_reserved
          (add64 (account_of d.source m).reserved_balance (add64 d.amount d.fee))
          (account_of d.source m)
  pub hold :
      lookup d.id m'.reservations
      ≡ some (record { account_id = d.source; amount = add64 d.amount d.fee; state = reserved })
  pub others : (j : String) → j ≢ d.source → stream j m'.streams ≡ stream j m.streams
  pub source_known : stream d.source m'.streams ≢ []
  pub same_postings : m'.ledger_postings ≡ m.ledger_postings
  pub same_decisions : m'.compliance_decisions ≡ m.compliance_decisions

reserve_succeeds :
    (t : TransferRecord) (m : MemoryStore) (o : Outcome Money)
    → Reserves t m o
    → stream t.source_account_id m.streams ≢ []
    → stream t.destination_account_id m.streams ≢ []
    → taken t ≤ℤ (account_of t.source_account_id m).available_balance
    → (b : Money) × (o.0 ≡ ok b) × Reserves t m (ok b, o.1)
reserve_succeeds t m (ok b, m') h s d enough = (b, refl, h)
reserve_succeeds t m (err e, m') (_, inl (_, inl none_there)) s d enough = absurd (s none_there)
reserve_succeeds t m (err e, m') (_, inl (_, inr none_there)) s d enough = absurd (d none_there)
reserve_succeeds t m (err e, m') (_, inr (_, short)) s d enough = absurd (omega arith)

-- The saga's own entry plays no part in what a round does to the accounts.
HoldsFunds-advance :
    (t : TransferRecord) (u : TransferSagaUpdate) (at : Time) (m m' : MemoryStore)
    → HoldsFunds (deal_of t) m m'
    → HoldsFunds (deal_of t) m (advance t u at m').1
HoldsFunds-advance t u at m m' h = rw (advance_keeps t u at m') (record {
  source_account = h.source_account;
  hold = h.hold;
  others = h.others;
  source_known = h.source_known;
  same_postings = h.same_postings;
  same_decisions = h.same_decisions;
})

-- From `created`: with both accounts known and the amount and fee available, the funds are put on
-- hold.
pub round_created :
    (check : TransferRecord → Result Bool) (t : TransferRecord) (clock : ℕ → Time) (m : MemoryStore)
    → WaitsAt created t m
    → lookup t.id m.reservations ≡ none
    → stream t.source_account_id m.streams ≢ []
    → stream t.destination_account_id m.streams ≢ []
    → taken t ≤ℤ (account_of t.source_account_id m).available_balance
    → let out = process check t clock m in
      Goes t funds_reserved pending out × HoldsFunds (deal_of t) m out.1 × (out.2 ≡ [])
unfolding process_step process_created
round_created check t clock m w fresh s d enough =
    let o = reserve_transfer_funds t (clock 0) m in
    let (b, e, held) = reserve_succeeds t m o (reserve_lem t (clock 0) m fresh) s d enough in
    let frame = reserve_frame t (clock 0) m in
    rw (process_at check t clock m created w.at_step, process_step)
      (rw (e, process_created)
        (
          advance-Goes t _ (clock 1) o.1 (ap (lookup t.id) frame.0 ∙ w.stored) w.is_waiting refl,
          HoldsFunds-advance t _ (clock 1) m o.1 (record {
            source_account = held.2;
            hold = held.3;
            others = held.4;
            source_known = held.5;
            same_postings = frame.1;
            same_decisions = frame.2;
          }),
          refl,
        ))

-- The two stores differ in the transfers and the compliance decisions alone.
pub record SameMoney (m m' : MemoryStore) : Type 0 where
  pub same_streams : m'.streams ≡ m.streams
  pub same_reservations : m'.reservations ≡ m.reservations
  pub same_postings : m'.ledger_postings ≡ m.ledger_postings

SameMoney-advance :
    (t : TransferRecord) (u : TransferSagaUpdate) (at : Time) (m m' : MemoryStore)
    → SameMoney m m'
    → SameMoney m (advance t u at m').1
SameMoney-advance t u at m m' h = rw (advance_keeps t u at m') (record {
  same_streams = h.same_streams;
  same_reservations = h.same_reservations;
  same_postings = h.same_postings;
})

pub decision_fresh :
    (id decision : String) (at : Time) (m : MemoryStore)
    → lookup id m.compliance_decisions ≡ none
    → record_compliance_decision id decision at m
      ≡ (ok tt, record m { compliance_decisions = insert id decision m.compliance_decisions })
unfolding record_compliance_decision
decision_fresh id decision at m e = rw (e, record_compliance_decision) refl

-- From `funds_reserved`: an approving checker moves the saga on, and no money.
pub round_reserved :
    (check : TransferRecord → Result Bool) (t : TransferRecord) (clock : ℕ → Time) (m : MemoryStore)
    → WaitsAt funds_reserved t m
    → check t ≡ ok true
    → lookup t.id m.compliance_decisions ≡ none
    → let out = process check t clock m in
      Goes t compliance_approved pending out × SameMoney m out.1 × (out.2 ≡ [])
unfolding process_step process_reserved process_decision
round_reserved check t clock m w approved fresh =
    let o = record_compliance_decision t.id "approved" (clock 0) m in
    let recorded = decision_fresh t.id "approved" (clock 0) m fresh in
    let e : o.0 ≡ ok tt = ap (λ (x : Outcome (Unit {0})). x.0) recorded in
    rw (process_at check t clock m funds_reserved w.at_step, process_step)
      (rw (approved, process_reserved)
        (rw (e, process_decision)
          (
            advance-Goes t _ (clock 1) o.1
                (ap (λ (x : Outcome (Unit {0})). lookup t.id x.1.transfers) recorded ∙ w.stored)
                w.is_waiting refl,
            SameMoney-advance t _ (clock 1) m o.1 (record {
              same_streams = ap (λ (x : Outcome (Unit {0})). x.1.streams) recorded;
              same_reservations = ap (λ (x : Outcome (Unit {0})). x.1.reservations) recorded;
              same_postings = ap (λ (x : Outcome (Unit {0})). x.1.ledger_postings) recorded;
            }),
            refl,
          )))
