-- ===== src/Service/Transfer/Runs/Settling.antt =====
-- A transfer from acceptance to completion: five calls of `Process`.
use go_odtbank.Base.{
  ℕ, String, Bool, true, ◌≡◌, ◌≢◌, sym, ap, ◌∙◌, List, [], ◌∷◌, ◌++◌, append-nil, lookup, stream,
  add64, sub64, wrap64, wrap64-sub, wrap64_id, InRange64, ◌+ℤ◌, ◌-ℤ◌, int_laws,
}
use go_odtbank.Domain.Event.{Time, Money}
use go_odtbank.Domain.Account.{Account, TransferCompletedEvent, replay_account}
use go_odtbank.Domain.Account.Appends.{with_balance}
use go_odtbank.Domain.Error.{Result, ok}
use go_odtbank.Domain.Transfer.{TransferRecord, pending, completed, created, reservation_captured}
use go_odtbank.Store.{MemoryStore, account_of}
use go_odtbank.Store.Transfers.{flag}
use go_odtbank.Service.Transfer.Rounds.{Deal}
use go_odtbank.Service.Transfer.Rounds.Holding.{HoldsFunds, SameMoney}
use go_odtbank.Service.Transfer.Rounds.Posting.{MovesFunds, DropsHold}
use go_odtbank.Service.Transfer.Runs.{
  StandsAt, CanSettle, completed_deal, worker_round, worker_rounds, hold_round, comply_round,
  post_round, capture_round, complete_round,
}

-- What five rounds leave of the transfer, the two accounts, and the others.
pub record Settled (d : Deal) (m m' : MemoryStore) : Type 0 where
  pub stands : StandsAt d reservation_captured completed m'
  pub source_balance :
      (account_of d.source m').balance
      ≡ wrap64 ((account_of d.source m).balance -ℤ d.fee -ℤ d.amount)
  pub source_reserved :
      (account_of d.source m').reserved_balance ≡ (account_of d.source m).reserved_balance
  pub destination_balance :
      (account_of d.destination m').balance ≡ add64 (account_of d.destination m).balance d.amount
  pub destination_reserved :
      (account_of d.destination m').reserved_balance ≡ (account_of d.destination m).reserved_balance
  pub others :
      (j : String) → j ≢ d.source → j ≢ d.destination → stream j m'.streams ≡ stream j m.streams

-- A hold that is added and taken away leaves the reserved balance.
hold_cancels : (r x : Money) → InRange64 r → sub64 (add64 r x) x ≡ r
unfolding add64 sub64
hold_cancels r x h = wrap64-sub (r +ℤ x) x ∙ ap wrap64 (omega int_laws) ∙ wrap64_id r h

-- Only the last round publishes.
all_events :
    {xs ys zs ws vs es : List TransferCompletedEvent}
    → xs ≡ []
    → ys ≡ []
    → zs ≡ []
    → ws ≡ []
    → vs ≡ es
    → xs ++ (ys ++ (zs ++ (ws ++ (vs ++ [])))) ≡ es
all_events {es = es} a b c d e = rw (a, b, c, d, e) (append-nil es)

-- The accounts after the rounds that hold, move and release the funds.
accounts_settle :
    (d : Deal) (m m1 m2 m3 m4 m5 : MemoryStore)
    → CanSettle d m
    → HoldsFunds d m m1
    → SameMoney m1 m2
    → MovesFunds d m2 m3
    → DropsHold d.source (add64 d.amount d.fee) m3 m4
    → m5.streams ≡ m4.streams
    → StandsAt d reservation_captured completed m5
    → Settled d m m5
accounts_settle d m m1 m2 m3 m4 m5 can held still moved dropped done stands =
    let x = add64 d.amount d.fee in
    let end = λ (id : String). ap (λ es. replay_account id (stream id es)) done in
    let mid = λ (id : String). ap (λ es. replay_account id (stream id es)) still.same_streams in
    let ne : d.destination ≢ d.source = λ e. can.apart (sym e) in
    let src1 = held.source_account in
    let src2 : account_of d.source m2 ≡ _ = mid d.source ∙ src1 in
    let dst2 : account_of d.destination m2 ≡ account_of d.destination m =
      mid d.destination ∙ ap (replay_account d.destination) (held.others d.destination ne) in
    let src5 = end d.source ∙ dropped.holder in
    let dst5 =
      end d.destination
      ∙ ap (replay_account d.destination) (dropped.others d.destination ne)
      ∙ moved.destination_account in
    let reserved3 =
      ap (λ (a : Account). a.reserved_balance)
        (moved.source_account
          ∙ ap
              (λ a. with_balance (wrap64 ((account_of d.source m2).balance -ℤ d.fee -ℤ d.amount)) a)
              src2) in
    record {
      stands = stands;
      source_balance =
          ap (λ (a : Account). a.balance) (src5)
          ∙ ap (λ (a : Account). a.balance) moved.source_account
          ∙ ap (λ (a : Account). wrap64 (a.balance -ℤ d.fee -ℤ d.amount)) src2;
      source_reserved =
          ap (λ (a : Account). a.reserved_balance) src5
          ∙ ap (λ r. sub64 r x) reserved3
          ∙ hold_cancels (account_of d.source m).reserved_balance x can.hold_in_range;
      destination_balance =
          ap (λ (a : Account). a.balance) dst5
          ∙ ap (λ (a : Account). add64 a.balance d.amount) dst2;
      destination_reserved =
          ap (λ (a : Account). a.reserved_balance) dst5
          ∙ ap (λ (a : Account). a.reserved_balance) dst2;
      others = λ j h k.
          ap (stream j) done
          ∙ dropped.others j h
          ∙ moved.others j h k
          ∙ ap (stream j) still.same_streams
          ∙ held.others j h;
    }

-- A transfer just accepted, between two different known accounts, that nothing has been held, posted
-- or decided for, with a fee that is not negative, that the source's available balance covers, and
-- with what the source has on hold within an int64; and a checker that approves every transfer: five
-- rounds complete it. In the arithmetic of int64, the source has paid the amount and the fee and has
-- as much on hold as before, the destination has the amount; every other stream is as it was, and
-- exactly one completion is published.
pub worker_rounds-settle :
    (check : TransferRecord → Result Bool) (clocks : ℕ → ℕ → Time) (d : Deal) (m : MemoryStore)
    → ((t : TransferRecord) → check t ≡ ok true)
    → StandsAt d created pending m
    → CanSettle d m
    → let out = worker_rounds check 5 clocks 0 d.id m in
      Settled d m out.0 × (out.1 ≡ completed_deal d (clocks 4 0) ∷ [])
unfolding worker_rounds
worker_rounds-settle check clocks d m approves at can =
    let (at1, (held, e1)) = hold_round check m (clocks 0) d at can in
    let m1 = (worker_round check (clocks 0) d.id m).0 in
    let (at2, (still, e2)) =
      comply_round check m1 (clocks 1) d at1
        (approves, ap (lookup d.id) held.same_decisions ∙ can.no_decision) in
    let m2 = (worker_round check (clocks 1) d.id m1).0 in
    let (at3, (moved, e3)) = post_round check m2 (clocks 2) d at2 (
      ap (λ p. flag (lookup d.id p)) (still.same_postings ∙ held.same_postings) ∙ can.no_posting,
      can.apart,
      can.fee_nonneg,
      rw still.same_streams held.source_known,
      rw (still.same_streams, held.others d.destination (λ e. can.apart (sym e)))
          can.destination_known,
    ) in
    let m3 = (worker_round check (clocks 2) d.id m2).0 in
    let (at4, (dropped, e4)) =
      capture_round check m3 (clocks 3) d at3
        (ap (lookup d.id) (moved.same_reservations ∙ still.same_reservations) ∙ held.hold) in
    let m4 = (worker_round check (clocks 3) d.id m3).0 in
    let (at5, (done, e5)) = complete_round check m4 (clocks 4) d at4 in
    let m5 = (worker_round check (clocks 4) d.id m4).0 in
    (
      accounts_settle d m m1 m2 m3 m4 m5 can held still moved dropped done at5,
      all_events e1 e2 e3 e4 e5,
    )
