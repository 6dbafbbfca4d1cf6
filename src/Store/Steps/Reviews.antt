-- ===== src/Store/Steps/Reviews.antt =====
-- The postings of approved adjustments and the openings of approved applications.
use go_odtbank.Base.{
  String, not, ◌≡◌, inl, inr, refl, List, [], ◌∷◌, Dict, lookup, stream, str_eq, add64, ltb_ℤ,
  Bool-cases, Option-cases,
}
use go_odtbank.Domain.Event.{Event, Money, Time, account_opened}
use go_odtbank.Domain.Account.{replay_account}
use go_odtbank.Domain.Error.{Result, ok, err}
use go_odtbank.Domain.Adjustment.{AdjustmentRequest, is_waiting}
use go_odtbank.Domain.Customer.{Customer}
use go_odtbank.Domain.Customer
use go_odtbank.Store.{MemoryStore}
use go_odtbank.Store.Adjustments.{
  append_credit, append_debit, then_credit, settle_adjustment, apply_adjustment, approve_adjustment,
}
use go_odtbank.Store.Customers.{approve_application, opening}
use go_odtbank.Store.Streams.{
  StoreInv, Keeps, Keeps-refl, Numbered, Extends, Extends-trans, adds-Keeps, insert-Numbered,
  insert-Extends, numbered_snoc,
}

-- The new streams extend the old ones, and stay numbered.
abbrev Adds : Dict (List Event) → Dict (List Event) → Type 0
Adds d d' = Numbered d → Extends d d' × Numbered d'

abbrev AddsResult : Dict (List Event) → Result (Dict (List Event)) → Type 0
AddsResult d (ok d') = Adds d d'
AddsResult d (err e) = Unit

credit-Adds :
    (r : AdjustmentRequest) (at : Time) (account : String) (amount : Money) (counterparty : String)
    (d : Dict (List Event))
    → Adds d (append_credit r at account amount counterparty d)
unfolding append_credit
credit-Adds r at account amount counterparty d n = (
  insert-Extends account _ d,
  insert-Numbered account _ d n (numbered_snoc (stream account d) _ (n account) refl),
)

debit-Adds :
    (r : AdjustmentRequest) (at : Time) (account : String) (amount : Money) (counterparty : String)
    (d : Dict (List Event))
    → AddsResult d (append_debit r at account amount counterparty d)
unfolding append_debit
debit-Adds r at account amount counterparty d =
    elim (Bool-cases (ltb_ℤ (replay_account account (stream account d)).available_balance amount)) [
      | inl short ↦ rw short tt
      | inr enough ↦ rw enough λ n. (
        insert-Extends account _ d,
        insert-Numbered account _ d n (numbered_snoc (stream account d) _ (n account) refl),
      )
    ]

then-Adds :
    (r : AdjustmentRequest) (at : Time) (d : Dict (List Event)) (res : Result (Dict (List Event)))
    → AddsResult d res
    → AddsResult d (then_credit r at res)
then-Adds r at d (err e) h = tt
then-Adds r at d (ok d') h = λ n.
    let (x, n') = h n in
    let (y, n'') =
      credit-Adds r at r.account_id (add64 r.amount r.fee) r.counterparty_account_id d' n' in
    (Extends-trans d d' _ x y, n'')

apply-Adds :
    (r : AdjustmentRequest) (at : Time) (d : Dict (List Event))
    → AddsResult d (apply_adjustment r at d)
unfolding apply_adjustment
apply-Adds r at d = elim (Bool-cases (not (str_eq r.original_transfer_id ""))) [
  | inl whole ↦
      rw whole
        (then-Adds r at d _ (debit-Adds r at r.counterparty_account_id r.amount r.account_id d))
  | inr single ↦ rw single (elim (Bool-cases (str_eq r.direction "credit")) [
    | inl credit ↦ rw credit (credit-Adds r at r.account_id r.amount "" d)
    | inr debit ↦ rw debit (debit-Adds r at r.account_id r.amount "" d)
  ])
]

settle-Keeps :
    (id : String) (r : AdjustmentRequest) (admin : String) (at : Time) (m : MemoryStore)
    (res : Result (Dict (List Event)))
    → AddsResult m.streams res
    → StoreInv m
    → Keeps m (settle_adjustment id r admin at res m).1
settle-Keeps id r admin at m (err e) h inv = Keeps-refl m inv
settle-Keeps id r admin at m (ok d) h inv =
    let (x, n) = h inv.numbered in adds-Keeps m _ inv x n refl

pub approve_adjustment-Keeps :
    (id admin : String) (at : Time) (m : MemoryStore)
    → StoreInv m
    → Keeps m (approve_adjustment id admin at m).1
unfolding approve_adjustment
approve_adjustment-Keeps id admin at m inv = elim (Option-cases (lookup id m.adjustments)) [
  | inl e ↦ rw (e, approve_adjustment) (Keeps-refl m inv)
  | inr (r, e) ↦
      rw (e, approve_adjustment)
        (elim (Bool-cases (not (is_waiting r.status))) [
          | inl reviewed ↦ rw reviewed (Keeps-refl m inv)
          | inr open_request ↦ rw open_request (elim (Bool-cases (str_eq r.created_by admin)) [
            | inl own ↦ rw own (Keeps-refl m inv)
            | inr another ↦
                rw another (settle-Keeps id r admin at m _ (apply-Adds r at m.streams) inv)
          ])
        ])
]

-- The opening replaces the stream, so the account must be new.
pub approve_application-Keeps :
    (id admin account : String) (at : Time) (m : MemoryStore)
    → stream account m.streams ≡ []
    → StoreInv m
    → Keeps m (approve_application id admin account at m).1
unfolding approve_application
approve_application-Keeps id admin account at m new inv =
    elim (Option-cases (lookup id m.customers)) [
      | inl e ↦ rw (e, approve_application) (Keeps-refl m inv)
      | inr (c, e) ↦
          let opened = account_opened (opening account c.requested_deposit at) ∷ [] in
          rw (e, approve_application)
            (elim (Bool-cases (not (Customer.is_waiting c.kyc_status))) [
              | inl reviewed ↦ rw reviewed (Keeps-refl m inv)
              | inr waits ↦ rw waits (
                  adds-Keeps m _ inv (rw new at (insert-Extends account opened m.streams))
                    (insert-Numbered account opened m.streams inv.numbered (refl, tt)) refl)
            ])
    ]
