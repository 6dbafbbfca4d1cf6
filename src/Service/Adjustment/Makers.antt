-- ===== src/Service/Adjustment/Makers.antt =====
-- Dual control from the service down to the store: who makes a request does not review it.
use go_odtbank.Base.{
  String, true, false, ◌≡◌, refl, ap, ◌∙◌, inl, inr, some, lookup, insert, lookup-insert_self,
  str_eq_self, str_eq, Bool-cases, ◌||◌, not, arith, ltb, byte_length, trim_space,
}
use go_odtbank.Domain.Event.{Time}
use go_odtbank.Domain.Error.{Error, Result, ok, err, invalid_adjustment, self_approval}
use go_odtbank.Domain.Adjustment.{AdjustmentRequest, waiting, is_waiting}
use go_odtbank.Store.{MemoryStore, Outcome}
use go_odtbank.Store.Adjustments.{
  prepare_adjustment, create_adjustment, approve_adjustment, reject_adjustment, store_adjustment,
}
use go_odtbank.Service.Adjustment.{
  create, approve, reject, stamped, trimmed, bad_texts, bad_manual, bad_reversal,
}

-- What the store takes over from a request that it is given.
abbrev Keeps : AdjustmentRequest → Result AdjustmentRequest → Type 0
Keeps r (ok stored) =
    (stored.id ≡ r.id) × (stored.created_by ≡ r.created_by) × (stored.status ≡ r.status)
Keeps r (err e) = Unit

prepare-Keeps : (r : AdjustmentRequest) (m : MemoryStore) → Keeps r (prepare_adjustment r m)
unfolding prepare_adjustment
prepare-Keeps r m = ground arith

-- A request that has been stored waits, under the name of who made it.
abbrev Waits : String → AdjustmentRequest → MemoryStore → Type 0
Waits admin stored m' =
    (lookup stored.id m'.adjustments ≡ some stored)
    × (stored.created_by ≡ admin)
    × (stored.status ≡ waiting)

stored-Waits :
    (r stored : AdjustmentRequest) (res : Result AdjustmentRequest) (m m' : MemoryStore)
    → Keeps r res
    → r.status ≡ waiting
    → store_adjustment r.id res m ≡ (ok stored, m')
    → Waits r.created_by stored m'
stored-Waits r stored (err e) m m' keeps w done = absurd (cc done)
stored-Waits r stored (ok q) m m' keeps w done =
    let same : q ≡ stored = cc done in
    let after : record m { adjustments = insert r.id q m.adjustments } ≡ m' =
      ap (λ (o : Outcome AdjustmentRequest). o.1) done in
    let (i, c, s) = keeps in
    rw (← same, ← after)
      (
        ap (λ k. lookup k (insert r.id q m.adjustments)) i
            ∙ lookup-insert_self r.id q m.adjustments,
        c,
        s ∙ w,
      )

-- The service's call, with the text of the random bytes.
numbered-Waits :
    (hex : Result String) (t stored : AdjustmentRequest) (admin : String) (now : Time)
    (m m' : MemoryStore)
    → (elim hex [ err e ↦ (err e, m) | ok h ↦ create_adjustment (stamped h admin now t) m ])
      ≡ (ok stored, m')
    → Waits admin stored m'
unfolding create_adjustment
numbered-Waits (err e) t stored admin now m m' done = absurd (cc done)
numbered-Waits (ok h) t stored admin now m m' done =
    let r = stamped h admin now t in
    stored-Waits r stored (prepare_adjustment r m) m m' (prepare-Keeps r m) refl done

create-Waits :
    (hex : Result String) (r stored : AdjustmentRequest) (admin : String) (now : Time)
    (m m' : MemoryStore)
    → create hex r admin now m ≡ (ok stored, m')
    → Waits admin stored m'
unfolding create
create-Waits hex r stored admin now m m' done =
    let t = trimmed r in
    elim (Bool-cases (bad_texts t || bad_manual t || bad_reversal t)) [
      | inl bad ↦ absurd (cc (rw bad at done))
      | inr good ↦ numbered-Waits hex t stored admin now m m' (rw good at done)
    ]

barred :
    (id : String) (q : AdjustmentRequest) (admin : String) (later : Time) (m : MemoryStore)
    → lookup id m.adjustments ≡ some q
    → q.created_by ≡ admin
    → q.status ≡ waiting
    → (approve_adjustment id admin later m ≡ (err self_approval, m))
      × ((reason : String) → reject_adjustment id admin reason later m ≡ (err self_approval, m))
unfolding approve_adjustment reject_adjustment
barred id q admin later m e own w =
    let self : str_eq q.created_by admin ≡ true = rw own (str_eq_self admin) in
    let open_request : not (is_waiting q.status) ≡ false = ap (λ s. not (is_waiting s)) w in
    (
      rw (e, approve_adjustment) (rw (open_request, self) refl),
      λ reason. rw (e, reject_adjustment) (rw (open_request, self) refl),
    )

-- A request that the service accepts, whatever status, author and identifier the client sent with it,
-- waits for approval under the name of the administrator who made it, and that administrator can
-- neither approve nor reject it: each such call is an error and leaves the store as it is.
pub maker_barred :
    (hex : Result String) (r stored : AdjustmentRequest) (admin : String) (now later : Time)
    (m m' : MemoryStore)
    → create hex r admin now m ≡ (ok stored, m')
    → (stored.status ≡ waiting)
      × (stored.created_by ≡ admin)
      × (approve stored.id admin later m' ≡ (err self_approval, m'))
      × ((reason : String) → (e : Error) × (reject stored.id admin reason later m' ≡ (err e, m')))
unfolding approve reject
maker_barred hex r stored admin now later m m' done =
    let (found, own, w) = create-Waits hex r stored admin now m m' done in
    let (approval, rejection) = barred stored.id stored admin later m' found own w in
    let bad = λ (reason : String).
      ltb (byte_length (trim_space reason)) 1 || ltb 500 (byte_length (trim_space reason)) in
    (
      w,
      own,
      approval,
      λ reason. elim (Bool-cases (bad reason)) [
        | inl text ↦ (invalid_adjustment, rw text refl)
        | inr fine ↦ (self_approval, rw fine (rejection (trim_space reason)))
      ],
    )
