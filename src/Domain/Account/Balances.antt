-- ===== src/Domain/Account/Balances.antt =====
-- What a replay computes, against the exact sums of the amounts in the stream.
use go_odtbank.Base.{
  String, pos, List, [], ◌∷◌, ◌≡◌, refl, ◌+ℤ◌, ◌-ℤ◌, wrap64, add64, sub64, wrap64-add, +ℤ-zero,
  zero-+ℤ, +ℤ-neg, +ℤ_assoc, ap, ap₂, sym, subst, ◌∙◌, wrap64_id, wrap64-InRange64, InRange64,
  arith, All,
}
use go_odtbank.Domain.Event.{
  Event, Money, Opening, account_opened, money_credited, money_debited, funds_reserved,
  reservation_captured, reservation_released,
}
use go_odtbank.Domain.Account.{Account, fold, fold_all, empty_account, replay_account}

-- No event of the tail opens the account again.
abbrev pub IsMovement : Event → Type 0
IsMovement (account_opened e) = ⊥
IsMovement e = Unit

-- By how much an event moves the balance, in unbounded integers.
abbrev pub money_moved : Event → Money
money_moved (account_opened e) = pos 0
money_moved (money_credited e) = e.amount
money_moved (money_debited e) = pos 0 -ℤ e.amount
money_moved e = pos 0

-- By how much an event moves the amount on hold.
abbrev pub money_held : Event → Money
money_held (funds_reserved e) = e.amount
money_held (reservation_captured e) = pos 0 -ℤ e.amount
money_held (reservation_released e) = pos 0 -ℤ e.amount
money_held e = pos 0

abbrev pub total_moved : List Event → Money
total_moved [] = pos 0
total_moved (e ∷ es) = money_moved e +ℤ total_moved es

abbrev pub total_held : List Event → Money
total_held [] = pos 0
total_held (e ∷ es) = money_held e +ℤ total_held es

fold-balance :
    (a : Account) (e : Event)
    → InRange64 a.balance
    → IsMovement e
    → (fold a e).balance ≡ wrap64 (a.balance +ℤ money_moved e)
unfolding fold add64 sub64
fold-balance a (account_opened e) r m = absurd m
fold-balance a (money_credited e) r m = refl
fold-balance a (money_debited e) r m = rw (+ℤ-neg a.balance e.amount)
fold-balance a (funds_reserved e) r m = rw (+ℤ-zero a.balance) (sym (wrap64_id a.balance r))
fold-balance a (reservation_captured e) r m = rw (+ℤ-zero a.balance) (sym (wrap64_id a.balance r))
fold-balance a (reservation_released e) r m = rw (+ℤ-zero a.balance) (sym (wrap64_id a.balance r))

fold-reserved :
    (a : Account) (e : Event)
    → InRange64 a.reserved_balance
    → (fold a e).reserved_balance ≡ wrap64 (a.reserved_balance +ℤ money_held e)
unfolding fold add64 sub64
fold-reserved a (funds_reserved e) r = refl
fold-reserved a (reservation_captured e) r = rw (+ℤ-neg a.reserved_balance e.amount)
fold-reserved a (reservation_released e) r = rw (+ℤ-neg a.reserved_balance e.amount)
fold-reserved a _ r = rw (+ℤ-zero a.reserved_balance) (sym (wrap64_id a.reserved_balance r))

-- A sum that wraps at each step is the wrapped sum.
wrap_step : (b x t : Money) → wrap64 (wrap64 (b +ℤ x) +ℤ t) ≡ wrap64 (b +ℤ (x +ℤ t))
wrap_step b x t = rw (wrap64-add (b +ℤ x) t, +ℤ_assoc b x t)

fold_all-balance :
    (a : Account) (es : List Event)
    → InRange64 a.balance
    → All IsMovement es
    → (fold_all a es).balance ≡ wrap64 (a.balance +ℤ total_moved es)
unfolding fold_all
fold_all-balance a [] r m = rw (+ℤ-zero a.balance) (sym (wrap64_id a.balance r))
fold_all-balance a (e ∷ es) r m =
    let step = fold-balance a e r m.0 in
    let ranged = subst InRange64 (sym step) (wrap64-InRange64 _) in
    fold_all-balance (fold a e) es ranged m.1
    ∙ ap (λ b. wrap64 (b +ℤ total_moved es)) step
    ∙ wrap_step a.balance (money_moved e) (total_moved es)

fold_all-reserved :
    (a : Account) (es : List Event)
    → InRange64 a.reserved_balance
    → (fold_all a es).reserved_balance ≡ wrap64 (a.reserved_balance +ℤ total_held es)
unfolding fold_all
fold_all-reserved a [] r = rw (+ℤ-zero a.reserved_balance) (sym (wrap64_id a.reserved_balance r))
fold_all-reserved a (e ∷ es) r =
    let step = fold-reserved a e r in
    let ranged = subst InRange64 (sym step) (wrap64-InRange64 _) in
    fold_all-reserved (fold a e) es ranged
    ∙ ap (λ b. wrap64 (b +ℤ total_held es)) step
    ∙ wrap_step a.reserved_balance (money_held e) (total_held es)

-- The replay of a stream that one opening begins, with the opening balance an int64. The balance
-- is the opening balance and the sum of the movements, the reserved amount the sum of the holds,
-- both reduced to int64, and the available balance their difference.
pub replay-sums :
    (id : String) (o : Opening) (es : List Event)
    → InRange64 o.initial_balance
    → All IsMovement es
    → let a = replay_account id (account_opened o ∷ es) in
      (a.balance ≡ wrap64 (o.initial_balance +ℤ total_moved es))
      × (a.reserved_balance ≡ wrap64 (total_held es))
      × (a.available_balance ≡ wrap64 (a.balance -ℤ a.reserved_balance))
unfolding replay_account fold_all fold sub64
replay-sums id o es r m =
    let start = record (empty_account id) { balance = o.initial_balance } in
    (
      fold_all-balance start es r m,
      fold_all-reserved start es (omega arith) ∙ ap wrap64 (zero-+ℤ (total_held es)),
      refl,
    )

-- The replay of a stream that one opening begins, where the opening balance, its sum with all the
-- movements, the sum of the holds and their difference each fit an int64: the balance, the reserved
-- and the available amount are exactly these sums, also where a sum on the way overflowed.
pub replay_exact :
    (id : String) (o : Opening) (es : List Event)
    → InRange64 o.initial_balance
    → All IsMovement es
    → InRange64 (o.initial_balance +ℤ total_moved es)
    → InRange64 (total_held es)
    → InRange64 (o.initial_balance +ℤ total_moved es -ℤ total_held es)
    → let a = replay_account id (account_opened o ∷ es) in
      (a.balance ≡ o.initial_balance +ℤ total_moved es)
      × (a.reserved_balance ≡ total_held es)
      × (a.available_balance ≡ o.initial_balance +ℤ total_moved es -ℤ total_held es)
replay_exact id o es r m rb rh ra =
    let sums = replay-sums id o es r m in
    let b = sums.0 ∙ wrap64_id _ rb in
    let h = sums.1 ∙ wrap64_id _ rh in (b, h, sums.2 ∙ ap wrap64 (ap₂ ◌-ℤ◌ b h) ∙ wrap64_id _ ra)
