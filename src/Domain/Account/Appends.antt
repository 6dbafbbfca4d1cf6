-- ===== src/Domain/Account/Appends.antt =====
-- The account after one more event.
use go_odtbank.Base.{String, List, [], ◌∷◌, ◌++◌, ◌≡◌, arith}
use go_odtbank.Domain.Event.{Event, Money}
use go_odtbank.Domain.Account.{
  Account, fold, fold_all, with_available, empty_account, replay_account,
}
use go_odtbank.Domain.Account.Snapshots.{fold_all-append}

-- The account with another balance, and with another amount on hold.
abbrev pub with_balance : Money → Account → Account
with_balance b a = with_available (record a { balance = b })

abbrev pub with_reserved : Money → Account → Account
with_reserved b a = with_available (record a { reserved_balance = b })

fold-with_available :
    (a : Account) (e : Event)
    → with_available (fold (with_available a) e) ≡ with_available (fold a e)
unfolding fold
fold-with_available a e = ground arith

pub replay-append :
    (id : String) (es : List Event) (e : Event)
    → replay_account id (es ++ e ∷ []) ≡ with_available (fold (replay_account id es) e)
unfolding replay_account fold_all
replay-append id es e =
    rw (fold_all-append (empty_account id) es (e ∷ []), fold_all)
      (rw (fold-with_available (fold_all (empty_account id) es) e))
