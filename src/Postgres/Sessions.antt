-- ===== src/Postgres/Sessions.antt =====
-- internal/eventstore/postgres_store.go: the sessions of `domain.AuthStore`, with the statements on
-- `sessions`.
use go_odtbank.Base.{
  String, Bool, not, ◌&&◌, ltb, Option, none, some, lookup, insert, erase, str_eq, if◌then◌else◌,
}
use go_odtbank.Domain.Event.{Time}
use go_odtbank.Domain.Error.{ok, err, other, unique_violation, unauthorized}
use go_odtbank.Domain.Customer.{Session, Principal}
use go_odtbank.Store.Customers.{admin_principal, customer_principal}
use go_odtbank.Postgres.{Database, Db, Statement, exec, lift, wrapped, ◌>>=◌}
use go_odtbank.Postgres.Transfers.{is_some, one_row}

-- The identity check of `sessions`, and its references.
abbrev is_identity : Session → Database → Bool
is_identity s d =
    if str_eq s.admin_id ""
    then not (str_eq s.customer_id "") && is_some (lookup s.customer_id d.customers)
    else str_eq s.customer_id "" && is_some (lookup s.admin_id d.admins)

unfoldable pub insert_session : Session → Statement (Unit {0})
insert_session s d =
    if not (is_identity s d)
    then (err (other "violates constraint"), d)
    else if is_some (lookup s.token_hash d.sessions)
    then (err (unique_violation "sessions_pkey"), d)
    else (ok tt, record d { sessions = insert s.token_hash s d.sessions })

unfoldable pub create_session : Session → Db (Unit {0})
create_session s = wrapped "eventstore: create session: " (exec (insert_session s))

-- The row of the joins: a session has a customer or an administrator.
abbrev joined : Session → Database → Option Principal
joined s d =
    if str_eq s.admin_id ""
    then elim (lookup s.customer_id d.customers) [
      | none ↦ none
      | some c ↦ some (customer_principal c)
    ]
    else elim (lookup s.admin_id d.admins) [ none ↦ none | some a ↦ some (admin_principal a) ]

unfoldable pub select_session : String → Time → Statement (Option Principal)
select_session token_hash now d = elim (lookup token_hash d.sessions) [
  | none ↦ (ok none, d)
  | some s ↦ if ltb now s.expires_at then (ok (joined s d), d) else (ok none, d)
]

unfoldable pub find_session : String → Time → Db Principal
find_session token_hash now = do
  row ← wrapped "eventstore: find session: " (exec (select_session token_hash now))
  lift (one_row unauthorized row)

unfoldable pub delete_session : String → Db (Unit {0})
delete_session token_hash =
    wrapped "eventstore: delete session: "
      (exec (λ d. (ok tt, record d { sessions = erase token_hash d.sessions })))
