-- ===== src/Postgres/Reviews.antt =====
-- internal/eventstore/postgres_store.go: the methods of `domain.ReviewStore`, with their statements on
-- `customers`.
use go_odtbank.Base.{
  ℕ, String, Bool, false, not, ◌&&◌, ◌||◌, ltb, ◌==◌, List, [], ◌∷◌, Option, none, some, Dict,
  lookup, insert, sort_by, str_eq, if◌then◌else◌,
}
use go_odtbank.Domain.Event.{Time, account_opened}
use go_odtbank.Domain.Error.{
  ok, err, other, unique_violation, application_not_found, application_reviewed,
}
use go_odtbank.Domain.Customer.{
  KycStatus, approved, rejected, is_waiting, kyc_eq, Customer, ApplicationSummary,
}
use go_odtbank.Store.Customers.{ApplicationDetail, summary, opening}
use go_odtbank.Postgres.{
  Db, Statement, Ending, commits, exec, transaction, guard, pure, raise, lift, ◌>>=◌, ◌>>◌,
}
use go_odtbank.Postgres.Events.{insert_event_tx}
use go_odtbank.Postgres.Transfers.{is_some, one_row}

summaries : KycStatus → Dict Customer → List ApplicationSummary
summaries status [] = []
summaries status ((id, c) ∷ d) =
    let rest = summaries status d in if kyc_eq c.kyc_status status then summary c ∷ rest else rest

abbrev created_before : ApplicationSummary → ApplicationSummary → Bool
created_before a b = ltb a.created_at b.created_at

unfoldable pub list_applications : KycStatus → Db (List ApplicationSummary)
unfolding summaries
list_applications status =
    exec (λ d. (ok (sort_by created_before (summaries status d.customers)), d))

abbrev select_customer : String → Statement (Option Customer)
select_customer id d = (ok (lookup id d.customers), d)

abbrev detail : Customer → ApplicationDetail
detail c = record {
  application_summary = summary c;
  date_of_birth = c.date_of_birth;
  nationality = c.nationality;
  phone = c.phone;
  residential_address = c.residential_address;
  government_document = c.government_document;
  passport_image_mime = c.passport_image_mime;
}

unfoldable pub get_application : String → Db ApplicationDetail
get_application id = do
  row ← exec (select_customer id)
  c ← lift (one_row application_not_found row)
  pure (detail c)

abbrev or_blank : Option String → String
or_blank none = ""
or_blank (some s) = s

abbrev select_passport : String → Statement (Option Customer × String)
select_passport id d = (ok (lookup id d.customers, or_blank (lookup id d.passport_object_keys)), d)

-- The bytes of the object, where the row names one and there is a store of objects.
abbrev passport_bytes : Bool → String → List ℕ → Db (List ℕ)
passport_bytes objects key image =
    if str_eq key ""
    then pure image
    else if not objects
    then raise (other "passport object storage is not configured")
    else exec (λ d. (ok (lookup key d.passport_objects), d))
      >>= (λ o. lift (one_row (other "the object does not exist") o))

unfoldable pub get_passport_image : Bool → String → Db (List ℕ × String)
get_passport_image objects id = do
  row ← exec (select_passport id)
  c ← lift (one_row application_not_found row.0)
  bytes ← passport_bytes objects row.1 c.passport_image
  pure (bytes, c.passport_image_mime)

abbrev another_has_account : String → String → Dict Customer → Bool
another_has_account id account [] = false
another_has_account id account ((k, c) ∷ d) =
    let rest = another_has_account id account d in
    (not (str_eq k id) && str_eq c.account_id account) || rest

-- `UPDATE customers SET account_id=$2,...`
unfoldable pub update_approved : String → String → String → Time → Statement (Unit {0})
update_approved id admin account at d = elim (lookup id d.customers) [
  | none ↦ (ok tt, d)
  | some c ↦
      if another_has_account id account d.customers
      then (err (unique_violation "customers_account_id_key"), d)
      else if not (is_some (lookup admin d.admins))
      then (err (other "violates foreign key constraint"), d)
      else (
        ok tt,
        record d {
          customers =
              insert id
                (record c {
                  account_id = account;
                  kyc_status = approved;
                  reviewed_by = admin;
                  reviewed_at = some at;
                })
                d.customers;
        },
      )
]

unfoldable pub approve_body : String → String → String → Time → Db (Ending (Unit {0}))
approve_body id admin account at = do
  row ← exec (select_customer id)
  c ← lift (one_row application_not_found row)
  guard (not (is_waiting c.kyc_status)) application_reviewed
  insert_event_tx (account_opened (opening account c.requested_deposit at))
  exec (update_approved id admin account at)
  pure (commits tt)

unfoldable pub approve_application : String → String → String → Time → Db (Unit {0})
approve_application id admin account at = transaction (approve_body id admin account at)

-- `UPDATE customers SET ... WHERE id=$1 AND kyc_status=$6`: the rows affected.
unfoldable pub update_rejected : String → String → String → Time → Statement ℕ
update_rejected id admin reason at d = elim (lookup id d.customers) [
  | none ↦ (ok 0, d)
  | some c ↦
      if not (is_waiting c.kyc_status)
      then (ok 0, d)
      else if not (is_some (lookup admin d.admins))
      then (err (other "violates foreign key constraint"), d)
      else (
        ok 1,
        record d {
          customers =
              insert id
                (record c {
                  kyc_status = rejected;
                  reviewed_by = admin;
                  reviewed_at = some at;
                  rejection_reason = reason;
                })
                d.customers;
        },
      )
]

abbrev why_not_rejected : String → Db (Unit {0})
why_not_rejected id = do
  row ← exec (select_customer id)
  guard (not (is_some row)) application_not_found
  raise application_reviewed

unfoldable pub reject_application : String → String → String → Time → Db (Unit {0})
reject_application id admin reason at = do
  affected ← exec (update_rejected id admin reason at)
  if affected == 0 then why_not_rejected id else pure tt
