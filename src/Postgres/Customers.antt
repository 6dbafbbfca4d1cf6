-- ===== src/Postgres/Customers.antt =====
-- internal/eventstore/postgres_store.go: the methods of `domain.OnboardingStore`, and customers and
-- administrators by email, with the statements on `customers` and `admins`. `lower` is the database's
-- function; the passport's bytes are in the row, or in the store of objects if there is one.
pub mod Cleanup
use Prim.Native.String.{◌++◌ as concat}
use go_odtbank.Base.{
  pos, ℕ, ◌+◌, String, Bool, true, false, not, ◌&&◌, ◌||◌, ltb, ◌==◌, List, [], ◌∷◌, Option, none,
  some, Dict, lookup, insert, erase, sort_by, str_eq, if◌then◌else◌,
}
use go_odtbank.Domain.Event.{Money, Time, account_opened}
use go_odtbank.Domain.Error.{
  Error, Result, ok, err, other, error_text, unique_violation, customer_already_exists,
  invalid_credentials, unauthorized, application_not_found, application_reviewed,
}
use go_odtbank.Domain.Customer.{
  KycStatus, approved, rejected, is_waiting, kyc_eq, Customer, ApplicationSummary, Session,
  Principal, Admin,
}
use go_odtbank.Store.Customers.{
  ApplicationDetail, same_document, admin_principal, customer_principal, summary, opening,
}
use go_odtbank.Postgres.{
  Database, Wire, Faults, Db, Statement, Ending, commits, exec, transaction, Fault, prefixed, begun,
  finish_with, committed, leaves, guard, pure, raise, lift, wrapped, ◌>>=◌, ◌>>◌,
}
use go_odtbank.Postgres.Events.{insert_event_tx}
use go_odtbank.Postgres.Transfers.{is_some, one_row}

-- The columns that `FindCustomerByEmail` reads; the other fields keep their zero values.
abbrev credentials : Customer → Customer
credentials c = record c {
  legal_first_name = "";
  legal_last_name = "";
  date_of_birth = 0;
  nationality = "";
  phone = "";
  residential_address = record {
    line1 = "";
    line2 = "";
    city = "";
    state_or_province = "";
    postal_code = "";
    country = "";
  };
  government_document = record { kind = ""; number = ""; issuing_country = "" };
  passport_image = [];
  passport_image_mime = "";
  requested_deposit = pos 0;
  reviewed_by = "";
  reviewed_at = none;
  created_at = 0;
}

module _ (lower : String → String) where
  -- Another row has the customer's email or document.
  unfoldable pub customer_taken : Customer → Dict Customer → Bool
  customer_taken c [] = false
  customer_taken c ((id, x) ∷ d) =
      let rest = customer_taken c d in
      str_eq (lower x.email) (lower c.email)
      || same_document x.government_document c.government_document
      || rest

  -- `INSERT INTO customers`
  unfoldable pub insert_customer : Customer → String → Statement (Unit {0})
  insert_customer c key d =
      if is_some (lookup c.id d.customers) || customer_taken c d.customers
      then (err (unique_violation "customers"), d)
      else (
        ok tt,
        record d {
          customers = insert c.id c d.customers;
          passport_object_keys = insert c.id key d.passport_object_keys;
        },
      )

  -- What the method returns for the error of its statement.
  abbrev pub exists_or : Result (Unit {0}) × Wire → Result (Unit {0}) × Wire
  exists_or (ok u, w) = (ok u, w)
  exists_or (err (unique_violation s), w) = (err customer_already_exists, w)
  exists_or (err e, w) = (err (other (concat "eventstore: insert customer: " (error_text e))), w)

  abbrev pub insert_or_exists : Customer → String → Db (Ending (Unit {0}))
  insert_or_exists c key = do
    (λ faults w. exists_or (exec (insert_customer c key) faults w))
    pure (commits tt)

  abbrev pub put_object : String → List ℕ → Statement (Unit {0})
  put_object key body d =
      (ok tt, record d { passport_objects = insert key body d.passport_objects })

  abbrev pub delete_object : String → Statement (Unit {0})
  delete_object key d = (ok tt, record d { passport_objects = erase key d.passport_objects })

  -- The columns of a review have their defaults, and the account is NULL.
  abbrev pub new_customer : Customer → List ℕ → Customer
  new_customer c image = record c {
    account_id = "";
    passport_image = image;
    reviewed_by = "";
    reviewed_at = none;
    rejection_reason = "";
  }

  -- The deferred clean-up: unless `Commit` has returned, the object is deleted, whatever that gives.
  abbrev pub cleaned_up : String → Faults → Result (Unit {0}) × Wire → Result (Unit {0}) × Wire
  cleaned_up key faults (ok u, w) = (ok u, w)
  cleaned_up key faults (err e, w) = (err e, (exec (delete_object key) faults w).1)

  -- The transaction, with the text that the method puts before an error of `Begin` or `Commit`.
  abbrev pub onboarding_ended :
      Database → Faults → Result (Ending (Unit {0})) × Wire → Result (Unit {0}) × Wire
  onboarding_ended before faults (err e, w) = finish_with before faults (err e, w)
  onboarding_ended before faults (ok (leaves u), w) = finish_with before faults (ok (leaves u), w)
  onboarding_ended before faults (ok (commits u), w) =
      prefixed "eventstore: commit onboarding: " (committed before u w (faults w.calls))

  abbrev pub onboarding_begun :
      Db (Ending (Unit {0})) → Faults → Wire → Option Fault → Result (Unit {0}) × Wire
  onboarding_begun body faults w none =
      onboarding_ended w.tables faults (body faults (record w { calls = w.calls + 1 }))
  onboarding_begun body faults w (some fault) =
      prefixed "eventstore: begin onboarding: " (begun body faults w (some fault))

  abbrev pub onboarding_transaction : Db (Ending (Unit {0})) → Db (Unit {0})
  onboarding_transaction body faults w = onboarding_begun body faults w (faults w.calls)

  -- With a store of objects, or without.
  unfoldable pub create_customer_application : Bool → Customer → Db (Unit {0})
  create_customer_application false c =
      onboarding_transaction (insert_or_exists (new_customer c c.passport_image) "")
  create_customer_application true c =
      let key = concat "passports/" c.id in
      do
        exec (put_object key c.passport_image)
        (λ faults w.
            cleaned_up key faults
              (onboarding_transaction (insert_or_exists (new_customer c []) key) faults w))

  customer_by_email : String → Dict Customer → Option Customer
  customer_by_email email [] = none
  customer_by_email email ((id, c) ∷ d) =
      let rest = customer_by_email email d in
      if str_eq (lower c.email) (lower email) then some c else rest

  unfoldable pub find_customer_by_email : String → Db Customer
  unfolding customer_by_email
  find_customer_by_email email = do
    row ←
        wrapped "eventstore: find customer: "
          (exec (λ d. (ok (customer_by_email email d.customers), d)))
    c ← lift (one_row invalid_credentials row)
    pure (credentials c)

  admin_by_email : String → Dict Admin → Option Admin
  admin_by_email email [] = none
  admin_by_email email ((id, a) ∷ d) =
      let rest = admin_by_email email d in
      if str_eq (lower a.email) (lower email) then some a else rest

  unfoldable pub find_admin_by_email : String → Db Admin
  unfolding admin_by_email
  find_admin_by_email email = do
    row ← wrapped "eventstore: find admin: " (exec (λ d. (ok (admin_by_email email d.admins), d)))
    lift (one_row invalid_credentials row)

  -- `INSERT INTO admins ... ON CONFLICT (lower(email)) DO UPDATE`
  unfoldable pub upsert_admin : Admin → Db (Unit {0})
  unfolding admin_by_email
  upsert_admin a = exec (λ d. elim (admin_by_email a.email d.admins) [
    | some old ↦ (
      ok tt,
      record d { admins = insert old.id (record old { password_hash = a.password_hash }) d.admins },
    )
    | none ↦
        if is_some (lookup a.id d.admins)
        then (err (unique_violation "admins_pkey"), d)
        else (ok tt, record d { admins = insert a.id a d.admins })
  ])
