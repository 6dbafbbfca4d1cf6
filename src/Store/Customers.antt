-- ===== src/Store/Customers.antt =====
-- internal/eventstore/memory_store.go: the methods of `domain.OnboardingStore`, `AuthStore` and
-- `ReviewStore`.
use go_odtbank.Base.{
  ℕ, String, Bool, true, false, not, ◌&&◌, ◌||◌, ltb, List, [], ◌∷◌, Option, none, some, Dict,
  lookup, insert, erase, sort_by, str_eq, if◌then◌else◌,
}
use go_odtbank.Domain.Event.{Money, Time, Opening, account_opened}
use go_odtbank.Domain.Error.{
  Result, ok, err, customer_already_exists, invalid_credentials, unauthorized,
  application_not_found, application_reviewed,
}
use go_odtbank.Domain.Customer.{
  ResidentialAddress, GovernmentDocument, KycStatus, approved, rejected, is_waiting, kyc_eq,
  Customer, ApplicationSummary, Session, Principal, Admin,
}
use go_odtbank.Store.{MemoryStore, Outcome}

abbrev pub same_document : GovernmentDocument → GovernmentDocument → Bool
same_document a b =
    str_eq a.kind b.kind && str_eq a.number b.number && str_eq a.issuing_country b.issuing_country

-- The loop of `CreateCustomerApplication`: somebody has this email or this document.
unfoldable pub is_taken : Customer → Dict Customer → Bool
is_taken c [] = false
is_taken c ((id, x) ∷ d) =
    (str_eq x.email c.email || same_document x.government_document c.government_document)
    || is_taken c d

abbrev pub is_known {ℓ} : {V : Type ℓ} → Option V → Bool
is_known none = false
is_known (some v) = true

unfoldable pub create_customer_application : Customer → MemoryStore → Outcome (Unit {0})
create_customer_application c m =
    if is_taken c m.customers || is_known (lookup c.id m.customers)
    then (err customer_already_exists, m)
    else (ok tt, record m { customers = insert c.id c m.customers })

customer_with_email : String → Dict Customer → Result Customer
customer_with_email email [] = err invalid_credentials
customer_with_email email ((id, c) ∷ d) =
    if str_eq c.email email then ok c else customer_with_email email d

unfoldable pub find_customer_by_email : String → MemoryStore → Result Customer
unfolding customer_with_email
find_customer_by_email email m = customer_with_email email m.customers

admin_with_email : String → Dict Admin → Result Admin
admin_with_email email [] = err invalid_credentials
admin_with_email email ((id, a) ∷ d) =
    if str_eq a.email email then ok a else admin_with_email email d

unfoldable pub find_admin_by_email : String → MemoryStore → Result Admin
unfolding admin_with_email
find_admin_by_email email m = admin_with_email email m.admins

-- The key of the first administrator with this email.
admin_key : String → Dict Admin → Option String
admin_key email [] = none
admin_key email ((id, a) ∷ d) = if str_eq a.email email then some id else admin_key email d

unfoldable pub upsert_admin : Admin → MemoryStore → Outcome (Unit {0})
unfolding admin_key
upsert_admin a m = elim (admin_key a.email m.admins) [
  | some id ↦ (ok tt, record m { admins = insert id (record a { id = id }) m.admins })
  | none ↦ (ok tt, record m { admins = insert a.id a m.admins })
]

unfoldable pub create_session : Session → MemoryStore → Outcome (Unit {0})
create_session s m = (ok tt, record m { sessions = insert s.token_hash s m.sessions })

abbrev pub admin_principal : Admin → Principal
admin_principal a = record {
  customer_id = "";
  account_id = "";
  admin_id = a.id;
  email = a.email;
  role = "admin";
  kyc_status = none;
  rejection_reason = "";
}

abbrev pub customer_principal : Customer → Principal
customer_principal c = record {
  customer_id = c.id;
  account_id = c.account_id;
  admin_id = "";
  email = c.email;
  role = "customer";
  kyc_status = some c.kyc_status;
  rejection_reason = c.rejection_reason;
}

abbrev or_unauthorized : {V : Type 0} → (V → Principal) → Option V → Result Principal
or_unauthorized f none = err unauthorized
or_unauthorized f (some v) = ok (f v)

-- Whom a live session stands for.
abbrev session_principal : Session → MemoryStore → Result Principal
session_principal s m =
    if not (str_eq s.admin_id "")
    then or_unauthorized admin_principal (lookup s.admin_id m.admins)
    else or_unauthorized customer_principal (lookup s.customer_id m.customers)

unfoldable pub find_session : String → Time → MemoryStore → Result Principal
find_session token_hash now m = elim (lookup token_hash m.sessions) [
  | none ↦ err unauthorized
  | some s ↦ if ltb now s.expires_at then session_principal s m else err unauthorized
]

unfoldable pub delete_session : String → MemoryStore → Outcome (Unit {0})
delete_session token_hash m = (ok tt, record m { sessions = erase token_hash m.sessions })

unfoldable pub summary : Customer → ApplicationSummary
summary c = record {
  customer_id = c.id;
  legal_first_name = c.legal_first_name;
  legal_last_name = c.legal_last_name;
  email = c.email;
  kyc_status = c.kyc_status;
  requested_deposit = c.requested_deposit;
  created_at = c.created_at;
  reviewed_at = c.reviewed_at;
  rejection_reason = c.rejection_reason;
}

summaries : KycStatus → Dict Customer → List ApplicationSummary
unfolding summary
summaries status [] = []
summaries status ((id, c) ∷ d) =
    let rest = summaries status d in if kyc_eq c.kyc_status status then summary c ∷ rest else rest

abbrev created_before : ApplicationSummary → ApplicationSummary → Bool
created_before a b = ltb a.created_at b.created_at

unfoldable pub list_applications : KycStatus → MemoryStore → Result (List ApplicationSummary)
unfolding summaries
list_applications status m = ok (sort_by created_before (summaries status m.customers))

pub record ApplicationDetail : Type 0 where
  pub application_summary : ApplicationSummary
  pub date_of_birth : Time
  pub nationality : String
  pub phone : String
  pub residential_address : ResidentialAddress
  pub government_document : GovernmentDocument
  pub passport_image_mime : String

unfoldable pub get_application : String → MemoryStore → Result ApplicationDetail
unfolding summary
get_application id m = elim (lookup id m.customers) [
  | none ↦ err application_not_found
  | some c ↦ ok (record {
    application_summary = summary c;
    date_of_birth = c.date_of_birth;
    nationality = c.nationality;
    phone = c.phone;
    residential_address = c.residential_address;
    government_document = c.government_document;
    passport_image_mime = c.passport_image_mime;
  })
]

unfoldable pub get_passport_image : String → MemoryStore → Result (List ℕ × String)
get_passport_image id m = elim (lookup id m.customers) [
  | none ↦ err application_not_found
  | some c ↦ ok (c.passport_image, c.passport_image_mime)
]

abbrev pub opening : String → Money → Time → Opening
opening account deposit at = record {
  aggregate = account;
  event_type = "AccountOpened";
  seq = 0;
  occurred = at;
  id = account;
  initial_balance = deposit;
}

unfoldable pub approve_application :
    String → String → String → Time → MemoryStore → Outcome (Unit {0})
approve_application id admin account at m = elim (lookup id m.customers) [
  | none ↦ (err application_not_found, m)
  | some c ↦ if not (is_waiting c.kyc_status) then (err application_reviewed, m) else (
    ok tt,
    record m {
      customers =
          insert id
            (record c {
              kyc_status = approved;
              account_id = account;
              reviewed_by = admin;
              reviewed_at = some at;
            })
            m.customers;
      streams =
          insert account (account_opened (opening account c.requested_deposit at) ∷ []) m.streams;
    },
  )
]

unfoldable pub reject_application :
    String → String → String → Time → MemoryStore → Outcome (Unit {0})
reject_application id admin reason at m = elim (lookup id m.customers) [
  | none ↦ (err application_not_found, m)
  | some c ↦ if not (is_waiting c.kyc_status) then (err application_reviewed, m) else (
    ok tt,
    record m {
      customers =
          insert id
            (record c {
              kyc_status = rejected;
              reviewed_by = admin;
              reviewed_at = some at;
              rejection_reason = reason;
            })
            m.customers;
    },
  )
]
