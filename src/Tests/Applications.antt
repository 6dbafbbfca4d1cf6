-- ===== src/Tests/Applications.antt =====
-- Reviews and applications of the Postgres store on concrete data.
use Prim.Native.String.{◌++◌ as concat}
use go_odtbank.Base.{pos, ◌≡◌, refl, true, [], ◌∷◌, none, some, lookup, ◌==◌, if◌then◌else◌}
use go_odtbank.Domain.Error.{Result, other, err, error_text}
use go_odtbank.Domain.Customer.{Customer, Admin}
use go_odtbank.Domain.Customer
use go_odtbank.Postgres.{empty_database, Wire, Faults, lost}
use go_odtbank.Postgres.Adjustments
use go_odtbank.Postgres.Customers.{create_customer_application, new_customer, customer_taken}
use go_odtbank.Postgres.Customers.Cleanup.{lost_commit_deletes}
use go_odtbank.Tests.Fixtures.{request}

abbrev checker : Admin
checker = record { id = "adm_2"; email = "b@bank.test"; password_hash = "h" }

abbrev desk : Wire
desk = record {
  calls = 0;
  tables = record empty_database {
    adjustment_requests = ("adj_1", request) ∷ [];
    admins = ("adm_2", checker) ∷ [];
  };
}

abbrev applicant : Customer
applicant = record {
  id = "cus_1";
  account_id = "";
  legal_first_name = "Ada";
  legal_last_name = "Example";
  date_of_birth = 1;
  nationality = "TH";
  email = "ada@example.test";
  phone = "1";
  password_hash = "h";
  residential_address = record {
    line1 = "1 Road";
    line2 = "";
    city = "Town";
    state_or_province = "";
    postal_code = "1";
    country = "TH";
  };
  government_document = record { kind = "passport"; number = "P1"; issuing_country = "TH" };
  passport_image = 1 ∷ 2 ∷ [];
  passport_image_mime = "image/png";
  kyc_status = Customer.waiting;
  requested_deposit = pos 10000;
  reviewed_by = "";
  reviewed_at = none;
  rejection_reason = "";
  created_at = 5;
}

-- The fourth call is the commit.
abbrev timeout : Faults
timeout k = if k == 3 then some (lost (other "timeout")) else none

abbrev outcome : Result (Unit {0}) × Wire
outcome = create_customer_application (λ s. s) true applicant timeout desk

lost_commit_deletes_example :
    (outcome.0 ≡ err (other "eventstore: commit onboarding: timeout"))
    × (lookup "cus_1" outcome.1.tables.customers ≡ some (new_customer (λ s. s) applicant []))
    × (lookup "cus_1" outcome.1.tables.passport_object_keys ≡ some (concat "passports/" "cus_1"))
    × (lookup (concat "passports/" "cus_1") outcome.1.tables.passport_objects ≡ none)
unfolding lookup customer_taken error_text
lost_commit_deletes_example =
    lost_commit_deletes (λ s. s) applicant timeout desk (other "timeout") refl refl refl refl refl
      refl
