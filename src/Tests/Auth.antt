-- ===== src/Tests/Auth.antt =====
-- Sessions, with a hash, a password check and a letter case that only stand for the real ones.
use Prim.Native.String.{◌++◌ as concat}
use go_odtbank.Base.{
  String, ◌≡◌, ◌≢◌, refl, sym, inl, inr, Bool-cases, lookup, str_eq_complete, [], ◌∷◌, str_eq,
  trim_space,
}
use go_odtbank.Domain.Event.{Time}
use go_odtbank.Domain.Error.{ok, err, unauthorized}
use go_odtbank.Domain.Customer.{Admin}
use go_odtbank.Store.{MemoryStore}
use go_odtbank.Store.Customers.{
  find_admin_by_email, find_customer_by_email, admin_principal, create_session,
}
use go_odtbank.Service.Auth.{Crypto, login, logout, authenticate}
use go_odtbank.Service.Auth.Sessions.{FoundById, logout_ends, login_expires}
use go_odtbank.Tests.Fixtures.{seeded}

abbrev crypto : Crypto
crypto = record {
  token_hash = λ t. concat "h" t;
  verify_password = λ h p. str_eq h (concat "h" p);
  to_lower = λ s. s;
  next_token = ok "t1";
}

abbrev admin : Admin
admin = record { id = "adm_1"; email = "a@bank"; password_hash = "hsecret" }

abbrev staffed : MemoryStore
staffed = record seeded { admins = ("adm_1", admin) ∷ [] }

abbrev session : MemoryStore
session = (login crypto " a@bank" "secret" 3 staffed).1

login_example : (login crypto " a@bank" "secret" 3 staffed).0 ≡ ok ("t1", admin_principal admin)
unfolding login trim_space find_admin_by_email create_session
login_example = refl

staffed-FoundById : FoundById staffed
unfolding find_admin_by_email find_customer_by_email lookup
staffed-FoundById = record {
  admins = λ email a h. elim (Bool-cases (str_eq "a@bank" email)) [
    | inl same ↦
        let e : admin ≡ a = cc (rw same at h) in rw (sym e) (refl, str_eq_complete "adm_1" "" refl)
    | inr other ↦ absurd (cc (rw other at h))
  ];
  customers = λ email c h. absurd (cc h);
}

-- The last instant of the day from the login at the instant 3.
login_expires_example :
    authenticate crypto "t1" 86_400_000_000_002 session ≡ ok (admin_principal admin)
unfolding login trim_space find_admin_by_email create_session
login_expires_example =
    login_expires crypto " a@bank" "secret" "t1" (admin_principal admin) 3 86_400_000_000_002
      staffed session session staffed-FoundById refl (str_eq_complete "t1" "" refl) refl refl refl

logout_ends_example :
    let m' = (logout crypto "t1" session).1 in
    ((now : Time) → authenticate crypto "t1" now m' ≡ err unauthorized)
    × ((other : String) (now : Time)
        → crypto.token_hash other ≢ "ht1"
        → authenticate crypto other now m' ≡ authenticate crypto other now session)
logout_ends_example = logout_ends crypto "t1" session
