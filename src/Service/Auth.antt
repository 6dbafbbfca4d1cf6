-- ===== src/Service/Auth.antt =====
-- internal/service/auth_service.go: sessions for administrators and customers. The hash of a token
-- (SHA-256 as hexadecimal text) and the check of a password against its stored hash are arguments.
pub mod Sessions
use go_odtbank.Base.{ℕ, ◌+◌, ◌*◌, String, Bool, true, false, str_eq, trim_space, if◌then◌else◌}
use go_odtbank.Domain.Event.{Time}
use go_odtbank.Domain.Error.{Result, ok, err, invalid_credentials, unauthorized}
use go_odtbank.Domain.Customer.{Admin, Customer, Principal, Session}
use go_odtbank.Store.{MemoryStore, Outcome}
use go_odtbank.Store.Customers.{
  find_admin_by_email, find_customer_by_email, create_session, find_session, delete_session,
  admin_principal, customer_principal,
}

-- What the service computes with, besides the store: the two functions above, `strings.ToLower`, and
-- the next token, or the random source's error.
pub record Crypto : Type 0 where
  pub token_hash : String → String
  pub verify_password : String → String → Bool
  pub to_lower : String → String
  pub next_token : Result String

-- `24 * time.Hour` in nanoseconds.
abbrev pub lifetime : ℕ
lifetime = 86_400 * 1_000_000_000

abbrev for_customer : Crypto → String → Result Customer → Result (String × String × Principal)
for_customer crypto password (err e) = err invalid_credentials
for_customer crypto password (ok c) =
    if crypto.verify_password c.password_hash password
    then ok ("", c.id, customer_principal c)
    else err invalid_credentials

-- The identifiers of the administrator and of the customer that a new session is for, of which one
-- is empty, and the principal.
abbrev pub identify :
    Crypto → String → Result Admin → Result Customer → Result (String × String × Principal)
identify crypto password (err e) customer = for_customer crypto password customer
identify crypto password (ok a) customer =
    if crypto.verify_password a.password_hash password
    then ok (a.id, "", admin_principal a)
    else for_customer crypto password customer

abbrev pub open_with :
    Crypto
    → Result String
    → Result (String × String × Principal)
    → Time
    → MemoryStore
    → Outcome (String × Principal)
open_with crypto next (err e) now m = (err e, m)
open_with crypto (err e) (ok (admin, customer, p)) now m = (err e, m)
open_with crypto (ok token) (ok (admin, customer, p)) now m =
    let s : Session = record {
      token_hash = crypto.token_hash token;
      customer_id = customer;
      admin_id = admin;
      expires_at = now + lifetime;
    } in
    (ok (token, p), (create_session s m).1)

unfoldable pub login : Crypto → String → String → Time → MemoryStore → Outcome (String × Principal)
login crypto email password now m =
    let address = crypto.to_lower (trim_space email) in
    open_with crypto crypto.next_token
      (identify crypto password (find_admin_by_email address m) (find_customer_by_email address m))
      now m

abbrev or_unauthorized : Result Principal → Result Principal
or_unauthorized (ok p) = ok p
or_unauthorized (err e) = err unauthorized

unfoldable pub authenticate : Crypto → String → Time → MemoryStore → Result Principal
authenticate crypto token now m =
    if str_eq token ""
    then err unauthorized
    else or_unauthorized (find_session (crypto.token_hash token) now m)

unfoldable pub logout : Crypto → String → MemoryStore → Outcome (Unit {0})
logout crypto token m =
    if str_eq token "" then (ok tt, m) else delete_session (crypto.token_hash token) m
