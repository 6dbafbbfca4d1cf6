-- ===== src/Service/Auth/Sessions.antt =====
-- How a session begins and ends.
use go_odtbank.Base.{
  String, ◌≡◌, ◌≢◌, refl, inl, inr, ◌+◌, Bool-cases, str_eq, lookup, lookup-erase_self,
  lookup-erase_ne, ltb, lookup-insert_self, ap, insert, some, trim_space, ◌∙◌, ◌⊎◌, str_eq_ne,
  if◌then◌else◌,
}
use go_odtbank.Domain.Event.{Time}
use go_odtbank.Domain.Error.{Error, Result, ok, err, unauthorized, invalid_credentials}
use go_odtbank.Domain.Customer.{Admin, Customer, Principal, Session}
use go_odtbank.Store.{MemoryStore, Outcome}
use go_odtbank.Store.Customers.{
  create_session, find_session, delete_session, find_admin_by_email, find_customer_by_email,
  admin_principal, customer_principal,
}
use go_odtbank.Service.Auth.{Crypto, login, logout, authenticate, open_with, identify}

-- After a logout its token is refused, at any time, and any other token, with another hash, is
-- answered as before.
pub logout_ends :
    (crypto : Crypto) (token : String) (m : MemoryStore)
    → let m' = (logout crypto token m).1 in
      ((now : Time) → authenticate crypto token now m' ≡ err unauthorized)
      × ((other : String) (now : Time)
          → crypto.token_hash other ≢ crypto.token_hash token
          → authenticate crypto other now m' ≡ authenticate crypto other now m)
unfolding logout authenticate delete_session find_session
logout_ends crypto token m = elim (Bool-cases (str_eq token "")) [
  | inl empty ↦ rw empty ((λ now. refl), (λ other now h. refl))
  | inr some_token ↦ rw some_token (
    (λ now. rw (lookup-erase_self (crypto.token_hash token) m.sessions, find_session) refl),
    (λ other now h.
        rw
          (
            lookup-erase_ne (crypto.token_hash other) (crypto.token_hash token) m.sessions h,
            find_session,
          )
          refl),
  )
]

-- A customer, where no administrator is found.
identified_customer :
    (crypto : Crypto) (password : String) (e : Error) (found : Result Customer)
    (admin customer : String) (p : Principal)
    → identify crypto password (err e) found ≡ ok (admin, customer, p)
    → (c : Customer) × (found ≡ ok c)
      × (admin ≡ "")
      × (customer ≡ c.id)
      × (p ≡ customer_principal c)
identified_customer crypto password e (err x) admin customer p h = absurd (cc h)
identified_customer crypto password e (ok c) admin customer p h =
    elim (Bool-cases (crypto.verify_password c.password_hash password)) [
      | inl right ↦
          let h' : ok ("", c.id, customer_principal c) ≡ ok (admin, customer, p) = rw right at h in
          (c, refl, cc h', cc h', cc h')
      | inr wrong ↦
          let h' : err invalid_credentials ≡ ok (admin, customer, p) = rw wrong at h in
          absurd (cc h')
    ]

-- Whom the service has identified.
identified :
    (crypto : Crypto) (password : String) (found_admin : Result Admin)
    (found_customer : Result Customer) (admin customer : String) (p : Principal)
    → identify crypto password found_admin found_customer ≡ ok (admin, customer, p)
    → ((a : Admin) × (found_admin ≡ ok a) × (admin ≡ a.id) × (p ≡ admin_principal a))
      ⊎ ((c : Customer) × (found_customer ≡ ok c)
          × (admin ≡ "")
          × (customer ≡ c.id)
          × (p ≡ customer_principal c))
identified crypto password (err e) found_customer admin customer p h =
    inr (identified_customer crypto password e found_customer admin customer p h)
identified crypto password (ok a) found_customer admin customer p h =
    elim (Bool-cases (crypto.verify_password a.password_hash password)) [
      | inl right ↦
          let h' : ok (a.id, "", admin_principal a) ≡ ok (admin, customer, p) = rw right at h in
          inl (a, refl, cc h', cc h')
      | inr wrong ↦ inr (
          identified_customer crypto password invalid_credentials found_customer admin customer p
            (rw wrong at h))
    ]

-- The session that a login stored, for 24 hours.
opened :
    (crypto : Crypto) (next : Result String) (who : Result (String × String × Principal))
    (token : String) (p : Principal) (now : Time) (m m' : MemoryStore)
    → open_with crypto next who now m ≡ (ok (token, p), m')
    → (s : Session) × (lookup (crypto.token_hash token) m'.sessions ≡ some s)
      × (s.expires_at ≡ now + 86_400_000_000_000)
      × (who ≡ ok (s.admin_id, s.customer_id, p))
      × (m'.admins ≡ m.admins)
      × (m'.customers ≡ m.customers)
unfolding create_session
opened crypto next (err e) token p now m m' done = absurd (cc done)
opened crypto (err e) (ok (admin, customer, q)) token p now m m' done = absurd (cc done)
opened crypto (ok t) (ok (admin, customer, q)) token p now m m' done =
    let same : t ≡ token = cc done in
    let who : q ≡ p = cc done in
    let s : Session = record {
      token_hash = crypto.token_hash t;
      customer_id = customer;
      admin_id = admin;
      expires_at = now + 86_400_000_000_000;
    } in
    let after : record m { sessions = insert (crypto.token_hash t) s m.sessions } ≡ m' =
      ap (λ (o : Outcome (String × Principal)). o.1) done in
    (
      s,
      rw (← after, ← same) (lookup-insert_self (crypto.token_hash t) s m.sessions),
      refl,
      rw who refl,
      rw (← after) refl,
      rw (← after) refl,
    )

-- Whoever is found by an email is stored under an identifier of its own, which is not empty for an
-- administrator.
pub record FoundById (m : MemoryStore) : Type 0 where
  pub admins :
      (email : String) (a : Admin)
      → find_admin_by_email email m ≡ ok a
      → (lookup a.id m.admins ≡ some a) × (a.id ≢ "")
  pub customers :
      (email : String) (c : Customer)
      → find_customer_by_email email m ≡ ok c
      → lookup c.id m.customers ≡ some c

-- After a login, whatever is called since that leaves its session, the administrators and the
-- customers as they were: its token, if it is not empty, authenticates the principal that has logged
-- in at every instant before 24 hours (86 400 000 000 000 nanoseconds) from the login, and nobody from
-- then on. Whoever an email finds at the login is stored under an identifier of its own.
pub login_expires :
    (crypto : Crypto) (email password token : String) (p : Principal) (now later : Time)
    (m m' m'' : MemoryStore)
    → FoundById m
    → login crypto email password now m ≡ (ok (token, p), m')
    → token ≢ ""
    → lookup (crypto.token_hash token) m''.sessions ≡ lookup (crypto.token_hash token) m'.sessions
    → m''.admins ≡ m'.admins
    → m''.customers ≡ m'.customers
    → authenticate crypto token later m''
      ≡ (if ltb later (now + 86_400_000_000_000) then ok p else err unauthorized)
unfolding login authenticate find_session
login_expires crypto email password token p now later m m' m'' found done some_token kept admins
      customers =
    let address = crypto.to_lower (trim_space email) in
    let who =
      identify crypto password (find_admin_by_email address m) (find_customer_by_email address m) in
    let (s, stored, until, by, a', c') =
      opened crypto crypto.next_token who token p now m m' done in
    rw (str_eq_ne token "" some_token) (
      rw (kept ∙ stored, find_session)
        (rw until (elim (Bool-cases (ltb later (now + 86_400_000_000_000))) [
          | inr over ↦ rw over refl
          | inl live ↦
              rw live (elim (identified crypto password _ _ s.admin_id s.customer_id p by) [
                | inl (a, by_email, id, is_p) ↦
                    let (at_id, named) = found.admins address a by_email in
                    rw id
                      (rw (str_eq_ne a.id "" named) (rw (admins ∙ a') (rw at_id (rw is_p refl))))
                | inr (c, by_email, id, id', is_p) ↦ rw id (
                    rw id' (
                      rw (customers ∙ c') (rw (found.customers address c by_email) (rw is_p refl))))
              ])
        ])))
