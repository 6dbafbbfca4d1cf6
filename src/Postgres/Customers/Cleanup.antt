-- ===== src/Postgres/Customers/Cleanup.antt =====
-- The passport's object, when the answer of `Commit` is lost.
use Prim.Native.String.{◌++◌ as concat}
use go_odtbank.Base.{
  ◌+◌, String, true, false, ◌||◌, ◌≡◌, refl, ap, ◌∙◌, [], Option, none, some, lookup, insert, erase,
  lookup-insert_self, lookup-erase_self,
}
use go_odtbank.Domain.Error.{Error, ok, err, other, error_text}
use go_odtbank.Domain.Customer.{Customer}
use go_odtbank.Postgres.{Wire, Fault, lost, Faults, answered, committed, prefixed, exec, commits}
use go_odtbank.Postgres.Runs.{called, then_ok}
use go_odtbank.Postgres.Transfers.{is_some}
use go_odtbank.Postgres.Customers.{
  put_object, delete_object, cleaned_up, insert_or_exists, exists_or, customer_taken,
  insert_customer, new_customer, onboarding_begun, onboarding_ended, create_customer_application,
}

module _ (lower : String → String) (c : Customer) (faults : Faults) (w : Wire) where
  abbrev key : String
  key = concat "passports/" c.id

  abbrev row : Customer
  row = new_customer lower c []

  -- After the object is put, and after the row is in.
  abbrev put_wire : Wire
  put_wire = record {
    calls = w.calls + 1;
    tables = record w.tables {
      passport_objects = insert key c.passport_image w.tables.passport_objects;
    };
  }

  abbrev row_wire : Wire
  row_wire = record {
    calls = w.calls + 1 + 1 + 1;
    tables = record put_wire.tables {
      customers = insert c.id row w.tables.customers;
      passport_object_keys = insert c.id key w.tables.passport_object_keys;
    };
  }

  abbrev commit_error : Error → Error
  commit_error e = other (concat "eventstore: commit onboarding: " (error_text e))

  insert_runs :
      is_some (lookup c.id w.tables.customers) || customer_taken lower row w.tables.customers
        ≡ false
      → faults (w.calls + 1 + 1) ≡ none
      → insert_or_exists lower row key faults (called put_wire) ≡ (ok (commits tt), row_wire)
  unfolding exec insert_customer
  insert_runs new f =
      then_ok (λ faults' v. exists_or lower (exec (insert_customer lower row key) faults' v)) _
        (rw (f, insert_customer, new) refl)

  -- The answer of `Commit` is lost, and the object is deleted.
  cleaned :
      (e : Error)
      → is_some (lookup c.id w.tables.customers) || customer_taken lower row w.tables.customers
        ≡ false
      → faults w.calls ≡ none
      → faults (w.calls + 1) ≡ none
      → faults (w.calls + 1 + 1) ≡ none
      → faults (w.calls + 1 + 1 + 1) ≡ some (lost e)
      → faults (w.calls + 1 + 1 + 1 + 1) ≡ none
      → create_customer_application lower true c faults w ≡ (
        err (commit_error e),
        record {
          calls = w.calls + 1 + 1 + 1 + 1 + 1;
          tables = record row_wire.tables {
            passport_objects = erase key put_wire.tables.passport_objects;
          };
        },
      )
  unfolding create_customer_application exec
  cleaned e new f0 f1 f2 f3 f4 =
      let body = insert_or_exists lower row key in
      let before = put_wire.tables in
      then_ok (exec (put_object lower key c.passport_image)) _
        (ap (answered (put_object lower key c.passport_image) w) f0)
      ∙ ap (cleaned_up lower key faults) (
          ap (onboarding_begun lower body faults put_wire) f1
          ∙ ap (onboarding_ended lower before faults) (insert_runs new f2)
          ∙ ap
              (λ (x : Option Fault).
                prefixed "eventstore: commit onboarding: " (committed before tt row_wire x))
              f3)
      ∙ ap
          (λ (x : Option Fault).
            (err (commit_error e), (answered (delete_object lower key) (called row_wire) x).1))
          f4

-- Where there is a store of objects, an application whose identifier, email and document are new, for
-- which every call succeeds but `Commit`, whose answer is lost: the caller is told of an error, the
-- customer is stored with the key of the passport's object, and that object is deleted.
pub lost_commit_deletes :
    (lower : String → String) (c : Customer) (faults : Faults) (w : Wire) (e : Error)
    → is_some (lookup c.id w.tables.customers)
        || customer_taken lower (new_customer lower c []) w.tables.customers
      ≡ false
    → faults w.calls ≡ none
    → faults (w.calls + 1) ≡ none
    → faults (w.calls + 1 + 1) ≡ none
    → faults (w.calls + 1 + 1 + 1) ≡ some (lost e)
    → faults (w.calls + 1 + 1 + 1 + 1) ≡ none
    → let run = create_customer_application lower true c faults w in
      (run.0 ≡ err (other (concat "eventstore: commit onboarding: " (error_text e))))
      × (lookup c.id run.1.tables.customers ≡ some (new_customer lower c []))
      × (lookup c.id run.1.tables.passport_object_keys ≡ some (concat "passports/" c.id))
      × (lookup (concat "passports/" c.id) run.1.tables.passport_objects ≡ none)
lost_commit_deletes lower c faults w e new f0 f1 f2 f3 f4 =
    rw (cleaned lower c faults w e new f0 f1 f2 f3 f4) (
      refl,
      lookup-insert_self c.id (new_customer lower c []) w.tables.customers,
      lookup-insert_self c.id (key lower c faults w) w.tables.passport_object_keys,
      lookup-erase_self (key lower c faults w)
          (insert (key lower c faults w) c.passport_image w.tables.passport_objects),
    )
