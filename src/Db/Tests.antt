-- ===== src/Db/Tests.antt =====
-- Runs of the database of crates/lodger/src/db/mod.rs, and instances of the theorems.
use lodger.Map.{get, contains_key, insert, remove, retain}
use lodger.Prelude.Equality.{nat_eq}
use lodger.Prelude.{
  ℕ, ◌+◌, ◌≤◌, ◌≡◌, refl, true, false, none, some, List, [], ◌∷◌, Result, ok, arith, text,
}
use lodger.Db.{
  Db, NewSession, deleted, last_account, idle, absolute, fold_case, same_name, find_name, max_id,
  insert_account, account_count, create_first_account, create_account, delete_row, delete_account,
  set_password, insert_session, delete_others, change_password, reset_password,
}
use lodger.Db.Queries.{
  is_alive, create_session, touch_session, live_session, session, session_alive, delete_session,
}
use lodger.Db.Tables.{IsValid}
use lodger.Db.Calls.{
  Call, creates_first, creates, uses, ends, step, run, db_run-IsValid, create_session-IsValid,
}
use lodger.Db.Migrate.{Schema, run_from, migrate}
use lodger.Db.Expiry.{create_session-expires, create_session-idle}

database : Unit {0}
unfolding fold_case same_name find_name max_id insert_account account_count create_first_account
    create_account delete_row delete_account set_password insert_session delete_others
    change_password reset_password is_alive create_session touch_session live_session session
    session_alive delete_session step run get contains_key insert remove retain
database = tt

abbrev empty : Db
empty = record { accounts = []; sessions = []; audit_log = [] }

empty-IsValid : IsValid empty
empty-IsValid = record {
  accounts_distinct = tt;
  names_distinct = tt;
  sessions_distinct = tt;
  owned = tt;
}

abbrev two_calls : List Call
two_calls = creates_first 0 (text "Admin") (text "h") ∷ creates 5 (text "eve") (text "k") ∷ []

two : Db
unfolding database
two = run empty two_calls

-- Names are taken without regard to case, and the last account stays.
accounts :
    ((create_account 6 (text "ADMIN") (text "x") two).1 ≡ none)
    × ((delete_account 1 two).1 ≡ deleted (text "Admin"))
    × ((delete_account 2 (delete_account 1 two).0).1 ≡ last_account)
unfolding database two
accounts = (refl, refl, refl)

two-IsValid : IsValid two
unfolding two
two-IsValid = db_run-IsValid empty two_calls empty-IsValid

two_accounts : 1 ≤ account_count two
unfolding database two
two_accounts = omega arith

first_made : (create_first_account 0 (text "Admin") (text "h") empty).1 ≡ ok true
unfolding database
first_made = refl

abbrev first_login : NewSession
first_login = record {
  token_sha256 = 77;
  account_id = 1;
  csrf_token = text "c";
  client_ip = text "10.0.0.1";
  user_agent = none;
}

abbrev next_login : NewSession
next_login = record {
  token_sha256 = 78;
  account_id = 1;
  csrf_token = text "d";
  client_ip = text "10.0.0.1";
  user_agent = none;
}

logged_in : (create_session 100 100 first_login two).1 ≡ ok tt
unfolding database two
logged_in = refl

abbrev busy : Db
busy = (create_session 100 100 first_login two).0

busy-IsValid : IsValid busy
busy-IsValid = create_session-IsValid 100 100 first_login two two-IsValid

delete_done : (delete_account 1 two).1 ≡ deleted (text "Admin")
unfolding database two
delete_done = refl

reset_done : (reset_password 200 (text "ADMIN") (text "z") busy).1 ≡ some 1
unfolding database two
reset_done = refl

change_done : (change_password 200 1 (text "z") 77 next_login busy).1 ≡ ok 0
unfolding database two
change_done = refl

abbrev some_use : List Call
some_use = uses 3_000_000 3_000_000 77 ∷ uses 6_000_000 6_000_000 77 ∷ ends 5 ∷ []

create_session-expires_example :
    (live_session (100 + absolute) 77 (run busy some_use) ≡ none)
    × (session_alive (100 + absolute) 77 (run busy some_use) ≡ false)
create_session-expires_example =
    create_session-expires 100 100 (100 + absolute) first_login two some_use two-IsValid logged_in
      tt (omega arith)

abbrev no_use : List Call
no_use = uses 3_000_000 3_000_000 5 ∷ ends 5 ∷ []

create_session-idle_example :
    (live_session (100 + idle) 77 (run busy no_use) ≡ none)
    × (session_alive (100 + idle) 77 (run busy no_use) ≡ false)
create_session-idle_example =
    create_session-idle 100 100 (100 + idle) first_login two no_use two-IsValid logged_in tt
      (ground arith, tt) (omega arith)

-- Scripts that each add a table.
abbrev add_table : ℕ → List ℕ → Result (Unit {0}) (List ℕ)
add_table sql tables = ok (sql ∷ tables)

abbrev fresh : Schema (List ℕ)
fresh = record { version = 0; content = [] }

one_ran : (migrate add_table (1 ∷ []) fresh).1 ≡ ok tt
unfolding migrate run_from
one_ran = refl

both_ran : (migrate add_table (1 ∷ 2 ∷ []) (migrate add_table (1 ∷ []) fresh).0).1 ≡ ok tt
unfolding migrate run_from
both_ran = refl
