-- ===== src/Db/Migrate.antt =====
-- `migrate` of crates/lodger/src/db/mod.rs: the scripts that have not run, in one transaction. The
-- scripts and what SQLite makes of each are parameters; the schema version is `user_version`.
use lodger.Prelude.{
  ℕ, zero, suc, ◌+◌, ◌≤◌, ◌≡◌, refl, ap, List, [], ◌∷◌, ◌++◌, Result, ok, err, ◌>>=◌, arith, length,
  length-append, ltb, subst, if◌then◌else◌, Result-cases, inl, inr,
}

-- Why `migrate` fails: a newer schema, or the script of this number.
pub data MigrateError : Type 0 where
  newer : (version known : ℕ) → MigrateError
  migration : (number : ℕ) → MigrateError

pub record Schema (S : Type 0) : Type 0 where
  pub version : ℕ
  pub content : S

module _ {S Sql : Type 0} (execute : Sql → S → Result (Unit {0}) S) where
  -- The loop over `migrations.iter().enumerate().skip(done)`.
  unfoldable pub run_from : (n done : ℕ) → List Sql → S → Result MigrateError S
  run_from n done [] s = ok s
  run_from n zero (sql ∷ rest) s = elim (execute sql s) [
    | err _ ↦ err (migration (suc n))
    | ok s' ↦ run_from (suc n) zero rest s'
  ]
  run_from n (suc done) (sql ∷ rest) s = run_from (suc n) done rest s

  -- The new schema, or the old one after a rollback.
  unfoldable pub migrate : List Sql → Schema S → Schema S × Result MigrateError (Unit {0})
  migrate migrations db =
      if ltb (length migrations) db.version
      then (db, err (newer db.version (length migrations)))
      else (elim (run_from 0 db.version migrations db.content) [
        | err e ↦ (db, err e)
        | ok s ↦ (record { version = length migrations; content = s }, ok tt)
      ])

  run_from_done :
      (n done : ℕ) (migrations : List Sql) (s : S)
      → length migrations ≤ done
      → run_from n done migrations s ≡ ok s
  unfolding run_from
  run_from_done n done [] s h = refl
  run_from_done n zero (sql ∷ rest) s h = absurd (omega arith)
  run_from_done n (suc done) (sql ∷ rest) s h = run_from_done (suc n) done rest s (omega arith)

  -- After a migration that succeeds, the schema has every script, and migrating again changes nothing.
  pub migrate-migrate :
      (migrations : List Sql) (db : Schema S)
      → (migrate migrations db).1 ≡ ok tt
      → ((migrate migrations db).0.version ≡ length migrations)
        × (migrate migrations (migrate migrations db).0 ≡ ((migrate migrations db).0, ok tt))
  unfolding migrate
  migrate-migrate migrations db done =
      elim (Result-cases (run_from 0 db.version migrations db.content)) [
        | inl (s, ran) ↦
            let again = run_from_done 0 (length migrations) migrations s (omega arith) in
            (ground (arith, ran, done), ground (arith, ran, done, again))
        | inr (e, failed) ↦ absurd (ground (arith, failed, done))
      ]

  run_from-append :
      (n done : ℕ) (xs ys : List Sql) (s : S)
      → done ≤ length xs
      → run_from n done (xs ++ ys) s
        ≡ (run_from n done xs s >>= λ s'. run_from (n + length xs) zero ys s')
  unfolding run_from
  run_from-append n zero [] ys s h = ap (λ m. run_from m zero ys s) (omega arith)
  run_from-append n (suc done) [] ys s h = absurd (omega arith)
  run_from-append n zero (sql ∷ rest) ys s h = elim (Result-cases (execute sql s)) [
    | inl (s', ran) ↦
        let e : suc n + length rest ≡ n + suc (length rest) = omega arith in
        let later =
          subst
            (λ m.
              run_from (suc n) zero (rest ++ ys) s'
              ≡ (run_from (suc n) zero rest s' >>= λ t. run_from m zero ys t))
            e (run_from-append (suc n) zero rest ys s' (omega arith)) in
        rw (run_from, ran) later
    | inr (e, failed) ↦ rw (run_from, failed) refl
  ]
  run_from-append n (suc done) (sql ∷ rest) ys s h =
      let e : suc n + length rest ≡ n + suc (length rest) = omega arith in
      subst
        (λ m.
          run_from (suc n) done (rest ++ ys) s
          ≡ (run_from (suc n) done rest s >>= λ t. run_from m zero ys t))
        e (run_from-append (suc n) done rest ys s (omega arith))

  -- Once the first scripts ran, upgrading to all of them gives what one upgrade from the start gives.
  pub migrate-append :
      (xs ys : List Sql) (db : Schema S)
      → (migrate xs db).1 ≡ ok tt
      → ((migrate (xs ++ ys) (migrate xs db).0).1 ≡ ok tt)
      → migrate (xs ++ ys) (migrate xs db).0 ≡ migrate (xs ++ ys) db
  unfolding migrate
  migrate-append xs ys db done later = elim (Result-cases (run_from 0 db.version xs db.content)) [
    | inl (s, ran) ↦
        let room : db.version ≤ length xs = ground (arith, ran, done) in
        let whole = run_from-append 0 db.version xs ys db.content room in
        let rest = run_from-append 0 (length xs) xs ys s (omega arith) in
        let again = run_from_done 0 (length xs) xs s (omega arith) in
        ground (arith, ran, done, later, whole, rest, again, length-append xs ys)
    | inr (e, failed) ↦ absurd (ground (arith, failed, done))
  ]
