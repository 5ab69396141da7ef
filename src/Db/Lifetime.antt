-- ===== src/Db/Lifetime.antt =====
-- How long a session of crates/lodger/src/db/mod.rs lives: 24 hours at most, and 60 minutes without use.
use lodger.Map.{get, insert, retain}
use lodger.Map.Laws.{kept, get-insert, get-remove, get-retain}
use lodger.Prelude.Equality.{nat_eq}
use lodger.Prelude.{
  ℕ, ◌≡◌, ◌≢◌, sym, ap, ◌∙◌, Bool, false, not, Option, none, some, Option-cases, List, [], ◌∷◌, ok,
  arith, ◌==◌, Bool-cases, Result-cases, inl, inr, subst,
}
use lodger.Db.{
  Text, SessionRow, Db, NewSession, find_name, insert_account, create_first_account, create_account,
  delete_row, delete_account, insert_session, change_password, reset_password,
}
use lodger.Db.Queries.{
  is_alive, create_session, touch_session, session, delete_session, audit, delete_old_audit_rows,
}
use lodger.Db.Tables.{IsValid}
use lodger.Db.Rows.{new_row, insert_session-stored}
use lodger.Db.Calls.{
  Call, creates_first, creates, deletes, changes, resets, opens, uses, ends, audits, purges, step,
  run, step-IsValid,
}
use lodger.Db.Sessions.{set_password-sessions, change_password-sessions}

-- A property of the session with this token, if there is one.
module _ (P : SessionRow → Type 0) where
  abbrev pub Holds : Option SessionRow → Type 0
  Holds none = Unit
  Holds (some s) = P s

  pub Holds-kept : (p : SessionRow → Bool) (o : Option SessionRow) → Holds o → Holds (kept p o)
  Holds-kept p none h = tt
  Holds-kept p (some s) h = ground arith

module _ (token : ℕ) (P : SessionRow → Type 0) where
  -- A call that stores no session with this token, and whose use of the token keeps the property.
  abbrev pub Leaves : Call → Type 0
  Leaves (opens now later new) = new.token_sha256 ≢ token
  Leaves (changes now id h current new) = new.token_sha256 ≢ token
  Leaves (uses now later t) =
      t ≡ token → (s : SessionRow) → P s → P (record s { last_seen_at = later })
  Leaves _ = Unit

  abbrev pub AllLeave : List Call → Type 0
  AllLeave [] = Unit
  AllLeave (c ∷ cs) = Leaves c × AllLeave cs

  Holds-insert :
      (k : ℕ) (v : SessionRow) (rows : List (ℕ × SessionRow))
      → (k ≡ token → P v)
      → Holds P (get token rows)
      → Holds P (get token (insert k v rows))
  Holds-insert k v rows f h = elim (Bool-cases (k == token)) [
    | inl same ↦ rw (get-insert k token v rows, same) (f (ground arith))
    | inr other ↦ rw (get-insert k token v rows, other) h
  ]

  touch-Holds :
      (later t : ℕ) (db : Db)
      → (t ≡ token → (s : SessionRow) → P s → P (record s { last_seen_at = later }))
      → Holds P (get token db.sessions)
      → Holds P (get token (touch_session later t db).sessions)
  unfolding touch_session
  touch-Holds later t db f h = elim (Option-cases (get t db.sessions)) [
    | inl missing ↦ rw (touch_session, missing) h
    | inr (s, found) ↦
        let touched : SessionRow = record s { last_seen_at = later } in
        let used : Holds P (get token (insert t touched db.sessions)) =
          Holds-insert t touched db.sessions
            (λ e. f e s (subst (Holds P) (ap (λ k. get k db.sessions) (sym e) ∙ found) h)) h in
        rw (touch_session, found) (ground (arith, used, h))
  ]

  create_session-Holds :
      (now later : ℕ) (new : NewSession) (db : Db)
      → IsValid db
      → new.token_sha256 ≢ token
      → Holds P (get token db.sessions)
      → Holds P (get token (create_session now later new db).0.sessions)
  unfolding create_session
  create_session-Holds now later new db v other h =
      let cleaned = get-retain (is_alive now) token db.sessions v.sessions_distinct in
      let still : Holds P (get token (retain (is_alive now) db.sessions)) =
        rw cleaned (Holds-kept P (is_alive now) (get token db.sessions) h) in
      elim (Result-cases
        (insert_session later new (record db { sessions = retain (is_alive now) db.sessions }))) [
          | inl (db', stored) ↦
              let (written, _, _) = insert_session-stored later new _ db' stored in
              let (written, _, _) = insert_session-stored later new _ db' stored in
              let held =
                Holds-insert new.token_sha256 (new_row later new)
                  (retain (is_alive now) db.sessions) (λ e. absurd (other e)) still in
              rw (create_session, stored)
                (subst (λ (d : Db). Holds P (get token d.sessions)) written held)
          | inr (e, failed) ↦ rw (create_session, failed) still
        ]

  change_password-Holds :
      (now id : ℕ) (u : Text) (current : ℕ) (new : NewSession) (db : Db)
      → IsValid db
      → new.token_sha256 ≢ token
      → Holds P (get token db.sessions)
      → Holds P (get token (change_password now id u current new db).0.sessions)
  unfolding change_password
  change_password-Holds now id u current new db v other h =
      let swept = Holds-kept P (λ s. not (s.account_id == id)) (get token db.sessions) h in
      elim (Result-cases (change_password now id u current new db).1) [
        | inl (n, done) ↦
            let differs : (new.token_sha256 == token) ≡ false = ground (arith, other) in
            rw (change_password-sessions now id n u current new db v done token, differs)
              (ground (arith, swept))
        | inr (e, failed) ↦
            let same : (change_password now id u current new db).0 ≡ db = ground (arith, failed) in
            subst (λ (d : Db). Holds P (get token d.sessions)) (sym same) h
      ]

  deleted-Holds :
      (id : ℕ) (db : Db)
      → IsValid db
      → Holds P (get token db.sessions)
      → Holds P (get token (retain (λ s. not (s.account_id == id)) db.sessions))
  deleted-Holds id db v h =
      rw (get-retain (λ s. not (s.account_id == id)) token db.sessions v.sessions_distinct)
        (Holds-kept P (λ s. not (s.account_id == id)) (get token db.sessions) h)

  insert_account-sessions :
      (now : ℕ) (u h : Text) (db db' : Db) (id : ℕ)
      → insert_account now u h db ≡ ok (db', id)
      → db.sessions ≡ db'.sessions
  unfolding insert_account
  insert_account-sessions now u h db db' id e = ground arith

  create_first_account-sessions :
      (now : ℕ) (u h : Text) (db : Db) → db.sessions ≡ (create_first_account now u h db).0.sessions
  unfolding create_first_account
  create_first_account-sessions now u h db = elim (Result-cases (insert_account now u h db)) [
    | inl ((db', id), stored) ↦
        ground (arith, stored, insert_account-sessions now u h db db' id stored)
    | inr (e, failed) ↦ ground (arith, failed)
  ]

  create_account-sessions :
      (now : ℕ) (u h : Text) (db : Db) → db.sessions ≡ (create_account now u h db).0.sessions
  unfolding create_account
  create_account-sessions now u h db = elim (Result-cases (insert_account now u h db)) [
    | inl ((db', id), stored) ↦
        ground (arith, stored, insert_account-sessions now u h db db' id stored)
    | inr (e, failed) ↦ ground (arith, failed)
  ]

  delete_account-Holds :
      (id : ℕ) (db : Db)
      → IsValid db
      → Holds P (get token db.sessions)
      → Holds P (get token (delete_account id db).0.sessions)
  unfolding delete_account delete_row
  delete_account-Holds id db v h = elim (Option-cases (get id db.accounts)) [
    | inl missing ↦ rw (delete_account, missing) h
    | inr (a, found) ↦ rw (delete_account, found) (ground (arith, h, deleted-Holds id db v h))
  ]

  reset_password-Holds :
      (now : ℕ) (u p : Text) (db : Db)
      → IsValid db
      → Holds P (get token db.sessions)
      → Holds P (get token (reset_password now u p db).0.sessions)
  unfolding reset_password
  reset_password-Holds now u p db v h = elim (Option-cases (find_name u db.accounts)) [
    | inl missing ↦ rw (reset_password, missing) h
    | inr ((id, a), found) ↦
        rw (reset_password, found, set_password-sessions now id p db) (deleted-Holds id db v h)
  ]

  pub step-Holds :
      (db : Db) (c : Call)
      → IsValid db
      → Leaves c
      → Holds P (get token db.sessions)
      → Holds P (get token (step db c).sessions)
  unfolding step session delete_session audit delete_old_audit_rows
  step-Holds db (creates_first now u p) v l h =
      subst (λ rows. Holds P (get token rows)) (create_first_account-sessions now u p db) h
  step-Holds db (creates now u p) v l h =
      subst (λ rows. Holds P (get token rows)) (create_account-sessions now u p db) h
  step-Holds db (deletes id) v l h = delete_account-Holds id db v h
  step-Holds db (changes now id p current new) v l h =
      change_password-Holds now id p current new db v l h
  step-Holds db (resets now u p) v l h = reset_password-Holds now u p db v h
  step-Holds db (opens now later new) v l h = create_session-Holds now later new db v l h
  step-Holds db (uses now later t) v l h = ground (arith, h, touch-Holds later t db l h)
  step-Holds db (ends t) v l h =
      rw (get-remove t token db.sessions v.sessions_distinct) (ground (arith, h))
  step-Holds db (audits now row) v l h = h
  step-Holds db (purges now days) v l h = h

  pub run-Holds :
      (db : Db) (cs : List Call)
      → IsValid db
      → AllLeave cs
      → Holds P (get token db.sessions)
      → Holds P (get token (run db cs).sessions)
  unfolding run
  run-Holds db [] v a h = h
  run-Holds db (c ∷ cs) v (l, a) h =
      run-Holds (step db c) cs (step-IsValid db c v) a (step-Holds db c v l h)
