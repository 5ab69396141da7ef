-- ===== src/Db/Expiry.antt =====
-- When a session of crates/lodger/src/db/mod.rs answers, and when it no longer does.
use lodger.Map.{get, contains_key, retain}
use lodger.Map.Laws.{get-insert}
use lodger.Prelude.Equality.{nat_eq}
use lodger.Prelude.{
  ℕ, ◌+◌, ◌≤◌, ◌<◌, ◌≡◌, ◌≢◌, refl, sym, ap, ◌∙◌, true, false, Option, none, some, Option-cases,
  List, [], ◌∷◌, ok, arith, Result-cases, inl, inr, subst,
}
use lodger.Db.{Account, SessionRow, Db, NewSession, idle, absolute, insert_session}
use lodger.Db.Queries.{is_alive, create_session, live_session, session_alive}
use lodger.Db.Tables.{IsValid}
use lodger.Db.Rows.{new_row, insert_session-stored}
use lodger.Db.Calls.{
  Call, creates_first, creates, deletes, changes, resets, opens, uses, ends, audits, purges, run,
  create_session-IsValid,
}
use lodger.Db.Lifetime.{Holds, AllLeave, run-Holds}

-- No call stores a session with this token.
abbrev pub NotStored : ℕ → List Call → Type 0
NotStored token [] = Unit
NotStored token (opens now later new ∷ cs) = (new.token_sha256 ≢ token) × NotStored token cs
NotStored token (changes now id h current new ∷ cs) =
    (new.token_sha256 ≢ token) × NotStored token cs
NotStored token (c ∷ cs) = NotStored token cs

-- No call uses the session with this token.
abbrev pub NotUsed : ℕ → List Call → Type 0
NotUsed token [] = Unit
NotUsed token (uses now later t ∷ cs) = (t ≢ token) × NotUsed token cs
NotUsed token (c ∷ cs) = NotUsed token cs

create_session-row :
    (now later : ℕ) (new : NewSession) (db : Db)
    → (create_session now later new db).1 ≡ ok tt
    → (get new.token_sha256 (create_session now later new db).0.sessions ≡ some (new_row later new))
      × (contains_key new.account_id db.accounts ≡ true)
      × ((create_session now later new db).0.accounts ≡ db.accounts)
unfolding create_session
create_session-row now later new db done =
    let cleaned = record db { sessions = retain (is_alive now) db.sessions } in
    elim (Result-cases (insert_session later new cleaned)) [
      | inl (db', stored) ↦
          let (written, _, owner) = insert_session-stored later new _ db' stored in
          let read =
            get-insert new.token_sha256 new.token_sha256 (new_row later new)
              (retain (is_alive now) db.sessions) in
          let row : get new.token_sha256 db'.sessions ≡ some (new_row later new) =
            ap (λ (d : Db). get new.token_sha256 d.sessions) (sym written) ∙ ground (arith, read) in
          let same : db'.accounts ≡ db.accounts = ap (λ (d : Db). d.accounts) (sym written) in
          (rw (create_session, stored) row, owner, rw (create_session, stored) same)
      | inr (e, failed) ↦ absurd (ground (arith, failed, done))
    ]

ends_dead :
    (t token : ℕ) (db : Db)
    → Holds (λ s. is_alive t s ≡ false) (get token db.sessions)
    → (live_session t token db ≡ none) × (session_alive t token db ≡ false)
unfolding live_session session_alive
ends_dead t token db h = elim (Option-cases (get token db.sessions)) [
  | inl missing ↦ (ground (arith, missing), ground (arith, missing))
  | inr (s, found) ↦
      let dead : is_alive t s ≡ false = subst (Holds (λ s. is_alive t s ≡ false)) found h in
      (ground (arith, found, dead), ground (arith, found, dead))
]

-- A new session answers with its account and its CSRF token until 60 minutes after its start, before
-- any other call.
pub create_session-live :
    (now later t : ℕ) (new : NewSession) (db : Db)
    → (create_session now later new db).1 ≡ ok tt
    → t < later + idle
    → (a : Account) × (get new.account_id db.accounts ≡ some a)
      × (live_session t new.token_sha256 (create_session now later new db).0
          ≡ some (record {
            account_id = new.account_id;
            username = a.username;
            csrf_token = new.csrf_token;
          }))
unfolding live_session is_alive contains_key
create_session-live now later t new db done early =
    let (row, owner, same) = create_session-row now later new db done in
    elim (Option-cases (get new.account_id db.accounts)) [
      | inl missing ↦ absurd (ground (arith, missing, owner))
      | inr (a, found) ↦
          let known : get new.account_id (create_session now later new db).0.accounts ≡ some a =
            ap (get new.account_id) same ∙ found in
          (a, found, ground (arith, row, known, early))
    ]

module _ (token : ℕ) (e : ℕ) where
  NotStored-AllLeave :
      (cs : List Call) → NotStored token cs → AllLeave token (λ s. s.expires_at ≡ e) cs
  NotStored-AllLeave [] n = tt
  NotStored-AllLeave (opens now later new ∷ cs) (d, n) = (d, NotStored-AllLeave cs n)
  NotStored-AllLeave (changes now id h current new ∷ cs) (d, n) = (d, NotStored-AllLeave cs n)
  NotStored-AllLeave (uses now later t ∷ cs) n = (λ q s p. p, NotStored-AllLeave cs n)
  NotStored-AllLeave (creates_first now u h ∷ cs) n = (tt, NotStored-AllLeave cs n)
  NotStored-AllLeave (creates now u h ∷ cs) n = (tt, NotStored-AllLeave cs n)
  NotStored-AllLeave (deletes id ∷ cs) n = (tt, NotStored-AllLeave cs n)
  NotStored-AllLeave (resets now u h ∷ cs) n = (tt, NotStored-AllLeave cs n)
  NotStored-AllLeave (ends t ∷ cs) n = (tt, NotStored-AllLeave cs n)
  NotStored-AllLeave (audits now row ∷ cs) n = (tt, NotStored-AllLeave cs n)
  NotStored-AllLeave (purges now days ∷ cs) n = (tt, NotStored-AllLeave cs n)

  NotUsed-AllLeave :
      (cs : List Call)
      → NotStored token cs
      → NotUsed token cs
      → AllLeave token (λ s. s.last_seen_at ≡ e) cs
  NotUsed-AllLeave [] n u = tt
  NotUsed-AllLeave (opens now later new ∷ cs) (d, n) u = (d, NotUsed-AllLeave cs n u)
  NotUsed-AllLeave (changes now id h current new ∷ cs) (d, n) u = (d, NotUsed-AllLeave cs n u)
  NotUsed-AllLeave (uses now later t ∷ cs) n (d, u) =
      (λ q s p. absurd (d q), NotUsed-AllLeave cs n u)
  NotUsed-AllLeave (creates_first now x h ∷ cs) n u = (tt, NotUsed-AllLeave cs n u)
  NotUsed-AllLeave (creates now x h ∷ cs) n u = (tt, NotUsed-AllLeave cs n u)
  NotUsed-AllLeave (deletes id ∷ cs) n u = (tt, NotUsed-AllLeave cs n u)
  NotUsed-AllLeave (resets now x h ∷ cs) n u = (tt, NotUsed-AllLeave cs n u)
  NotUsed-AllLeave (ends t ∷ cs) n u = (tt, NotUsed-AllLeave cs n u)
  NotUsed-AllLeave (audits now row ∷ cs) n u = (tt, NotUsed-AllLeave cs n u)
  NotUsed-AllLeave (purges now days ∷ cs) n u = (tt, NotUsed-AllLeave cs n u)

Holds-map :
    {P Q : SessionRow → Type 0} (o : Option SessionRow)
    → ((s : SessionRow) → P s → Q s)
    → Holds P o
    → Holds Q o
Holds-map none f h = tt
Holds-map (some s) f h = f s h

-- From tables that satisfy the constraints, a session answers no more 24 hours after its start, after
-- any calls that do not store its token again, however often they use it.
pub create_session-expires :
    (now later t : ℕ) (new : NewSession) (db : Db) (cs : List Call)
    → IsValid db
    → (create_session now later new db).1 ≡ ok tt
    → NotStored new.token_sha256 cs
    → later + absolute ≤ t
    → (live_session t new.token_sha256 (run (create_session now later new db).0 cs) ≡ none)
      × (session_alive t new.token_sha256 (run (create_session now later new db).0 cs) ≡ false)
unfolding is_alive
create_session-expires now later t new db cs v done n le =
    let (row, _, _) = create_session-row now later new db done in
    let token = new.token_sha256 in
    let start : Holds (λ s. s.expires_at ≡ later + absolute)
        (get token (create_session now later new db).0.sessions) =
      rw row refl in
    let held =
      run-Holds token (λ s. s.expires_at ≡ later + absolute) (create_session now later new db).0 cs
        (create_session-IsValid now later new db v)
        (NotStored-AllLeave token (later + absolute) cs n) start in
    ends_dead t token _ (
      Holds-map (get token (run (create_session now later new db).0 cs).sessions)
        (λ s p. ground (arith, p, le)) held)

-- From tables that satisfy the constraints, a session that is not used answers no more 60 minutes
-- after its start, after any calls that do not store its token again.
pub create_session-idle :
    (now later t : ℕ) (new : NewSession) (db : Db) (cs : List Call)
    → IsValid db
    → (create_session now later new db).1 ≡ ok tt
    → NotStored new.token_sha256 cs
    → NotUsed new.token_sha256 cs
    → later + idle ≤ t
    → (live_session t new.token_sha256 (run (create_session now later new db).0 cs) ≡ none)
      × (session_alive t new.token_sha256 (run (create_session now later new db).0 cs) ≡ false)
unfolding is_alive
create_session-idle now later t new db cs v done n u le =
    let (row, _, _) = create_session-row now later new db done in
    let token = new.token_sha256 in
    let start : Holds (λ s. s.last_seen_at ≡ later)
        (get token (create_session now later new db).0.sessions) =
      rw row refl in
    let held =
      run-Holds token (λ s. s.last_seen_at ≡ later) (create_session now later new db).0 cs
        (create_session-IsValid now later new db v) (NotUsed-AllLeave token later cs n u) start in
    ends_dead t token _ (
      Holds-map (get token (run (create_session now later new db).0 cs).sessions)
        (λ s p. ground (arith, p, le)) held)
