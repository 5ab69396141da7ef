-- ===== src/Web/Steps/Laws.antt =====
-- What every chain of steps, so every request of crates/lodger/src, keeps of the shared state.
use lodger.Db.{account_count}
use lodger.Db.Queries.{is_alive}
use lodger.Db.Accounts.{step-count}
use lodger.Db.Calls.{
  Call, creates_first, creates, deletes, changes, resets, opens, uses, ends, audits, purges,
  step-IsValid,
}
use lodger.Db.Lifetime.{Holds, Holds-kept, Leaves, step-Holds}
use lodger.Db.Tables.{IsValid, OwnedBy}
use lodger.Db.Rows.{put_sessions-IsValid}
use lodger.Map.{get, retain}
use lodger.Map.Laws.{retain-Distinct, retain-AllValues, get-retain}
use lodger.Prelude.Equality.{nat_eq}
use lodger.Prelude.{ℕ, ◌≤◌, ◌≡◌, refl, none, Option-cases, List, [], ◌∷◌, arith, inl, inr, subst}
use lodger.Throttle.Bounds.{IsValid as IsValidThrottle, begin-IsValid, succeed-IsValid}
use lodger.Tickets.Laws.{IsBounded, issue-IsBounded, redeem-IsBounded}
use lodger.Web.{Crates, Conditions, AppState}
use lodger.Web.Routes.{Config, Request, respond, serve_all}
use lodger.Web.Steps.{
  Drawn, Made, Steps, stays, queries, begins, forgives, issues, redeems, cleans, closes,
}
use lodger.Web.Steps.Others.{respond-Steps}

-- The constraints of the tables, and the bounds of the counters and of the tickets.
pub record IsSound (s : AppState) : Type 0 where
  pub tables : IsValid s.db
  pub counters : IsValidThrottle s.throttle
  pub ticket_room : IsBounded s.tickets

module _ (lib : Crates) (c : Conditions) where
  pub Steps-IsSound : (s t : AppState) → IsSound s → Steps lib c s t → IsSound t
  Steps-IsSound s _ v (stays _) = v
  Steps-IsSound s _ v (queries _ t call made h) =
      let k = Steps-IsSound s t v h in
      record {
        tables = step-IsValid t.db call k.tables;
        counters = k.counters;
        ticket_room = k.ticket_room;
      }
  Steps-IsSound s _ v (begins _ t username ip now h) =
      let k = Steps-IsSound s t v h in
      record {
        tables = k.tables;
        counters = begin-IsValid lib.to_lowercase username ip now t.throttle k.counters;
        ticket_room = k.ticket_room;
      }
  Steps-IsSound s _ v (forgives _ t username ip attempt h) =
      let k = Steps-IsSound s t v h in
      record {
        tables = k.tables;
        counters = succeed-IsValid lib.to_lowercase username ip attempt t.throttle k.counters;
        ticket_room = k.ticket_room;
      }
  Steps-IsSound s _ v (issues _ t key origin now random h) =
      let k = Steps-IsSound s t v h in
      record {
        tables = k.tables;
        counters = k.counters;
        ticket_room = issue-IsBounded lib.sha256 key origin now random t.tickets k.ticket_room;
      }
  Steps-IsSound s _ v (redeems _ t ticket key origin now h) =
      let k = Steps-IsSound s t v h in
      record {
        tables = k.tables;
        counters = k.counters;
        ticket_room = redeem-IsBounded lib.sha256 ticket key origin now t.tickets k.ticket_room;
      }
  Steps-IsSound s _ v (cleans _ t now h) =
      let k = Steps-IsSound s t v h in
      record {
        tables =
            put_sessions-IsValid (retain (is_alive now) t.db.sessions) t.db
              (retain-Distinct (is_alive now) t.db.sessions k.tables.sessions_distinct)
              (retain-AllValues (OwnedBy t.db.accounts) (is_alive now) t.db.sessions k.tables.owned)
              k.tables;
        counters = k.counters;
        ticket_room = k.ticket_room;
      }
  Steps-IsSound s _ v (closes _ t h) =
      let k = Steps-IsSound s t v h in
      record { tables = k.tables; counters = k.counters; ticket_room = k.ticket_room }

  -- A closed setup stays closed, and an account stays.
  pub Steps-setup : (s t : AppState) → s.setup ≡ none → Steps lib c s t → t.setup ≡ none
  Steps-setup s _ e (stays _) = e
  Steps-setup s _ e (queries _ t call made h) = Steps-setup s t e h
  Steps-setup s _ e (begins _ t username ip now h) = Steps-setup s t e h
  Steps-setup s _ e (forgives _ t username ip attempt h) = Steps-setup s t e h
  Steps-setup s _ e (issues _ t key origin now random h) = Steps-setup s t e h
  Steps-setup s _ e (redeems _ t ticket key origin now h) = Steps-setup s t e h
  Steps-setup s _ e (cleans _ t now h) = Steps-setup s t e h
  Steps-setup s _ e (closes _ t h) = refl

  pub Steps-count :
      (s t : AppState) → 1 ≤ account_count s.db → Steps lib c s t → 1 ≤ account_count t.db
  unfolding account_count
  Steps-count s _ p (stays _) = p
  Steps-count s _ p (queries _ t call made h) = step-count t.db call (Steps-count s t p h)
  Steps-count s _ p (begins _ t username ip now h) = Steps-count s t p h
  Steps-count s _ p (forgives _ t username ip attempt h) = Steps-count s t p h
  Steps-count s _ p (issues _ t key origin now random h) = Steps-count s t p h
  Steps-count s _ p (redeems _ t ticket key origin now h) = Steps-count s t p h
  Steps-count s _ p (cleans _ t now h) = Steps-count s t p h
  Steps-count s _ p (closes _ t h) = Steps-count s t p h

-- No session is stored under this token.
abbrev pub Absent : ℕ → AppState → Type 0
Absent token s = Holds (λ row. ⊥) (get token s.db.sessions)

pub Absent-get : (token : ℕ) (s : AppState) → Absent token s → get token s.db.sessions ≡ none
Absent-get token s h = elim (Option-cases (get token s.db.sessions)) [
  | inl missing ↦ missing
  | inr (row, found) ↦ absurd (subst (Holds (λ row. ⊥)) found h)
]

pub get-Absent : (token : ℕ) (s : AppState) → get token s.db.sessions ≡ none → Absent token s
get-Absent token s e = rw e tt

module _ (lib : Crates) (c : Conditions) (token : ℕ) (fresh : Drawn lib c token → ⊥) where
  Made-Leaves : (call : Call) → Made lib c call → Leaves token (λ row. ⊥) call
  Made-Leaves (opens now later new) (t, drawn, same) = λ e. fresh (t, drawn, ground arith)
  Made-Leaves (changes now id h current new) (t, drawn, same) = λ e. fresh (t, drawn, ground arith)
  Made-Leaves (uses now later t) m = λ e row impossible. impossible
  Made-Leaves (creates_first now u h) m = tt
  Made-Leaves (creates now u h) m = tt
  Made-Leaves (deletes id) m = tt
  Made-Leaves (resets now u h) m = tt
  Made-Leaves (ends t) m = tt
  Made-Leaves (audits now row) m = tt
  Made-Leaves (purges now days) m = tt

  pub Steps-Absent :
      (s t : AppState) → IsSound s → Absent token s → Steps lib c s t → Absent token t
  Steps-Absent s _ v a (stays _) = a
  Steps-Absent s _ v a (queries _ t call made h) =
      step-Holds token (λ row. ⊥) t.db call (Steps-IsSound lib c s t v h).tables
        (Made-Leaves call made) (Steps-Absent s t v a h)
  Steps-Absent s _ v a (begins _ t username ip now h) = Steps-Absent s t v a h
  Steps-Absent s _ v a (forgives _ t username ip attempt h) = Steps-Absent s t v a h
  Steps-Absent s _ v a (issues _ t key origin now random h) = Steps-Absent s t v a h
  Steps-Absent s _ v a (redeems _ t ticket key origin now h) = Steps-Absent s t v a h
  Steps-Absent s _ v a (cleans _ t now h) =
      let valid = (Steps-IsSound lib c s t v h).tables in
      rw (get-retain (is_alive now) token t.db.sessions valid.sessions_distinct)
        (Holds-kept (λ row. ⊥) (is_alive now) (get token t.db.sessions) (Steps-Absent s t v a h))
  Steps-Absent s _ v a (closes _ t h) = Steps-Absent s t v a h

-- No request of the list draws a text with this hash.
abbrev pub NeverDrawn : Crates → ℕ → List (Conditions × Request) → Type 0
NeverDrawn lib token [] = Unit
NeverDrawn lib token ((c, r) ∷ rest) = (Drawn lib c token → ⊥) × NeverDrawn lib token rest

module _ (lib : Crates) (config : Config) where
  -- From a state that satisfies the constraints of the schema and the bounds of the throttle and of
  -- the tickets, any requests, with any failures, leave such a state.
  pub serve_all-IsSound :
      (s : AppState) (rs : List (Conditions × Request))
      → IsSound s
      → IsSound (serve_all lib config s rs)
  unfolding serve_all
  serve_all-IsSound s [] v = v
  serve_all-IsSound s ((c, r) ∷ rest) v =
      serve_all-IsSound (respond lib config c r s).0 rest
        (Steps-IsSound lib c s _ v (respond-Steps lib c config r s))

  -- Once the setup is closed it stays closed, and once there is an account there always is one,
  -- whatever requests come.
  pub serve_all-closed :
      (s : AppState) (rs : List (Conditions × Request))
      → s.setup ≡ none
      → 1 ≤ account_count s.db
      → ((serve_all lib config s rs).setup ≡ none)
        × (1 ≤ account_count (serve_all lib config s rs).db)
  unfolding serve_all
  serve_all-closed s [] e p = (e, p)
  serve_all-closed s ((c, r) ∷ rest) e p =
      let h = respond-Steps lib c config r s in
      serve_all-closed (respond lib config c r s).0 rest (Steps-setup lib c s _ e h)
        (Steps-count lib c s _ p h)

  -- From a sound state without a session under a token, requests that do not draw the token store
  -- no session under it.
  pub serve_all-gone :
      (token : ℕ) (s : AppState) (rs : List (Conditions × Request))
      → IsSound s
      → get token s.db.sessions ≡ none
      → NeverDrawn lib token rs
      → get token (serve_all lib config s rs).db.sessions ≡ none
  unfolding serve_all
  serve_all-gone token s [] v e n = e
  serve_all-gone token s ((c, r) ∷ rest) v e (fresh, n) =
      let h = respond-Steps lib c config r s in
      let next = (respond lib config c r s).0 in
      serve_all-gone token next rest (Steps-IsSound lib c s next v h)
        (Absent-get token next (Steps-Absent lib c token fresh s next v (get-Absent token s e) h)) n
