-- ===== src/Web/Steps.antt =====
-- The state that a request of crates/lodger/src leaves, as a chain of steps: one call of the
-- database, of the throttle or of the tickets, or the end of the setup.
pub mod Accounts
pub mod Login
pub mod Others
pub mod Laws
use lodger.Db.{NewSession}
use lodger.Db.Queries.{is_alive}
use lodger.Db.Calls.{
  Call, creates_first, creates, deletes, changes, resets, opens, uses, ends, audits, purges, step,
}
use lodger.Map.{retain}
use lodger.Net.{IpAddr}
use lodger.Prelude.{ℕ, ◌≡◌, Option, none, some, List}
use lodger.Throttle.{Attempt, begin, succeed}
use lodger.Tickets.{issue, redeem}
use lodger.Web.{Crates, Conditions, AppState, session_draw}

-- The hash of the token that this request drew.
abbrev pub Drawn : Crates → Conditions → ℕ → Type 0
Drawn lib c token = (t : List ℕ) × (c.random session_draw ≡ some t) × (token ≡ lib.sha256 t)

-- The calls of the database that requests make: a session is stored only under a drawn token.
abbrev pub Made : Crates → Conditions → Call → Type 0
Made lib c (opens now later new) = Drawn lib c new.token_sha256
Made lib c (changes now id h current new) = Drawn lib c new.token_sha256
Made lib c (resets now u h) = ⊥
Made lib c (purges now days) = ⊥
Made lib c _ = Unit

pub data Steps (lib : Crates) (c : Conditions) : AppState → AppState → Type 0 where
  stays : (s : AppState) → Steps lib c s s
  queries :
      (s t : AppState) (call : Call)
      → Made lib c call
      → Steps lib c s t
      → Steps lib c s (record t { db = step t.db call })
  begins :
      (s t : AppState) (username : List ℕ) (ip : IpAddr) (now : ℕ)
      → Steps lib c s t
      → Steps lib c s
          (record t { throttle = (begin lib.to_lowercase username ip now t.throttle).0 })
  forgives :
      (s t : AppState) (username : List ℕ) (ip : IpAddr) (attempt : Attempt)
      → Steps lib c s t
      → Steps lib c s
          (record t { throttle = succeed lib.to_lowercase username ip attempt t.throttle })
  issues :
      (s t : AppState) (key : ℕ) (origin : Option (List ℕ)) (now : ℕ) (random : Option (List ℕ))
      → Steps lib c s t
      → Steps lib c s (record t { tickets = (issue lib.sha256 key origin now random t.tickets).0 })
  redeems :
      (s t : AppState) (ticket : List ℕ) (key : ℕ) (origin : Option (List ℕ)) (now : ℕ)
      → Steps lib c s t
      → Steps lib c s (record t { tickets = (redeem lib.sha256 ticket key origin now t.tickets).0 })
  cleans :
      (s t : AppState) (now : ℕ)
      → Steps lib c s t
      → Steps lib c s
          (record t { db = record t.db { sessions = retain (is_alive now) t.db.sessions } })
  closes : (s t : AppState) → Steps lib c s t → Steps lib c s (record t { setup = none })
