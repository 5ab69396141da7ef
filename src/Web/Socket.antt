-- ===== src/Web/Socket.antt =====
-- The WebSocket tickets of crates/lodger/src/auth.rs: `issue_ticket`, `open_socket` and
-- `session_ended`.
use lodger.Db.{Text, Db}
use lodger.Db.Queries.{session_alive}
use lodger.Prelude.{
  ℕ, zero, suc, Bool, true, false, Option, none, some, Result, ok, err, text, if◌then◌else◌,
  unwrap_or,
}
use lodger.Tickets.{no_random, too_many, issued, issue, redeem}
use lodger.Web.{
  HeaderMap, Response, Crates, Conditions, AppState, ticket_info, ticket_draw, reply, error,
  panicked, header_text,
}
use lodger.Web.Cookie.{session_key}
use lodger.Web.Session.{lookup, unauthorized, lookup_failed}

unfoldable pub issue_ticket : Crates → Conditions → HeaderMap → AppState → AppState × Response
issue_ticket lib c headers s = elim (session_key lib headers) [
  | none ↦ (s, panicked)
  | some key ↦
      let origin = header_text lib headers (text "origin") in
      let (tickets, result) =
        issue lib.sha256 key origin c.instant (c.random ticket_draw) s.tickets in
      (
        record s { tickets = tickets },
        elim result [
          | issued ticket ↦ reply 201 (ticket_info ticket)
          | too_many ↦ error 429 (text "too many open tickets")
          | no_random ↦ error 500 (text "cannot make a ticket")
        ],
      )
]

abbrev pub bad_ticket : Response
bad_ticket = error 403 (text "missing, used, or expired ticket, or a page from another origin")

-- The part of `open_socket` for a live session. `ticket` is the query's.
unfoldable pub use_ticket :
    Crates
    → Conditions
    → HeaderMap
    → (ticket : Option Text) → AppState
    → AppState × Result Response ℕ
use_ticket lib c headers ticket s = elim (session_key lib headers) [
  | none ↦ (s, err panicked)
  | some key ↦
      let origin = header_text lib headers (text "origin") in
      let (tickets, right) =
        redeem lib.sha256 (unwrap_or (text "") ticket) key origin c.instant s.tickets in
      (record s { tickets = tickets }, if right then ok key else err bad_ticket)
]

unfoldable pub open_socket :
    Crates
    → Conditions
    → HeaderMap
    → (ticket : Option Text) → AppState
    → AppState × Result Response ℕ
open_socket lib c headers ticket s =
    let (s', found) = lookup lib c headers s in
    elim found [
      | err e ↦ (s', err lookup_failed)
      | ok none ↦ (s', err unauthorized)
      | ok (some session) ↦ use_ticket lib c headers ticket s'
    ]

-- What `session_alive` answers to check `n` of a socket: `fails n` when the database fails, else from
-- the tables and the time of day at that check.
unfoldable pub socket_check :
    (fails : ℕ → Bool) (at : ℕ → ℕ) (tables : ℕ → Db) (key n : ℕ) → Result (Unit {0}) Bool
socket_check fails at tables key n =
    if fails n then err tt else ok (session_alive (at n) key (tables n))

-- The loop of `session_ended` on fuel: `check n` is the answer of the database to the check `n`, and
-- the result is the number of the check at which the loop returns.
unfoldable pub session_ended :
    (fuel : ℕ) → (check : ℕ → Result (Unit {0}) Bool) → (n : ℕ) → Option ℕ
session_ended zero check n = none
session_ended (suc fuel) check n =
    let rest = session_ended fuel check (suc n) in
    elim (check n) [ ok true ↦ rest | ok false ↦ some n | err e ↦ some n ]
