-- ===== src/Web/SessionTests.antt =====
-- Runs of a session of crates/lodger/src/auth.rs, and what the theorems say of them.
use lodger.Web.{
  selects_session, error, get_method, Response, ticket_info, reply, header_text, Conditions,
  AppState,
}
use lodger.Web.Cookie.{cookie_token, set_cookie, session_key}
use lodger.Web.Session.{lookup, require_session, current, logout}
use lodger.Web.Login.{login}
use lodger.Web.Socket.{issue_ticket, open_socket, socket_check, session_ended}
use lodger.Web.Accounts.{change_own_password, PasswordChange}
use lodger.Web.Routes.{respond, serve_all, Request, logs_in, protected, reads_session}
use lodger.Db.{absolute, NewSession, Db, Session}
use lodger.Db.Queries.{create_session}
use lodger.Tickets.{lifetime}
use lodger.Tickets.Laws.{Call, redeems}
use lodger.Tickets.Laws.{run as run_tickets}
use lodger.Tickets.Lifetime.{Unrelated}
use lodger.Validate.Path.{split}
use lodger.Web.CookieLaws.{is_plain, first_part, cookie_token-set_cookie}
use lodger.Db.Calls.{run}
use lodger.Web.Changes.{IsChanged, change_own_password-IsChanged}
use lodger.Web.Guard.{IsAuthorized, IsRefused, used, require_session-IsAuthorized}
use lodger.Web.Logout.{logout-require_session}
use lodger.Web.Origins.{FromLodger, respond-foreign}
use lodger.Web.SocketEnd.{IsEnd, create_session-session_ended, session_ended-returns}
use lodger.Web.Steps.Laws.{IsSound, NeverDrawn, Steps-IsSound}
use lodger.Web.Steps.Login.{login-Steps}
use lodger.Web.Upgrade.{issue_ticket-open_socket}
use lodger.Net.{ip_eq}
use lodger.Prelude.Equality.{nat_eq, text_eq}
use lodger.Prelude.{
  ℕ, ◌+◌, ◌*◌, ◌≤◌, ◌<◌, ◌≡◌, ◌↔◌, ◌⊎◌, inl, inr, refl, Bool, true, false, none, some, List, [],
  ◌∷◌, Result, ok, text, arith, if◌then◌else◌, all, suc, ltb, ◌≢◌,
}
use lodger.Web.Tests.{
  web, digest, lib, fine, later, peer, bare, page, config, owned, right_login, owned-IsSound,
}

abbrev busy : AppState
busy = (login lib fine peer page (ok right_login) owned).0

require_session-IsAuthorized_example :
    ((token : List ℕ) × (session : Session) × IsAuthorized lib later get_method page busy token
        session
      × ((next : Session → AppState → AppState × Response)
          → require_session lib later get_method page next busy
            ≡ next session (used lib later token busy)))
    ⊎ IsRefused lib later get_method page busy
require_session-IsAuthorized_example = require_session-IsAuthorized lib later get_method page busy

busy-IsSound : IsSound busy
busy-IsSound =
    Steps-IsSound lib fine owned busy owned-IsSound
      (login-Steps lib fine peer page (ok right_login) owned)

page_cookie : cookie_token lib page ≡ some (text "a1")
unfolding web
page_cookie = refl

logout_done : (logout lib later page busy).1.status ≡ 204
unfolding web
logout_done = refl

abbrev reads_again : List (Conditions × Request)
reads_again = (later, record { peer = peer; headers = page; route = protected reads_session }) ∷ []

never_drawn : NeverDrawn lib (digest (text "a1")) reads_again
never_drawn = (λ (t, drawn, same). ground (arith, drawn, same), tt)

logout-require_session_example :
    let after = serve_all lib config (logout lib later page busy).0 reads_again in
    require_session lib later get_method page current after ≡ (
      after,
      if later.fails selects_session
          then error 500 (text "cannot check the session")
          else error 401 (text "log in first"),
    )
logout-require_session_example =
    logout-require_session lib config later later get_method page page (text "a1") busy reads_again
      current busy-IsSound page_cookie logout_done never_drawn page_cookie

page_key : session_key lib page ≡ some (digest (text "a1"))
unfolding web
page_key = refl

ticket_done : (issue_ticket lib fine page busy).1 ≡ reply 201 (ticket_info (text "c3"))
unfolding web
ticket_done = refl

abbrev pub root_session : Session
root_session = record { account_id = 1; username = text "root"; csrf_token = text "b2" }

-- Another ticket is tried meanwhile.
abbrev meanwhile : List Call
meanwhile = redeems (text "zz") (digest (text "a1")) none 15 ∷ []

meanwhile-Unrelated : Unrelated digest (digest (text "c3")) 10 meanwhile
unfolding web
meanwhile-Unrelated = ground arith

abbrev ticketed : AppState
ticketed =
    let s = (issue_ticket lib fine page busy).0 in
    record s { tickets = run_tickets digest s.tickets meanwhile }

still_live : (lookup lib later page ticketed).1 ≡ ok (some root_session)
unfolding web
still_live = refl

issue_ticket-open_socket_example :
    (((open_socket lib later page (some (text "c3")) ticketed).1 ≡ ok (digest (text "a1"))) ↔ (
      (digest (text "a1") ≡ digest (text "a1"))
      × (header_text lib page (text "origin") ≡ header_text lib page (text "origin"))
      × (20 < 10 + lifetime)))
    × ((k : ℕ)
        → (open_socket lib later page
            (some (text "c3"))
            (open_socket lib later page (some (text "c3")) ticketed).0).1
          ≢ ok k)
unfolding run_tickets open_socket
issue_ticket-open_socket_example =
    issue_ticket-open_socket lib fine later later page page page (digest (text "a1"))
      (digest (text "a1")) (text "c3") busy ticketed
      (open_socket lib later page (some (text "c3")) ticketed).0 root_session meanwhile []
      busy-IsSound.ticket_room page_key page_key ticket_done refl meanwhile-Unrelated (omega arith)
      still_live refl tt

abbrev change : PasswordChange
change = record {
  current_password = text "correct horse b";
  new_password = text "another long one";
}

change_done : (change_own_password lib later peer page (ok change) root_session busy).1.status ≡ 200
unfolding web
change_done = refl

change_own_password-IsChanged_example :
    IsChanged lib later page change 1 busy.db
      (change_own_password lib later peer page (ok change) root_session busy).0.db
      (change_own_password lib later peer page (ok change) root_session busy).1
change_own_password-IsChanged_example =
    change_own_password-IsChanged lib later peer page change root_session busy busy-IsSound
      change_done

outside : FromLodger lib bare none → ⊥
unfolding web
outside (inl sent) = ground (arith, sent)
outside (inr (origin, public, sent, set, same)) = ground (arith, set)

abbrev foreign_request : Request
foreign_request = record { peer = peer; headers = bare; route = logs_in (ok right_login) }

respond-foreign_example :
    ((respond lib config fine foreign_request owned).0 ≡ owned)
    ⊎ ((token : List ℕ) × ((respond lib config fine foreign_request owned).0
          ≡ used lib fine token owned))
respond-foreign_example = respond-foreign lib config fine foreign_request owned outside

plain_token : all is_plain (text "a1") ≡ true
unfolding web
plain_token = refl

sent_back :
    lib.to_str (text "__Host-lodger_sid=a1")
    ≡ some (first_part (split b';' (set_cookie (text "a1"))))
unfolding web
sent_back = refl

cookie_token-set_cookie_example : cookie_token lib page ≡ some (text "a1")
cookie_token-set_cookie_example =
    cookie_token-set_cookie lib page (text "__Host-lodger_sid=a1") (text "a1") plain_token refl
      sent_back

abbrev new_row : NewSession
new_row = record {
  token_sha256 = 5;
  account_id = 1;
  csrf_token = text "b2";
  client_ip = text "ip";
  user_agent = none;
}

stored : (create_session 0 0 new_row owned.db).1 ≡ ok tt
unfolding web
stored = refl

abbrev every_two_seconds : ℕ → ℕ
every_two_seconds n = 2000 * n

create_session-session_ended_example :
    let tables : ℕ → Db = λ n. run (create_session 0 0 new_row owned.db).0 [] in
    let check = socket_check (λ n. false) every_two_seconds tables 5 in
    (n : ℕ) × (session_ended (suc (0 + absolute)) check 0 ≡ some n)
    × IsEnd check 0 n
    × ((n ≡ 0) ⊎ (every_two_seconds n < 0 + absolute + 2000))
create_session-session_ended_example =
    create_session-session_ended 0 0 2000 new_row owned.db (λ n. []) every_two_seconds (λ n. false)
      owned-IsSound.tables stored (λ n. tt) (λ n. (omega arith, omega arith))

-- A session that is live at the checks 0 and 1.
abbrev live_twice : ℕ → Result (Unit {0}) Bool
live_twice n = if ltb n 2 then ok true else ok false

dead_later : (n : ℕ) → 3000 ≤ every_two_seconds n → live_twice n ≢ ok true
dead_later n le live = ground (arith, le, live)

session_ended-returns_example :
    (n : ℕ) × (session_ended 3001 live_twice 0 ≡ some n)
    × IsEnd live_twice 0 n
    × ((n ≡ 0) ⊎ (every_two_seconds n < 3000 + 2000))
session_ended-returns_example =
    session_ended-returns live_twice every_two_seconds 3000 2000 (λ n. (omega arith, omega arith))
      dead_later
