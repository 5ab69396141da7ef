-- ===== src/Web/Tests.antt =====
-- Runs of the web handlers of crates/lodger/src on a small install, and instances of the theorems.
use lodger.Web.{
  reply, with_header, error, panicked, header_text, HeaderMap, Crates, Conditions, AppState, Draw,
  session_draw, csrf_draw, ticket_draw, no_body,
}
use lodger.Web.Bytes.{
  encode_utf8, as_bytes, is_whitespace, trim_start, push_trimmed, trim_end, trim, split_once,
  last_part, eq_ignore_ascii_case,
}
use lodger.Web.Security.{is_safe, same_origin, from_lodger, require_same_origin, add_headers}
use lodger.Web.ClientIp.{rightmost, client_ip}
use lodger.Web.Cookie.{cookie_pairs, cookie_token, set_cookie, clear_cookie, session_key}
use lodger.Web.Password.{is_common, check}
use lodger.Web.Audit.{
  is_empty, ok_entry, failed_entry, by_account, from_ip, target_account, ip_text, row, log,
}
use lodger.Web.Session.{
  new_session, unauthorized, lookup_failed, find_session, lookup, csrf_matches, require_session,
  current, logout,
}
use lodger.Web.Login.{
  too_many_attempts, throttled, verified, cannot_start, store_session, end_old_session, refuse,
  start_session, sign_in, check_login, login, Login,
}
use lodger.Web.Socket.{issue_ticket, use_ticket, open_socket, socket_check, session_ended}
use lodger.Web.Setup.{
  generate, open_setup, matches, status, check_token, check_account, hash_password, make_first,
  claim_account, claim, Claim,
}
use lodger.Web.Accounts.{
  insert_new, create, delete, own_entry, replace_sessions, set_new_password, check_current,
  change_account, change_own_password,
}
use lodger.Web.Routes.{
  protected_method, route_method, handle_protected, dispatch, respond, serve_all, Config, Request,
  logs_in,
}
use lodger.Db.{
  fold_case, same_name, find_name, max_id, insert_account, account_count, create_first_account,
  create_account, delete_row, delete_account, account_by_id, find_account, set_password,
  insert_session, delete_others, change_password,
}
use lodger.Db.Queries.{
  is_alive, create_session, touch_session, live_session, session, session_alive, delete_session,
  audit,
}
use lodger.Map.{get, contains_key, insert, remove, retain}
use lodger.Net.{to_canonical}
use lodger.Throttle.{
  is_live, drop_old, touch, entry, push_back, saturate_u32, delay_for, ip_key, both_failures,
  take_turn, remove_first, take_back, account_key, begin, succeed,
}
use lodger.Tickets.{opens, store, issue, redeem}
use lodger.Validate.{len_utf8, len, is_ascii_alphanumeric, is_name_char, parse_chars, parse_name}
use lodger.Validate.Path.{split}
use lodger.Web.CookieLaws.{is_plain}
use lodger.Db.Calls.{step, run}
use lodger.Web.Claims.{IsClaimed, claim-IsClaimed, claim-claim}
use lodger.Web.Refused.{IsWrong, IsTurnedDown, login-IsTurnedDown}
use lodger.Web.SignIn.Live.{IsSignedIn, login-IsSignedIn}
use lodger.Web.Steps.Laws.{IsSound, serve_all-IsSound}
use lodger.Net.{IpAddr, v4, ip_eq}
use lodger.Prelude.Equality.{nat_eq, text_eq, text_beq}
use lodger.Prelude.{
  ℕ, ◌+◌, ◌*◌, ◌≡◌, refl, true, false, Option, none, some, List, [], ◌∷◌, map, ok, text, arith,
  if◌then◌else◌,
}

unfoldable pub web : Unit {0}
unfolding reply with_header error panicked header_text encode_utf8 as_bytes is_whitespace trim_start
    push_trimmed trim_end trim split_once last_part eq_ignore_ascii_case is_safe same_origin
    from_lodger require_same_origin add_headers rightmost client_ip cookie_pairs cookie_token
    set_cookie clear_cookie session_key is_common check is_empty ok_entry failed_entry by_account
    from_ip target_account ip_text row log new_session unauthorized lookup_failed find_session
    lookup csrf_matches require_session current logout too_many_attempts throttled verified
    cannot_start store_session end_old_session refuse start_session sign_in check_login login
    issue_ticket use_ticket open_socket socket_check session_ended generate open_setup matches
    status check_token check_account hash_password make_first claim_account claim insert_new create
    delete own_entry replace_sessions set_new_password check_current change_account
    change_own_password protected_method route_method handle_protected dispatch respond serve_all
    fold_case same_name find_name max_id insert_account account_count create_first_account
    create_account delete_row delete_account account_by_id find_account set_password insert_session
    delete_others change_password is_alive create_session touch_session live_session session
    session_alive delete_session audit get contains_key insert remove retain to_canonical is_live
    drop_old touch entry push_back saturate_u32 delay_for ip_key both_failures take_turn
    remove_first take_back account_key begin succeed opens store issue redeem len_utf8 len
    is_ascii_alphanumeric is_name_char parse_chars parse_name split is_plain step run
web = tt

-- A toy hash; argon2 as equality of the texts.
abbrev pub digest : List ℕ → ℕ
digest [] = 1
digest (c ∷ cs) = c + 257 * digest cs

abbrev pub lib : Crates
lib = record {
  sha256 = digest;
  verify = text_beq;
  to_lowercase = map fold_case;
  parse_ip = λ t. none;
  ip_to_string = λ ip. text "192.0.2.1";
  to_str = λ v. some v;
  is_trusted = λ ip. false;
  common_lines = text "passwordpassword" ∷ [];
  to_json = λ d. text "{}";
}

abbrev draws : Draw → Option (List ℕ)
draws session_draw = some (text "a1")
draws csrf_draw = some (text "b2")
draws ticket_draw = some (text "c3")

abbrev later_draws : Draw → Option (List ℕ)
later_draws session_draw = some (text "d4")
later_draws csrf_draw = some (text "e5")
later_draws ticket_draw = none

abbrev pub fine : Conditions
fine = record {
  instant = 10;
  clock = λ q. 1000;
  fails = λ q. false;
  random = draws;
  hash = λ p. some (ok p);
  verifies = true;
}

abbrev pub later : Conditions
later = record fine { instant = 20; clock = λ q. 2000; random = later_draws }

abbrev pub peer : IpAddr
peer = v4 7

abbrev pub bare : HeaderMap
bare = record { get_first = λ name. none; get_all = λ name. [] }

-- A request of the page, with the cookie and the CSRF token of the session.
abbrev pub page : HeaderMap
page = record {
  get_first = λ name.
      if text_beq name (text "x-csrf-token")
      then some (text "b2")
      else if text_beq name (text "sec-fetch-site")
      then some (text "same-origin")
      else none;
  get_all = λ name. if text_beq name (text "cookie") then text "__Host-lodger_sid=a1" ∷ [] else [];
}

abbrev claimed : Claim
claimed = record { token = text " k "; username = text "root"; password = text "correct horse b" }

abbrev fresh : AppState
fresh = record {
  db = record { accounts = []; sessions = []; audit_log = [] };
  throttle = record { accounts = []; ips = [] };
  tickets = [];
  setup = some (record { hash = digest (text "k"); expires = 1000 });
}

fresh-IsSound : IsSound fresh
fresh-IsSound = record {
  tables = record {
    accounts_distinct = tt;
    names_distinct = tt;
    sessions_distinct = tt;
    owned = tt;
  };
  counters = record {
    accounts_distinct = tt;
    ips_distinct = tt;
    accounts_room = omega arith;
    ips_room = omega arith;
  };
  ticket_room = record { distinct = tt; room = omega arith };
}

claim_done : (claim lib fine peer bare (ok claimed) fresh).1.status ≡ 201
unfolding web
claim_done = refl

claim-IsClaimed_example :
    IsClaimed lib 10 claimed fresh
      (claim lib fine peer bare (ok claimed) fresh).0
      (claim lib fine peer bare (ok claimed) fresh).1
claim-IsClaimed_example = claim-IsClaimed lib fine peer bare claimed fresh claim_done

abbrev pub config : Config
config = record { public_origin = none; csp = text "default-src 'self'"; hsts = true }

abbrev pub owned : AppState
owned = (claim lib fine peer bare (ok claimed) fresh).0

abbrev pub right_login : Login
right_login = record { username = text "Root"; password = text "correct horse b" }

abbrev wrong_login : Login
wrong_login = record { username = text "root"; password = text "guess" }

abbrev logs_in_twice : List (Conditions × Request)
logs_in_twice =
    (fine, record { peer = peer; headers = page; route = logs_in (ok wrong_login) })
    ∷ (fine, record { peer = peer; headers = page; route = logs_in (ok right_login) })
    ∷ []

claim-claim_example :
    let after = serve_all lib config owned logs_in_twice in
    (claim lib later peer bare (ok claimed) after ≡ (after, reply 404 no_body))
    × (open_setup lib 30 (some (text "n")) after.db ≡ ok none)
claim-claim_example =
    claim-claim lib config fine later peer peer bare bare claimed (ok claimed) fresh logs_in_twice
      30 (some (text "n")) claim_done

pub owned-IsSound : IsSound owned
unfolding web
owned-IsSound = record {
  tables = record {
    accounts_distinct = (refl, tt);
    names_distinct = (refl, tt);
    sessions_distinct = tt;
    owned = tt;
  };
  counters = record {
    accounts_distinct = tt;
    ips_distinct = tt;
    accounts_room = omega arith;
    ips_room = omega arith;
  };
  ticket_room = record { distinct = tt; room = omega arith };
}

serve_all-IsSound_example : IsSound (serve_all lib config owned logs_in_twice)
serve_all-IsSound_example = serve_all-IsSound lib config owned logs_in_twice owned-IsSound

login_done : (login lib fine peer page (ok right_login) owned).1.status ≡ 200
unfolding web
login_done = refl

login-IsSignedIn_example :
    IsSignedIn lib fine page right_login owned
      (login lib fine peer page (ok right_login) owned).1
      (login lib fine peer page (ok right_login) owned).0
login-IsSignedIn_example =
    login-IsSignedIn lib fine peer page right_login owned owned-IsSound login_done

wrong : IsWrong lib fine wrong_login owned.db
unfolding web
wrong id a found = ground arith

login-IsTurnedDown_example :
    IsTurnedDown lib fine wrong_login
      (client_ip lib peer page)
      owned
      (login lib fine peer page (ok wrong_login) owned)
login-IsTurnedDown_example =
    login-IsTurnedDown lib fine peer page wrong_login owned owned-IsSound wrong
