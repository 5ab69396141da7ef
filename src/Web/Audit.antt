-- ===== src/Web/Audit.antt =====
-- crates/lodger/src/audit.rs: the entries of the audit log and their rows. The copy that goes to the
-- journal is output, and is left out.
use lodger.Db.{Text, AuditRow}
use lodger.Db.Queries.{audit}
use lodger.Net.{IpAddr}
use lodger.Prelude.{Bool, Option, none, some, ◌&&◌, text, if◌then◌else◌, is_some, not}
use lodger.Web.{Detail, Crates, Conditions, AppState, inserts_audit}

pub record Entry : Type 0 where
  pub event : Text
  pub account : Option Text
  pub client_ip : Option IpAddr
  pub target_kind : Option Text
  pub target : Option Text
  pub result : Text
  pub detail : Detail

abbrev pub default_detail : Detail
default_detail = record { via = none; sudo_user = none; action = none; reason = none }

unfoldable pub is_empty : Detail → Bool
is_empty d =
    not (is_some d.via)
    && not (is_some d.sudo_user)
    && not (is_some d.action)
    && not (is_some d.reason)

-- `Entry::ok` and `Entry::failed`.
unfoldable pub ok_entry : Text → Entry
ok_entry event = record {
  event = event;
  account = none;
  client_ip = none;
  target_kind = none;
  target = none;
  result = text "ok";
  detail = default_detail;
}

unfoldable pub failed_entry : Text → (reason : Text) → Entry
unfolding ok_entry
failed_entry event reason = record (ok_entry event) {
  result = text "failed";
  detail = record default_detail { reason = some reason };
}

unfoldable pub by_account : Text → Entry → Entry
by_account name e = record e { account = some name }

unfoldable pub from_ip : IpAddr → Entry → Entry
from_ip ip e = record e { client_ip = some ip }

unfoldable pub target_account : Text → Entry → Entry
target_account name e = record e { target_kind = some (text "account"); target = some name }

-- `self.client_ip.map(|ip| ip.to_string())`.
unfoldable pub ip_text : Crates → Option IpAddr → Option Text
ip_text lib none = none
ip_text lib (some ip) = some (lib.ip_to_string ip)

unfoldable pub row : Crates → Entry → AuditRow
row lib e = record {
  event = e.event;
  account_name = e.account;
  client_ip = ip_text lib e.client_ip;
  target_kind = e.target_kind;
  target_name = e.target;
  result = e.result;
  detail_json = if is_empty e.detail then none else some (lib.to_json e.detail);
}

-- `log`: a failed write leaves the request going.
unfoldable pub log : Crates → Conditions → Entry → AppState → AppState
log lib c entry s =
    if c.fails inserts_audit
    then s
    else record s { db = audit (c.clock inserts_audit) (row lib entry) s.db }
