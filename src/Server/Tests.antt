-- ===== src/Server/Tests.antt =====
-- The server's theorems at concrete requests, over the mock firewall.
use nft_okboy_fleet.Prelude.{
  ◌≤◌, ◌+◌, List, has_prefix, cut, strip_prefix, nat_discrete, ℤ-discrete, Text-discrete, ◌≡◌, refl,
  ap, ◌≢◌, true, false, none, some, [], ◌∷◌, ◌++◌, arith, ◌==◌, Bool-discrete, ℤ, pos, length, Text,
  text, any,
}
use nft_okboy_fleet.Auth.{split_payload, is_expired, verify_hmac}
use nft_okboy_fleet.Auth.Outcome.{Proves}
use nft_okboy_fleet.Auth.Totp.{hotp, verify_totp_counter}
use nft_okboy_fleet.Db.{User, Db, ok, Reason-discrete}
use nft_okboy_fleet.Db.Users.{
  record_ip_change, claim_ip, get_user_by_username, consume_totp_counter,
}
use nft_okboy_fleet.Db.Logs.{count_recent_user_failures}
use nft_okboy_fleet.Firewall.{tcp}
use nft_okboy_fleet.Firewall.Mock.{mock, new_mock, list_user_rules, add_rule, host_action}
use nft_okboy_fleet.Firewall.Manager.{
  reconcile, open_groups, open_step, group_key, close_rules, close_step,
}
use nft_okboy_fleet.Firewall.Stale.{check_ip_anomaly}
use nft_okboy_fleet.Firewall.Comment.{comment_for}
use nft_okboy_fleet.Db.Groups.{get_user_groups}
use nft_okboy_fleet.Server.{Config, Request, World, host_only, is_trusted_proxy, client_ip}
use nft_okboy_fleet.Server.Toggle.{
  toggle_membership, toggle_user, requester_row, toggle_as, toggle_ids, may_toggle, toggle_allowed,
  toggle_flag, other_step_up, toggle_checked, target_group, target_user, toggle_target,
  toggle_enable, check_self_enable, apply_toggle,
}
use nft_okboy_fleet.Server.Knock.{set_membership}
use nft_okboy_fleet.Db.Groups.{get_group, set_membership_enabled}
use nft_okboy_fleet.Db.Users.{get_user}
use nft_okboy_fleet.Db.Logs.{log_audit}
use nft_okboy_fleet.Server.Knock.{online}
use nft_okboy_fleet.Server.Toggle.Permitted.{Permits, toggle_permitted}
use nft_okboy_fleet.Server.Maintain.{maintain}
use nft_okboy_fleet.Server.Maintain.Exact.{maintain_exact}
use nft_okboy_fleet.Db.Nodes.{local_rules}
use nft_okboy_fleet.Firewall.{check_rule}
use nft_okboy_fleet.Firewall.Names.{valid_name}
use nft_okboy_fleet.Firewall.Names.Laws.{valid_name-IsPlain}
use nft_okboy_fleet.Firewall.Lawful.{key_of, Key-discrete}
use nft_okboy_fleet.Firewall.ReconcileAll.Exact.{copies}
use nft_okboy_fleet.Firewall.Nft.{nft_backend}
use nft_okboy_fleet.Firewall.Nft.Lawful.{managed}
use nft_okboy_fleet.Firewall.Nft.Tests.{
  table, table_documented, table_runs, empty_table, parse_ip, is_v4, prefix as nft_prefix,
}
use nft_okboy_fleet.Server.Peer.{client_ip_appended}
use nft_okboy_fleet.Server.Handler.{Library}
use nft_okboy_fleet.Server.Knock.{
  knock_user, knock_recorded, auth_user, knock_as, knock, is_remote, address,
}
use nft_okboy_fleet.Server.Knock.Proven.{knock_proven}
use nft_okboy_fleet.Server.Totp.{step_up, totp_locked}
use nft_okboy_fleet.Server.Totp.Gate.{consume_totp_counter_once, step_up_proven}
use nft_okboy_fleet.Server.Totp.Guesses.{guesses, failures, guesses_capped}
use Prim.Native.String.{String}

-- Stand-ins for the libraries: addresses are texts without a port, and a signature is the secret.
abbrev lib : Library
lib = record {
  split_host_port = λ s. none;
  canonical_ip = λ s. s;
  trim = λ s. s;
  parse_ip = λ s. some s;
  is_loopback = λ s. s == text "127.0.0.1";
  is_unspecified = λ s. s == text "0.0.0.0";
  parse_int = λ s. some (pos 1000);
  hmac = λ secret message. secret;
  hmac_sha1 = λ key message. 0 ∷ 0 ∷ 0 ∷ 0 ∷ 0 ∷ [];
  decode = λ s. some s;
  upper = λ s. s;
  hash_token = λ s. s;
  atoi = λ s. none;
}

abbrev cfg : Config
cfg = record {
  trusted_proxies = text "127.0.0.1" ∷ [];
  signature_ttl = 30;
  throttle_max_failures = 10;
  throttle_window = 300;
  anomaly_window = 3600;
  anomaly_max_changes = 10;
  totp_replay_protection = true;
  require_admin_totp = false;
  nft_guard = true;
  cleanup_max_age_days = 7;
  allowed_ports = [];
}

abbrev alice : User
alice = record {
  id = pos 1;
  username = text "alice";
  secret = text "s";
  is_admin = true;
  current_ip = none;
  last_knock = none;
  totp_secret = some (text "abc");
  totp_enabled = true;
  totp_last_counter = 0;
}

abbrev database : Db
database = record {
  users = alice ∷ [];
  groups = record { id = pos 1; name = text "ssh"; port = pos 22; proto = tcp } ∷ [];
  memberships = record { user_id = pos 1; group_id = pos 1; enabled = true } ∷ [];
  failed_attempts = [];
  operation_log = [];
  audit_log = [];
  nodes = [];
  group_targets = [];
  next_user = 2;
  next_group = 2;
  ports_unique = true;
  next_node = 1;
  now = 1010;
  faults = [];
}

abbrev world : World mock
world = record { db = database; fw = new_mock (text "p"); last_cleanup = 0 }

abbrev request : Text → Text → Request
request peer authorization = record {
  path = text "/api/knock";
  remote_addr = peer;
  authorization = authorization;
  x_real_ip = [];
  x_forwarded_for = [];
  x_totp_code = text "000000";
}

abbrev signed : Request
signed = request (text "192.0.2.1") (text "HMAC-SHA256 alice:1000:s")

client_ip_appended_example :
    client_ip lib.split_host_port lib.canonical_ip lib.trim cfg
      (record (request (text "127.0.0.1") []) {
        x_forwarded_for = text "6.6.6.6" ++ b',' ∷ text "192.0.2.9";
      })
    ≡ text "192.0.2.9"
unfolding is_trusted_proxy host_only Text-discrete nat_discrete
client_ip_appended_example =
    client_ip_appended lib.split_host_port lib.canonical_ip lib.trim cfg
      (request (text "127.0.0.1") []) (text "6.6.6.6") (text "192.0.2.9") refl refl refl
      (ground arith)

-- The knock logs calls of the mock: its state changes.
calls-knock : length (knock lib cfg mock (text "p") signed world).1.fw.calls ≡ 2
unfolding knock verify_hmac get_user_by_username has_prefix split_payload cut strip_prefix
    is_expired Text-discrete nat_discrete ℤ-discrete get_user_groups reconcile list_user_rules
    add_rule host_action new_mock open_groups open_step group_key record_ip_change claim_ip
    close_rules close_step comment_for host_only is_trusted_proxy is_remote auth_user knock_as
    check_ip_anomaly client_ip knock_user knock_recorded
calls-knock = refl

knocked : (knock lib cfg mock (text "p") signed world).1.fw ≢ world.fw
unfolding new_mock
knocked e = ground (arith, calls-knock, ap (λ m. length m.calls) e)

knock_proven_example :
    (name : Text) × Proves lib.parse_int lib.hmac signed.authorization cfg.signature_ttl database
      name
    × (is_remote lib cfg mock (text "p") (address lib cfg mock (text "p") signed) ≡ true)
knock_proven_example = knock_proven lib cfg mock (text "p") signed world knocked

consume_totp_counter_once_example :
    (consume_totp_counter (pos 1) (pos 33) (consume_totp_counter (pos 1) (pos 33) database).1).0
    ≢ ok true
unfolding consume_totp_counter ℤ-discrete nat_discrete
consume_totp_counter_once_example = consume_totp_counter_once (pos 1) (pos 33) database refl

step_up_proven_example :
    (counter : ℤ) × (verify_totp_counter lib.hmac_sha1 lib.decode lib.upper lib.trim
        (text "abc")
        (text "000000")
        1010
      ≡ some counter)
    × ((consume_totp_counter (pos 1) counter (totp_locked lib cfg mock alice world).1.db).0
        ≡ ok true)
unfolding step_up Text-discrete nat_discrete count_recent_user_failures verify_totp_counter hotp
    consume_totp_counter ℤ-discrete
step_up_proven_example = step_up_proven lib cfg mock signed alice [] world refl refl refl

-- A cap of two, and three codes that may be wrong.
abbrev capped : Config
capped = record cfg { throttle_max_failures = 2 }

abbrev codes : List (Request × Text × String)
codes =
    (signed, text "1", "stepup_failed")
    ∷ (signed, text "2", "totp_disable_failed")
    ∷ (signed, text "3", "stepup_failed")
    ∷ []

guesses_capped_example :
    guesses lib capped mock alice codes world + failures capped alice world.db ≤ 2
guesses_capped_example =
    guesses_capped lib capped mock alice codes world refl (omega arith) (omega arith)

-- Alice switches off her own membership.
any-toggle :
    any
      (λ m. m.enabled)
      (toggle_membership lib cfg mock
        (text "p")
        signed
        (some (pos 1))
        (some (pos 1))
        (some false)
        []
        world).1.db.memberships
    ≡ false
unfolding toggle_membership toggle_user requester_row toggle_as toggle_ids may_toggle toggle_allowed
    toggle_flag other_step_up toggle_checked target_group target_user toggle_target toggle_enable
    check_self_enable apply_toggle set_membership auth_user get_user_by_username is_expired
    split_payload has_prefix strip_prefix cut Text-discrete nat_discrete ℤ-discrete verify_hmac
    get_group get_user set_membership_enabled online log_audit
any-toggle = refl

switched_off :
    (toggle_membership lib cfg mock
      (text "p")
      signed
      (some (pos 1))
      (some (pos 1))
      (some false)
      []
      world).1.db.memberships
    ≢ database.memberships
switched_off e = ground (arith, any-toggle, ap (λ ms. any (λ m. m.enabled) ms) e)

toggle_permitted_example :
    (name : Text) × Proves lib.parse_int lib.hmac signed.authorization cfg.signature_ttl database
      name
    × ((requester : User) × Permits database name requester
          (some (pos 1))
          (some (pos 1))
          (some false))
toggle_permitted_example =
    toggle_permitted lib cfg mock (text "p") signed (some (pos 1)) (some (pos 1)) (some false) []
      world switched_off

-- A hub over the table of rules, with Alice at a recorded address.
abbrev hub : World (nft_backend table parse_ip is_v4 nft_prefix)
hub = record {
  db = record database { users = record alice { current_ip = some (text "192.0.2.1") } ∷ [] };
  fw = empty_table;
  last_cleanup = 1000;
}

maintain_exact_example :
    copies
      (record {
        ip = text "192.0.2.1";
        proto = tcp;
        user = text "alice";
        group = text "ssh";
        port = pos 22;
      })
      (managed table parse_ip is_v4 nft_prefix
        (maintain cfg (nft_backend table parse_ip is_v4 nft_prefix) hub).1.fw.rules)
    ≡ 1
unfolding local_rules key_of Key-discrete check_rule valid_name nat_discrete ℤ-discrete
    Text-discrete
maintain_exact_example =
    maintain_exact table parse_ip is_v4 nft_prefix cfg table_documented table_runs hub refl refl
      (((valid_name-IsPlain (text "alice") refl, valid_name-IsPlain (text "ssh") refl), refl), tt)
      (record {
        ip = text "192.0.2.1";
        proto = tcp;
        user = text "alice";
        group = text "ssh";
        port = pos 22;
      })
