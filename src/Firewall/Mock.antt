-- ===== src/Firewall/Mock.antt =====
-- The in-memory backend (internal/firewall/mock.go), which also serves hosts that are not Linux.
pub mod Lawful
use nft_okboy_fleet.Prelude.{
  ℕ, ℤ, pos, ℤ-discrete, Text, Text-discrete, Bool, true, false, Option, none, some, List, [], ◌∷◌,
  ◌++◌, ◌+◌, ◌&&◌, ◌==◌, if◌then◌else◌, keep, has_prefix,
}
use nft_okboy_fleet.Firewall.{
  Rule, PortProto, Action, FwError, inactive, host_rule, Listing, listed, unlisted, FirewallBackend,
}
use nft_okboy_fleet.Firewall.Comment.{comment_for, managed_prefix, user_prefix}

-- endpoint(ip, port, proto), the key of HostRules
pub record Endpoint : Type 0 where
  pub ip : Text
  pub port : ℤ
  pub proto : Text

instance unfoldable pub Endpoint-discrete : Discrete Endpoint
unfolding Text-discrete ℤ-discrete
Endpoint-discrete = hlevel (Text-discrete, ℤ-discrete)

-- The entries of Calls, the log that tests read.
pub data Call : Type 0 where
  synced_guard ensured_base : Call
  added removed missed : Text → Endpoint → Call
  listed_user : Text → Call
  deleted delete_missed : ℤ → Call

pub record MockBackend : Type 0 where
  pub prefix : Text
  pub next : ℕ
  pub rules : List Rule
  pub calls : List Call
  pub guarded : List PortProto
  pub down : Bool
  pub host_rules : List (Endpoint × Action)

-- m.HostRules[endpoint]
unfoldable pub host_action : Endpoint → List (Endpoint × Action) → Option Action
host_action e [] = none
host_action e ((f, a) ∷ rest) = if f == e then some a else host_action e rest

-- The rules without the first that passes the test; `none` when none does.
unfoldable pub drop_first : (Rule → Bool) → List Rule → Option (List Rule)
drop_first p [] = none
drop_first p (r ∷ rs) =
    if p r then some rs else elim (drop_first p rs) [ none ↦ none | some rest ↦ some (r ∷ rest) ]

unfoldable pub new_mock : Text → MockBackend
new_mock prefix = record {
  prefix = prefix;
  next = 1;
  rules = [];
  calls = [];
  guarded = [];
  down = false;
  host_rules = [];
}

abbrev pub logged : Call → MockBackend → MockBackend
logged c m = record m { calls = m.calls ++ c ∷ [] }

unfoldable pub sync_guard : List PortProto → MockBackend → Option FwError × MockBackend
sync_guard ports m = (none, logged synced_guard (record m { guarded = ports }))

unfoldable pub ensure_base : MockBackend → Option FwError × MockBackend
ensure_base m = (none, logged ensured_base m)

abbrev pub new_rule : Text → ℤ → Text → Text → Text → MockBackend → Rule
new_rule ip port user proto group m = record {
  handle = pos m.next;
  ip = ip;
  port = port;
  proto = proto;
  user = user;
  group = group;
  comment = comment_for m.prefix user group;
}

abbrev pub endpoint : Text → ℤ → Text → Endpoint
endpoint ip port proto = record { ip = ip; port = port; proto = proto }

unfoldable pub add_rule : Text → ℤ → Text → Text → Text → MockBackend → Option FwError × MockBackend
add_rule ip port user proto group m =
    if m.down
    then (some inactive, m)
    else (elim (host_action (endpoint ip port proto) m.host_rules) [
      | some action ↦ (some (host_rule action), m)
      | none ↦ (
        none,
        logged (added group (endpoint ip port proto)) (record m {
          next = m.next + 1;
          rules = m.rules ++ new_rule ip port user proto group m ∷ [];
        }),
      )
    ])

abbrev pub is_rule : Text → ℤ → Text → Text → Rule → Bool
is_rule ip port proto want r =
    (r.ip == ip) && (r.port == port) && (r.proto == proto) && (r.comment == want)

unfoldable pub remove_rule :
    Text → ℤ → Text → Text → Text → MockBackend → Option FwError × MockBackend
remove_rule ip port user proto group m =
    if m.down
    then (some inactive, m)
    else (elim (drop_first (is_rule ip port proto (comment_for m.prefix user group)) m.rules) [
      | some rules ↦
          (none, logged (removed group (endpoint ip port proto)) (record m { rules = rules }))
      | none ↦ (none, logged (missed group (endpoint ip port proto)) m)
    ])

unfoldable pub list_user_rules : Text → MockBackend → Listing × MockBackend
list_user_rules user m = if m.down then (unlisted inactive, m) else (
  listed (keep (λ r. has_prefix r.comment (user_prefix m.prefix user)) m.rules),
  logged (listed_user user) m,
)

unfoldable pub delete_by_handle : ℤ → MockBackend → Option FwError × MockBackend
delete_by_handle handle m =
    if m.down then (some inactive, m) else (elim (drop_first (λ r. r.handle == handle) m.rules) [
      | some rules ↦ (none, logged (deleted handle) (record m { rules = rules }))
      | none ↦ (none, logged (delete_missed handle) m)
    ])

-- The rules whose comment starts with the prefix.
abbrev pub managed : MockBackend → List Rule
managed m = keep (λ r. has_prefix r.comment (managed_prefix m.prefix)) m.rules

unfoldable pub list_managed : MockBackend → Listing × MockBackend
list_managed m = if m.down then (unlisted inactive, m) else (listed (managed m), m)

abbrev pub mock : FirewallBackend
mock = record {
  State = MockBackend;
  ensure_base = ensure_base;
  add_rule = add_rule;
  remove_rule = remove_rule;
  list_user_rules = list_user_rules;
  delete_by_handle = delete_by_handle;
  list_managed = list_managed;
  merges_same_match = false;
  sync_guard = some sync_guard;
}
