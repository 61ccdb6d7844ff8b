-- ===== src/Firewall.antt =====
-- internal/firewall/backend.go and nft.go: the rules, the errors and the interface of a backend.
pub mod Comment
pub mod Names
pub mod Lawful
pub mod ReconcileAll
pub mod Mock
pub mod None
pub mod Manager
pub mod Guard
pub mod Stale
pub mod Nft
pub mod Ufw
pub mod Tests
use nft_okboy_fleet.Prelude.{
  ℕ, ℤ, pos, Text, Text-discrete, ℤ-discrete, Bool, true, false, Option, none, some, List, [], ◌∷◌,
  ltℤ, ◌==◌, ◌||◌, ◌&&◌, not, if◌then◌else◌, text,
}

pub record Rule : Type 0 where
  pub handle : ℤ
  pub ip : Text
  pub port : ℤ
  pub proto : Text
  pub user : Text
  pub group : Text
  pub comment : Text

pub record PortProto : Type 0 where
  pub port : ℤ
  pub proto : Text

instance unfoldable pub PortProto-discrete : Discrete PortProto
unfolding Text-discrete ℤ-discrete
PortProto-discrete = hlevel (Text-discrete, ℤ-discrete)

-- The action of a rule of the host's own.
pub data Action : Type 0 where
  allow deny reject limit : Action

-- The errors that the callers tell apart: ErrInactive, a *HostRuleError, any other.
pub data FwError : Type 0 where
  inactive : FwError
  host_rule : Action → FwError
  failed : FwError

-- errors.Is(err, ErrHostRule), errors.Is(err, ErrInactive)
abbrev pub is_host_rule : FwError → Bool
is_host_rule (host_rule a) = true
is_host_rule inactive = false
is_host_rule failed = false

abbrev pub is_inactive : FwError → Bool
is_inactive inactive = true
is_inactive (host_rule a) = false
is_inactive failed = false

-- A result with an error: `(value, nil)` or `(nil, err)`.
pub data Listing : Type 0 where
  listed : List Rule → Listing
  unlisted : FwError → Listing

-- The interface FirewallBackend, with its optional parts: `sync_guard` is that of Guard (`none` for
-- a backend that has none) and `merges_same_match` that of sameMatchMerger (false without it).
-- An operation that returns only an error returns `none` for nil.
pub record FirewallBackend : Type 1 where
  pub State : Type 0
  pub ensure_base : State → Option FwError × State
  pub add_rule : Text → ℤ → Text → Text → Text → State → Option FwError × State
  pub remove_rule : Text → ℤ → Text → Text → Text → State → Option FwError × State
  pub list_user_rules : Text → State → Listing × State
  pub delete_by_handle : ℤ → State → Option FwError × State
  pub list_managed : State → Listing × State
  pub merges_same_match : Bool
  pub sync_guard : Option (List PortProto → State → Option FwError × State)

abbrev pub tcp : Text
tcp = text "tcp"

abbrev pub udp : Text
udp = text "udp"

-- The test that checkRule, guardLayout and the agent share.
abbrev pub port_in_range : ℤ → Bool
port_in_range port = not (ltℤ port (pos 1) || ltℤ (pos 65535) port)

abbrev pub known_proto : Text → Bool
known_proto proto = (proto == tcp) || (proto == udp)

-- checkRule: `parse_ip` is net.ParseIP with nil as `none`. The result is the error's presence.
unfoldable pub check_rule : (Text → Option Text) → Text → ℤ → Text → Option FwError
check_rule parse_ip ip port proto = elim (parse_ip ip) [
  | none ↦ some failed
  | some _ ↦
      if not (port_in_range port)
      then some failed
      else if not (known_proto proto)
      then some failed
      else none
]
