-- ===== src/Server/Handler.antt =====
-- Handlers: steps on the server's state that may answer early (the `return` after errJSON or
-- writeJSON), and the functions of libraries that the handlers call.
pub mod Steps
pub mod Frame
use nft_okboy_fleet.Prelude.{
  ℕ, Bool, true, false, Option, none, some, List, nat_discrete, Bool-discrete, ℤ, ℤ-discrete, Text,
  Text-discrete,
}
use nft_okboy_fleet.Auth.{Message, Verdict, granted, refused}
use nft_okboy_fleet.Db.Nodes.{DesiredRule}
use nft_okboy_fleet.Db.Groups.{UserGroupState}
use nft_okboy_fleet.Db.{Group, AuditEntry, Db, Result, ok, err, Query}
use nft_okboy_fleet.Firewall.{PortProto, FirewallBackend, FwError}
use nft_okboy_fleet.Server.{World}
use Prim.Native.String.{String}

-- Packages of Go and the network's functions, each named after the function it stands for.
pub record Library : Type 0 where
  pub split_host_port : Text → Option Text
  pub canonical_ip : Text → Text
  pub trim : Text → Text
  pub parse_ip : Text → Option Text
  pub is_loopback : Text → Bool
  pub is_unspecified : Text → Bool
  pub parse_int : Text → Option ℤ
  pub hmac : Text → Text → Text
  pub hmac_sha1 : Text → Text → Text
  pub decode : Text → Option Text
  pub upper : Text → Text
  pub hash_token : Text → Text
  pub atoi : Text → Option ℤ

pub data Warning : Type 0 where
  not_active : Warning
  denies_address : Text → ℤ → Text → Warning
  suspicious : ℕ → ℕ → ℕ → Warning
  removal_failed : List FwError → Warning

-- What status tells a user of their own state.
pub record StateReport : Type 0 where
  pub username : Text
  pub is_admin : Bool
  pub totp_enabled : Bool
  pub enabled_groups : List Group
  pub ip : Option Text
  pub last_knock : Option ℕ
  pub ip_changes_recent : ℕ

-- userPublic's fields; created_at is not modelled.
pub record PublicUser : Type 0 where
  pub id : ℤ
  pub username : Text
  pub is_admin : Bool
  pub current_ip : Option Text
  pub last_knock : Option ℕ
  pub totp_enabled : Bool
  pub totp_last_counter : ℕ

-- A row of the fleet view.
pub record NodeView : Type 0 where
  pub id : ℤ
  pub name : Text
  pub last_seen : Option ℕ
  pub online : Bool
  pub version : Option Text
  pub backend : Option Text
  pub rule_count : ℕ

-- Responses, by their status and the fields that the handlers compute.
pub data Response : Type 0 where
  failure : ℕ → String → Response
  unauthorized admin_refused : Message → Response
  totp_required totp_enroll_required : String → Response
  heartbeat : Text → List Warning → Response
  updated : Text → Option Text → List Text → List Warning → Response
  done : List ℤ → List Warning → Response
  rotated : ℤ → Option Text → List Warning → Response
  state_of : StateReport → Response
  groups_of : Text → List (Group × Bool) → Response
  group_created : ℤ → Text → ℤ → Text → Response
  node_state : Text → List (DesiredRule × Text) → List PortProto → Response
  fleet : List NodeView → Response
  users_listed : List PublicUser → Response
  states_listed : ℤ → List UserGroupState → Response
  groups_listed : List Group → Response
  audit_listed : List AuditEntry → Response

pub data Step {ℓ} (A : Type ℓ) : Type ℓ where
  answered : Response → Step A
  next : A → Step A

abbrev pub Handler {ℓ} : FirewallBackend → Type ℓ → Type ℓ
Handler be A = World be → Step A × World be

unfoldable pub continue {ℓ κ} :
    {be : FirewallBackend} {A : Type ℓ} {B : Type κ}
    → (A → Handler be B)
    → Step A × World be
    → Step B × World be
continue k (answered r, w) = (answered r, w)
continue k (next a, w) = k a w

infixl 15 ◌>>=◌
unfoldable pub ◌>>=◌ {ℓ κ} :
    {be : FirewallBackend} {A : Type ℓ} {B : Type κ}
    → Handler be A
    → (A → Handler be B)
    → Handler be B
unfolding continue
(m >>= k) w = continue k (m w)

infixl 15 ◌>>◌
unfoldable pub ◌>>◌ {ℓ κ} :
    {be : FirewallBackend} {A : Type ℓ} {B : Type κ} → Handler be A → Handler be B → Handler be B
unfolding ◌>>=◌
m >> k = m >>= λ _. k

unfoldable pub pure {ℓ} : {be : FirewallBackend} {A : Type ℓ} → A → Handler be A
pure a w = (next a, w)

unfoldable pub answer {ℓ} : {be : FirewallBackend} {A : Type ℓ} → Response → Handler be A
answer r w = (answered r, w)

-- Answers unless the test holds.
unfoldable pub require : {be : FirewallBackend} → Bool → Response → Handler be (Unit {0})
require true r w = (next tt, w)
require false r w = (answered r, w)

-- A query whose error the handler reads.
unfoldable pub attempt {ℓ} : {be : FirewallBackend} {A : Type ℓ} → Query A → Handler be (Result A)
attempt q w = let (a, d) = q w.db in (next a, record w { db = d })

unfoldable pub ok_or_500 {ℓ} :
    {be : FirewallBackend} {A : Type ℓ} → Result A → World be → Step A × World be
ok_or_500 (ok a) w = (next a, w)
ok_or_500 (err e) w = (answered (failure 500 "Internal error"), w)

-- A query whose error answers 500.
unfoldable pub internal {ℓ} : {be : FirewallBackend} {A : Type ℓ} → Query A → Handler be A
unfolding ok_or_500
internal q w = let (a, d) = q w.db in ok_or_500 a (record w { db = d })

-- A query whose error is ignored: `_ = s.db.…`
unfoldable pub quietly {ℓ} : {be : FirewallBackend} {A : Type ℓ} → Query A → Handler be (Unit {0})
quietly q w = (next tt, record w { db = (q w.db).1 })

unfoldable pub found {ℓ} : {be : FirewallBackend} {A : Type ℓ} → Response → Option A → Handler be A
found r none w = (answered r, w)
found r (some a) w = (next a, w)

unfoldable pub firewall {ℓ} :
    {be : FirewallBackend} {A : Type ℓ} → (be.State → A × be.State) → Handler be A
firewall f w = let (a, s) = f w.fw in (next a, record w { fw = s })

-- A function of the verdict's query, with the response for a refusal.
unfoldable pub settle {ℓ} :
    {be : FirewallBackend} {A : Type ℓ}
    → (Message → Response)
    → Verdict A
    → World be
    → Step A × World be
settle r (refused m) w = (answered (r m), w)
settle r (granted a) w = (next a, w)

unfoldable pub judged {ℓ} :
    {be : FirewallBackend} {A : Type ℓ}
    → (Message → Response)
    → (Db → Verdict A × Db)
    → Handler be A
unfolding settle
judged r f w = let (v, d) = f w.db in settle r v (record w { db = d })
