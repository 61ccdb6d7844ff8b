-- ===== src/Db.antt =====
-- The store (internal/db/models.go and the tables of db/schema.go) and how a query runs. SQLite is outside:
-- `faults` says of each coming query whether it fails. A failed query changes nothing. `now` is the
-- clock, in Unix seconds, for Go and SQLite alike. `ports_unique` says whether migrate004GroupsUnique
-- has made the index on the ports of groups.
pub mod Users
pub mod Groups
pub mod Logs
pub mod Nodes
pub mod Unique
pub mod Keys
pub mod Statements
mod Tests
use nft_okboy_fleet.Prelude.{
  ℕ, zero, suc, ◌+◌, ◌-◌, ◌*◌, ◌/◌, ◌%◌, ◌^◌, ◌≤◌, ◌<◌, ◌≡◌, refl, sym, ap, ◌∙◌, ◌≢◌, ◌↔◌, ◌⊎◌, inl,
  inr, Bool, true, false, ◌&&◌, ◌||◌, not, Option, none, some, List, [], ◌∷◌, ◌++◌, map, arith, ltb,
  leb, if◌then◌else◌, ◌==◌, ==_refl, nat_discrete, Bool-discrete, Bool-cases, Option-cases, is_some,
  ℤ, pos, negsuc, ℤ-discrete, pos_part, neg_part, sub_ℕ, ◌-ℤ◌, ltℤ, leℤ, wrap64, neg64, length,
  count, keep, any, null, All, All-append, has, Text, Text-discrete, text, has_prefix, strip_prefix,
  cut, count_ext, count-keep, count-le, count_mono, count-append,
}
use Prim.Native.String.{String}

pub record User : Type 0 where
  pub id : ℤ
  pub username : Text
  pub secret : Text
  pub is_admin : Bool
  pub current_ip : Option Text
  pub last_knock : Option ℕ
  pub totp_secret : Option Text
  pub totp_enabled : Bool
  pub totp_last_counter : ℕ

pub record Group : Type 0 where
  pub id : ℤ
  pub name : Text
  pub port : ℤ
  pub proto : Text

pub record Membership : Type 0 where
  pub user_id : ℤ
  pub group_id : ℤ
  pub enabled : Bool

-- The reasons of failed attempts, which the program takes from a fixed set of messages.
pub data Reason : Type 0 where
  bad_header malformed_payload invalid_timestamp signature_expired unknown_user : Reason
  invalid_signature admin_required invalid_totp : Reason

instance unfoldable pub Reason-discrete : Discrete Reason
Reason-discrete = hlevel

pub record FailedAttempt : Type 0 where
  pub username : Option Text
  pub ip : Text
  pub reason : Reason
  pub created_at : ℕ

-- A row of operation_log with action 'ip_change', the only action that is written.
pub record IpChange : Type 0 where
  pub username : Text
  pub ip : Text
  pub old : Option Text
  pub created_at : ℕ

-- A row of audit_log. Targets and details are texts composed of these values.
pub record AuditEntry : Type 0 where
  pub actor : Text
  pub action : String
  pub target : List Text
  pub target_ids : List ℤ
  pub detail : Option Bool

pub record Node : Type 0 where
  pub id : ℤ
  pub name : Text
  pub token_hash : Text
  pub last_seen : Option ℕ
  pub agent_version : Option Text
  pub agent_backend : Option Text

pub record GroupTarget : Type 0 where
  pub group_id : ℤ
  pub node_id : ℤ
  pub port : ℤ
  pub proto : Text

pub record Db : Type 0 where
  pub users : List User
  pub groups : List Group
  pub memberships : List Membership
  pub failed_attempts : List FailedAttempt
  pub operation_log : List IpChange
  pub audit_log : List AuditEntry
  pub nodes : List Node
  pub group_targets : List GroupTarget
  pub ports_unique : Bool
  pub next_user : ℕ
  pub next_group : ℕ
  pub next_node : ℕ
  pub now : ℕ
  pub faults : List Bool

-- A UNIQUE constraint that does not hold, or any other failure.
pub data DbError : Type 0 where
  not_unique storage : DbError

pub data Result {ℓ} (A : Type ℓ) : Type ℓ where
  ok : A → Result A
  err : DbError → Result A

abbrev pub Query {ℓ} : Type ℓ → Type ℓ
Query A = Db → Result A × Db

-- Runs a statement unless SQLite fails on it.
unfoldable pub query {ℓ} : {A : Type ℓ} → (Db → Result A × Db) → Query A
query q d = elim d.faults [
  | [] ↦ q d
  | fault ∷ faults ↦
      let d' = record d { faults = faults } in if fault then (err storage, d') else q d'
]

-- A statement that only reads, and one that writes without a constraint.
abbrev pub read {ℓ} : {A : Type ℓ} → (Db → A) → Query A
read f = query (λ d. (ok (f d), d))

abbrev pub write : (Db → Db) → Query (Unit {0})
write f = query (λ d. (ok tt, f d))

-- The first row that passes the test, as QueryRow scans it; `none` is sql.ErrNoRows.
abbrev pub find {ℓ} : {A : Type ℓ} → (A → Bool) → List A → Option A
find p [] = none
find p (x ∷ xs) = if p x then some x else find p xs

-- UPDATE … SET … WHERE: the rows that pass the test are changed.
abbrev pub update {ℓ} : {A : Type ℓ} → (A → Bool) → (A → A) → List A → List A
update p f = map (λ x. if p x then f x else x)
