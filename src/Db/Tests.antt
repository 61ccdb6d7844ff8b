-- ===== src/Db/Tests.antt =====
-- The desired state's theorems at a concrete database.
use nft_okboy_fleet.Prelude.{
  refl, true, false, none, some, [], ◌∷◌, arith, nat_discrete, Bool-discrete, pos, ℤ-discrete, All,
  Text-discrete, text,
}
use mathlib.Core.List.{Memᴰ, List}
use nft_okboy_fleet.Db.{User, Group, Membership, Db}
use nft_okboy_fleet.Db.Nodes.{local_rules, node_rules}
use nft_okboy_fleet.Db.Nodes.Desired.{IsEntitled, IsForNode, local_rules_sound, node_rules_sound}
use nft_okboy_fleet.Db.Nodes.Complete.{local_rules_complete}
use nft_okboy_fleet.Db.Keys.{UniqueKeys}
use nft_okboy_fleet.Db.Statements.{
  Statement, on_users, on_groups, run, creates_user, creates_group, adds_membership,
  records_ip_change, deletes_user, migrates_groups,
}
use nft_okboy_fleet.Db.Statements.Kept.{run-UniqueKeys}

abbrev alice : User
alice = record {
  id = pos 1;
  username = text "alice";
  secret = text "s";
  is_admin = false;
  current_ip = some (text "192.0.2.1");
  last_knock = some 1000;
  totp_secret = none;
  totp_enabled = false;
  totp_last_counter = 0;
}

abbrev ssh : Group
ssh = record { id = pos 1; name = text "ssh"; port = pos 22; proto = text "tcp" }

abbrev alice_ssh : Membership
alice_ssh = record { user_id = pos 1; group_id = pos 1; enabled = true }

abbrev database : Db
database = record {
  users = alice ∷ [];
  groups = ssh ∷ [];
  memberships = alice_ssh ∷ [];
  failed_attempts = [];
  operation_log = [];
  audit_log = [];
  nodes = [];
  group_targets =
      record { group_id = pos 1; node_id = pos 7; port = pos 2222; proto = text "tcp" } ∷ [];
  next_user = 2;
  next_group = 2;
  ports_unique = true;
  next_node = 8;
  now = 1010;
  faults = [];
}

local_rules_sound_example : All (IsEntitled database) (local_rules database)
local_rules_sound_example = local_rules_sound database

node_rules_sound_example : All (IsForNode database (pos 7)) (node_rules database (pos 7))
node_rules_sound_example = node_rules_sound database (pos 7)

local_rules_complete_example :
    Memᴰ
      (record {
        ip = text "192.0.2.1";
        port = pos 22;
        proto = text "tcp";
        user = text "alice";
        group = text "ssh";
      })
      (local_rules database)
local_rules_complete_example =
    local_rules_complete database ssh alice_ssh alice (text "192.0.2.1") (Memᴰ.head refl)
      (Memᴰ.head refl) (Memᴰ.head refl) refl refl refl refl (ground arith)

-- The tables of a new database.
abbrev fresh : Db
fresh = record {
  users = [];
  groups = [];
  memberships = [];
  failed_attempts = [];
  operation_log = [];
  audit_log = [];
  nodes = [];
  group_targets = [];
  next_user = 0;
  next_group = 0;
  ports_unique = false;
  next_node = 0;
  now = 1000;
  faults = false ∷ true ∷ [];
}

fresh-UniqueKeys : UniqueKeys fresh
fresh-UniqueKeys = (
  record { names = λ n. omega arith; ids = λ i. omega arith; below = λ n h. refl },
  record { names = λ n. omega arith; ids = λ i. omega arith; below = λ n h. refl },
  (λ on k. omega arith),
  (λ k. omega arith),
  record { names = λ n. omega arith; ids = λ i. omega arith; below = λ n h. refl },
  (λ k. omega arith),
  (λ k. omega arith),
)

-- Two insertions of one name, a failure, and a membership that is set twice.
abbrev script : List Statement
script =
    on_users (creates_user (text "alice") (text "s") false)
    ∷ on_groups migrates_groups
    ∷ on_groups (creates_group (text "ssh") (pos 22) (text "tcp"))
    ∷ on_users (creates_user (text "alice") (text "t") true)
    ∷ on_groups (creates_group (text "web") (pos 22) (text "tcp"))
    ∷ on_groups (adds_membership (pos 1) (pos 1) true)
    ∷ on_groups (adds_membership (pos 1) (pos 1) false)
    ∷ on_users (records_ip_change (pos 1) (text "alice") (text "192.0.2.1"))
    ∷ on_users (deletes_user (pos 1))
    ∷ []

run-UniqueKeys_example : UniqueKeys (run script fresh)
run-UniqueKeys_example = run-UniqueKeys script fresh fresh-UniqueKeys
