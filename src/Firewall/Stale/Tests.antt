-- ===== src/Firewall/Stale/Tests.antt =====
-- CheckIPAnomaly's theorem at a concrete database with two changes of one user.
use nft_okboy_fleet.Prelude.{
  true, ◌≡◌, refl, ◌⊎◌, ◌≤◌, ◌<◌, false, none, some, [], ◌∷◌, pos, arith, Text, text,
}
use nft_okboy_fleet.Db.{User, IpChange, Db}
use nft_okboy_fleet.Firewall.Stale.{Anomaly, check_ip_anomaly}
use nft_okboy_fleet.Firewall.Stale.Addresses.{changes, Reports, check_ip_anomaly_lem}

abbrev bob : User
bob = record {
  id = pos 1;
  username = text "bob";
  secret = text "s";
  is_admin = false;
  current_ip = some (text "192.0.2.1");
  last_knock = some 1000;
  totp_secret = none;
  totp_enabled = false;
  totp_last_counter = 0;
}

abbrev change : Text → IpChange
change ip = record { username = text "bob"; ip = ip; old = none; created_at = 1000 }

abbrev roaming : Db
roaming = record {
  users = bob ∷ [];
  groups = [];
  memberships = [];
  failed_attempts = [];
  operation_log = change (text "192.0.2.1") ∷ change (text "192.0.2.2") ∷ [];
  audit_log = [];
  nodes = [];
  group_targets = [];
  next_user = 2;
  next_group = 1;
  ports_unique = true;
  next_node = 1;
  now = 1010;
  faults = [];
}

check_ip_anomaly_lem_example :
    ((changes (text "bob") 60 2 roaming bob < 2)
      × ((check_ip_anomaly (text "bob") 60 2 roaming).0 ≡ none))
    ⊎ ((2 ≤ changes (text "bob") 60 2 roaming bob)
        × ((a : Anomaly) × Reports (text "bob") 60 2 roaming bob a))
check_ip_anomaly_lem_example =
    check_ip_anomaly_lem (text "bob") 60 2 roaming bob refl (ground arith)
