-- ===== src/Firewall/Ufw/Tests.antt =====
-- The ufw backend's theorems at a concrete listing with one managed rule.
use nft_okboy_fleet.Prelude.{
  ◌≡◌, ◌⊎◌, true, Option, none, some, List, [], ◌∷◌, ◌==◌, nat_discrete, Bool-discrete, pos,
  ℤ-discrete, Text, Text-discrete, text,
}
use nft_okboy_fleet.Firewall.{tcp, allow}
use nft_okboy_fleet.Firewall.Ufw.{
  Ufw, UfwLibrary, UfwCommand, status, status_numbered, allow_from, delete_rule,
}
use nft_okboy_fleet.Firewall.Ufw.Backend.{add_rule, delete_by_handle}
use nft_okboy_fleet.Firewall.Ufw.Deletion.{Deletes, delete_by_handle-Deletes}
use nft_okboy_fleet.Firewall.Ufw.Addition.{Allows, add_rule-Allows}

-- A host as its listing and the commands that changed it.
abbrev answer : UfwCommand → Text × List UfwCommand → Option Text × (Text × List UfwCommand)
answer status (output, log) = (some output, (output, log))
answer status_numbered (output, log) = (some output, (output, log))
answer (allow_from ip port proto comment) (output, log) =
    (some [], (output, allow_from ip port proto comment ∷ log))
answer (delete_rule num) (output, log) = (some [], (output, delete_rule num ∷ log))

abbrev ufw : Ufw
ufw = record { Host = Text × List UfwCommand; run = answer; lock = λ s. (true, s) }

-- The patterns and functions at the one line of the listing.
abbrev lib : UfwLibrary
lib = record {
  num_match = λ raw. some (text "1", raw);
  body_match = λ body. some (text "22", tcp, text "192.0.2.1");
  rule_match = λ body. none;
  action_of = λ word. allow;
  trim = λ s. s;
  trim_right = λ s. s;
  atoi = λ s. some (pos 22);
  itoa = λ n. text "22";
  parse_ip = λ s. some s;
  ip_equal = λ a b. a == b;
  fnv64a = λ s. 7;
}

abbrev prefix : Text
prefix = text "okboy"

abbrev host : Text × List UfwCommand
host = (text "22/tcp ALLOW IN 192.0.2.1 #okboy:alice:ssh", [])

delete_by_handle-Deletes_example :
    ((delete_by_handle ufw lib prefix (pos 7) host).1 ≡ host)
    ⊎ ((true ≡ true)
        × (((delete_by_handle ufw lib prefix (pos 7) host).1 ≡ host)
            ⊎ Deletes ufw lib prefix (pos 7) host (delete_by_handle ufw lib prefix (pos 7) host).1))
delete_by_handle-Deletes_example = delete_by_handle-Deletes ufw lib prefix (pos 7) host

abbrev for_bob : Text × List UfwCommand
for_bob = (add_rule ufw lib prefix (text "192.0.2.2") (pos 22) (text "bob") tcp (text "ssh") host).1

add_rule-Allows_example :
    (for_bob ≡ host)
    ⊎ ((true ≡ true)
        × ((for_bob ≡ host)
            ⊎ Allows ufw lib prefix
                (text "192.0.2.2")
                (text "bob")
                tcp
                (text "ssh")
                (pos 22)
                host
                for_bob))
add_rule-Allows_example =
    add_rule-Allows ufw lib prefix (text "192.0.2.2") (text "bob") tcp (text "ssh") (pos 22) host
