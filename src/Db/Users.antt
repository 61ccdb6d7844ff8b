-- ===== src/Db/Users.antt =====
-- Users and TOTP columns (internal/db/db.go).
use nft_okboy_fleet.Prelude.{
  ℕ, ◌+◌, Bool, true, false, ◌&&◌, not, Option, none, some, List, [], ◌∷◌, ◌++◌, if◌then◌else◌,
  ◌==◌, nat_discrete, Bool-discrete, ℤ, pos, ℤ-discrete, pos_part, ltℤ, count, keep, any, Text,
  Text-discrete,
}
use nft_okboy_fleet.Db.{
  User, Db, not_unique, storage, ok, err, Result, Query, query, read, write, find, update, ltℤ,
  pos_part,
}

abbrev pub by_id : ℤ → User → Bool
by_id id u = u.id == id

abbrev pub by_name : Text → User → Bool
by_name username u = u.username == username

abbrev pub set_users : (User → Bool) → (User → User) → Db → Db
set_users p f d = record d { users = update p f d.users }

-- UNIQUE (username) of users
abbrev pub user_taken : Text → Db → Bool
user_taken username d = any (by_name username) d.users

-- INSERT INTO users, with the defaults of the table
abbrev pub insert_user : Text → Text → Bool → Db → Result ℤ × Db
insert_user username secret is_admin d = if user_taken username d then (err not_unique, d) else (
  ok (pos (d.next_user + 1)),
  record d {
    next_user = d.next_user + 1;
    users =
        d.users
        ++ record {
          id = pos (d.next_user + 1);
          username = username;
          secret = secret;
          is_admin = is_admin;
          current_ip = none;
          last_knock = none;
          totp_secret = none;
          totp_enabled = false;
          totp_last_counter = 0;
        }
          ∷ [];
  },
)

unfoldable pub create_user : Text → Text → Bool → Query ℤ
unfolding query
create_user username secret is_admin = query (insert_user username secret is_admin)

unfoldable pub get_user_by_username : Text → Query (Option User)
unfolding query
get_user_by_username username = read (λ d. find (by_name username) d.users)

unfoldable pub get_user : ℤ → Query (Option User)
unfolding query
get_user id = read (λ d. find (by_id id) d.users)

unfoldable pub list_users : Query (List User)
unfolding query
list_users = read (λ d. d.users)

-- DELETE FROM users, which cascades to the memberships
unfoldable pub delete_user : ℤ → Query (Unit {0})
unfolding query
delete_user id = write (λ d. record d {
  users = keep (λ u. not (by_id id u)) d.users;
  memberships = keep (λ m. not (m.user_id == id)) d.memberships;
})

unfoldable pub set_user_admin : ℤ → Bool → Query (Unit {0})
unfolding query
set_user_admin id is_admin = write (set_users (by_id id) (λ u. record u { is_admin = is_admin }))

unfoldable pub rotate_secret : ℤ → Text → Query (Unit {0})
unfolding query
rotate_secret id secret = write (set_users (by_id id) (λ u. record u { secret = secret }))

unfoldable pub clear_user_state : ℤ → Query (Unit {0})
unfolding query
clear_user_state id =
    write (set_users (by_id id) (λ u. record u { current_ip = none; last_knock = none }))

abbrev pub same_ip : Option Text → Text → Bool
same_ip none ip = false
same_ip (some prior) ip = prior == ip

abbrev pub claim : Text → Db → User → User
claim ip d u = record u { current_ip = some ip; last_knock = some d.now }

-- What the statements of RecordIPChange's transaction do to a user that is there.
unfoldable pub claim_ip : ℤ → Text → Text → User → Db → Db
claim_ip user_id username ip u d =
    let d' = set_users (by_id user_id) (claim ip d) d in
    if same_ip u.current_ip ip then d' else record d' {
      operation_log =
          d.operation_log
          ++ record { username = username; ip = ip; old = u.current_ip; created_at = d.now } ∷ [];
    }

-- RecordIPChange: one transaction, which a failure anywhere rolls back; a user that is not there
-- makes the first statement fail.
unfoldable pub change_ip : ℤ → Text → Text → Db → Result (Option Text) × Db
unfolding claim_ip
change_ip user_id username ip d = elim (find (by_id user_id) d.users) [
  | none ↦ (err storage, d)
  | some u ↦ (ok u.current_ip, claim_ip user_id username ip u d)
]

unfoldable pub record_ip_change : ℤ → Text → Text → Query (Option Text)
unfolding query change_ip
record_ip_change user_id username ip = query (change_ip user_id username ip)

unfoldable pub set_totp_secret : ℤ → Text → Query (Unit {0})
unfolding query
set_totp_secret id secret = write (
    set_users (by_id id)
      (λ u. record u { totp_secret = some secret; totp_enabled = false; totp_last_counter = 0 }))

unfoldable pub enable_totp : ℤ → Query (Unit {0})
unfolding query
enable_totp id = write (set_users (by_id id) (λ u. record u { totp_enabled = true }))

unfoldable pub disable_totp : ℤ → Query (Unit {0})
unfolding query
disable_totp id =
    write (set_users (by_id id) (λ u. record u { totp_secret = none; totp_enabled = false }))

-- The rows that the UPDATE of ConsumeTOTPCounter changes.
abbrev pub is_fresh : ℤ → ℤ → User → Bool
is_fresh id counter u = by_id id u && ltℤ (pos u.totp_last_counter) counter

unfoldable pub consume_totp_counter : ℤ → ℤ → Query Bool
unfolding query nat_discrete
consume_totp_counter id counter = query (λ d. (
  ok (count (is_fresh id counter) d.users == 1),
  set_users (is_fresh id counter) (λ u. record u { totp_last_counter = pos_part counter }) d,
))

unfoldable pub set_user_ip : ℤ → Text → Query (Unit {0})
unfolding query
set_user_ip id ip = write (set_users (by_id id) (λ u. record u { current_ip = some ip }))

unfoldable pub update_knock_time : ℤ → Text → Query (Unit {0})
unfolding query
update_knock_time id ip =
    write (λ d.
      set_users (by_id id) (λ u. record u { last_knock = some d.now; current_ip = some ip }) d)

abbrev pub recorded_ip : Option User → Option Text
recorded_ip none = none
recorded_ip (some u) = u.current_ip

unfoldable pub get_user_ip : Text → Query (Option Text)
unfolding query
get_user_ip username = read (λ d. recorded_ip (find (by_name username) d.users))

unfoldable pub set_totp_last_counter : ℤ → ℕ → Query (Unit {0})
unfolding query
set_totp_last_counter id counter =
    write (set_users (by_id id) (λ u. record u { totp_last_counter = counter }))
