-- ===== src/Db/Statements/OnUsers.antt =====
-- The statements on users (internal/db) keep the keys unique.
use nft_okboy_fleet.Prelude.{
  refl, inl, inr, Bool, true, false, not, none, some, ◌==◌, nat_discrete, Bool-discrete, Bool-cases,
  Option-cases, ℤ, ℤ-discrete, pos_part, count, keep, Text, Text-discrete,
}
use nft_okboy_fleet.Db.{find, Db, Result, ok}
use nft_okboy_fleet.Db.Users.{
  change_ip, claim, by_name, by_id, set_users, insert_user, create_user, delete_user,
  set_user_admin, rotate_secret, clear_user_state, set_user_ip, update_knock_time, record_ip_change,
  claim_ip, set_totp_secret, enable_totp, disable_totp, set_totp_last_counter, consume_totp_counter,
  same_ip, is_fresh,
}
use nft_okboy_fleet.Db.Unique.{keep-Unique, keep-Named}
use nft_okboy_fleet.Db.Keys.{
  UniqueKeys, member_of, query-UniqueKeys, users-UniqueKeys, sets-UniqueKeys,
  insert_user-UniqueKeys, write-UniqueKeys,
}
use nft_okboy_fleet.Db.Statements.{
  UserStatement, exec_user, creates_user, deletes_user, sets_user_admin, rotates_secret,
  clears_user_state, sets_user_ip, updates_knock_time, records_ip_change, sets_totp_secret,
  enables_totp, disables_totp, sets_totp_last_counter, consumes_totp_counter,
}

abbrev consumed : ℤ → ℤ → Db → Result Bool × Db
consumed id counter d = (
  ok (count (is_fresh id counter) d.users == 1),
  set_users (is_fresh id counter) (λ u. record u { totp_last_counter = pos_part counter }) d,
)

change_ip-UniqueKeys :
    (id : ℤ) (name ip : Text) (d : Db) → UniqueKeys d → UniqueKeys (change_ip id name ip d).1
unfolding change_ip claim_ip
change_ip-UniqueKeys id name ip d v = elim (Option-cases (find (by_id id) d.users)) [
  | inl nobody ↦ rw (change_ip, nobody) v
  | inr (u, e) ↦
      let set = users-UniqueKeys (by_id id) (claim ip d) d (λ u. refl) (λ u. refl) v in
      elim (Bool-cases (same_ip u.current_ip ip)) [
        | inl same ↦ rw (change_ip, e, same) set
        | inr moved ↦ rw (change_ip, e, moved) set
      ]
]

pub exec_user-UniqueKeys : (q : UserStatement) (d : Db) → UniqueKeys d → UniqueKeys (exec_user q d)
unfolding exec_user create_user delete_user set_user_admin rotate_secret clear_user_state
    set_user_ip update_knock_time record_ip_change set_totp_secret enable_totp disable_totp
    set_totp_last_counter consume_totp_counter
exec_user-UniqueKeys (creates_user name secret admin) d v =
    query-UniqueKeys (insert_user name secret admin) d (insert_user-UniqueKeys name secret admin) v
exec_user-UniqueKeys (deletes_user id) d v =
    write-UniqueKeys
      (λ d. record d {
        users = keep (λ u. not (by_id id u)) d.users;
        memberships = keep (λ m. not (m.user_id == id)) d.memberships;
      })
      d
      (λ d' (us, gs, ports, ms, ns, hs, ts). (
        keep-Named by_name by_id (λ u. not (by_id id u)) d'.next_user d'.users us,
        gs,
        ports,
        keep-Unique member_of (λ m. not (m.user_id == id)) d'.memberships ms,
        ns,
        hs,
        ts,
      ))
      v
exec_user-UniqueKeys (sets_user_admin id admin) d v =
    sets-UniqueKeys (by_id id) (λ u. record u { is_admin = admin }) d (λ u. refl) (λ u. refl) v
exec_user-UniqueKeys (rotates_secret id secret) d v =
    sets-UniqueKeys (by_id id) (λ u. record u { secret = secret }) d (λ u. refl) (λ u. refl) v
exec_user-UniqueKeys (clears_user_state id) d v =
    sets-UniqueKeys (by_id id) (λ u. record u { current_ip = none; last_knock = none }) d
      (λ u. refl) (λ u. refl) v
exec_user-UniqueKeys (sets_user_ip id ip) d v =
    sets-UniqueKeys (by_id id) (λ u. record u { current_ip = some ip }) d (λ u. refl) (λ u. refl) v
exec_user-UniqueKeys (updates_knock_time id ip) d v =
    write-UniqueKeys
      (λ d.
        set_users (by_id id) (λ u. record u { last_knock = some d.now; current_ip = some ip }) d)
      d
      (λ d' v'.
        users-UniqueKeys (by_id id)
          (λ u. record u { last_knock = some d'.now; current_ip = some ip }) d' (λ u. refl)
          (λ u. refl) v')
      v
exec_user-UniqueKeys (records_ip_change id name ip) d v =
    query-UniqueKeys (change_ip id name ip) d (change_ip-UniqueKeys id name ip) v
exec_user-UniqueKeys (sets_totp_secret id secret) d v =
    sets-UniqueKeys (by_id id)
      (λ u. record u { totp_secret = some secret; totp_enabled = false; totp_last_counter = 0 }) d
      (λ u. refl) (λ u. refl) v
exec_user-UniqueKeys (enables_totp id) d v =
    sets-UniqueKeys (by_id id) (λ u. record u { totp_enabled = true }) d (λ u. refl) (λ u. refl) v
exec_user-UniqueKeys (disables_totp id) d v =
    sets-UniqueKeys (by_id id) (λ u. record u { totp_secret = none; totp_enabled = false }) d
      (λ u. refl) (λ u. refl) v
exec_user-UniqueKeys (sets_totp_last_counter id last_counter) d v =
    sets-UniqueKeys (by_id id) (λ u. record u { totp_last_counter = last_counter }) d (λ u. refl)
      (λ u. refl) v
exec_user-UniqueKeys (consumes_totp_counter id counter) d v =
    query-UniqueKeys (consumed id counter) d
      (λ d' v'.
        users-UniqueKeys (is_fresh id counter)
          (λ u. record u { totp_last_counter = pos_part counter }) d' (λ u. refl) (λ u. refl) v')
      v
