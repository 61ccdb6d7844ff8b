-- ===== src/Db/Logs.antt =====
-- The logs and the counts over them (internal/db/db.go).
use nft_okboy_fleet.Prelude.{
  ℕ, zero, suc, ◌+◌, Bool, false, ◌&&◌, Option, none, some, List, [], ◌∷◌, ◌++◌, map, leb, ◌==◌,
  nat_discrete, Bool-discrete, ℤ, ℤ-discrete, count, keep, Text, Text-discrete,
}
use Prim.Native.String.{String}
use mathlib.Core.List.{reverse}
use nft_okboy_fleet.Db.{
  FailedAttempt, IpChange, Reason, Reason-discrete, Db, Query, query, read, write, AuditEntry,
}

unfoldable pub log_audit : Text → String → List Text → List ℤ → Option Bool → Query (Unit {0})
unfolding query
log_audit actor action target ids detail = write (λ d. record d {
  audit_log =
      d.audit_log
      ++ record {
        actor = actor;
        action = action;
        target = target;
        target_ids = ids;
        detail = detail;
      }
        ∷ [];
})

unfoldable pub record_failed_attempt : Option Text → Text → Reason → Query (Unit {0})
unfolding query
record_failed_attempt username ip reason = write (λ d. record d {
  failed_attempts =
      d.failed_attempts
      ++ record { username = username; ip = ip; reason = reason; created_at = d.now } ∷ [];
})

-- created_at >= datetime('now', '-<window> seconds')
abbrev pub is_recent : ℕ → ℕ → ℕ → Bool
is_recent now window created_at = leb now (created_at + window)

unfoldable pub count_recent_failed_attempts : Text → ℕ → Query ℕ
unfolding query
count_recent_failed_attempts ip window =
    read (λ d. count (λ a. (a.ip == ip) && is_recent d.now window a.created_at) d.failed_attempts)

abbrev pub names_user : Text → Option Text → Bool
names_user username none = false
names_user username (some name) = name == username

abbrev pub is_failure : Db → Text → Reason → ℕ → FailedAttempt → Bool
is_failure d username reason window a =
    names_user username a.username && (a.reason == reason) && is_recent d.now window a.created_at

unfoldable pub count_recent_user_failures : Text → Reason → ℕ → Query ℕ
unfolding query
count_recent_user_failures username reason window =
    read (λ d. count (is_failure d username reason window) d.failed_attempts)

abbrev pub is_change : Db → Text → ℕ → IpChange → Bool
is_change d username window c = (c.username == username) && is_recent d.now window c.created_at

unfoldable pub count_recent_ip_changes : Text → ℕ → Query ℕ
unfolding query
count_recent_ip_changes username window =
    read (λ d. count (is_change d username window) d.operation_log)

unfoldable pub get_recent_ip_change_ips : Text → ℕ → Query (List Text)
unfolding query
get_recent_ip_change_ips username window =
    read (λ d. map (λ c. c.ip) (keep (is_change d username window) d.operation_log))

-- … LIMIT n
abbrev pub take {ℓ} : {A : Type ℓ} → ℕ → List A → List A
take zero xs = []
take (suc n) [] = []
take (suc n) (x ∷ xs) = x ∷ take n xs

unfoldable pub list_audit : ℕ → Query (List AuditEntry)
unfolding query
list_audit limit = read (λ d. take limit (reverse d.audit_log))
