-- ===== src/Firewall/Stale/Addresses.antt =====
-- The addresses that CheckIPAnomaly reports (internal/firewall/manager.go).
use nft_okboy_fleet.Prelude.{
  length, ℕ, ◌≤◌, ◌<◌, ◌≡◌, refl, sym, ap, ◌∙◌, ◌⊎◌, inl, inr, Bool, true, false, ◌&&◌, ◌||◌, not,
  none, some, List, [], ◌∷◌, ◌++◌, map, arith, ltb, if◌then◌else◌, ◌==◌, nat_discrete,
  Bool-discrete, Bool-cases, ℤ-discrete, count, keep, has, Text, Text-discrete, count-append, ==_eq,
}
use nft_okboy_fleet.Db.{Db, User, ok, find, query}
use nft_okboy_fleet.Db.Users.{by_name, get_user_by_username}
use nft_okboy_fleet.Db.Logs.{is_change, count_recent_ip_changes, get_recent_ip_change_ips}
use nft_okboy_fleet.Firewall.Stale.{
  Anomaly, collect, current_list, check_changes, check_row, check_ip_anomaly,
}

abbrev one_if : Bool → ℕ
one_if b = if b then 1 else 0

has-append_one :
    (ip x : Text) (seen : List Text) → has ip (seen ++ x ∷ []) ≡ (has ip seen || (ip == x))
has-append_one ip x [] = ground arith
has-append_one ip x (y ∷ seen) = ground (arith, has-append_one ip x seen)

same_has : (ip x : Text) (seen : List Text) → (ip == x) ≡ true → has ip seen ≡ has x seen
same_has ip x seen h = ap (λ t. has t seen) (==_eq _ _ h)

same_blank : (ip x : Text) → (ip == x) ≡ true → (ip == []) ≡ (x == [])
same_blank ip x h = ap {A = Text} {B = Bool} (λ t. t == []) (==_eq _ _ h)

-- `collect` from a list without repetition: what it had, and each new address that is not empty.
abbrev Once : Text → List Text → Type 0
Once ip seen = count (λ x. ip == x) seen ≡ one_if (has ip seen)

Once-append :
    (ip x : Text) (seen : List Text) → Once ip seen → has x seen ≡ false → Once ip (seen ++ x ∷ [])
Once-append ip x seen once new = ground (
  arith,
  once,
  new,
  has-append_one ip x seen,
  same_has ip x seen,
  count-append (λ y. ip == y) seen (x ∷ []),
)

absorbed :
    (a e b r : Bool)
    → (e ≡ true → b ≡ true)
    → one_if (a || (not b && (e || r))) ≡ one_if (a || (not b && r))
absorbed a false b r h = refl
absorbed a true b r h = rw (h refl) refl

known :
    (a e b r : Bool)
    → (e ≡ true → a ≡ true)
    → one_if (a || (not b && (e || r))) ≡ one_if (a || (not b && r))
known a false b r h = refl
known a true b r h = rw (h refl) refl

joined :
    (a e b r : Bool)
    → (e ≡ true → b ≡ false)
    → one_if (a || (not b && (e || r))) ≡ one_if ((a || e) || (not b && r))
joined true e b r h = refl
joined false false b r h = refl
joined false true b r h = rw (h refl) refl

plain : (a b : Bool) → a ≡ (a || (not b && false))
plain true b = refl
plain false true = refl
plain false false = refl

and_false : (b : Bool) → (b && false) ≡ false
and_false true = refl
and_false false = refl

collect_lem :
    (ip : Text) (seen ips : List Text)
    → Once ip seen
    → count (λ x. ip == x) (collect seen ips)
      ≡ one_if (has ip seen || (not (ip == []) && has ip ips))
unfolding collect
collect_lem ip seen [] once = once ∙ ap one_if (plain (has ip seen) (ip == []))
collect_lem ip seen (x ∷ ips) once = elim (Bool-cases (has x seen)) [
  | inl old ↦
      rw
        (
          collect,
          old,
          known (has ip seen) (ip == x) (ip == []) (has ip ips) (λ e. same_has ip x seen e ∙ old),
          and_false (not (x == [])),
        )
        (collect_lem ip seen ips once)
  | inr new ↦ elim (Bool-cases (x == [])) [
    | inl blank ↦
        rw
          (
            collect,
            blank,
            absorbed (has ip seen) (ip == x) (ip == []) (has ip ips)
                (λ e. same_blank ip x e ∙ blank),
          )
          (collect_lem ip seen ips once)
    | inr real ↦
        rw
          (
            collect,
            new,
            real,
            joined (has ip seen) (ip == x) (ip == []) (has ip ips) (λ e. same_blank ip x e ∙ real),
            sym (has-append_one ip x seen),
          )
          (collect_lem ip (seen ++ x ∷ []) ips (Once-append ip x seen once new))
  ]
]

has-count : (ip : Text) (xs : List Text) → has ip xs ≡ ltb 0 (count (λ x. ip == x) xs)
has-count ip [] = refl
has-count ip (x ∷ xs) = ground (arith, has-count ip xs)

counted :
    (ip : Text) (xs : List Text) (b : Bool) → count (λ x. ip == x) xs ≡ one_if b → has ip xs ≡ b
counted ip xs true h = has-count ip xs ∙ ap (ltb 0) h
counted ip xs false h = has-count ip xs ∙ ap (ltb 0) h

shared : (n a c : Bool) → one_if ((n && a) || (n && c)) ≡ one_if (n && (a || c))
shared true a c = refl
shared false a c = refl

twice_lem :
    (ip : Text) (logged current : List Text)
    → count (λ x. ip == x) (collect (collect [] logged) current)
      ≡ one_if (not (ip == []) && (has ip logged || has ip current))
twice_lem ip logged current =
    let first = collect_lem ip [] logged refl in
    let held = counted ip (collect [] logged) (not (ip == []) && has ip logged) first in
    collect_lem ip (collect [] logged) current (first ∙ ap one_if (sym held))
    ∙ ap (λ b. one_if (b || (not (ip == []) && has ip current))) held
    ∙ shared (not (ip == [])) (has ip logged) (has ip current)

module _ (user : Text) (window max_changes : ℕ) (d : Db) (u : User) where
  abbrev pub changes : ℕ
  changes = count (is_change d user window) d.operation_log

  abbrev pub logged : List Text
  logged = map (λ c. c.ip) (keep (is_change d user window) d.operation_log)

  -- The anomaly that is reported: the number of the changes, and of the addresses those that are not
  -- empty and that a change or the user's row has, each once.
  abbrev pub Reports : Anomaly → Type 0
  Reports a =
      ((check_ip_anomaly user window max_changes d).0 ≡ some a)
      × (a.changes ≡ changes)
      × (a.unique_ips ≡ length a.ips)
      × ((ip : Text)
          → count (λ x. ip == x) a.ips ≡ (
              if not (ip == []) && (has ip logged || has ip (current_list u.current_ip))
              then 1
              else 0))

  row_lem : d.faults ≡ [] → get_user_by_username user d ≡ (ok (find (by_name user) d.users), d)
  unfolding get_user_by_username query
  row_lem sound = rw sound refl

  count_lem : d.faults ≡ [] → count_recent_ip_changes user window d ≡ (ok changes, d)
  unfolding count_recent_ip_changes query
  count_lem sound = rw sound refl

  ips_lem : d.faults ≡ [] → get_recent_ip_change_ips user window d ≡ (ok logged, d)
  unfolding get_recent_ip_change_ips query
  ips_lem sound = rw sound refl

  reported_lem :
      d.faults ≡ []
      → find (by_name user) d.users ≡ some u
      → ltb changes max_changes ≡ false
      → (check_ip_anomaly user window max_changes d).0
        ≡ some (record {
          changes = changes;
          window = window;
          unique_ips = length (collect (collect [] logged) (current_list u.current_ip));
          ips = collect (collect [] logged) (current_list u.current_ip);
        })
  unfolding check_ip_anomaly check_row check_changes
  reported_lem sound found many =
      rw
        (
          check_ip_anomaly,
          row_lem sound,
          found,
          check_row,
          count_lem sound,
          check_changes,
          many,
          ips_lem sound,
        )
        refl

  -- When no query fails and the user exists: CheckIPAnomaly reports an anomaly exactly from maxChanges
  -- changes in the window on, maxChanges itself included, although the comment above the function says
  -- that the changes must exceed it. The report has their number, and its list has every address that
  -- a change in the window or the user's row names, the empty one apart, exactly once, and no other.
  pub check_ip_anomaly_lem :
      d.faults ≡ []
      → find (by_name user) d.users ≡ some u
      → ((changes < max_changes) × ((check_ip_anomaly user window max_changes d).0 ≡ none))
        ⊎ ((max_changes ≤ changes) × ((a : Anomaly) × Reports a))
  unfolding check_ip_anomaly check_row check_changes
  check_ip_anomaly_lem sound found = elim (Bool-cases (ltb changes max_changes)) [
    | inl few ↦ inl (
      ground (arith, few),
      rw (check_ip_anomaly, row_lem sound, found, check_row, count_lem sound, check_changes, few)
          refl,
    )
    | inr many ↦ inr (
      ground (arith, many),
      (
        _,
        (
          reported_lem sound found many,
          refl,
          refl,
          λ ip. twice_lem ip logged (current_list u.current_ip),
        ),
      ),
    )
  ]
