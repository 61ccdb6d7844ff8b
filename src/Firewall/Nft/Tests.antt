-- ===== src/Firewall/Nft/Tests.antt =====
-- A table of rules that runs every program, as an nft, and the nftables backend's theorems over it.
use nft_okboy_fleet.Prelude.{
  ◌==◌, ==_refl, ◌&&◌, Bool, false, ◌⊎◌, ℕ, ◌+◌, ◌≤◌, ◌≡◌, refl, ap, inl, inr, Bool, true, not,
  Option, some, List, [], ◌∷◌, ◌++◌, arith, if◌then◌else◌, ◌==◌, nat_discrete, Bool-discrete,
  Option-cases, ℤ, pos, ℤ-discrete, pos_part, count, keep, Text, Text-discrete, text, count-keep,
  count-le, count-append, subst,
}
use nft_okboy_fleet.Firewall.{PortProto, PortProto-discrete, tcp, udp}
use nft_okboy_fleet.Firewall.Nft.{
  Left, payload, iif, syn_flags, Value, str, num, dport, Nft, NftRule, Command, add_table,
  add_chain, insert, append, delete, sync_guard, list_chain, sync_chain, guard_program,
}
use nft_okboy_fleet.Firewall.Guard.{before, guard_at_tail, guard_layout}
use nft_okboy_fleet.Firewall.Nft.Kernel.{Documented, Applies, at_handle, stored}
use nft_okboy_fleet.Firewall.Nft.Lawful.{managed}
use nft_okboy_fleet.Firewall.Nft.Apart.{managed-sync_guard, stays}
use nft_okboy_fleet.Firewall.Nft.Program.{outside}
use nft_okboy_fleet.Firewall.Nft.Runs.{Runs}
use nft_okboy_fleet.Firewall.Nft.Ruling.{Packet, Matching, ruling, guard_ruling, sync_guard-blocks}

-- The rules of the chain, under distinct handles.
pub record Table : Type 0 where
  pub rules : List NftRule
  pub distinct : (h : ℤ) → count (at_handle h) rules ≤ 1

-- A handle above all of those in use.
abbrev next : List NftRule → ℕ
next [] = 1
next (r ∷ rs) = pos_part r.handle + next rs

next_pos : (rs : List NftRule) → 1 ≤ next rs
next_pos [] = omega arith
next_pos (r ∷ rs) = omega (arith, next_pos rs)

next_above : (h : ℤ) (rs : List NftRule) → next rs ≤ pos_part h → count (at_handle h) rs ≡ 0
next_above h [] le = refl
next_above h (r ∷ rs) le = elim (ℤ-discrete r.handle h) [
  | yes e ↦ absurd (let same = ap pos_part e in omega (arith, next_pos rs, le, same))
  | no n ↦ ground (arith, next_above h rs)
]

next_fresh : (rs : List NftRule) → count (at_handle (pos (next rs))) rs ≡ 0
next_fresh rs = next_above (pos (next rs)) rs (omega arith)

pub one_more :
    (h : ℤ) (rs : List NftRule)
    → count (at_handle h) rs ≤ 1
    → (if pos (next rs) == h then 1 else 0) + count (at_handle h) rs ≤ 1
one_more h rs le = elim (ℤ-discrete (pos (next rs)) h) [
  | yes e ↦
      subst (λ h. (if pos (next rs) == h then 1 else 0) + count (at_handle h) rs ≤ 1) e
        (ground (arith, next_fresh rs))
  | no n ↦ ground (arith, le)
]

abbrev run_one : Command → Table → Table
run_one add_table t = t
run_one add_chain t = t
run_one (insert r) t = record {
  rules = stored (pos (next t.rules)) r ∷ t.rules;
  distinct = λ h. one_more h t.rules (t.distinct h);
}
run_one (append r) t = record {
  rules = t.rules ++ stored (pos (next t.rules)) r ∷ [];
  distinct = λ h. omega (
    arith,
    one_more h t.rules (t.distinct h),
    count-append (at_handle h) t.rules (stored (pos (next t.rules)) r ∷ []),
  );
}
run_one (delete h) t = record {
  rules = keep (λ r. not (at_handle h r)) t.rules;
  distinct = λ g. omega (
    arith,
    count-keep (at_handle g) (λ r. not (at_handle h r)) t.rules,
    count-le (at_handle g) (λ r. not (at_handle h r)) t.rules,
    t.distinct g,
  );
}

abbrev run_all : List Command → Table → Table
run_all [] t = t
run_all (c ∷ cs) t = run_all cs (run_one c t)

abbrev pub table : Nft
table = record { Kernel = Table; run = λ cs t. (true, run_all cs t); list = λ t. some t.rules }

pub applies : (cs : List Command) (t : Table) → Applies cs t.rules (run_all cs t).rules
applies [] t = refl
applies (add_table ∷ cs) t = applies cs t
applies (add_chain ∷ cs) t = applies cs t
applies (insert r ∷ cs) t =
    (pos (next t.rules), next_fresh t.rules, applies cs (run_one (insert r) t))
applies (append r ∷ cs) t =
    (pos (next t.rules), next_fresh t.rules, applies cs (run_one (append r) t))
applies (delete h ∷ cs) t = applies cs (run_one (delete h) t)

abbrev pub table_documented : Documented table
table_documented = record {
  chain = λ t. t.rules;
  handles = λ t h. t.distinct h;
  listing =
      λ t rs h. elim (Option-cases (some t.rules)) [ inl a ↦ ground arith | inr b ↦ ground arith ];
  refused = λ cs t h. absurd (ground (arith, h));
  applied = λ cs t h. applies cs t;
}

abbrev pub empty_table : Table
empty_table = record { rules = []; distinct = λ h. omega arith }

abbrev pub prefix : Text
prefix = text "okboy"

-- Every text is taken for an IPv4 address.
abbrev pub parse_ip : Text → Option Text
parse_ip s = some s

abbrev pub is_v4 : Text → Bool
is_v4 s = true

pub table_runs : Runs table parse_ip is_v4 prefix table_documented
table_runs = record {
  lists = λ s. (s.rules, refl);
  base = λ s. refl;
  inserts = λ r s. refl;
  deletes = λ h s there. refl;
}

abbrev ports : List PortProto
ports = record { port = pos 443; proto = tcp } ∷ record { port = pos 53; proto = udp } ∷ []

managed-sync_guard_example :
    managed table parse_ip is_v4 prefix
      (sync_guard table parse_ip is_v4 prefix ports empty_table).1.rules
    ≡ managed table parse_ip is_v4 prefix []
managed-sync_guard_example =
    managed-sync_guard table parse_ip is_v4 prefix table_documented ports empty_table

abbrev guarded : Table
guarded = (sync_guard table parse_ip is_v4 prefix ports empty_table).1

abbrev holds : Packet → Left → Value → Bool
holds p (payload proto field) (num port) =
    (field == dport) && (p.proto == proto) && (p.port == port)
holds p iif (str name) = p.on_loopback
holds p syn_flags (str flags) = p.syn
holds p _ _ = false

holds-Matching : Matching holds
holds-Matching = record {
  port_match = λ p proto port. ground (arith, ==_refl dport);
  loopback_match = λ p. refl;
  syn_match = λ p. refl;
}

sync_guard-blocks_example :
    ((guarded ≡ empty_table)
      × (stays table parse_ip is_v4 prefix table_documented ports empty_table ≡ true))
    ⊎ ((tail : List NftRule) × (guarded.rules ≡ outside table parse_ip is_v4 prefix [] ++ tail)
        × ((p : Packet) → ruling holds p tail ≡ guard_ruling ports p)
        × (stays table parse_ip is_v4 prefix table_documented ports guarded ≡ true))
unfolding sync_guard list_chain sync_chain guard_program guard_at_tail guard_layout nat_discrete
    Text-discrete PortProto-discrete before
sync_guard-blocks_example =
    sync_guard-blocks table parse_ip is_v4 prefix holds holds-Matching table_documented ports
      empty_table refl
