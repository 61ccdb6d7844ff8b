-- ===== src/Firewall/Ufw.antt =====
-- The ufw backend (internal/firewall/ufw.go), over the program `ufw`, the host's lock and the packages
-- of Go as parameters. The lines of a listing are read as the source reads them.
pub mod Backend
pub mod Deletion
pub mod Addition
pub mod Tests
use nft_okboy_fleet.Prelude.{
  ℕ, zero, suc, ◌+◌, ◌-◌, ◌*◌, ◌/◌, ◌%◌, ◌^◌, ◌≤◌, ◌<◌, ◌≡◌, refl, sym, ap, ◌∙◌, ◌≢◌, ◌↔◌, ◌⊎◌, inl,
  inr, Bool, true, false, ◌&&◌, ◌||◌, not, Option, none, some, List, [], ◌∷◌, ◌++◌, map, arith, ltb,
  leb, if◌then◌else◌, ◌==◌, ==_refl, nat_discrete, Bool-discrete, Bool-cases, Option-cases, is_some,
  ℤ, pos, negsuc, ℤ-discrete, pos_part, neg_part, sub_ℕ, ◌-ℤ◌, ltℤ, leℤ, wrap64, neg64, length,
  count, keep, any, null, All, All-append, has, Text, Text-discrete, text, has_prefix, strip_prefix,
  cut, count_ext, count-keep, count-le, count_mono, count-append,
}
use nft_okboy_fleet.Firewall.{
  Rule, Action, FwError, failed, inactive, host_rule, Listing, listed, unlisted, FirewallBackend,
  check_rule,
}
use nft_okboy_fleet.Firewall.Comment.{comment_for, split_comment, managed_prefix, user_prefix}

-- The commands that the backend runs.
pub data UfwCommand : Type 0 where
  status status_numbered : UfwCommand
  allow_from : Text → ℤ → Text → Text → UfwCommand
  delete_rule : ℤ → UfwCommand

-- A run of ufw gives its output, `none` when it fails; the lock is taken or not.
pub record Ufw : Type 1 where
  pub Host : Type 0
  pub run : UfwCommand → Host → Option Text × Host
  pub lock : Host → Bool × Host

-- The submatches of the three patterns (regexp's FindStringSubmatch on ufwNumRe, ufwBodyRe and
-- ufwMatchRe, whose third submatch is one of four words) and functions of strings, strconv, net and
-- hash/fnv.
pub record UfwLibrary : Type 0 where
  pub num_match : Text → Option (Text × Text)
  pub body_match : Text → Option (Text × Text × Text)
  pub rule_match : Text → Option (Text × Text × Text × Text)
  pub action_of : Text → Action
  pub trim : Text → Text
  pub trim_right : Text → Text
  pub atoi : Text → Option ℤ
  pub itoa : ℤ → Text
  pub parse_ip : Text → Option Text
  pub ip_equal : Text → Text → Bool
  pub fnv64a : Text → ℕ

-- ufwLine
pub record UfwLine : Type 0 where
  pub num : ℤ
  pub r : Rule

-- strings.Split(output, "\n")
unfoldable pub lines_from : Text → Text → List Text
lines_from line [] = line ∷ []
lines_from line (c ∷ cs) =
    if c == 10 then line ∷ lines_from [] cs else lines_from (line ++ c ∷ []) cs

unfoldable pub split_lines : Text → List Text
unfolding lines_from
split_lines output = lines_from [] output

module _ (lib : UfwLibrary) (prefix : Text) where
  unfoldable pub ufw_inactive : Text → Bool
  ufw_inactive output = has_prefix (lib.trim output) (text "Status: inactive")

  unfoldable pub split_ufw_comment : Text → Text × Text
  split_ufw_comment body = elim (cut b'#' body) [
    | none ↦ (body, [])
    | some (rule, comment) ↦ (lib.trim_right rule, lib.trim comment)
  ]

  -- The low 63 bits of the hash of the rule's identity.
  unfoldable pub synth_handle : Text → Text → ℤ → Text → ℤ
  synth_handle comment ip port proto = pos (
      lib.fnv64a (comment ++ text "|" ++ ip ++ text "|" ++ lib.itoa port ++ text "|" ++ proto)
      % 2 ^ 63)

  abbrev pub rule_with : Text → Text → ℤ → Text → Rule
  rule_with comment ip port proto =
      let (user, group) = split_comment prefix comment in
      record {
        handle = synth_handle comment ip port proto;
        ip = ip;
        port = port;
        proto = proto;
        user = user;
        group = group;
        comment = comment;
      }

  -- A numbered body with a comment of ours, in the expected shape; `none` is skipped.
  unfoldable pub parse_body : ℤ → Text → Text → Option UfwLine
  parse_body num body comment =
      if not (has_prefix comment (managed_prefix prefix))
      then none
      else (elim (lib.body_match body) [
        | none ↦ none
        | some (number, proto, ip) ↦ elim (lib.atoi number) [
          | none ↦ none
          | some port ↦ some (record { num = num; r = rule_with comment ip port proto })
        ]
      ])

  -- One round of the loop of parseUfwStatus.
  unfoldable pub parse_line : Text → Option UfwLine
  unfolding parse_body split_ufw_comment
  parse_line raw = elim (lib.num_match raw) [
    | none ↦ none
    | some (number, rest) ↦ elim (lib.atoi number) [
      | none ↦ none
      | some num ↦ let (body, comment) = split_ufw_comment rest in parse_body num body comment
    ]
  ]

  unfoldable pub parse_lines : List Text → List UfwLine
  unfolding parse_line
  parse_lines [] = []
  parse_lines (raw ∷ raws) =
      let rest = parse_lines raws in elim (parse_line raw) [ none ↦ rest | some line ↦ line ∷ rest ]

  unfoldable pub parse_ufw_status : Text → List UfwLine
  unfolding parse_lines split_lines
  parse_ufw_status output = parse_lines (split_lines output)

  -- The source of a host's rule is the address: net.ParseIP's Equal, and both IPv6 or neither.
  unfoldable pub is_source : Text → Text → Text → Bool
  is_source want ip source = elim (lib.parse_ip source) [
    | none ↦ false
    | some src ↦ lib.ip_equal src want && (has b':' source == has b':' ip)
  ]

  -- One round of the loop of hostRuleFor.
  unfoldable pub host_line : Text → Text → ℤ → Text → Text → Option Action
  unfolding split_ufw_comment is_source
  host_line want ip port proto raw = elim (lib.num_match raw) [
    | none ↦ none
    | some (number, rest) ↦
        let (body, comment) = split_ufw_comment rest in
        if has_prefix comment (managed_prefix prefix) && is_some (lib.body_match body)
        then none
        else (elim (lib.rule_match body) [
          | none ↦ none
          | some (on, with, action, source) ↦
              if (on == lib.itoa port) && (with == proto) && is_source want ip source
              then some (lib.action_of action)
              else none
        ])
  ]

  unfoldable pub host_lines : Text → Text → ℤ → Text → List Text → Option Action
  unfolding host_line
  host_lines want ip port proto [] = none
  host_lines want ip port proto (raw ∷ raws) =
      let rest = host_lines want ip port proto raws in
      elim (host_line want ip port proto raw) [ none ↦ rest | some action ↦ some action ]

  unfoldable pub host_rule_for : Text → Text → ℤ → Text → Option Action
  unfolding host_lines split_lines
  host_rule_for output ip port proto = elim (lib.parse_ip ip) [
    | none ↦ none
    | some want ↦ host_lines want ip port proto (split_lines output)
  ]
