-- ===== src/Firewall/Guard.antt =====
-- The guard of the nftables backend (internal/firewall/nft.go): its layout and the test that it is in place.
pub mod Layout
use nft_okboy_fleet.Prelude.{
  ℕ, zero, suc, ◌+◌, ◌-◌, ◌*◌, ◌/◌, ◌%◌, ◌^◌, ◌≤◌, ◌<◌, ◌≡◌, refl, sym, ap, ◌∙◌, ◌≢◌, ◌↔◌, ◌⊎◌, inl,
  inr, Bool, true, false, ◌&&◌, ◌||◌, not, Option, none, some, List, [], ◌∷◌, ◌++◌, map, arith, ltb,
  leb, if◌then◌else◌, ◌==◌, ==_refl, nat_discrete, Bool-discrete, Bool-cases, Option-cases, is_some,
  ℤ, pos, negsuc, ℤ-discrete, pos_part, neg_part, sub_ℕ, ◌-ℤ◌, ltℤ, leℤ, wrap64, neg64, length,
  count, keep, any, null, All, All-append, has, Text, Text-discrete, text, has_prefix, strip_prefix,
  cut, count_ext, count-keep, count-le, count_mono, count-append,
}
use nft_okboy_fleet.Firewall.{
  Rule, PortProto, PortProto-discrete, port_in_range, known_proto, [], ◌∷◌, false, true, not,
}

-- Go's `<` on strings, byte by byte.
unfoldable pub text_lt : Text → Text → Bool
text_lt s [] = false
text_lt [] (d ∷ t) = true
text_lt (c ∷ s) (d ∷ t) = if c == d then text_lt s t else ltb c d

-- The order of sort.Slice in guardLayout.
unfoldable pub before : PortProto → PortProto → Bool
before a b = if a.port == b.port then text_lt a.proto b.proto else ltℤ a.port b.port

-- The loop over `ports`: the valid ones, each once, in the order of their first occurrence.
unfoldable pub guarded : List PortProto → List PortProto → List PortProto
guarded seen [] = []
guarded seen (p ∷ ports) =
    elim (not (port_in_range p.port) || not (known_proto p.proto) || has p seen) [
      | true ↦ guarded seen ports
      | false ↦ p ∷ guarded (p ∷ seen) ports
    ]

-- sort.Slice on distinct elements under a total order has one result, that of an insertion sort.
unfoldable pub insert : PortProto → List PortProto → List PortProto
insert p [] = p ∷ []
insert p (q ∷ qs) = if before p q then p ∷ q ∷ qs else q ∷ insert p qs

unfoldable pub sort : List PortProto → List PortProto
unfolding insert
sort [] = []
sort (p ∷ ps) = insert p (sort ps)

-- The zero PortProto, which stands for the loopback bypass.
abbrev pub loopback : PortProto
loopback = record { port = pos 0; proto = [] }

unfoldable pub guard_layout : List PortProto → List PortProto
unfolding guarded sort
guard_layout ports = elim (guarded [] ports) [ [] ↦ [] | p ∷ drops ↦ loopback ∷ sort (p ∷ drops) ]

-- The loop of sameGuard over two lists of one length.
unfoldable pub same_guard : List Rule → List PortProto → Bool
same_guard [] [] = true
same_guard (r ∷ guard) (w ∷ want) =
    (r.port == w.port) && (r.proto == w.proto) && same_guard guard want
same_guard _ _ = false

-- The loop of guardAtTail over the last rules of the chain, the guard rules and the layout.
unfoldable pub tail_matches : List Rule → List Rule → List PortProto → Bool
tail_matches (r ∷ tail) (g ∷ guard) (w ∷ want) =
    (r.handle == g.handle)
    && (r.port == w.port)
    && (r.proto == w.proto)
    && tail_matches tail guard want
tail_matches [] guard want = true
tail_matches (r ∷ tail) [] want = true
tail_matches (r ∷ tail) (g ∷ guard) [] = true

-- chain[n:]
abbrev pub drop : ℕ → List Rule → List Rule
drop zero rs = rs
drop (suc n) [] = []
drop (suc n) (r ∷ rs) = drop n rs

unfoldable pub guard_at_tail : List Rule → List Rule → List PortProto → Bool
unfolding tail_matches nat_discrete
guard_at_tail chain guard want =
    if length guard == length want
    then tail_matches (drop (length chain - length guard) chain) guard want
    else false
