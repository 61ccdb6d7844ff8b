-- ===== src/Firewall/Guard/Layout.antt =====
-- What guardLayout lays out.
use nft_okboy_fleet.Prelude.{
  ◌≡◌, Bool, ◌&&◌, not, List, [], ◌∷◌, arith, if◌then◌else◌, ◌==◌, nat_discrete, Bool-discrete,
  ℤ-discrete, count, has, Text-discrete, ◌≢◌, refl,
}
use nft_okboy_fleet.Firewall.{PortProto, PortProto-discrete, port_in_range, known_proto}
use nft_okboy_fleet.Firewall.Guard.{guarded, sort, insert, guard_layout, loopback}

-- A port and protocol that the guard may close.
abbrev pub can_guard : PortProto → Bool
can_guard p = port_in_range p.port && known_proto p.proto

pub guarded_counts :
    (p : PortProto) (seen ports : List PortProto)
    → count (λ q. q == p) (guarded seen ports)
      ≡ (if can_guard p && has p ports && not (has p seen) then 1 else 0)
unfolding guarded
guarded_counts p seen [] = ground arith
guarded_counts p seen (q ∷ ports) =
    ground (arith, guarded_counts p seen ports, guarded_counts p (q ∷ seen) ports)

insert_counts :
    (q : PortProto → Bool) (p : PortProto) (ps : List PortProto)
    → count q (insert p ps) ≡ count q (p ∷ ps)
unfolding insert
insert_counts q p [] = refl
insert_counts q p (x ∷ ps) = ground (arith, insert_counts q p ps)

pub sort_counts : (q : PortProto → Bool) (ps : List PortProto) → count q (sort ps) ≡ count q ps
unfolding sort
sort_counts q [] = refl
sort_counts q (p ∷ ps) = ground (arith, insert_counts q p (sort ps), sort_counts q ps)

-- The guard closes each port and protocol of the list that is valid exactly once and no other,
-- whatever the order and the repetitions in the list: the layout holds a pair other than the
-- loopback bypass once if it is listed with a port in 1..65535 and tcp or udp, and else not at all.
pub guard_layout_counts :
    (ports : List PortProto) (p : PortProto)
    → p ≢ loopback
    → count (λ q. q == p) (guard_layout ports) ≡ (if can_guard p && has p ports then 1 else 0)
unfolding guard_layout
guard_layout_counts ports p apart =
    ground (arith, guarded_counts p [] ports, sort_counts (λ q. q == p) (guarded [] ports))
