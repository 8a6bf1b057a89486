-- ===== src/Network/IpTable/Laws.antt =====
-- How the pairs of addresses of pkg/network/ipmanager.go are taken and given back.
use drafter.Base.{
  ◌⊎◌, inl, inr, refl, ℕ, ◌+◌, ◌-◌, ◌^◌, ◌≤◌, ◌<◌, Bool, true, false, ◌∷◌, String, some, ◌≡◌, ◌↔◌,
  arith, count, if◌then◌else◌, leb,
}
use drafter.Errors.{Cause, GoError, failed}
use drafter.Network.Namespace.{pair_mask}
use drafter.Network.IpTable.{
  Fallible, ok, err, Ipamer, IpamCall, IpamLog, IpTable, IpPair, new_prefix, acquire_ip, release_ip,
  release_child_prefix, acquire_child_prefix, open_table, available_ips, get_pair, release_pair,
  get_ip,
}

pub Fallible-cases :
    {A : Type 0} (f : Fallible A)
    → ((a : A) × (f ≡ ok a)) ⊎ ((c : Cause) × (cs : GoError) × (f ≡ err c cs))
Fallible-cases (ok a) = inl (a, refl)
Fallible-cases (err c cs) = inr (c, cs, refl)

abbrev is_release : IpamCall → Bool
is_release (release_ip ip) = true
is_release (release_child_prefix prefix) = true
is_release _ = false

abbrev pub releases : IpamLog → ℕ
releases log = count is_release log

-- What `GetPair` has done, by how it ended: a pair of two addresses of the new child prefix; or an
-- error.
abbrev pub Paired : Ipamer → String → IpamLog → Fallible IpPair × IpamLog → Type 0
Paired ipam prefix log (ok pair, log') =
    (ipam.acquire log (acquire_child_prefix prefix pair_mask) ≡ ok pair.child_prefix)
    × (ipam.acquire (acquire_child_prefix prefix pair_mask ∷ log) (acquire_ip pair.child_prefix)
        ≡ ok pair.first_ip)
    × (ipam.acquire (acquire_ip pair.child_prefix ∷ acquire_child_prefix prefix pair_mask ∷ log)
          (acquire_ip pair.child_prefix)
        ≡ ok pair.second_ip)
    × (log'
        ≡ acquire_ip pair.child_prefix
          ∷ acquire_ip pair.child_prefix
          ∷ acquire_child_prefix prefix pair_mask
          ∷ log)
Paired ipam prefix log (err c cs, log') = releases log' ≡ releases log

-- If `GetPair` succeeds, its pair is the child prefix that was acquired and the two addresses that
-- were acquired from it, with these three calls made; if it fails, nothing that it had acquired by
-- then, child prefix or first address, was released.
pub get_pair-Paired :
    (ipam : Ipamer) (prefix : String) (log : IpamLog)
    → Paired ipam prefix log (get_pair ipam prefix log)
unfolding get_pair get_ip
get_pair-Paired ipam prefix log = ground arith

-- `ReleasePair` never returns nil, not even where each of the calls that it makes does.
pub release_pair-failed :
    (ipam : Ipamer) (pair : IpPair) (log : IpamLog) → failed (release_pair ipam pair log).0 ≡ true
unfolding release_pair
release_pair-failed ipam pair log = ground arith

-- The difference of two uint64 is the number of free addresses less the two reserved ones where the
-- pool has two, and wraps around to that number and 2 ^ 64 - 2 where it has not.
pub available_ips-reserved :
    (ipam : Ipamer) (prefix : String) (log : IpamLog)
    → (ipam.usage log prefix).available_ips < 2 ^ 64
    → available_ips ipam prefix log ≡ (
        if leb 2 (ipam.usage log prefix).available_ips
        then (ipam.usage log prefix).available_ips - 2
        else (ipam.usage log prefix).available_ips + (2 ^ 64 - 2))
unfolding available_ips
available_ips-reserved ipam prefix log h = ground arith

open_table_sound :
    (ipam : Ipamer) (t u : IpTable) (log : IpamLog)
    → (open_table ipam t log).0 ≡ ok u
    → (size : ℕ) × (prefix : String) × (ipam.parse_cidr t.cidr ≡ ok size)
      × (size ≤ pair_mask)
      × (ipam.acquire log (new_prefix t.cidr) ≡ ok prefix)
      × (u ≡ record t { prefix = some prefix })
unfolding open_table
open_table_sound ipam t u log = ground arith

-- `Open` succeeds exactly where the CIDR is parsed, its mask is not longer than that of a pair and
-- the prefix is created; then the table holds that prefix.
pub open_table_iff :
    (ipam : Ipamer) (t u : IpTable) (log : IpamLog)
    → ((open_table ipam t log).0 ≡ ok u) ↔ (
        (size : ℕ) × (prefix : String) × (ipam.parse_cidr t.cidr ≡ ok size)
        × (size ≤ pair_mask)
        × (ipam.acquire log (new_prefix t.cidr) ≡ ok prefix)
        × (u ≡ record t { prefix = some prefix }))
unfolding open_table
open_table_iff ipam t u log =
    (open_table_sound ipam t u log, λ (size, prefix, parsed, short, made, e). ground arith)
