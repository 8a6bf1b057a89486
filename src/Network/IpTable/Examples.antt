-- ===== src/Network/IpTable/Examples.antt =====
-- An address manager that always grants what is asked for, with names that tell what was asked.
use drafter.Base.{[], ◌∷◌, String, ◌≡◌, refl}
use drafter.Errors.{nil, Cause, IpError}
use drafter.Network.IpTable.{
  Fallible, ok, Ipamer, IpamCall, IpamLog, IpPair, new_prefix, acquire_ip, release_ip,
  release_child_prefix, acquire_child_prefix, get_pair, release_pair,
}
use drafter.Network.IpTable.Laws.{Paired, get_pair-Paired}

abbrev generous : Ipamer
generous = record {
  acquire = grant;
  release = λ log c. nil;
  usage = λ log prefix. record { available_smallest_prefixes = 64; available_ips = 1 };
  parse_cidr = λ cidr. ok 24;
}
  where
    grant : IpamLog → IpamCall → Fallible String
    grant log (acquire_child_prefix prefix size) = ok "10.0.8.0/30"
    grant log (new_prefix prefix) = ok prefix
    grant (acquire_ip prefix ∷ log) (acquire_ip prefix') = ok "10.0.8.2"
    grant log c = ok "10.0.8.1"

abbrev a_pair : IpPair
a_pair = record { first_ip = "10.0.8.1"; second_ip = "10.0.8.2"; child_prefix = "10.0.8.0/30" }

get_pair_grants : (get_pair generous "10.0.8.0/22" []).0 ≡ ok a_pair
unfolding get_pair
get_pair_grants = refl

get_pair-Paired_example : Paired generous "10.0.8.0/22" [] (get_pair generous "10.0.8.0/22" [])
get_pair-Paired_example = get_pair-Paired generous "10.0.8.0/22" []

-- All three calls return nil, and the sentinel comes back.
release_pair_sentinel : release_pair generous a_pair [] ≡ (
  Cause.ip IpError.could_not_release_child_prefix ∷ [],
  release_child_prefix "10.0.8.0/30" ∷ release_ip "10.0.8.2" ∷ release_ip "10.0.8.1" ∷ [],
)
unfolding release_pair
release_pair_sentinel = refl
