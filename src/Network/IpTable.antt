-- ===== src/Network/IpTable.antt =====
-- pkg/network/ipmanager.go over the address manager go-ipam, which is not part of the repository:
-- what its calls return is an argument, and may depend on all the calls before. A prefix is named
-- by its CIDR, an address by its text.
pub mod Laws
mod Examples
use drafter.Base.{
  ℕ, ◌+◌, ◌-◌, ◌%◌, ◌^◌, Bool, true, false, List, [], ◌∷◌, ◌++◌, String, Option, none, some,
  if◌then◌else◌, ltb,
}
use drafter.Errors.{GoError, nil, join, failed, Cause, IpError}
use drafter.Network.Namespace.{pair_mask}

-- `GatewayReserved`
abbrev pub gateway_reserved : ℕ
gateway_reserved = 2

-- A Go result and its error: an error that is not nil starts with a cause.
pub data Fallible {ℓ} (A : Type ℓ) : Type ℓ where
  ok : A → Fallible A
  err : Cause → GoError → Fallible A

-- `errors.Join(sentinel, err)` behind `if err != nil`.
abbrev pub or_join : {A : Type 0} → IpError → Cause → GoError → Fallible A
or_join e c cs = err (Cause.ip e) (c ∷ cs)

pub data IpamCall : Type 0 where
  new_prefix acquire_ip release_ip release_child_prefix : String → IpamCall
  acquire_child_prefix : String → ℕ → IpamCall

pub record Usage : Type 0 where
  pub available_smallest_prefixes : ℕ
  pub available_ips : ℕ

abbrev pub IpamLog : Type 0
IpamLog = List IpamCall

-- `ipam.Ipamer`, by the calls made so far, newest first; and `net.ParseCIDR`, by the length of the
-- mask that it finds.
pub record Ipamer : Type 0 where
  -- for `NewPrefix`, `AcquireIP` and `AcquireChildPrefix`: the text of what was made or acquired
  pub acquire : IpamLog → IpamCall → Fallible String
  -- for `ReleaseIP` and `ReleaseChildPrefix`
  pub release : IpamLog → IpamCall → GoError
  pub usage : IpamLog → String → Usage
  pub parse_cidr : String → Fallible ℕ

pub record IpTable : Type 0 where
  pub cidr : String
  -- nil before `Open`
  pub prefix : Option String

-- `NewIPTable`
pub new_ip_table : String → IpTable
new_ip_table cidr = record { cidr = cidr; prefix = none }

module _ (ipam : Ipamer) where
  -- `Open`
  pub open_table : IpTable → IpamLog → Fallible IpTable × IpamLog
  open_table t log = elim (ipam.parse_cidr t.cidr) [
    | err c cs ↦ (or_join IpError.could_not_parse_cidr c cs, log)
    | ok size ↦
        if ltb pair_mask size
        then (err (Cause.ip IpError.invalid_cidr_size) nil, log)
        else elim (ipam.acquire log (new_prefix t.cidr)) [
          | err c cs ↦ (or_join IpError.could_not_create_new_prefix c cs, new_prefix t.cidr ∷ log)
          | ok prefix ↦ (ok (record t { prefix = some prefix }), new_prefix t.cidr ∷ log)
        ]
  ]

  -- `AvailablePairs`, on an open table
  pub available_pairs : String → IpamLog → ℕ
  available_pairs prefix log = (ipam.usage log prefix).available_smallest_prefixes

  -- `AvailableIPs`, a difference of two uint64.
  pub available_ips : String → IpamLog → ℕ
  available_ips prefix log =
      ((ipam.usage log prefix).available_ips + 2 ^ 64 - gateway_reserved) % 2 ^ 64

  -- `GetIP`
  pub get_ip : String → IpamLog → Fallible String × IpamLog
  get_ip prefix log = elim (ipam.acquire log (acquire_ip prefix)) [
    | err c cs ↦ (or_join IpError.could_not_acquire_ip c cs, acquire_ip prefix ∷ log)
    | ok ip ↦ (ok ip, acquire_ip prefix ∷ log)
  ]

  -- `ReleaseIP`
  pub release_ip_of : String → IpamLog → GoError × IpamLog
  release_ip_of ip log =
      let e = ipam.release log (release_ip ip) in
      (
        (if failed e then join (Cause.ip IpError.could_not_release_ip ∷ []) e else nil),
        release_ip ip ∷ log,
      )

pub record IpPair : Type 0 where
  pub first_ip : String
  pub second_ip : String
  pub child_prefix : String

module _ (ipam : Ipamer) where
  -- `GetPair` once it has the child prefix.
  pub pair_of : String → IpamLog → Fallible IpPair × IpamLog
  unfolding get_ip
  pair_of child log =
      let (first, log₁) = get_ip ipam child log in
      let (second, log₂) = get_ip ipam child log₁ in
      elim first [
        | err c cs ↦ (err c cs, log₁)
        | ok first_ip ↦ elim second [
          | err c cs ↦ (err c cs, log₂)
          | ok second_ip ↦ (
            ok (record { first_ip = first_ip; second_ip = second_ip; child_prefix = child }),
            log₂,
          )
        ]
      ]

  -- `GetPair`
  pub get_pair : String → IpamLog → Fallible IpPair × IpamLog
  unfolding pair_of
  get_pair prefix log =
      let asked = acquire_child_prefix prefix pair_mask ∷ log in
      elim (ipam.acquire log (acquire_child_prefix prefix pair_mask)) [
        | err c cs ↦ (or_join IpError.could_not_acquire_child_prefix c cs, asked)
        | ok child ↦ pair_of child asked
      ]

  -- `ReleasePair`: the table is the one that the pair was taken from.
  pub release_pair : IpPair → IpamLog → GoError × IpamLog
  unfolding release_ip_of
  release_pair pair log =
      let (e₁, log₁) = release_ip_of ipam pair.first_ip log in
      let (e₂, log₂) = release_ip_of ipam pair.second_ip log₁ in
      let e₃ = ipam.release log₂ (release_child_prefix pair.child_prefix) in
      if failed e₁
      then (join (Cause.ip IpError.could_not_release_ip ∷ []) e₁, log₁)
      else (if failed e₂ then (join (Cause.ip IpError.could_not_release_ip ∷ []) e₂, log₂) else (
        join (Cause.ip IpError.could_not_release_child_prefix ∷ []) e₃,
        release_child_prefix pair.child_prefix ∷ log₂,
      ))
