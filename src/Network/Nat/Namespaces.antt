-- ===== src/Network/Nat/Namespaces.antt =====
-- pkg/network/nat/namespaces.go. The lock makes each function one step. Go walks a map in an order
-- of its own choice at each walk: the order of the keys is an argument.
pub mod Claims
pub mod Exclusive
mod Examples
use drafter.Base.{Bool, true, false, List, [], ◌∷◌, String, Option, none, some, if◌then◌else◌}
use drafter.Base.Dict.{Dict, lookup, insert, modify}
use drafter.Errors.{GoError, nil, Cause, NatError}
use drafter.Network.Namespace.{Namespace, get_id}

pub record ClaimableNamespace : Type 0 where
  pub namespace : Namespace
  pub claimed : Bool

abbrev pub Namespaces : Type 0
Namespaces = Dict ClaimableNamespace

-- `addNamespace`
unfoldable pub add_namespace : String → Namespace → Namespaces → Namespaces
add_namespace id ns m = insert id (record { namespace = ns; claimed = false }) m

abbrev pub set_claimed : Bool → ClaimableNamespace → ClaimableNamespace
set_claimed b c = record c { claimed = b }

-- What a claim returns: an id, or an error.
pub data Claim : Type 0 where
  claimed_id : String → Claim
  claim_error : GoError → Claim

-- `ClaimNamespace`, walking the keys in the given order.
pub claim_namespace : List String → Namespaces → Claim × Namespaces
claim_namespace [] m = (claim_error (Cause.nat NatError.all_namespaces_claimed ∷ []), m)
claim_namespace (k ∷ ks) m =
    let rest = claim_namespace ks m in
    elim (lookup k m) [
      | none ↦ rest
      | some c ↦
          if c.claimed
          then rest
          else (claimed_id (get_id c.namespace), modify k (set_claimed true) m)
    ]

-- `ReleaseNamespace`
pub release_namespace : String → Namespaces → GoError × Namespaces
release_namespace id m = elim (lookup id m) [
  | none ↦ (nil, m)
  | some c ↦ (nil, modify id (set_claimed false) m)
]
