-- ===== src/Network/Nat/Namespaces/Claims.antt =====
-- Single claims and releases of the namespaces of pkg/network/nat/namespaces.go.
use drafter.Base.{
  ℕ, suc, Bool, true, false, List, [], ◌∷◌, String, Option, none, some, ◌≡◌, refl, arith, count,
  All, if◌then◌else◌, ap, sym, subst, ◌⊎◌, eq_iff, Option-cases, Bool-cases, inl, inr, str_eq, ◌↔◌,
  ◌≢◌,
}
use mathlib.Core.Option
use drafter.Base.Dict.{lookup, modify, contains}
use drafter.Base.Dict.Laws.{All-lookup, All-modify_same, count-modify_on, lookup-modify}
use drafter.Errors.{nil, Cause, NatError}
use drafter.Network.Namespace.{get_id}
use drafter.Network.Nat.Namespaces.{
  ClaimableNamespace, Namespaces, Claim, claimed_id, claim_error, claim_namespace,
  release_namespace, set_claimed,
}

-- Every namespace is listed under its own id.
abbrev pub IsKeyed : Namespaces → Type 0
IsKeyed m = All (λ e. get_id e.1.namespace ≡ e.0) m

abbrev pub is_claimed : ClaimableNamespace → Bool
is_claimed c = c.claimed

abbrev pub claims : Namespaces → ℕ
claims m = count (λ e. is_claimed e.1) m

abbrev pub is_claimed_in : String → Namespaces → Option Bool
is_claimed_in id m = elim (lookup id m) [ none ↦ none | some c ↦ some c.claimed ]

-- What `ClaimNamespace` has done: it returned the id of a namespace that was free, and claimed that
-- one alone; or it failed and changed nothing.
abbrev pub Claimed : Namespaces → Claim × Namespaces → Type 0
Claimed m (claimed_id id, m') =
    (is_claimed_in id m ≡ some false)
    × (claims m' ≡ suc (claims m))
    × ((j : String) → is_claimed_in j m' ≡ (if str_eq id j then some true else is_claimed_in j m))
Claimed m (claim_error e, m') = (e ≡ Cause.nat NatError.all_namespaces_claimed ∷ []) × (m' ≡ m)

module _ (k : String) (ks : List String) (m : Namespaces) where
  claim_missing : lookup k m ≡ none → claim_namespace (k ∷ ks) m ≡ claim_namespace ks m
  unfolding claim_namespace
  claim_missing e = ground (arith, e)

  module _ (c : ClaimableNamespace) (found : lookup k m ≡ some c) where
    claim_taken : c.claimed ≡ true → claim_namespace (k ∷ ks) m ≡ claim_namespace ks m
    unfolding claim_namespace
    claim_taken e = ground (arith, found)

    claim_free :
        c.claimed ≡ false
        → claim_namespace (k ∷ ks) m
          ≡ (claimed_id (get_id c.namespace), modify k (set_claimed true) m)
    unfolding claim_namespace
    claim_free e = ground (arith, found)

    -- The namespace under `k` was free, and it is the one that is claimed.
    take-Claimed :
        get_id c.namespace ≡ k
        → c.claimed ≡ false
        → Claimed m (claimed_id (get_id c.namespace), modify k (set_claimed true) m)
    take-Claimed keyed free = rw keyed (
      ground (arith, found),
      count-modify_on is_claimed k (set_claimed true) c m found free refl,
      λ j. ground (arith, found, eq_iff k j, lookup-modify j k (set_claimed true) m),
    )

-- `ClaimNamespace` returns the id of a namespace that was free, and claims that one alone; or it
-- fails with its one error and changes nothing.
pub claim_namespace-Claimed :
    (order : List String) (m : Namespaces) → IsKeyed m → Claimed m (claim_namespace order m)
claim_namespace-Claimed [] m v = unfold claim_namespace in (refl, refl)
claim_namespace-Claimed (k ∷ ks) m v = elim (Option-cases (lookup k m)) [
  | inl e ↦ rw (claim_missing k ks m e) (claim_namespace-Claimed ks m v)
  | inr (c, found) ↦ elim (Bool-cases c.claimed) [
    | inl taken ↦ rw (claim_taken k ks m c found taken) (claim_namespace-Claimed ks m v)
    | inr free ↦
        rw (claim_free k ks m c found free)
          (take-Claimed k ks m c found (All-lookup _ k m v found) free)
  ]
]

-- The walk visits every key of the map.
abbrev pub Visits : List String → Namespaces → Type 0
Visits order m =
    (k : String) (c : ClaimableNamespace) → lookup k m ≡ some c → contains k order ≡ true

abbrev all_claimed : Claim
all_claimed = claim_error (Cause.nat NatError.all_namespaces_claimed ∷ [])

-- Neither a claim nor a release moves a namespace to another key.
pub claim_namespace-IsKeyed :
    (order : List String) (m : Namespaces) → IsKeyed m → IsKeyed (claim_namespace order m).1
claim_namespace-IsKeyed [] m v = unfold claim_namespace in v
claim_namespace-IsKeyed (k ∷ ks) m v = elim (Option-cases (lookup k m)) [
  | inl e ↦ rw (claim_missing k ks m e) (claim_namespace-IsKeyed ks m v)
  | inr (c, found) ↦ elim (Bool-cases c.claimed) [
    | inl taken ↦ rw (claim_taken k ks m c found taken) (claim_namespace-IsKeyed ks m v)
    | inr free ↦ rw (claim_free k ks m c found free) (All-modify_same _ k _ m (λ j d h. h) v)
  ]
]

release_cases :
    (id : String) (m : Namespaces)
    → ((release_namespace id m).1 ≡ m)
      ⊎ ((release_namespace id m).1 ≡ modify id (set_claimed false) m)
unfolding release_namespace
release_cases id m = ground arith

pub release_namespace-IsKeyed :
    (id : String) (m : Namespaces) → IsKeyed m → IsKeyed (release_namespace id m).1
release_namespace-IsKeyed id m v = elim (release_cases id m) [
  | inl same ↦ subst IsKeyed (sym same) v
  | inr freed ↦ subst IsKeyed (sym freed) (All-modify_same _ id _ m (λ j d h. h) v)
]

-- A walk that fails has met no free namespace.
claim_error-taken :
    (order : List String) (m : Namespaces) (k : String) (c : ClaimableNamespace)
    → (claim_namespace order m).0 ≡ all_claimed
    → contains k order ≡ true
    → lookup k m ≡ some c
    → c.claimed ≡ true
claim_error-taken [] m k c e has found = cc
claim_error-taken (i ∷ is) m k c e has found = elim (Option-cases (lookup i m)) [
  | inl gone ↦
      claim_error-taken is m k c (ground (arith, claim_missing i is m gone))
        (ground (arith, eq_iff i k)) found
  | inr (d, there) ↦ elim (Bool-cases d.claimed) [
    | inr free ↦ absurd (ground (arith, claim_free i is m d there free))
    | inl taken ↦ elim (Bool-cases (str_eq i k)) [
      | inl same ↦ ground (arith, eq_iff i k)
      | inr other ↦
          claim_error-taken is m k c (ground (arith, claim_taken i is m d there taken))
            (ground arith) found
    ]
  ]
]

-- A walk over all keys fails exactly when no namespace is free.
pub claim_namespace_fails_iff :
    (order : List String) (m : Namespaces)
    → IsKeyed m
    → Visits order m
    → ((claim_namespace order m).0 ≡ claim_error (Cause.nat NatError.all_namespaces_claimed ∷ []))
      ↔ ((id : String) → is_claimed_in id m ≢ some false)
claim_namespace_fails_iff order m v visits =
    (taken, failing (claim_namespace order m) (claim_namespace-Claimed order m v))
  where
    taken :
        (claim_namespace order m).0 ≡ all_claimed → (id : String) → is_claimed_in id m ≢ some false
    taken e id free = elim (Option-cases (lookup id m)) [
      | inl gone ↦ ground arith
      | inr (c, found) ↦ ground (arith, claim_error-taken order m id c e (visits id c found) found)
    ]

    failing :
        (r : Claim × Namespaces)
        → Claimed m r
        → ((id : String) → is_claimed_in id m ≢ some false)
        → r.0 ≡ all_claimed
    failing (claimed_id id, m') d h = absurd (h id d.0)
    failing (claim_error e, m') d h = ap claim_error d.0

-- `ReleaseNamespace` returns nil, and frees the namespace of that id, if there is one, alone.
pub release_namespace_frees :
    (id : String) (m : Namespaces)
    → ((release_namespace id m).0 ≡ nil)
      × ((j : String)
          → is_claimed_in j (release_namespace id m).1 ≡ (
              if str_eq id j
              then Option.map (λ b. false) (is_claimed_in j m)
              else is_claimed_in j m))
unfolding release_namespace
release_namespace_frees id m = elim (Option-cases (lookup id m)) [
  | inl gone ↦ (ground arith, λ j. ground (arith, gone, eq_iff id j))
  | inr (c, found) ↦ (
    ground arith,
    λ j. ground (arith, found, eq_iff id j, lookup-modify j id (set_claimed false) m),
  )
]
