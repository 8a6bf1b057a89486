-- ===== src/Network/Nat/Namespaces/Exclusive.antt =====
-- The claims and releases of all users, one after the other under the lock of the namespaces.
use drafter.Base.{
  true, false, List, [], ◌∷◌, String, some, ◌≡◌, refl, arith, All, All-map, if◌then◌else◌, eq_iff,
  eq_refl, Bool-cases, inl, inr, str_eq,
}
use drafter.Base.Dict.{contains}
use drafter.Network.Nat.Namespaces.{
  Namespaces, Claim, claimed_id, claim_error, claim_namespace, release_namespace,
}
use drafter.Network.Nat.Namespaces.Claims.{
  IsKeyed, is_claimed_in, Claimed, claim_namespace-Claimed, release_namespace_frees,
  claim_namespace-IsKeyed, release_namespace-IsKeyed,
}

pub data Request : Type 0 where
  claim : List String → Request
  release : String → Request

-- The namespaces, and the ids that were returned by a claim and not released since.
pub record Use : Type 0 where
  pub namespaces : Namespaces
  pub held : List String

abbrev without : String → List String → List String
without id [] = []
without id (j ∷ js) = if str_eq id j then without id js else j ∷ without id js

abbrev hold : Claim → List String → List String
hold (claimed_id id) held = id ∷ held
hold (claim_error e) held = held

pub serve : Request → Use → Use
serve (claim order) u =
    let (c, m) = claim_namespace order u.namespaces in
    record { namespaces = m; held = hold c u.held }
serve (release id) u = record {
  namespaces = (release_namespace id u.namespaces).1;
  held = without id u.held;
}

pub serve_all : List Request → Use → Use
serve_all [] u = u
serve_all (r ∷ rs) u = serve_all rs (serve r u)

-- No id is held twice.
abbrev pub IsExclusive : List String → Type 0
IsExclusive [] = Unit
IsExclusive (id ∷ ids) = (contains id ids ≡ false) × IsExclusive ids

-- The ids in use: each is one of a claimed namespace, and none is in use twice.
pub record InUse (u : Use) : Type 0 where
  pub keyed : IsKeyed u.namespaces
  pub exclusive : IsExclusive u.held
  pub claimed : All (λ id. is_claimed_in id u.namespaces ≡ some true) u.held

free-contains :
    (id : String) (m : Namespaces) (ids : List String)
    → All (λ j. is_claimed_in j m ≡ some true) ids
    → is_claimed_in id m ≡ some false
    → contains id ids ≡ false
free-contains id m [] h free = refl
free-contains id m (j ∷ js) h free = ground (arith, eq_iff j id, free-contains id m js h.1 free)

contains-without :
    (id j : String) (ids : List String)
    → contains j ids ≡ false
    → contains j (without id ids) ≡ false
contains-without id j [] h = refl
contains-without id j (i ∷ is) h = ground (arith, contains-without id j is)

without-IsExclusive :
    (id : String) (ids : List String) → IsExclusive ids → IsExclusive (without id ids)
without-IsExclusive id [] h = tt
without-IsExclusive id (j ∷ js) h =
    ground (arith, contains-without id j js, without-IsExclusive id js h.1)

All-without {ℓ κ} :
    (P : String → Type ℓ) (Q : String → Type κ) (id : String) (ids : List String)
    → All P ids
    → ((j : String) → str_eq id j ≡ false → P j → Q j)
    → All Q (without id ids)
All-without P Q id [] h f = tt
All-without P Q id (j ∷ js) h f = elim (Bool-cases (str_eq id j)) [
  | inl same ↦ rw same (All-without P Q id js h.1 f)
  | inr other ↦ rw other (f j other h.0, All-without P Q id js h.1 f)
]

-- A claim gives out an id that nobody holds.
Claimed-InUse :
    (u : Use) (r : Claim × Namespaces)
    → InUse u
    → Claimed u.namespaces r
    → IsKeyed r.1
    → InUse (record { namespaces = r.1; held = hold r.0 u.held })
Claimed-InUse u (claimed_id id, m') v (free, one, others) k = record {
  keyed = k;
  exclusive = (free-contains id u.namespaces u.held v.claimed free, v.exclusive);
  claimed = (
    ground (arith, others id, eq_refl id),
    All-map _ _ (λ j h. ground (arith, others j)) u.held v.claimed,
  );
}
Claimed-InUse u (claim_error e, m') v (_, same) k = record {
  keyed = k;
  exclusive = v.exclusive;
  claimed = rw same v.claimed;
}

serve-InUse : (r : Request) (u : Use) → InUse u → InUse (serve r u)
unfolding serve
serve-InUse (claim order) u v =
    Claimed-InUse u (claim_namespace order u.namespaces) v
      (claim_namespace-Claimed order u.namespaces v.keyed)
      (claim_namespace-IsKeyed order u.namespaces v.keyed)
serve-InUse (release id) u v = record {
  keyed = release_namespace-IsKeyed id u.namespaces v.keyed;
  exclusive = without-IsExclusive id u.held v.exclusive;
  claimed =
      All-without _ _ id u.held v.claimed
        (λ j other h. ground (arith, (release_namespace_frees id u.namespaces).1 j));
}

-- Over any history of claims, with any order of the walk in each, and releases: no id is held twice
-- at a time, and every id that is held is that of a claimed namespace.
pub serve_all-InUse : (rs : List Request) (u : Use) → InUse u → InUse (serve_all rs u)
unfolding serve_all
serve_all-InUse [] u v = v
serve_all-InUse (r ∷ rs) u v = serve_all-InUse rs (serve r u) (serve-InUse r u v)
