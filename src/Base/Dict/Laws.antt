-- ===== src/Base/Dict/Laws.antt =====
-- Lookups, writes through a pointer, and what holds of all entries.
use Prim.Native.Nat.{suc, ◌≤◌, ◌+◌}
use Prim.Native.String.{String}
use mathlib.Core.Path.{◌≡◌, refl, subst, sym}
use mathlib.Core.Logic.{inl, inr}
use mathlib.Core.Bool.{Bool, true, false}
use mathlib.Core.Option
use mathlib.Core.Option.{Option, none, some}
use mathlib.Core.List.{List, [], ◌∷◌}
use native.Mathlib.Omega.{arith}
use text.Mathlib.TextEquality.{eq_iff}
use text.Mathlib.TextPositions.{eq_refl}
use drafter.Base.Tests.{str_eq, if◌then◌else◌, Bool-cases}
use drafter.Base.Lists.{length, count, All}
use drafter.Base.Dict.{Dict, lookup, insert, modify, Distinct}

module _ {ℓ} {V : Type ℓ} where
  pub length-modify : (k : String) (f : V → V) (m : Dict V) → length (modify k f m) ≡ length m
  length-modify k f [] = refl
  length-modify k f ((j, v) ∷ m) = ground (arith, length-modify k f m)

  pub lookup-modify :
      (i k : String) (f : V → V) (m : Dict V)
      → lookup i (modify k f m) ≡ (if str_eq k i then Option.map f (lookup i m) else lookup i m)
  lookup-modify i k f [] = ground arith
  lookup-modify i k f ((j, v) ∷ m) =
      ground (arith, eq_iff k i, eq_iff j k, eq_iff j i, lookup-modify i k f m)

  pub lookup-modify_self :
      (k : String) (f : V → V) (m : Dict V) {v : V}
      → lookup k m ≡ some v
      → lookup k (modify k f m) ≡ some (f v)
  lookup-modify_self k f m e = ground (arith, lookup-modify k k f m, eq_refl k)

  pub lookup-insert :
      (j k : String) (v : V) (m : Dict V)
      → lookup j (insert k v m) ≡ (if str_eq k j then some v else lookup j m)
  lookup-insert j k v [] = refl
  lookup-insert j k v ((i, w) ∷ m) =
      ground (arith, eq_iff k j, eq_iff i k, eq_iff i j, lookup-insert j k v m)

  pub Distinct-modify : (k : String) (f : V → V) (m : Dict V) → Distinct m → Distinct (modify k f m)
  Distinct-modify k f [] d = tt
  Distinct-modify k f ((j, v) ∷ m) d =
      ground (arith, lookup-modify j k f m, Distinct-modify k f m d.1)

module _ {ℓ κ} {V : Type ℓ} (P : String × V → Type κ) (k : String) where
  pub All-lookup : {v : V} (m : Dict V) → All P m → lookup k m ≡ some v → P (k, v)
  All-lookup [] h e = absurd (cc e)
  All-lookup {v} ((j, w) ∷ m) h e = elim (Bool-cases (str_eq j k)) [
    | inl hit ↦ subst P (ground (arith, eq_iff j k)) h.0
    | inr miss ↦ All-lookup m h.1 (ground arith)
  ]

module _ {ℓ κ} {V : Type ℓ} (P : String × V → Type κ) (k : String) (f : V → V) where
  -- A write that keeps a property of every entry.
  pub All-modify_same :
      (m : Dict V) → ((j : String) (v : V) → P (j, v) → P (j, f v)) → All P m → All P (modify k f m)
  All-modify_same [] keep h = tt
  All-modify_same ((j, v) ∷ m) keep h = elim (Bool-cases (str_eq j k)) [
    | inl hit ↦ rw hit (keep j v h.0, h.1)
    | inr miss ↦ rw miss (h.0, All-modify_same m keep h.1)
  ]

module _ {ℓ κ μ} {V : Type ℓ} (P : String × V → Type κ) (Q : String × V → Type μ) (k : String) where
  -- Where the key is missing, every entry is another's.
  pub All-missing :
      (m : Dict V)
      → lookup k m ≡ none
      → All P m
      → ((j : String) (v : V) → str_eq j k ≡ false → P (j, v) → Q (j, v))
      → All Q m
  All-missing [] e h miss = tt
  All-missing ((j, v) ∷ m) e h miss = elim (Bool-cases (str_eq j k)) [
    | inl hit ↦ absurd (ground arith)
    | inr other ↦ (miss j v other h.0, All-missing m (ground arith) h.1 miss)
  ]

  -- A write through one pointer: the entry that it hits, and all the others.
  pub All-modify :
      (f : V → V) (m : Dict V)
      → Distinct m
      → All P m
      → ((v : V) → lookup k m ≡ some v → P (k, v) → Q (k, f v))
      → ((j : String) (v : V) → str_eq j k ≡ false → P (j, v) → Q (j, v))
      → All Q (modify k f m)
  All-modify f [] d h hit miss = tt
  All-modify f ((j, v) ∷ m) d h hit miss = elim (Bool-cases (str_eq j k)) [
    | inl e ↦
        let same : j ≡ k = ground (arith, eq_iff j k) in
        rw e (
          subst (λ i. Q (i, f v)) (sym same) (hit v (rw e) (subst (λ i. P (i, v)) same h.0)),
          All-missing m (subst (λ i. lookup i m ≡ none) same d.0) h.1 miss,
        )
    | inr e ↦ rw e (miss j v e h.0, All-modify f m d.1 h.1 (λ w l. hit w (rw e l)) miss)
  ]

module _ {ℓ} {V : Type ℓ} (p : V → Bool) (k : String) (f : V → V) where
  -- A write that turns a test on, where it was off, raises the count by one.
  pub count-modify_on :
      (v : V) (m : Dict V)
      → lookup k m ≡ some v
      → p v ≡ false
      → p (f v) ≡ true
      → count (λ e. p e.1) (modify k f m) ≡ suc (count (λ e. p e.1) m)
  count-modify_on v [] e off on = absurd (cc e)
  count-modify_on v ((j, w) ∷ m) e off on = ground (arith, count-modify_on v m)

  pub count-modify_same :
      (m : Dict V)
      → ((v : V) → p (f v) ≡ p v)
      → count (λ e. p e.1) (modify k f m) ≡ count (λ e. p e.1) m
  count-modify_same [] same = refl
  count-modify_same ((j, w) ∷ m) same = ground (arith, same w, count-modify_same m same)

module _ {ℓ} {A : Type ℓ} (p : A → Bool) where
  count-le-length : (xs : List A) → count p xs ≤ length xs
  count-le-length [] = omega arith
  count-le-length (x ∷ xs) = ground (arith, count-le-length xs)

  -- If the test holds as often as there are entries, it holds of all.
  pub All-count : (xs : List A) → count p xs ≡ length xs → All (λ x. p x ≡ true) xs
  All-count [] e = tt
  All-count (x ∷ xs) e = elim (Bool-cases (p x)) [
    | inl on ↦ (on, All-count xs (ground arith))
    | inr off ↦ absurd (ground (arith, count-le-length xs))
  ]

-- What a write under a new key does: an entry more.
module _ {ℓ} {V : Type ℓ} (k : String) (v : V) where
  pub length-insert_new : (m : Dict V) → lookup k m ≡ none → length (insert k v m) ≡ length m + 1
  length-insert_new [] h = ground arith
  length-insert_new ((j, w) ∷ m) h = ground (arith, length-insert_new m)

  pub count-insert_new :
      (p : String × V → Bool) (m : Dict V)
      → lookup k m ≡ none
      → count p (insert k v m) ≡ count p m + (if p (k, v) then 1 else 0)
  count-insert_new p [] h = ground arith
  count-insert_new p ((j, w) ∷ m) h = ground (arith, count-insert_new p m)

  pub All-insert_new :
      (P : String × V → Type 0) (m : Dict V)
      → lookup k m ≡ none
      → P (k, v)
      → All P m
      → All P (insert k v m)
  All-insert_new P [] h new old = (new, tt)
  All-insert_new P ((j, w) ∷ m) h new old = elim (Bool-cases (str_eq j k)) [
    | inl same ↦ absurd (ground arith)
    | inr other ↦ rw other (old.0, All-insert_new P m (ground arith) new old.1)
  ]
