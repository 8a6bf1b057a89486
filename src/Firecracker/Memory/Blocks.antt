-- ===== src/Firecracker/Memory/Blocks.antt =====
-- What the blocks that `grabMemoryChangesFailsafe` of pkg/runtimes/firecracker/runtime.go goes through make
-- of the memory of Silo, one after the other.
use drafter.Base.{
  ℕ, zero, suc, ◌+◌, ◌-◌, ◌≤◌, ◌<◌, Bool, true, false, ◌&&◌, ◌||◌, List, [], ◌∷◌, if◌then◌else◌,
  ltb, leb, ◌≡◌, refl, ap, ◌∙◌, sym, arith, Bool-cases, inl, inr, All,
}
use drafter.Firecracker.Memory.{
  MemoryRange, GrabOptions, Grabber, same_bytes, overwrite, mark_dirty,
}
use drafter.Firecracker.Memory.Failsafe.{read_size}

same_bytes-at :
    (n : ℕ) (memory provider : ℕ → ℕ) (o off x : ℕ)
    → same_bytes n memory provider o off ≡ true
    → x < n
    → memory (o + x) ≡ provider (off + x)
unfolding same_bytes
same_bytes-at zero memory provider o off x h k = elim k [ ]
same_bytes-at (suc n) memory provider o off zero h k =
    let first : memory o ≡ provider off = ground arith in
    ap memory (omega arith) ∙ first ∙ ap provider (omega arith)
same_bytes-at (suc n) memory provider o off (suc x) h k =
    ap memory (omega arith)
    ∙ same_bytes-at n memory provider (suc o) (suc off) x (ground arith) (ground arith)
    ∙ ap provider (omega arith)

-- Whether an offset lies in a range, from an address of it on.
abbrev pub in_range : ℕ → MemoryRange → ℕ → Bool
in_range o r y = leb (r.offset + (o - r.begin)) y && ltb y (r.offset + (r.end - r.begin))

-- Whether an offset lies in one of the ranges.
abbrev pub covered : List MemoryRange → ℕ → Bool
covered [] y = false
covered (r ∷ rs) y = covered rs y || in_range r.begin r y

-- The range of a process shows a piece of the memory of the VM.
abbrev pub Shows : (ℕ → ℕ) → (ℕ → ℕ) → MemoryRange → Type 0
Shows memory image r = (x : ℕ) → x < r.end - r.begin → memory (r.begin + x) ≡ image (r.offset + x)

module _ (memory : ℕ → ℕ) (options : GrabOptions) where
  abbrev pub marked : ℕ → ℕ → Grabber → Grabber
  marked n off g = if options.update_dirty then mark_dirty options.trackers off n g else g

  abbrev pub written : ℕ → ℕ → ℕ → Grabber → Grabber
  written n o off g = record g { provider = overwrite n memory o off g.provider }

  -- What a turn leaves, where the memory is to be updated.
  abbrev pub block_left : ℕ → ℕ → ℕ → Grabber → Grabber
  block_left n o off g =
      if same_bytes n memory g.provider o off then g else written n o off (marked n off g)

  unfoldable pub from_left : ℕ → ℕ → ℕ → MemoryRange → Grabber → Grabber
  from_left block_size zero o r g = g
  from_left block_size (suc fuel) o r g =
      let rest =
        from_left block_size fuel (o + block_size) r
          (block_left (read_size block_size o r) o (r.offset + o - r.begin) g) in
      if ltb o r.end then rest else g

  unfoldable pub ranges_left : ℕ → List MemoryRange → Grabber → Grabber
  ranges_left block_size [] g = g
  ranges_left block_size (r ∷ rs) g =
      ranges_left block_size rs (from_left block_size (r.end - r.begin) r.begin r g)

  -- A block, byte by byte.
  provider-block_left :
      (n o off : ℕ) (g : Grabber) (y : ℕ)
      → (block_left n o off g).provider y ≡ overwrite n memory o off g.provider y
  provider-block_left n o off g y = elim (Bool-cases (same_bytes n memory g.provider o off)) [
    | inl same ↦ rw same (unchanged same (leb off y) (ltb y (off + n)) refl refl)
    | inr other ↦ rw other (ground arith)
  ]
    where
      unchanged :
          same_bytes n memory g.provider o off ≡ true
          → (a b : Bool) → leb off y ≡ a
          → ltb y (off + n) ≡ b
          → g.provider y ≡ (if a && b then memory (o + (y - off)) else g.provider y)
      unchanged same true true p q = sym (
          same_bytes-at n memory g.provider o off (y - off) same (ground arith)
          ∙ ap g.provider (ground arith))
      unchanged same true false p q = refl
      unchanged same false b p q = refl

  module _ (image : ℕ → ℕ) where
    beyond :
        (o : ℕ) (r : MemoryRange) (g : Grabber) (y : ℕ)
        → r.end ≤ o
        → g.provider y ≡ (if in_range o r y then image y else g.provider y)
    beyond o r g y h = ground arith

    shown :
        (o y : ℕ) (r : MemoryRange)
        → Shows memory image r
        → r.begin ≤ o
        → r.offset + o - r.begin ≤ y
        → y < r.offset + (r.end - r.begin)
        → memory (o + (y - (r.offset + o - r.begin))) ≡ image y
    shown o y r shows h k l =
        ap memory (omega arith)
        ∙ shows (o - r.begin + (y - (r.offset + o - r.begin))) (omega arith)
        ∙ ap image (omega arith)

    -- A block, and the rest of its range.
    block_then_rest :
        (block_size o : ℕ) (r : MemoryRange) (provider : ℕ → ℕ) (y : ℕ)
        → Shows memory image r
        → r.begin ≤ o
        → o < r.end
        → (if in_range (o + block_size) r y
            then image y
            else overwrite (read_size block_size o r) memory o (r.offset + o - r.begin) provider y)
          ≡ (if in_range o r y then image y else provider y)
    block_then_rest block_size o r provider y shows h k = ground (arith, shown o y r shows h)

    provider-from_left :
        (block_size fuel o : ℕ) (r : MemoryRange) (g : Grabber) (y : ℕ)
        → Shows memory image r
        → 0 < block_size
        → r.begin ≤ o
        → r.end ≤ o + fuel
        → (from_left block_size fuel o r g).provider y
          ≡ (if in_range o r y then image y else g.provider y)
    unfolding from_left
    provider-from_left block_size zero o r g y shows b h k = ground arith
    provider-from_left block_size (suc fuel) o r g y shows b h k = elim (Bool-cases (ltb o r.end)) [
      | inl more ↦
          let n = read_size block_size o r in
          let off = r.offset + o - r.begin in
          let ih =
            provider-from_left block_size fuel (o + block_size) r (block_left n o off g) y shows b
              (omega arith) (omega arith) in
          rw more (
            ih
            ∙ ap (λ p. if in_range (o + block_size) r y then image y else p)
                (provider-block_left n o off g y)
            ∙ block_then_rest block_size o r g.provider y shows h (ground arith))
      | inr over ↦ rw over (beyond o r g y (ground arith))
    ]

    either :
        (a b : Bool) (x z : ℕ) → (if a then x else (if b then x else z)) ≡ (if a || b then x else z)
    either true b x z = refl
    either false b x z = refl

    pub provider-ranges_left :
        (block_size : ℕ) (rs : List MemoryRange) (g : Grabber) (y : ℕ)
        → 0 < block_size
        → All (Shows memory image) rs
        → All (λ r. r.begin ≤ r.end) rs
        → (ranges_left block_size rs g).provider y
          ≡ (if covered rs y then image y else g.provider y)
    unfolding ranges_left
    provider-ranges_left block_size [] g y b h k = refl
    provider-ranges_left block_size (r ∷ rs) g y b h k =
        let left = from_left block_size (r.end - r.begin) r.begin r g in
        provider-ranges_left block_size rs left y b h.1 k.1
        ∙ ap (λ p. if covered rs y then image y else p)
            (provider-from_left block_size (r.end - r.begin) r.begin r g y h.0 b (omega arith)
              (omega arith))
        ∙ either (covered rs y) (in_range r.begin r y) (image y) (g.provider y)
