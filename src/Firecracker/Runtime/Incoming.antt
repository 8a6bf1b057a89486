-- ===== src/Firecracker/Runtime/Incoming.antt =====
-- Which blocks of the memory `Resume` of pkg/runtimes/firecracker/runtime.go marks as dirty where it goes
-- directly to the memory of the process.
use drafter.Base.{
  ℕ, zero, suc, ◌*◌, Bool, true, false, ◌||◌, List, [], ◌∷◌, Option, none, some, if◌then◌else◌,
  ◌==◌, ltb, length, replicate,
}

-- `blocks[b] = true` of an index in range.
unfoldable pub set_block : List Bool → ℕ → List Bool
set_block [] b = []
set_block (x ∷ xs) zero = true ∷ xs
set_block (x ∷ xs) (suc b) = x ∷ set_block xs b

-- The loop over the blocks that need not be sent; an index out of range panics.
unfoldable pub set_blocks : List ℕ → List Bool → Option (List Bool)
set_blocks [] blocks = some blocks
set_blocks (b ∷ bs) blocks =
    let rest = set_blocks bs (set_block blocks b) in if ltb b (length blocks) then rest else none

-- The loop over the blocks: the offsets of those that were not set, from a block on.
unfoldable pub unset_offsets : ℕ → ℕ → List Bool → List ℕ
unset_offsets block_size b [] = []
unset_offsets block_size b (un ∷ blocks) =
    let rest = unset_offsets block_size (suc b) blocks in
    if un then rest else (b * block_size) ∷ rest

-- The offsets that are marked as dirty; nothing where the code panics.
unfoldable pub incoming_dirty_offsets : ℕ → ℕ → List ℕ → Option (List ℕ)
unfolding set_blocks unset_offsets
incoming_dirty_offsets num_blocks block_size unrequired =
    elim (set_blocks unrequired (replicate num_blocks false)) [
      | none ↦ none
      | some blocks ↦ some (unset_offsets block_size 0 blocks)
    ]

abbrev pub member : ℕ → List ℕ → Bool
member b [] = false
member b (x ∷ xs) = x == b || member b xs

-- The entry at an index, and `true` past the end.
abbrev block_at : List Bool → ℕ → Bool
block_at [] b = true
block_at (x ∷ xs) zero = x
block_at (x ∷ xs) (suc b) = block_at xs b

-- The numbers of the entries that are not set, from one on.
unset_blocks : ℕ → List Bool → List ℕ
unset_blocks b [] = []
unset_blocks b (un ∷ blocks) =
    let rest = unset_blocks (suc b) blocks in if un then rest else b ∷ rest
