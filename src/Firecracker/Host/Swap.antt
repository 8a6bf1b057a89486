-- ===== src/Firecracker/Host/Swap.antt =====
-- When `HostMightSwap` of pkg/runtimes/firecracker/machine.go answers that the host swaps.
use drafter.Base.{ℕ, Bool, true, false, not, ◌||◌, List, [], ◌∷◌, ◌++◌, ◌==◌, ◌≡◌, refl, arith, All}
use drafter.Base.Text.{Text, newline, is_space, split, cons_first, has_ink, is_empty-trim_space}
use drafter.Errors.{nil}
use drafter.Firecracker.Host.{find_swap, host_might_swap}

abbrev any_ink : List Text → Bool
any_ink [] = false
any_ink (line ∷ lines) = has_ink line || any_ink lines

any_ink-cons_first :
    (c : ℕ) (lines : List Text) → any_ink (cons_first c lines) ≡ (not (is_space c) || any_ink lines)
any_ink-cons_first c [] = ground arith
any_ink-cons_first c (line ∷ lines) = ground arith

any_ink-split : (s : Text) → any_ink (split newline s) ≡ has_ink s
unfolding split is_space
any_ink-split [] = refl
any_ink-split (c ∷ s) = ground (arith, any_ink-split s, any_ink-cons_first c (split newline s))

find_swap-any_ink : (lines : List Text) → find_swap true lines ≡ any_ink lines
unfolding find_swap
find_swap-any_ink [] = refl
find_swap-any_ink (line ∷ lines) = ground (arith, is_empty-trim_space line, find_swap-any_ink lines)

-- The first line, and what is behind its end.
split-header :
    (header rest : Text)
    → All (λ c. (c == newline) ≡ false) header
    → split newline (header ++ newline ∷ rest) ≡ header ∷ split newline rest
unfolding split
split-header [] rest h = refl
split-header (c ∷ header) rest h = ground (arith, split-header header rest h.1)

-- If the file was read and its first line is the header, HostMightSwap answers true exactly if anything
-- but white space stands behind that line.
pub host_might_swap-has_ink :
    (header rest : Text)
    → All (λ c. (c == newline) ≡ false) header
    → host_might_swap nil (header ++ newline ∷ rest) ≡ (nil, has_ink rest)
unfolding host_might_swap find_swap
host_might_swap-has_ink header rest h =
    ground (
      arith,
      split-header header rest h,
      find_swap-any_ink (split newline rest),
      any_ink-split rest,
    )
