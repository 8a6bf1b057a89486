-- ===== src/Firecracker/Host/Examples.antt =====
-- /proc/swaps with an area and without one, and two hosts by their /proc/cpuinfo.
use drafter.Base.{true, false, ◌∷◌, [], ◌++◌, ◌≡◌, refl}
use drafter.Base.Text.{
  Text, codes, newline, is_space, split, has_prefix, text_eq, trim_space, trim_left, trim_right,
}
use drafter.Errors.{nil}
use drafter.Firecracker.Host.{find_swap, host_might_swap, get_cpu_template, is_pvm_host}

abbrev short_header : Text
short_header = codes "Type"

-- The line behind the first has an area, or is blank.
might_swap : host_might_swap nil (short_header ++ newline ∷ codes "/a") ≡ (nil, true)
unfolding host_might_swap find_swap split trim_space trim_left trim_right is_space
might_swap = refl

no_swap : host_might_swap nil (short_header ++ newline ∷ []) ≡ (nil, false)
unfolding host_might_swap find_swap split trim_space trim_left trim_right is_space
no_swap = refl

abbrev intel : Text
intel = codes "processor\t: 0" ++ newline ∷ codes "vendor_id\t: GenuineIntel"

intel_template : get_cpu_template nil intel ≡ (nil, "None")
unfolding get_cpu_template split has_prefix text_eq trim_space is_space trim_right trim_left
intel_template = refl

no_pvm : is_pvm_host nil (codes "kvm 1 2") ≡ (nil, false)
unfolding is_pvm_host split has_prefix
no_pvm = refl
