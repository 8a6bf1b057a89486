-- ===== src/Firecracker/Host.antt =====
-- What pkg/runtimes/firecracker/machine.go reads of the host: `GetCPUTemplate`, `IsPVMHost` and
-- `HostMightSwap`. The content of each file of /proc, or the error of the read, is an argument.
pub mod Swap
mod Examples
use drafter.Base.{
  ℕ, Bool, true, false, not, ◌&&◌, List, [], ◌∷◌, String, if◌then◌else◌, ◌==◌, is_empty,
}
use drafter.Base.Text.{Text, codes, newline, trim_space, split, has_prefix, text_eq}
use drafter.Errors.{GoError, nil, failed, Cause, FirecrackerError}

-- The byte that separates the name of a field of /proc/cpuinfo from its value.
abbrev colon : ℕ
colon = b':'

abbrev unknown : GoError × String
unknown = (Cause.firecracker FirecrackerError.unknown_cpu ∷ [], "")

-- `switch vendorID`
unfoldable pub template_of : Text → GoError × String
template_of vendor =
    if text_eq vendor (codes "GenuineIntel")
    then (nil, "None")
    else (if text_eq vendor (codes "AuthenticAMD") then (nil, "T2A") else unknown)

-- `if len(bits) == 2`
unfoldable pub vendor_template : List Text → GoError × String
vendor_template [] = unknown
vendor_template (name ∷ []) = unknown
vendor_template (name ∷ value ∷ []) = template_of (trim_space value)
vendor_template (name ∷ value ∷ more ∷ rest) = unknown

-- The loop, which ends at the first line of the prefix.
unfoldable pub find_template : List Text → GoError × String
unfolding template_of vendor_template
find_template [] = unknown
find_template (line ∷ lines) =
    if has_prefix line (codes "vendor_id")
    then vendor_template (split colon line)
    else find_template lines

-- `GetCPUTemplate`
unfoldable pub get_cpu_template : GoError → Text → GoError × String
unfolding find_template
get_cpu_template err cpuinfo =
    if failed err then (err, "") else find_template (split newline cpuinfo)

unfoldable pub find_module : List Text → Bool
find_module [] = false
find_module (line ∷ lines) = if has_prefix line (codes "kvm_pvm") then true else find_module lines

-- `IsPVMHost`
unfoldable pub is_pvm_host : GoError → Text → GoError × Bool
unfolding find_module
is_pvm_host err modules =
    if failed err then (err, false) else (nil, find_module (split newline modules))

unfoldable pub find_swap : Bool → List Text → Bool
find_swap done_header [] = false
find_swap done_header (line ∷ lines) =
    if done_header && not (is_empty (trim_space line)) then true else find_swap true lines

-- `HostMightSwap`
unfoldable pub host_might_swap : GoError → Text → GoError × Bool
unfolding find_swap
host_might_swap err swaps =
    if failed err then (err, false) else (nil, find_swap false (split newline swaps))
