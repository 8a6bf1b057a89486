-- ===== src/Common/Package/Examples.antt =====
-- A package of two devices, encoded byte by byte.
use drafter.Base.{
  ℕ, zero, suc, reverse, if◌then◌else◌, str_eq, false, List, [], ◌∷◌, Option, none, some, ◌≡◌, ◌↔◌,
  refl, All,
}
use drafter.Errors.{nil, failed, join, Cause, PackageError}
use drafter.Script.{Oracle, run_steps, run_deferred}
use drafter.Common.Package.{
  PackagerDevice, Content, FileSystem, Entry, Codec, PackCall, close_compressor, read_file, because,
}
use drafter.Common.Package.Archive.{archive_package, archive_devices}
use drafter.Common.Package.Extract.{extract_device, extract_devices, extract_package}
use drafter.Common.Package.Order.{InOrder, extract_devices_iff}
use drafter.Common.Package.RoundTrip.{Pairs, sources, targets, extract-archive}

abbrev obliging : Oracle PackCall
obliging log c = nil

abbrev state_out : PackagerDevice
state_out = record { name = "state"; path = "out/state.bin" }

abbrev memory_out : PackagerDevice
memory_out = record { name = "memory"; path = "out/memory.bin" }

abbrev state_in : PackagerDevice
state_in = record { name = "state"; path = "in/state.bin" }

abbrev memory_in : PackagerDevice
memory_in = record { name = "memory"; path = "in/memory.bin" }

abbrev pairs : Pairs
pairs = (state_out, state_in) ∷ (memory_out, memory_in) ∷ []

abbrev files : FileSystem
files = ("out/state.bin", 1 ∷ 2 ∷ []) ∷ ("out/memory.bin", 3 ∷ []) ∷ []

abbrev two_entries : List Entry
two_entries =
    record { name = "state"; data_of = 1 ∷ [] } ∷ record { name = "memory"; data_of = 2 ∷ [] } ∷ []

-- The name as a number; each byte plus one; and a zero to end them.
encode_data : Content → Content → Content
encode_data [] rest = 0 ∷ rest
encode_data (b ∷ bs) rest = suc b ∷ encode_data bs rest

encode_entries : List Entry → Content
encode_entries [] = []
encode_entries (e ∷ es) =
    (if str_eq e.name "state" then 0 else 1) ∷ encode_data e.data_of (encode_entries es)

decode_entries : Content → Option ℕ → Content → List Entry
decode_entries [] at data_read = []
decode_entries (b ∷ bs) none data_read = decode_entries bs (some b) []
decode_entries (zero ∷ bs) (some n) data_read =
    record { name = elim n [ zero ↦ "state" | suc k ↦ "memory" ]; data_of = reverse data_read }
    ∷ decode_entries bs none []
decode_entries (suc b ∷ bs) (some n) data_read = decode_entries bs (some n) (b ∷ data_read)

abbrev plain : Codec
plain = record {
  encode = encode_entries;
  torn = λ es. [];
  decode = λ bytes. decode_entries bytes none [];
}

extract-archive_example :
    let archived = (archive_package obliging plain (sources pairs) "a.pkg" files).1 in
    let extracted = extract_package obliging plain "a.pkg" (targets pairs) archived in
    (failed extracted.0 ≡ false)
    × All (λ p. read_file p.1.path extracted.1 ≡ read_file p.0.path files) pairs
unfolding encode_data encode_entries decode_entries archive_package archive_devices run_steps
    run_deferred
extract-archive_example =
    extract-archive obliging obliging plain "a.pkg" pairs files refl (refl, (refl, tt))
      ((refl, tt), (tt, tt)) (refl, (refl, tt)) refl refl (λ log c. refl)

extract_devices_iff_example :
    (failed (extract_devices obliging plain (state_in ∷ memory_in ∷ []) two_entries files []).error
      ≡ false)
    ↔ InOrder ("state" ∷ "memory" ∷ []) ("state" ∷ "memory" ∷ [])
extract_devices_iff_example =
    extract_devices_iff obliging plain (state_in ∷ memory_in ∷ []) two_entries files []
      (λ log c. refl)

-- The same devices in the other order: the second is reported as missing.
disordered :
    (extract_devices obliging plain (memory_in ∷ state_in ∷ []) two_entries files []).error
    ≡ join (Cause.missing_device "state" ∷ []) (because PackageError.missing_device)
unfolding extract_devices extract_device
disordered = refl

-- The compressor cannot be closed: nil is returned all the same, for a torn package.
abbrev torn_close : Oracle PackCall
torn_close log close_compressor = Cause.external 1 ∷ []
torn_close log c = nil

torn_unnoticed : (archive_package torn_close plain (sources pairs) "a.pkg" files).0 ≡ nil
unfolding archive_package archive_devices run_steps run_deferred
torn_unnoticed = refl
