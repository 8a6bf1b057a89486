-- ===== src/Firecracker/Runtime/Resume.antt =====
-- `Resume` of pkg/runtimes/firecracker/runtime.go.
use drafter.Base.{
  ℕ, zero, suc, Bool, true, false, not, List, [], ◌∷◌, Option, none, some, if◌then◌else◌, leb, ◌==◌,
  Panic, take,
}
use drafter.Errors.{nil, failed, FirecrackerError}
use drafter.Script.{Oracle}
use drafter.Action.{World, ◌⨾◌, done, doing, each, by_state, set_state, asked}
use drafter.Common.Package.{Content}
use drafter.Firecracker.Machine.{because, resume_snapshot_steps}
use drafter.Firecracker.Runtime.{
  RuntimeCall, Runtime, RuntimeAction, panics, with_machine, set_running, say, read_config,
  open_process_memory, start_agent, get_remote, after_resume, api,
}
use drafter.Firecracker.Runtime.Incoming.{incoming_dirty_offsets}

-- The loop for the first zero byte: its index, or 0 where there is none.
unfoldable pub first_zero : ℕ → Content → ℕ
first_zero i [] = 0
first_zero i (c ∷ cs) = if c == 0 then i else first_zero (suc i) cs

-- `configFileData[:firstZero]`
unfoldable pub config_data : Content → Content
unfolding first_zero
config_data file = take (first_zero 0 file) file

-- `json.Unmarshal` of the configuration is part of the standard library and an argument: the port, or
-- an error.
abbrev pub Unmarshal : Type 0
Unmarshal = Content → Option ℕ

unfoldable pub decode_config : Unmarshal → Content → RuntimeAction
decode_config unmarshal file w = elim (unmarshal (config_data file)) [
  | none ↦ (because FirecrackerError.could_not_decode_config_file, w)
  | some port ↦ (nil, w)
]

-- The memory of Silo, as the migration has left it.
pub record MemoryDevice : Type 0 where
  pub num_blocks : ℕ
  pub block_size : ℕ
  pub unrequired : List ℕ

-- What is marked as dirty before the machine is resumed, if the memory is used directly.
unfoldable pub mark_incoming : MemoryDevice → RuntimeAction
mark_incoming memory = by_state (λ rt.
    if rt.direct_memory
    then elim (incoming_dirty_offsets memory.num_blocks memory.block_size memory.unrequired) [
      | none ↦ panics Panic.index_out_of_range
      | some offsets ↦ set_state (λ (rt' : Runtime). record rt' { incoming_dirty = offsets })
    ]
    else done)

abbrev pub resume_max_retries : ℕ
resume_max_retries = 10

module _ (reply : Oracle RuntimeCall) where
  -- One attempt to reach the guest and have it act on its resumption.
  unfoldable pub reach_guest : World RuntimeCall Runtime → Bool × World RuntimeCall Runtime
  reach_guest w =
      let got = asked reply get_remote w in
      if failed (reply w.calls get_remote)
      then (false, got)
      else (not (failed (reply got.calls after_resume)), asked reply after_resume got)

  -- The loop, with fuel; the second number is `resumeRetries`.
  unfoldable pub retry_guest : ℕ → ℕ → RuntimeAction
  unfolding reach_guest
  retry_guest zero retries w = (because FirecrackerError.could_not_resume_runner, w)
  retry_guest (suc fuel) retries w =
      let (reached, w') = reach_guest w in
      let rest = retry_guest fuel (suc retries) w' in
      if leb resume_max_retries (suc retries)
      then (because FirecrackerError.could_not_resume_runner, w)
      else (if reached then (nil, w') else rest)

  -- `Resume` once the snapshot is resumed.
  unfoldable pub resume_guest : RuntimeAction
  resume_guest =
      by_state (λ rt. if rt.direct_memory then say reply open_process_memory nil else done)
      ⨾ set_state (λ (rt : Runtime). set_running true (record rt { dg = true }))
      ⨾ doing reply start_agent nil (λ (rt : Runtime). record rt { agent = true })
          (λ (rt : Runtime). record rt { agent = false })
      ⨾ retry_guest resume_max_retries 0

  -- `Resume`, of the content of the configuration and the memory that it finds.
  unfoldable pub resume : Unmarshal → Content → MemoryDevice → RuntimeAction
  resume unmarshal file memory =
      with_machine (say reply read_config (because FirecrackerError.could_not_open_config_file))
      ⨾ decode_config unmarshal file
      ⨾ mark_incoming memory
      ⨾ by_state (λ rt. each reply api (resume_snapshot_steps rt.no_map_shared "state" "memory"))
      ⨾ resume_guest
