-- ===== src/Firecracker/Runtime/Retries.antt =====
-- How often `Resume` of pkg/runtimes/firecracker/runtime.go tries to reach the guest.
use drafter.Base.{
  ℕ, zero, suc, ◌+◌, ◌-◌, ◌≤◌, ◌<◌, Bool, true, false, not, ◌∷◌, count, leb, ◌≡◌, refl, arith, ◌⊎◌,
  inl, inr, Bool-cases,
}
use drafter.Errors.{GoError, failed, FirecrackerError}
use drafter.Script.{Log, Oracle}
use drafter.Action.{World}
use drafter.Firecracker.Machine.{because}
use drafter.Firecracker.Runtime.{RuntimeCall, Runtime, get_remote, after_resume}
use drafter.Firecracker.Runtime.Resume.{reach_guest, retry_guest, resume_max_retries}

abbrev pub is_get_remote : RuntimeCall × GoError → Bool
is_get_remote (get_remote, e) = true
is_get_remote (c, e) = false

-- How often the guest was to be reached.
abbrev pub tries : World RuntimeCall Runtime → ℕ
tries w = count is_get_remote w.calls

-- Whether the last call was a successful `AfterResume`.
abbrev pub guest_answered : Log RuntimeCall → Bool
guest_answered ((after_resume, e) ∷ log) = not (failed e)
guest_answered log = false

module _ (reply : Oracle RuntimeCall) where
  reach_guest-tries :
      (w : World RuntimeCall Runtime)
      → (tries (reach_guest reply w).1 ≡ suc (tries w))
        × ((reach_guest reply w).0 ≡ guest_answered (reach_guest reply w).1.calls)
  unfolding reach_guest
  reach_guest-tries w = ground arith

  abbrev Tried : ℕ → World RuntimeCall Runtime → GoError × World RuntimeCall Runtime → Type 0
  Tried n w r =
      ((failed r.0 ≡ false) × (guest_answered r.1.calls ≡ true) × (tries r.1 ≤ tries w + n))
      ⊎ ((r.0 ≡ because FirecrackerError.could_not_resume_runner) × (tries r.1 ≡ tries w + n))

  retry_guest-Tried :
      (fuel retries : ℕ) (w : World RuntimeCall Runtime)
      → fuel + retries ≡ 10
      → 0 < fuel
      → Tried (9 - retries) w (retry_guest reply fuel retries w)
  unfolding retry_guest
  retry_guest-Tried zero retries w h k = elim k [ ]
  retry_guest-Tried (suc fuel) retries w h k = elim (Bool-cases (leb 10 (suc retries))) [
    | inl last ↦ rw last (inr (refl, ground arith))
    | inr more ↦ elim (Bool-cases (reach_guest reply w).0) [
      | inl reached ↦
          rw (more, reached)
            (inl (
              refl,
              ground (arith, reach_guest-tries w, reached),
              ground (arith, reach_guest-tries w),
            ))
      | inr not_yet ↦
          rw (more, not_yet)
            (later fuel retries w (reach_guest reply w).1
              (retry_guest reply fuel (suc retries) (reach_guest reply w).1) (reach_guest-tries w).0
              (ground arith)
              (retry_guest-Tried fuel (suc retries) (reach_guest reply w).1 (ground arith)
                (ground arith)))
    ]
  ]
    where
      later :
          (fuel retries : ℕ) (w w' : World RuntimeCall Runtime)
          (r : GoError × World RuntimeCall Runtime)
          → tries w' ≡ suc (tries w)
          → retries < 9
          → Tried (9 - suc retries) w' r
          → Tried (9 - retries) w r
      later fuel retries w w' r e k (inl done) = inl (ground arith)
      later fuel retries w w' r e k (inr none_left) = inr (ground arith)

  -- The loop of Resume ends, whatever its calls return: either the guest has answered, and it was tried
  -- nine times at most; or it was tried exactly nine times, and the error is that of a runner that cannot
  -- be resumed.
  pub retry_guest-bounded :
      (w : World RuntimeCall Runtime)
      → let r = retry_guest reply resume_max_retries 0 w in
        ((failed r.0 ≡ false) × (guest_answered r.1.calls ≡ true) × (tries r.1 ≤ tries w + 9))
        ⊎ ((r.0 ≡ because FirecrackerError.could_not_resume_runner) × (tries r.1 ≡ tries w + 9))
  retry_guest-bounded w = retry_guest-Tried resume_max_retries 0 w refl (ground arith)
