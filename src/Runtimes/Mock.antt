-- ===== src/Runtimes/Mock.antt =====
-- `MockRuntimeProvider` of pkg/runtimes/mock_runtime.go, which writes to its devices while it runs. A
-- failed assertion is noted, and the code goes on; which device and which offset are drawn is an argument.
use drafter.Base.{
  ℕ, suc, Bool, true, false, not, List, [], ◌∷◌, String, if◌then◌else◌, ◌==◌, ◌≡◌, arith,
  Bool-cases, inl, inr,
}
use drafter.Base.Dict.{contains}
use drafter.Errors.{nil, failed}
use drafter.Script.{Oracle}
use drafter.Action.{World, Action, ◌⨾◌, done, set_state, by_state}
use drafter.Action.Invariants.{
  Keeps, Keeps-done, Keeps-set_state, Keeps-by_state, Keeps-if, Keeps-seq,
}
use drafter.Runtimes.{RuntimeProvider, IsRuntime}

pub data MockCall : Type 0 where
  read_file open_device sync_device close_device : String → MockCall
  read_random : MockCall
  -- of 4096 bytes at an offset
  write_at write_also_at : String → ℕ → MockCall

pub record MockRuntimeProvider : Type 0 where
  pub home_path : String
  pub do_writes : Bool
  pub write_also : List String
  pub device_names : List String
  -- whether `writeCancel` is set
  pub write_cancel : Bool
  -- the goroutines that `writeWaitGroup` counts
  pub writers : ℕ
  -- whether an assertion has failed
  pub test_failed : Bool

abbrev pub MockAction : Type 0
MockAction = Action MockCall MockRuntimeProvider

abbrev stop_writers : MockRuntimeProvider → MockRuntimeProvider
stop_writers rp = if rp.write_cancel then record rp { write_cancel = false; writers = 0 } else rp

abbrev start_writer : MockRuntimeProvider → MockRuntimeProvider
start_writer rp =
    if rp.do_writes then record rp { write_cancel = true; writers = suc rp.writers } else rp

abbrev fail_test : MockRuntimeProvider → MockRuntimeProvider
fail_test rp = record rp { test_failed = true }

module _ (reply : Oracle MockCall) where
  -- A call whose error is asserted to be nil.
  unfoldable pub assert_no_error : MockCall → MockAction
  assert_no_error c w =
      let e = reply w.calls c in
      (
        nil,
        record {
          calls = (c, e) ∷ w.calls;
          state = if failed e then fail_test w.state else w.state;
        },
      )

  -- The loop of `FlushData`.
  unfoldable pub sync_devices : List String → MockAction
  sync_devices [] = done
  sync_devices (n ∷ names) =
      assert_no_error (open_device n)
      ⨾ assert_no_error (sync_device n)
      ⨾ assert_no_error (close_device n)
      ⨾ sync_devices names

  -- The loop of `Resume`, which prints the hashes.
  unfoldable pub hash_devices : List String → MockAction
  hash_devices [] = done
  hash_devices (n ∷ names) = assert_no_error (read_file n) ⨾ hash_devices names

  -- A round of the goroutine that writes.
  unfoldable pub write_round : String → ℕ → MockAction
  write_round name offset =
      assert_no_error (open_device name)
      ⨾ assert_no_error read_random
      ⨾ assert_no_error (write_at name offset)
      ⨾ by_state (λ rp.
        if contains name rp.write_also then assert_no_error (write_also_at name offset) else done)
      ⨾ assert_no_error (sync_device name)
      ⨾ assert_no_error (close_device name)

  unfoldable pub mock_suspend : MockAction
  mock_suspend = set_state stop_writers

  -- A round is made where there is a goroutine.
  unfoldable pub mock_turn : String × ℕ → MockAction
  mock_turn (name, offset) =
      by_state (λ rp. if rp.writers == 0 then done else write_round name offset)

  unfoldable pub mock_runtime : RuntimeProvider MockCall MockRuntimeProvider (String × ℕ)
  mock_runtime = record {
    start = done;
    resume = by_state (λ rp. hash_devices rp.device_names) ⨾ set_state start_writer;
    suspend = mock_suspend;
    flush_data = by_state (λ rp. sync_devices rp.device_names);
    flush_devices = done;
    close = mock_suspend;
    device_path = λ rp. rp.home_path;
    get_vm_pid = λ rp. 0;
    turn = mock_turn;
  }

-- A goroutine can be cancelled.
abbrev pub Cancellable : MockRuntimeProvider → Type 0
Cancellable rp = rp.write_cancel ≡ false → rp.writers ≡ 0

abbrev pub writes : MockRuntimeProvider → Bool
writes rp = not (rp.writers == 0)

module _ (reply : Oracle MockCall) (P : MockRuntimeProvider → Type 0)
    (fails : (rp : MockRuntimeProvider) → P rp → P (fail_test rp)) where
  assert_kept :
      (c : MockCall) (w : World MockCall MockRuntimeProvider)
      → P w.state
      → P (assert_no_error reply c w).1.state
  unfolding assert_no_error
  assert_kept c w p = elim (Bool-cases (failed (reply w.calls c))) [
    | inl bad ↦ rw bad (fails w.state p)
    | inr good ↦ rw good p
  ]

  assert-Keeps : (c : MockCall) → Keeps P (assert_no_error reply c)
  assert-Keeps c = record { kept = assert_kept c }

  sync-Keeps : (names : List String) → Keeps P (sync_devices reply names)
  unfolding sync_devices
  sync-Keeps [] = Keeps-done P
  sync-Keeps (n ∷ names) =
      Keeps-seq P (assert-Keeps _)
        (Keeps-seq P (assert-Keeps _) (Keeps-seq P (assert-Keeps _) (sync-Keeps names)))

  hash-Keeps : (names : List String) → Keeps P (hash_devices reply names)
  unfolding hash_devices
  hash-Keeps [] = Keeps-done P
  hash-Keeps (n ∷ names) = Keeps-seq P (assert-Keeps _) (hash-Keeps names)

  turn-Keeps : (t : String × ℕ) → Keeps P (mock_turn reply t)
  unfolding mock_turn write_round
  turn-Keeps (name, offset) = Keeps-by_state P (λ rp. Keeps-if P (rp.writers == 0) (Keeps-done P) (
      Keeps-seq P (assert-Keeps _) (
        Keeps-seq P (assert-Keeps _) (
          Keeps-seq P (assert-Keeps _) (
            Keeps-seq P
              (Keeps-by_state P
                (λ rp'. Keeps-if P (contains name rp'.write_also) (assert-Keeps _) (Keeps-done P)))
              (Keeps-seq P (assert-Keeps _) (assert-Keeps _)))))))

-- The mock keeps the promises of a runtime, whatever its calls return.
pub mock_runtime-IsRuntime :
    (reply : Oracle MockCall) → IsRuntime (mock_runtime reply) Cancellable writes
unfolding mock_runtime mock_suspend mock_turn done set_state by_state
mock_runtime-IsRuntime reply = record {
  start-Sound = Keeps-done _;
  resume-Sound =
      Keeps-seq Cancellable
        (Keeps-by_state Cancellable
          (λ rp. hash-Keeps reply Cancellable (λ rp' h. h) rp.device_names))
        (Keeps-set_state Cancellable start_writer (λ rp h. ground arith));
  suspend-Sound = Keeps-set_state Cancellable stop_writers (λ rp h. ground arith);
  flush_data-Sound =
      Keeps-by_state Cancellable (λ rp. sync-Keeps reply Cancellable (λ rp' h. h) rp.device_names);
  flush_devices-Sound = Keeps-done _;
  close-Sound = Keeps-set_state Cancellable stop_writers (λ rp h. ground arith);
  turn-Sound = turn-Keeps reply Cancellable (λ rp h. h);
  start-Idle = Keeps-done _;
  suspend-Idle = Keeps-set_state _ stop_writers (λ rp h. ground arith);
  flush_data-Idle =
      Keeps-by_state _
        (λ rp. sync-Keeps reply (λ s. writes s ≡ false) (λ rp' h. h) rp.device_names);
  flush_devices-Idle = Keeps-done _;
  close-Idle = Keeps-set_state _ stop_writers (λ rp h. ground arith);
  suspend-stops = λ w s h. ground (arith, s);
  turn-idle = λ t w s h. ground (arith, h);
}
