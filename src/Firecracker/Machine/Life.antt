-- ===== src/Firecracker/Machine/Life.antt =====
-- What holds of a machine however its goroutines, its callers and its process take turns.
use drafter.Base.{
  ℕ, ◌+◌, ◌≤◌, Bool, true, false, List, [], ◌∷◌, none, some, if◌then◌else◌, length, length-append,
  Option-cases, Bool-cases, ◌||◌, subst, Panic, returned, panicked, ◌≡◌, refl, arith, ◌⊎◌, inl, inr,
}
use drafter.Errors.{GoError, nil, join, FirecrackerError}
use drafter.Firecracker.Machine.{because}
use drafter.Firecracker.Machine.Process.{
  Exit, clean, killed, other, exit_error, FirecrackerMachine, started, exit, send, context_end,
  report, report_exit, close_begin, close_end, wait_end,
}

-- A turn: the process exits, the goroutine reports, the context ends, a caller closes, or the start takes
-- the report.
pub data Turn (m : FirecrackerMachine) : FirecrackerMachine → Type 0 where
  exits : (e : Exit) → Turn m (exit e m)
  reports : (m' : FirecrackerMachine) → report m ≡ returned m' → Turn m m'
  ends : Turn m (context_end m)
  closes : (kill_error : GoError) → Turn m (close_begin kill_error m).1
  takes :
      (e : GoError) (rest : List GoError)
      → m.cmd_err_ch ≡ e ∷ rest
      → Turn m (record m { cmd_err_ch = rest })

-- Whether `cmd.Wait` has returned.
abbrev pub has_exited : FirecrackerMachine → Bool
has_exited m = elim m.cmd_err [ none ↦ false | some _ ↦ true ]

pub data Life : FirecrackerMachine → Type 0 where
  begun : Life started
  turn : {m m' : FirecrackerMachine} → Life m → Turn m m' → Life m'

-- One signal of Close at most, as the flag says; one report at most; none before the process has exited.
pub record IsSound (m : FirecrackerMachine) : Type 0 where
  pub one_kill : m.kills ≡ (if m.closed then 1 else 0)
  pub one_report : m.reports + (if m.reporting then 1 else 0) ≡ 1
  pub buffered : length m.cmd_err_ch ≤ m.reports
  pub report_late : (m.reporting || has_exited m) ≡ true

send-IsSound :
    (e : GoError) (m : FirecrackerMachine)
    → m.reporting ≡ true
    → has_exited m ≡ true
    → IsSound m
    → IsSound (send e m)
send-IsSound e m r x h = ground (arith, length-append m.cmd_err_ch (e ∷ []))

report_exit-IsSound :
    (e : Exit) (m m' : FirecrackerMachine)
    → m.reporting ≡ true
    → has_exited m ≡ true
    → IsSound m
    → report_exit e m ≡ returned m'
    → IsSound m'
unfolding report_exit
report_exit-IsSound clean m m' r x h k = ground (arith, send-IsSound nil m r x h)
report_exit-IsSound killed m m' r x h k =
    subst IsSound (ground (arith, k))
      (send-IsSound (if m.closed then nil else exit_error killed) m r x h)
report_exit-IsSound (other n) m m' r x h k =
    subst IsSound (ground (arith, k)) (send-IsSound (exit_error (other n)) m r x h)

Turn-IsSound : {m m' : FirecrackerMachine} → IsSound m → Turn m m' → IsSound m'
unfolding report close_begin
Turn-IsSound {m} h (exits e) = ground arith
Turn-IsSound {m} h (reports m' r) = elim (Option-cases m.cmd_err) [
  | inl running ↦ subst IsSound (ground (arith, running, r)) h
  | inr (e, exited) ↦ elim (Bool-cases m.reporting) [
    | inl due ↦
        report_exit-IsSound e m m' due (ground (arith, exited)) h (ground (arith, exited, r))
    | inr sent ↦ subst IsSound (ground (arith, exited, sent, r)) h
  ]
]
Turn-IsSound {m} h ends = ground arith
Turn-IsSound {m} h (closes e) = ground arith
Turn-IsSound {m} h (takes e rest k) = ground arith

-- However the goroutine, the callers of Close, the process, the end of the context and the start take turns:
-- Close sends the process one signal at most, in its first call, whether or not the context has killed it;
-- the goroutine reports once at most, so that the channel never holds more than one report; and it reports
-- nothing before the process has exited.
pub Life-IsSound : {m : FirecrackerMachine} → Life m → IsSound m
Life-IsSound begun = ground arith
Life-IsSound (turn l t) = Turn-IsSound (Life-IsSound l) t

-- Where a Close has begun and the process has exited, the end of Close and that of Wait agree: both
-- return nil for a process that was killed; both return the error of any other failure, Wait with its
-- sentinel; but of a process that has ended without one, Wait returns nil and Close panics.
pub close_end-wait_end :
    (e : Exit)
    → ((e ≡ killed) × (close_end e ≡ returned nil) × (wait_end true e ≡ nil))
      ⊎ ((e ≡ clean) × (close_end e ≡ panicked Panic.nil_pointer) × (wait_end true e ≡ nil))
      ⊎ ((n : ℕ) × (e ≡ other n)
          × (close_end e ≡ returned (exit_error e))
          × (wait_end true e ≡ join (because FirecrackerError.firecracker_exited) (exit_error e)))
unfolding close_end wait_end
close_end-wait_end clean = inr (inl (refl, refl, refl))
close_end-wait_end killed = inl (refl, refl, refl)
close_end-wait_end (other n) = inr (inr (n, refl, refl, refl))
