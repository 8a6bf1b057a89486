-- ===== src/Runtimes/Replay.antt =====
-- `ReplayRuntimeProvider` of pkg/runtimes/replay.go, which replays recorded writes while it runs.
use drafter.Base.{
  Bool, true, false, not, List, [], ◌∷◌, ◌++◌, String, Option, none, some, if◌then◌else◌, str_eq,
  is_empty, ◌≡◌, arith, inl, inr, Option-cases,
}
use drafter.Base.Dict.{contains}
use drafter.Errors.{GoError, nil, Cause}
use drafter.Script.{Oracle}
use drafter.Action.{
  World, Action, ◌⨾◌, done, doing, call, dropped, set_state, by_state, ignoring, asked,
}
use drafter.Action.Invariants.{
  Keeps, Keeps-done, Keeps-set_state, Keeps-by_state, Keeps-seq, Keeps-ignoring, Keeps-dropped,
  Keeps-doing, Keeps-call,
}
use drafter.Firecracker.Snapshot.{known_names}
use drafter.Runtimes.{RuntimeProvider, IsRuntime}

pub data ReplayCall : Type 0 where
  -- `NewFileStorage` and `NewBinLogReplay`; whether the name of the log has ".gz" behind it
  new_file_storage : String → ReplayCall
  new_bin_log_replay : String → Bool → ReplayCall
  flush_provider close_provider next : String → ReplayCall

pub record ReplayRuntimeProvider : Type 0 where
  pub home_path : String
  pub zipped : Bool
  -- the names of the maps, and whether the second one was made
  pub providers : List String
  pub replayers : Option (List String)
  -- whether `replayCancel` is set
  pub replay_cancel : Bool
  -- the goroutines that `replayWg` counts
  pub replaying : List String

abbrev pub ReplayAction : Type 0
ReplayAction = Action ReplayCall ReplayRuntimeProvider

abbrev empty_maps : ReplayRuntimeProvider → ReplayRuntimeProvider
empty_maps rp = record rp { providers = []; replayers = some [] }

abbrev add_provider : String → ReplayRuntimeProvider → ReplayRuntimeProvider
add_provider n rp = record rp { providers = rp.providers ++ n ∷ [] }

-- The names of a map that may be nil.
abbrev names_of : Option (List String) → List String
names_of none = []
names_of (some names) = names

abbrev add_replayer : String → ReplayRuntimeProvider → ReplayRuntimeProvider
add_replayer n rp = record rp { replayers = some (names_of rp.replayers ++ n ∷ []) }

-- The end of `Resume`, which starts a goroutine for each replayer.
abbrev start_replays : ReplayRuntimeProvider → ReplayRuntimeProvider
start_replays rp = record rp {
  replay_cancel = true;
  replaying = rp.replaying ++ names_of rp.replayers;
}

-- The start of `Suspend`, which waits for all goroutines.
abbrev stop_replays : ReplayRuntimeProvider → ReplayRuntimeProvider
stop_replays rp =
    if rp.replay_cancel then record rp { replay_cancel = false; replaying = [] } else rp

-- One goroutine of a name ends.
abbrev remove_one : String → List String → List String
remove_one n [] = []
remove_one n (m ∷ ms) = if str_eq m n then ms else m ∷ remove_one n ms

-- `err == io.EOF`
unfoldable pub is_eof : GoError → Bool
is_eof (Cause.end_of_file ∷ []) = true
is_eof e = false

module _ (reply : Oracle ReplayCall) where
  -- The loop of `init`.
  unfoldable pub init_devices : Bool → List String → ReplayAction
  init_devices zipped [] = done
  init_devices zipped (d ∷ names) =
      doing reply (new_file_storage d) nil (add_provider d) (λ rp. rp)
      ⨾ doing reply (new_bin_log_replay d zipped) nil (add_replayer d) (λ rp. rp)
      ⨾ init_devices zipped names

  -- `init`
  unfoldable pub init : ReplayAction
  init = set_state empty_maps ⨾ by_state (λ rp. init_devices rp.zipped known_names)

  -- The loop of `FlushData`, which only prints an error.
  unfoldable pub flush_providers : List String → ReplayAction
  flush_providers [] = done
  flush_providers (n ∷ names) = dropped reply (flush_provider n) ⨾ flush_providers names

  -- The loop of `Close`.
  unfoldable pub close_providers : List String → ReplayAction
  close_providers [] = done
  close_providers (n ∷ names) = call reply (close_provider n) nil ⨾ close_providers names

  unfoldable pub replay_flush_data : ReplayAction
  replay_flush_data = by_state (λ rp. flush_providers rp.providers)

  unfoldable pub replay_suspend : ReplayAction
  replay_suspend = set_state stop_replays ⨾ replay_flush_data

  unfoldable pub replay_resume : ReplayAction
  replay_resume =
      by_state (λ rp. elim rp.replayers [ none ↦ ignoring init | some names ↦ done ])
      ⨾ set_state start_replays

  unfoldable pub replay_close : ReplayAction
  replay_close = replay_suspend ⨾ by_state (λ rp. close_providers rp.providers)

  -- A round of a goroutine: it ends where the log has ended, and goes on after any other error.
  unfoldable pub replay_next : String → ReplayAction
  replay_next n w =
      let e = reply w.calls (next n) in
      (
        nil,
        record (asked reply (next n) w) {
          state =
              if is_eof e
              then record w.state { replaying = remove_one n w.state.replaying }
              else w.state;
        },
      )

  -- A round is made where there is a goroutine.
  unfoldable pub replay_turn : String → ReplayAction
  replay_turn n = by_state (λ rp. if contains n rp.replaying then replay_next n else done)

  unfoldable pub replay_runtime : RuntimeProvider ReplayCall ReplayRuntimeProvider String
  replay_runtime = record {
    start = done;
    resume = replay_resume;
    suspend = replay_suspend;
    flush_data = replay_flush_data;
    flush_devices = done;
    close = replay_close;
    device_path = λ rp. rp.home_path;
    get_vm_pid = λ rp. 0;
    turn = replay_turn;
  }

-- A goroutine can be cancelled.
abbrev pub Cancellable : ReplayRuntimeProvider → Type 0
Cancellable rp = rp.replay_cancel ≡ false → rp.replaying ≡ []

abbrev pub replays : ReplayRuntimeProvider → Bool
replays rp = not (is_empty rp.replaying)

-- The other maps have no part in a property that is kept here.
module _ (reply : Oracle ReplayCall) (P : ReplayRuntimeProvider → Type 0) where
  flush-Keeps : (names : List String) → Keeps P (flush_providers reply names)
  unfolding flush_providers
  flush-Keeps [] = Keeps-done P
  flush-Keeps (n ∷ names) = Keeps-seq P (Keeps-dropped P reply _) (flush-Keeps names)

  close-Keeps : (names : List String) → Keeps P (close_providers reply names)
  unfolding close_providers
  close-Keeps [] = Keeps-done P
  close-Keeps (n ∷ names) = Keeps-seq P (Keeps-call P reply _ _) (close-Keeps names)

  flush_data-Keeps : Keeps P (replay_flush_data reply)
  unfolding replay_flush_data
  flush_data-Keeps = Keeps-by_state P (λ rp. flush-Keeps rp.providers)

  module _ (stopping : (rp : ReplayRuntimeProvider) → P rp → P (stop_replays rp)) where
    suspend-Keeps : Keeps P (replay_suspend reply)
    unfolding replay_suspend
    suspend-Keeps = Keeps-seq P (Keeps-set_state P stop_replays stopping) flush_data-Keeps

    close_all-Keeps : Keeps P (replay_close reply)
    unfolding replay_close
    close_all-Keeps = Keeps-seq P suspend-Keeps (Keeps-by_state P (λ rp. close-Keeps rp.providers))

module _ (reply : Oracle ReplayCall) where
  init-Keeps :
      (zipped : Bool) (names : List String) → Keeps Cancellable (init_devices reply zipped names)
  unfolding init_devices
  init-Keeps zipped [] = Keeps-done Cancellable
  init-Keeps zipped (d ∷ names) =
      Keeps-seq Cancellable (Keeps-doing Cancellable reply _ _ _ _ (λ rp h. h) (λ rp h. h)) (
        Keeps-seq Cancellable (Keeps-doing Cancellable reply _ _ _ _ (λ rp h. h) (λ rp h. h))
          (init-Keeps zipped names))

  resume-Keeps : Keeps Cancellable (replay_resume reply)
  unfolding replay_resume init
  resume-Keeps =
      Keeps-seq Cancellable
        (Keeps-by_state Cancellable (λ rp. elim (Option-cases rp.replayers) [
          | inl e ↦ rw e (
              Keeps-ignoring Cancellable (
                Keeps-seq Cancellable (Keeps-set_state Cancellable empty_maps (λ rp' h. h))
                  (Keeps-by_state Cancellable (λ rp'. init-Keeps rp'.zipped known_names))))
          | inr (names, e) ↦ rw e (Keeps-done Cancellable)
        ]))
        (Keeps-set_state Cancellable start_replays (λ rp h. ground arith))

  turn_kept :
      (n : String) (w : World ReplayCall ReplayRuntimeProvider)
      → Cancellable w.state
      → Cancellable (replay_turn reply n w).1.state
  unfolding replay_turn replay_next by_state done
  turn_kept n w h = ground (arith, h)

  suspend_stops :
      (w : World ReplayCall ReplayRuntimeProvider)
      → Cancellable w.state
      → replays (replay_suspend reply w).1.state ≡ false
  unfolding replay_suspend ◌⨾◌ set_state
  suspend_stops w h =
      (flush_data-Keeps reply (λ s. replays s ≡ false)).kept
        (record { calls = w.calls; state = stop_replays w.state }) (ground (arith, h))

  -- The replay runtime keeps the promises of a runtime, whatever its calls return: each operation and each
  -- turn of a goroutine leaves every goroutine cancellable, if it was; only Resume starts any; a Suspend that
  -- returns nil leaves none; and where there is none a turn makes no call and changes nothing.
  pub replay_runtime-IsRuntime : IsRuntime (replay_runtime reply) Cancellable replays
  unfolding replay_runtime replay_turn by_state done
  replay_runtime-IsRuntime = record {
    start-Sound = Keeps-done _;
    resume-Sound = resume-Keeps;
    suspend-Sound = suspend-Keeps reply Cancellable (λ rp h. ground arith);
    flush_data-Sound = flush_data-Keeps reply Cancellable;
    flush_devices-Sound = Keeps-done _;
    close-Sound = close_all-Keeps reply Cancellable (λ rp h. ground arith);
    turn-Sound = λ n. record { kept = turn_kept n };
    start-Idle = Keeps-done _;
    suspend-Idle = suspend-Keeps reply _ (λ rp h. ground arith);
    flush_data-Idle = flush_data-Keeps reply _;
    flush_devices-Idle = Keeps-done _;
    close-Idle = close_all-Keeps reply _ (λ rp h. ground arith);
    suspend-stops = λ w s h. suspend_stops w s;
    turn-idle = λ n w s h. ground (arith, h);
  }
