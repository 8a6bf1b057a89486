-- ===== src/Peer/Operations.antt =====
-- The migrations of a peer, and any sequence of its operations.
use drafter.Base.{
  ℕ, ◌+◌, Bool, true, false, ◌&&◌, List, [], ◌∷◌, if◌then◌else◌, ltb, ◌==◌, Outcome, returned,
  ◌>>=◌, ◌≡◌,
}
use drafter.Errors.{GoError, nil, failed}
use drafter.Script.{Oracle}
use drafter.Peer.{
  PeerCall, Peer, runtime_suspend, runtime_flush_data, migrate_from_pipe, migrate_from_fs,
  migrate_to_pipe, wait_for_completion, wait_for_ready, on_completion,
  on_local_all_devices_requested, offer_err, set_dg, answer, asked, hook, close_runtime, close_peer,
  resume,
}

-- The callbacks that `MigrateTo` hands to the VM state manager.
pub data VmCallback : Type 0 where
  suspend flush_data : VmCallback

-- Whether a group is waited for, and the others that are.
unfoldable pub waits_for : ℕ → List ℕ → Bool
waits_for g [] = false
waits_for g (h ∷ hs) = let rest = waits_for g hs in if h == g then true else rest

unfoldable pub stop_waiting : ℕ → List ℕ → List ℕ
stop_waiting g [] = []
stop_waiting g (h ∷ hs) = let rest = stop_waiting g hs in if h == g then rest else h ∷ rest

module _ (reply : Oracle PeerCall) where
  -- `MigrateFrom`, by the numbers of readers and writers and the hooks that are set.
  unfoldable pub migrate_from : ℕ → ℕ → Bool → Bool → Peer → GoError × Peer
  migrate_from readers writers on_requested on_completed peer =
      let begun = record peer { migrating_from = 1 } in
      let e = answer reply migrate_from_pipe begun in
      let piped = asked reply migrate_from_pipe begun in
      let e' = answer reply migrate_from_fs begun in
      let local = asked reply migrate_from_fs begun in
      if ltb 0 readers && ltb 0 writers
      then (if failed e
          then (e, piped)
          else (nil, record (set_dg piped) { monitored = piped.made ∷ piped.monitored }))
      else (if readers == 0 && writers == 0
          then (if failed e' then (e', record local { migrating_from = 0 }) else (
            nil,
            record (hook reply on_completed on_completion
                (hook reply on_requested on_local_all_devices_requested (set_dg local))) {
                  migrating_from = 0;
                },
          ))
          else (nil, begun))

  -- The goroutine of `MigrateFrom` that waits for the transfer of a group, from beginning to end.
  unfoldable pub monitor : Bool → ℕ → Peer → Peer
  monitor on_completed g peer =
      let e = answer reply (wait_for_completion g) peer in
      let complete = asked reply (wait_for_completion g) peer in
      let e' = answer reply (wait_for_ready g) complete in
      let is_ready = asked reply (wait_for_ready g) complete in
      let over = λ (p : Peer).
        let q : Peer = record p { migrating_from = 0; monitored = stop_waiting g p.monitored } in
        q in
      if failed e
      then over (offer_err e complete)
      else (if failed e'
          then over (offer_err e' (record is_ready { migrating_from_wait_ready = 0 }))
          else over (
              hook reply on_completed on_completion
                (record is_ready { migrating_from_wait_ready = 0 })))

  -- The closures `suspend` and `flushData` of `MigrateTo`.
  unfoldable pub run_callback : VmCallback → Peer → Peer
  run_callback suspend peer =
      let e = answer reply (runtime_suspend peer.dg) peer in
      let done = asked reply (runtime_suspend peer.dg) peer in
      if failed e then done else record done { vm_running = 0 }
  run_callback flush_data peer =
      let e = answer reply (runtime_flush_data peer.dg) peer in
      let done = asked reply (runtime_flush_data peer.dg) peer in
      if failed e then done else record done { flush_data_ops = peer.flush_data_ops + 1 }

  unfoldable pub run_callbacks : List VmCallback → Peer → Peer
  unfolding run_callback
  run_callbacks [] peer = peer
  run_callbacks (c ∷ cs) peer = run_callbacks cs (run_callback c peer)

  -- `MigrateTo`, by the callbacks that `MigrateToPipe` makes.
  unfoldable pub migrate_to : List VmCallback → Peer → GoError × Peer
  unfolding run_callbacks
  migrate_to cs peer =
      let moved = run_callbacks cs (record peer { migrating_to = 1 }) in
      let e = answer reply (migrate_to_pipe peer.dg) moved in
      let done = asked reply (migrate_to_pipe peer.dg) moved in
      ((if failed e then e else nil), record done { migrating_to = 0 })

pub data Operation : Type 0 where
  closes closes_runtime resumes takes_err : Operation
  migrates_from : ℕ → ℕ → Bool → Bool → Operation
  -- a goroutine that waits for a group ends
  transfers : Bool → ℕ → Operation
  migrates_to : List VmCallback → Operation
  -- the runtime, which has the channel too, reports an error
  reports : GoError → Operation

-- `<-peer.BackgroundErr()`, where there is an error.
abbrev pub take_err : List GoError → List GoError
take_err [] = []
take_err (e ∷ es) = es

module _ (reply : Oracle PeerCall) where
  unfoldable pub run_operation : Operation → Peer → Outcome Peer
  unfolding close_peer close_runtime resume migrate_from monitor migrate_to waits_for
  run_operation closes peer = close_peer reply peer >>= λ r. returned r.1
  run_operation closes_runtime peer = close_runtime reply peer >>= λ r. returned r.1
  run_operation resumes peer = returned (resume reply peer).1
  run_operation takes_err peer =
      returned (record peer { background_err = take_err peer.background_err })
  run_operation (migrates_from readers writers on_requested on_completed) peer =
      returned (migrate_from reply readers writers on_requested on_completed peer).1
  run_operation (transfers on_completed g) peer =
      returned (if waits_for g peer.monitored then monitor reply on_completed g peer else peer)
  run_operation (migrates_to cs) peer = returned (migrate_to reply cs peer).1
  run_operation (reports e) peer = returned (offer_err e peer)

-- The peers that any sequence of operations leads to.
pub data Lives (reply : Oracle PeerCall) (start : Peer) : Peer → Type 0 where
  started : Lives reply start start
  goes_on :
      {peer peer' : Peer} (op : Operation)
      → Lives reply start peer
      → run_operation reply op peer ≡ returned peer'
      → Lives reply start peer'
