-- ===== src/Ipc/Liveness/Examples.antt =====
-- A server that is closed while it waits: its Accept fails, and nothing is reported.
use drafter.Base.{true, false, List, [], ◌∷◌, ◌≡◌, refl}
use drafter.Errors.{nil, Cause}
use drafter.Ipc.Liveness.{
  Step, opens, begins, closes, accepts, reads, finishes, take_turns, take_turn, shut,
  new_liveness_server, open_server, close_server, finish_receive, receive_result, is_closed,
}
use drafter.Ipc.Liveness.Reported.{receive_and_close-reported}

abbrev interrupted : List Step
interrupted =
    opens nil ∷ begins ∷ closes ∷ accepts (Cause.closed_connection ∷ []) ∷ reads ∷ finishes ∷ []

receive_and_close-reported_example :
    ((take_turns interrupted new_liveness_server).lis ≡ shut)
    × ((take_turns interrupted new_liveness_server).closed ≡ true)
    × (is_closed nil ≡ false)
unfolding take_turns take_turn open_server close_server finish_receive receive_result is_closed
receive_and_close-reported_example = receive_and_close-reported interrupted nil refl
