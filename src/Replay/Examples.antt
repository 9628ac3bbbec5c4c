-- ===== src/Replay/Examples.antt =====
-- Concrete runs of the replay.
use netkitty.Base.{◌≡◌, refl, ◌⊎◌, ◌+◌, false, true, [], inr}
use netkitty.Replay.{
  Leads, Orderly, Reach, moves, ends, delivers, ignored, moved, launched, fresh, System, began,
  done, end_thread, here, is_running, is_terminal, native_start, new_replay, on_emit, start, stays,
  terminals,
}
use netkitty.Replay.Sessions.{Orderly-settles, Reach-settles, Reach-terminals}
use netkitty.Replay.Invariant.{pending}
use netkitty.Replay.Restart.{start-Leads_stuck}

one_thread : Orderly 1 (start new_replay)
unfolding new_replay terminals
one_thread = began here refl refl

done-is_terminal : is_terminal done ≡ true
unfolding is_terminal
done-is_terminal = refl

Orderly-settles_example :
    (t : System) × Leads (start new_replay) t
    × (t.queue ≡ [])
    × (is_running t ≡ false)
    × (terminals t.emitted ≡ 1)
Orderly-settles_example = Orderly-settles done done-is_terminal one_thread

-- One frame of the loop: the thread ends on its own, and its event arrives.
abbrev ended : System
ended = end_thread done (start new_replay)

abbrev sent_all : System
sent_all = on_emit done (record ended { queue = [] })

ran : Leads (start new_replay) sent_all
unfolding start new_replay native_start end_thread
ran =
    moves (moves stays (ends (start new_replay) done refl done-is_terminal))
      (delivers ended done [] refl)

-- The client starts a second time.
started_again : Reach 1 (start sent_all)
unfolding start new_replay native_start end_thread on_emit
started_again =
    ignored
      (moved (moved (launched fresh refl refl) (ends (start new_replay) done refl done-is_terminal))
        (delivers ended done [] refl))
      (inr refl)

Reach-terminals_example :
    (terminals (start sent_all).emitted + pending (start sent_all) ≡ 1)
    × (((start sent_all).sending ≡ false) ⊎ ((start sent_all).running ≡ true))
Reach-terminals_example = Reach-terminals started_again

Reach-settles_example :
    (t : System) × Leads (start sent_all) t
    × (t.queue ≡ [])
    × (t.sending ≡ false)
    × (terminals t.emitted ≡ 1)
Reach-settles_example = Reach-settles done done-is_terminal started_again

sent_all-quiet : (is_running sent_all ≡ false) × (sent_all.queue ≡ [])
unfolding is_running on_emit
sent_all-quiet = (refl, refl)

start-Leads_stuck_example :
    (sent_all.running ≡ true)
    × (is_running (start sent_all) ≡ true)
    × ((start sent_all).emitted ≡ sent_all.emitted)
unfolding new_replay terminals
start-Leads_stuck_example =
    start-Leads_stuck new_replay sent_all (start sent_all) here refl refl ran sent_all-quiet.0
      sent_all-quiet.1 stays

-- The flags through a whole run.
run_ends : is_running (on_emit done (end_thread done (start new_replay))) ≡ false
unfolding is_running on_emit end_thread start new_replay native_start
run_ends = refl
