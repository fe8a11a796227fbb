-- ===== src/Agent/Guest/Terminal/Tests.antt =====
-- A command in a terminal, and a second one with the same id.
use yaghan.Base.{◌≡◌, refl, true, false, List, [], ◌∷◌, length}
use yaghan.Agent.Guest.Terminal.{
  set, Action, register, unregister, start_terminal, pump, resize, detach, close_taken, run,
  no_procs,
}
use yaghan.Agent.Guest.Terminal.Held.{clean}
use yaghan.Agent.Guest.Terminal.Order.{run-clean}

abbrev actions : List Action
actions =
    register 7
    ∷ start_terminal 0
    ∷ pump 7 (104 ∷ []) true
    ∷ register 7
    ∷ start_terminal 1
    ∷ resize 7 80 24
    ∷ detach 7
    ∷ pump 7 (105 ∷ []) false
    ∷ close_taken 1
    ∷ close_taken 1
    ∷ unregister 7
    ∷ []

run-clean_example : clean 1 (run actions no_procs).calls ≡ true
run-clean_example = run-clean actions 1

-- A write, a resize and a close: what comes behind the detach has no effect.
three_calls : length (run actions no_procs).calls ≡ 3
unfolding run set
three_calls = refl
