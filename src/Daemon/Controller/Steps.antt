-- ===== src/Daemon/Controller/Steps.antt =====
-- Runs of the goroutines of daemon/pkg/controller/controller.go as sequences of steps.
use yaghan.Base.{ℕ, Bool, List, Option}
use yaghan.Base.Text.{text_eq}
use yaghan.Proto.{Sandbox}
use yaghan.Daemon.Controller.{Outside, Controller, dispatch, process_next, resync}

module _ (outside : Outside) (max_retries : ℕ) where
  open outside use {World}

  abbrev State : Type 0
  State = Controller outside max_retries

  -- One step of a goroutine: an event is read, the worker handles an id while events arrive, a resync
  -- runs, the stream is connected or lost, the rest of the world goes on.
  pub data Step : State → State → Type 0 where
    event_step :
        (event : Option Sandbox) (c : State) → Step c (dispatch outside max_retries event c)
    work_step :
        (arrived : List (Option Sandbox)) (c : State)
        → Step c (process_next outside max_retries arrived c).0
    resync_step : (c : State) → Step c (resync outside max_retries c)
    stream_step : (up : Bool) (c : State) → Step c (record c { connected = up })
    world_step : (w : World) (c : State) → Step c (record c { world = w })

  pub data Steps (c : State) : State → Type 0 where
    no_steps : Steps c c
    one_more : {d e : State} → Steps c d → Step d e → Steps c e
