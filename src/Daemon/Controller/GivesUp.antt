-- ===== src/Daemon/Controller/GivesUp.antt =====
-- A sandbox that daemon/pkg/controller/controller.go cannot reconcile.
use yaghan.Base.{ℕ, ◌≡◌, List, [], ◌∷◌, Option, some}
use yaghan.Base.Text.{Text, text_eq}
use yaghan.Base.Dict.{lookup}
use yaghan.Proto.{Sandbox}
use yaghan.Daemon.Controller.{Outside, Controller, refused, with_queue, process_key}
use yaghan.Daemon.Controller.Retries.{SentFailed}

module _ (outside : Outside) (max_retries : ℕ) where
  open outside use {reconcile, World}
  open outside.work_queue use {Queue, done_item, forget}

  abbrev State : Type 0
  State = Controller outside max_retries

  -- Consecutive passes over an id, each with the events that arrive while it runs.
  unfoldable pub passes : List (List (Option Sandbox)) → Text → State → State
  passes [] id c = c
  passes (arrived ∷ more) id c = passes more id (process_key outside max_retries arrived id c)

  module _ (refuses : (sb : Sandbox) (w : World) → (e : Text) × ((reconcile sb w).1 ≡ refused e))
      (id : Text) where
    -- Before the report the sandbox is in the index; it is sent as failed, and the id is forgotten.
    abbrev pub Surrendered : State → Type 0
    Surrendered after =
        (before : State) × (e : Text) × (stored : Sandbox) × (lookup id before.indexer
          ≡ some stored)
        × (reported : State) × SentFailed outside max_retries e stored before reported
        × (after ≡ with_queue outside max_retries (λ q. done_item id (forget id q)) reported)
