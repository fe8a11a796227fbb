-- ===== src/Daemon/Controller.antt =====
-- daemon/pkg/controller/controller.go and resync.go: the work of the controller's goroutines on the
-- index of sandboxes, the work queue and the stream to the api-server. The queue of k8s' workqueue,
-- the reconciler, proto.Equal, the stream and the api-server's list are the interface Outside. What
-- the reader goroutine dispatches while a pass runs is an argument of the pass. Errors are their texts.
pub mod Queue
pub mod Retries
pub mod Steps
pub mod Budget
pub mod Progress
pub mod GivesUp
pub mod Resync
mod Tests
use yaghan.Base.{
  ℕ, zero, suc, ◌≡◌, Bool, true, false, List, [], ◌∷◌, ◌++◌, Option, none, some, if◌then◌else◌, ltb,
}
use yaghan.Base.Text.{Text, codes, text_beq, text_eq}
use yaghan.Base.Dict.{lookup}
use yaghan.Proto.{Sandbox, phase_failed, Phase}
use yaghan.Daemon.Indexer.{Index, put}
use yaghan.Daemon.Controller.Queue.{WorkQueue}

-- The messages that follow the handshake.
pub data Request : Type 0 where
  update_sandbox : Sandbox → Request
  patch_status : Phase → Text → Request

pub data Reconciled : Type 0 where
  reconciled : Sandbox → Reconciled
  refused : Text → Reconciled

-- A page of ListSandboxes.
pub record Page : Type 0 where
  pub sandboxes : List Sandbox
  pub continuation_token : Text

pub record Outside : Type 1 where
  pub World : Type 0
  pub work_queue : WorkQueue
  pub reconcile : Sandbox → World → World × Reconciled
  pub same : Sandbox → Sandbox → Bool
  pub send : Request → World → World × Option Text
  pub list_sandboxes : Text → World → World × Option Page

abbrev pub resync_max_pages : ℕ
resync_max_pages = 100

module _ (outside : Outside) (max_retries : ℕ) where
  open outside use {World, reconcile, same, send, list_sandboxes}
  open outside.work_queue use {Queue, add, next, done_item, add_rate_limited, forget, num_requeues}

  pub record Controller : Type 0 where
    pub indexer : Index
    pub queue : Queue
    pub connected : Bool
    pub world : World

  -- Put, and Add where it stored the sandbox.
  unfoldable pub observe : Sandbox → Controller → Controller
  observe sb c =
      let r = put sb c.indexer in
      if r.1 then record c { indexer = r.0; queue = add sb.metadata.id c.queue } else c

  -- An event carries a sandbox or nothing.
  unfoldable pub dispatch : Option Sandbox → Controller → Controller
  dispatch none c = c
  dispatch (some sb) c = observe sb c

  unfoldable pub dispatch_all : List (Option Sandbox) → Controller → Controller
  dispatch_all [] c = c
  dispatch_all (event ∷ events) c = dispatch_all events (dispatch event c)

  unfoldable pub send_on_stream : Request → Controller → Controller × Option Text
  send_on_stream request c =
      if c.connected
      then (let r = send request c.world in (record c { world = r.0 }, r.1))
      else (c, some (codes "stream is not connected"))

  unfoldable pub report_status_phase : Phase → Text → Controller → Controller × Option Text
  report_status_phase phase message = send_on_stream (patch_status phase message)

  -- What follows a pass that changed the sandbox.
  unfoldable pub send_update : Sandbox → Controller → Controller × Option Text
  send_update updated c =
      let r = send_on_stream (update_sandbox updated) c in
      elim r.1 [
        | some e ↦ (r.0, some (codes "send update: " ++ e))
        | none ↦ (record r.0 { indexer = (put updated r.0.indexer).0 }, none)
      ]

  -- What processItem does with the reconciler's answer for the stored sandbox.
  unfoldable pub finish_pass : Sandbox → Controller → Reconciled → Controller × Option Text
  finish_pass stored c (refused e) = (c, some (codes "reconcile: " ++ e))
  finish_pass stored c (reconciled updated) =
      if same stored updated then (c, none) else send_update updated c

  unfoldable pub process_item : List (Option Sandbox) → Text → Controller → Controller × Option Text
  process_item arrived id c = elim (lookup id c.indexer) [
    | none ↦ (c, none)
    | some stored ↦
        let r = reconcile stored c.world in
        finish_pass stored (dispatch_all arrived (record c { world = r.0 })) r.1
  ]

  abbrev pub failed_sandbox : Text → Sandbox → Sandbox
  failed_sandbox e stored = record stored {
    status = some (record { phase = phase_failed; message = e });
  }

  unfoldable pub mark_failed : Text → Text → Controller → Controller
  mark_failed id e c = elim (lookup id c.indexer) [
    | none ↦ c
    | some stored ↦ (send_on_stream (update_sandbox (failed_sandbox e stored)) c).0
  ]

  abbrev pub with_queue : (Queue → Queue) → Controller → Controller
  with_queue f c = record c { queue = f c.queue }

  -- What processNext does with the result of a pass.
  unfoldable pub settle : Text → Controller × Option Text → Controller
  settle id r = elim r.1 [
    | none ↦ with_queue (forget id) r.0
    | some e ↦
        if ltb (num_requeues id r.0.queue) max_retries
        then with_queue (add_rate_limited id) r.0
        else with_queue (forget id) (mark_failed id e r.0)
  ]

  -- processNext once the queue has handed out an id.
  unfoldable pub process_key : List (Option Sandbox) → Text → Controller → Controller
  process_key arrived id c = with_queue (done_item id) (settle id (process_item arrived id c))

  -- processNext: whether the worker goes on.
  unfoldable pub process_next : List (Option Sandbox) → Controller → Controller × Bool
  process_next arrived c =
      let r = next c.queue in
      elim r.1 [
        | none ↦ (record c { queue = r.0 }, false)
        | some id ↦ (process_key arrived id (record c { queue = r.0 }), true)
      ]

  -- The loop over a page: sandboxes without an intent are skipped.
  unfoldable pub index_page : List Sandbox → Controller → Controller
  index_page [] c = c
  index_page (sb ∷ more) c = elim sb.intent [
    | none ↦ index_page more c
    | some i ↦ index_page more (observe sb c)
  ]

  unfoldable pub resync_pages : ℕ → Text → Controller → Controller
  resync_pages zero token c = c
  resync_pages (suc pages) token c =
      let r = list_sandboxes token c.world in
      elim r.1 [
        | none ↦ record c { world = r.0 }
        | some page ↦
            let indexed = index_page page.sandboxes (record c { world = r.0 }) in
            let rest = resync_pages pages page.continuation_token indexed in
            if text_beq page.continuation_token [] then indexed else rest
      ]

  unfoldable pub resync : Controller → Controller
  resync c = resync_pages resync_max_pages [] c
