-- ===== src/Daemon/Controller/Tests.antt =====
-- A controller whose queue and api-server are held in memory and whose reconciler always fails.
use yaghan.Base.{
  ℕ, suc, ◌≤◌, ◌≡◌, ◌≢◌, refl, true, false, List, [], ◌∷◌, ◌++◌, Option, none, some, if◌then◌else◌,
  arith,
}
use yaghan.Base.Text.{Text, codes, text_beq}
use yaghan.Base.Dict.{lookup}
use yaghan.Proto.{Sandbox, phase_running}
use yaghan.Daemon.Indexer.{Holds}
use yaghan.Daemon.Controller.Queue.{WorkQueue}
use yaghan.Daemon.Controller.{
  Outside, Controller, refused, dispatch, process_key, process_next, resync, resync_max_pages,
}
use yaghan.Daemon.Controller.Steps.{Steps, no_steps, one_more, event_step, work_step}
use yaghan.Daemon.Controller.Retries.{requeues, Processed, process_key-Processed}
use yaghan.Daemon.Controller.Budget.{Steps-within_budget}
use yaghan.Daemon.Controller.Progress.{Steps-Holds}
use yaghan.Daemon.Controller.Resync.{listing, Listed, on_page, first, resync-Holds}

-- The ids that wait and how often each was put back.
abbrev Waiting : Type 0
Waiting = List Text × (Text → ℕ)

abbrev pop : Waiting → Waiting × Option Text
pop q = elim q.0 [ [] ↦ (q, none) | id ∷ more ↦ ((more, q.1), some id) ]

abbrev put_back : Text → Waiting → Waiting
put_back id q = (q.0 ++ id ∷ [], λ k. if text_beq id k then suc (q.1 k) else q.1 k)

abbrev drop_count : Text → Waiting → Waiting
drop_count id q = (q.0, λ k. if text_beq id k then 0 else q.1 k)

pop-counts : (k : Text) (q : Waiting) → (pop q).0.1 k ≡ q.1 k
pop-counts k ([], n) = refl
pop-counts k (id ∷ more, n) = refl

abbrev queue : WorkQueue
queue = record {
  Queue = Waiting;
  add = λ id q. (q.0 ++ id ∷ [], q.1);
  next = pop;
  done_item = λ id q. q;
  add_rate_limited = put_back;
  forget = drop_count;
  num_requeues = λ k q. q.1 k;
  requeues_add = λ id k q. refl;
  requeues_next = pop-counts;
  requeues_done = λ id k q. refl;
  requeues_limited = λ id k q. refl;
  requeues_forget = λ id k q. refl;
}

abbrev box : Sandbox
box = record {
  metadata = record {
    id = codes "sb-1";
    namespace = codes "default";
    source = none;
    version = 4;
    created_at = none;
    last_modified_at = none;
    labels = [];
  };
  egress_policy = none;
  resources = none;
  node = none;
  intent = some (record { phase = phase_running; start_snapshot = none });
  last_snapshot = none;
  status = none;
}

-- The world counts the messages that were sent.
abbrev outside : Outside
outside = record {
  World = ℕ;
  work_queue = queue;
  reconcile = λ sb w. (w, refused (codes "no such kernel"));
  same = λ a b. false;
  send = λ request w. (suc w, none);
  list_sandboxes = λ token w. (w, some (record { sandboxes = box ∷ []; continuation_token = [] }));
}

abbrev idle : Controller outside 2
idle = record { indexer = []; queue = ([], λ k. 0); connected = true; world = 0 }

abbrev busy : Controller outside 2
busy = record {
  indexer = (codes "sb-1", box) ∷ [];
  queue = ([], λ k. 0);
  connected = true;
  world = 0;
}

process_key-Processed_example :
    Processed outside 2 [] (codes "sb-1") busy (process_key outside 2 [] (codes "sb-1") busy)
process_key-Processed_example = process_key-Processed outside 2 [] (codes "sb-1") busy

-- An event arrives and a pass fails.
abbrev run : Steps outside 2 idle (process_next outside 2 [] (dispatch outside 2 (some box) idle)).0
run =
    one_more (one_more no_steps (event_step (some box) idle))
      (work_step [] (dispatch outside 2 (some box) idle))

idle_fits : (k : Text) → requeues outside 2 k idle ≤ 2
idle_fits k = omega arith

Steps-within_budget_example :
    requeues outside 2
      (codes "sb-1")
      (process_next outside 2 [] (dispatch outside 2 (some box) idle)).0
    ≤ 2
Steps-within_budget_example = Steps-within_budget outside 2 _ _ run idle_fits (codes "sb-1")

busy_knows : Holds busy.indexer (codes "sb-1") 0
unfolding Holds lookup text_beq
busy_knows = (box, refl, omega arith)

Steps-Holds_example :
    Holds
      (process_next outside 2 [] (dispatch outside 2 (some box) busy)).0.indexer
      (codes "sb-1")
      0
Steps-Holds_example =
    Steps-Holds outside 2 busy (process_next outside 2 [] (dispatch outside 2 (some box) busy)).0
      (one_more (one_more no_steps (event_step (some box) busy))
        (work_step [] (dispatch outside 2 (some box) busy)))
      (codes "sb-1") 0 busy_knows

listed : Listed box (listing outside 2 resync_max_pages [] 0)
unfolding listing text_beq
listed = on_page first

has_intent : box.intent ≢ none
has_intent e = cc

has_id : box.metadata.id ≢ []
has_id e = cc

resync-Holds_example : Holds (resync outside 2 idle).indexer (codes "sb-1") 4
resync-Holds_example = resync-Holds outside 2 box idle listed has_intent has_id
