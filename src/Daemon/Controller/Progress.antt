-- ===== src/Daemon/Controller/Progress.antt =====
-- The index of sandboxes over runs of the goroutines of daemon/pkg/controller/controller.go.
use yaghan.Base.{
  ℕ, zero, suc, ◌≡◌, refl, sym, List, [], ◌∷◌, Option, none, some, ltb, Bool-cases, Option-cases,
  inl, inr,
}
use mathlib.Core.Path.{subst}
use yaghan.Base.Text.{Text, text_beq, text_eq}
use yaghan.Base.Dict.{lookup}
use yaghan.Proto.{Sandbox}
use yaghan.Daemon.Indexer.{put, Holds, Advances, Advances-refl, Advances-trans, put-Advances}
use yaghan.Daemon.Controller.{
  Outside, Controller, Request, update_sandbox, Reconciled, reconciled, refused, observe, dispatch,
  dispatch_all, send_on_stream, send_update, finish_pass, process_item, mark_failed, settle,
  process_key, process_next, index_page, resync_pages, resync, resync_max_pages,
}
use yaghan.Daemon.Controller.Steps.{
  Step, Steps, event_step, work_step, resync_step, stream_step, world_step, no_steps, one_more,
}

module _ (outside : Outside) (max_retries : ℕ) where
  open outside use {reconcile, same, World, list_sandboxes}
  open outside.work_queue use {Queue, next, num_requeues}

  abbrev State : Type 0
  State = Controller outside max_retries

  pub observe-Advances :
      (sb : Sandbox) (c : State) → Advances c.indexer (observe outside max_retries sb c).indexer
  unfolding observe
  observe-Advances sb c = elim (Bool-cases (put sb c.indexer).1) [
    | inl e ↦ rw e (put-Advances sb c.indexer)
    | inr e ↦ rw e (Advances-refl c.indexer)
  ]

  dispatch_all-Advances :
      (events : List (Option Sandbox)) (c : State)
      → Advances c.indexer (dispatch_all outside max_retries events c).indexer
  unfolding dispatch_all dispatch
  dispatch_all-Advances [] c = Advances-refl c.indexer
  dispatch_all-Advances (none ∷ events) c = dispatch_all-Advances events c
  dispatch_all-Advances (some sb ∷ events) c =
      Advances-trans c.indexer (observe outside max_retries sb c).indexer _ (observe-Advances sb c)
        (dispatch_all-Advances events (observe outside max_retries sb c))

  send_on_stream-indexer :
      (r : Request) (c : State) → (send_on_stream outside max_retries r c).0.indexer ≡ c.indexer
  unfolding send_on_stream
  send_on_stream-indexer r c = elim (Bool-cases c.connected) [
    | inl e ↦ rw e refl
    | inr e ↦ rw e refl
  ]

  send_update-Advances :
      (sb : Sandbox) (c : State)
      → Advances c.indexer (send_update outside max_retries sb c).0.indexer
  unfolding send_update
  send_update-Advances sb c =
      let r = send_on_stream outside max_retries (update_sandbox sb) c in
      let kept : r.0.indexer ≡ c.indexer = send_on_stream-indexer (update_sandbox sb) c in
      elim (Option-cases r.1) [
        | inl sent ↦
            rw (send_update, sent)
              (subst (λ i. Advances i (put sb r.0.indexer).0) kept (put-Advances sb r.0.indexer))
        | inr (e, lost) ↦
            rw (send_update, lost)
              (subst (λ i. Advances i r.0.indexer) kept (Advances-refl r.0.indexer))
      ]

  finish_pass-Advances :
      (stored : Sandbox) (c : State) (r : Reconciled)
      → Advances c.indexer (finish_pass outside max_retries stored c r).0.indexer
  unfolding finish_pass
  finish_pass-Advances stored c (refused e) = Advances-refl c.indexer
  finish_pass-Advances stored c (reconciled updated) = elim (Bool-cases (same stored updated)) [
    | inl e ↦ rw e (Advances-refl c.indexer)
    | inr e ↦ rw e (send_update-Advances updated c)
  ]

  pub process_item-Advances :
      (arrived : List (Option Sandbox)) (id : Text) (c : State)
      → Advances c.indexer (process_item outside max_retries arrived id c).0.indexer
  unfolding process_item
  process_item-Advances arrived id c = elim (Option-cases (lookup id c.indexer)) [
    | inl absent ↦ rw (process_item, absent) (Advances-refl c.indexer)
    | inr (stored, found) ↦
        let here : State = record c { world = (reconcile stored c.world).0 } in
        rw (process_item, found)
          (Advances-trans c.indexer (dispatch_all outside max_retries arrived here).indexer _
            (dispatch_all-Advances arrived here)
            (finish_pass-Advances stored (dispatch_all outside max_retries arrived here)
              (reconcile stored c.world).1))
  ]

  mark_failed-indexer :
      (id e : Text) (c : State) → (mark_failed outside max_retries id e c).indexer ≡ c.indexer
  unfolding mark_failed
  mark_failed-indexer id e c = elim (Option-cases (lookup id c.indexer)) [
    | inl absent ↦ rw (mark_failed, absent) refl
    | inr (stored, found) ↦ rw (mark_failed, found) (send_on_stream-indexer _ c)
  ]

  settle-indexer :
      (id : Text) (r : State × Option Text)
      → (settle outside max_retries id r).indexer ≡ r.0.indexer
  unfolding settle
  settle-indexer id r = elim (Option-cases r.1) [
    | inl fine ↦ rw (settle, fine) refl
    | inr (e, error) ↦ elim (Bool-cases (ltb (num_requeues id r.0.queue) max_retries)) [
      | inl more ↦ rw (settle, error, more) refl
      | inr last ↦ rw (settle, error, last) (mark_failed-indexer id e r.0)
    ]
  ]

  pub process_key-Advances :
      (arrived : List (Option Sandbox)) (id : Text) (c : State)
      → Advances c.indexer (process_key outside max_retries arrived id c).indexer
  unfolding process_key
  process_key-Advances arrived id c =
      let r = process_item outside max_retries arrived id c in
      subst (Advances c.indexer) (sym (settle-indexer id r)) (process_item-Advances arrived id c)

  pub index_page-Advances :
      (page : List Sandbox) (c : State)
      → Advances c.indexer (index_page outside max_retries page c).indexer
  unfolding index_page
  index_page-Advances [] c = Advances-refl c.indexer
  index_page-Advances (sb ∷ page) c = elim (Option-cases sb.intent) [
    | inl e ↦ rw (index_page, e) (index_page-Advances page c)
    | inr (i, e) ↦
        rw (index_page, e)
          (Advances-trans c.indexer (observe outside max_retries sb c).indexer _
            (observe-Advances sb c) (index_page-Advances page (observe outside max_retries sb c)))
  ]

  pub resync_pages-Advances :
      (pages : ℕ) (token : Text) (c : State)
      → Advances c.indexer (resync_pages outside max_retries pages token c).indexer
  unfolding resync_pages
  resync_pages-Advances zero token c = Advances-refl c.indexer
  resync_pages-Advances (suc pages) token c = elim (Option-cases (list_sandboxes token c.world).1) [
    | inl e ↦ rw (resync_pages, e) (Advances-refl c.indexer)
    | inr (page, e) ↦
        let here : State = record c { world = (list_sandboxes token c.world).0 } in
        let indexed : State = index_page outside max_retries page.sandboxes here in
        elim (Bool-cases (text_beq page.continuation_token [])) [
          | inl last ↦ rw (resync_pages, e, last) (index_page-Advances page.sandboxes here)
          | inr more ↦
              rw (resync_pages, e, more)
                (Advances-trans c.indexer indexed.indexer _
                  (index_page-Advances page.sandboxes here)
                  (resync_pages-Advances pages page.continuation_token indexed))
        ]
  ]

  Step-Advances : {c d : State} → Step outside max_retries c d → Advances c.indexer d.indexer
  unfolding dispatch process_next resync
  Step-Advances (event_step none c) = Advances-refl c.indexer
  Step-Advances (event_step (some sb) c) = observe-Advances sb c
  Step-Advances (work_step arrived c) = elim (Option-cases (next c.queue).1) [
    | inl stopped ↦ rw (process_next, stopped) (Advances-refl c.indexer)
    | inr (id, got) ↦
        rw (process_next, got)
          (process_key-Advances arrived id (record c { queue = (next c.queue).0 }))
  ]
  Step-Advances (resync_step c) = resync_pages-Advances resync_max_pages [] c
  Step-Advances (stream_step up c) = Advances-refl c.indexer
  Step-Advances (world_step w c) = Advances-refl c.indexer

  -- In every run of the controller's goroutines, events, passes, resyncs and lost streams in any
  -- order, the index never loses a sandbox and never goes back to an older version of one: what it
  -- holds in some version, it holds in that version or a later one at the end of the run.
  pub Steps-Holds :
      (c d : State)
      → Steps outside max_retries c d
      → (id : Text) (version : ℕ) → Holds c.indexer id version
      → Holds d.indexer id version
  unfolding Advances
  Steps-Holds c d run = go run
    where
      go : {e : State} → Steps outside max_retries c e → Advances c.indexer e.indexer
      go no_steps = Advances-refl c.indexer
      go (one_more before step) = Advances-trans c.indexer _ _ (go before) (Step-Advances step)
