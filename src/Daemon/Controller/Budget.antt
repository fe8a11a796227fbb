-- ===== src/Daemon/Controller/Budget.antt =====
-- What the retry budget of daemon/pkg/controller/controller.go means for runs of its goroutines.
use yaghan.Base.{
  ℕ, zero, suc, ◌≤◌, ◌≡◌, refl, ◌∙◌, List, [], ◌∷◌, Option, none, some, arith, Bool-cases,
  Option-cases, inl, inr,
}
use mathlib.Core.Path.{subst}
use yaghan.Base.Text.{Text, text_beq, text_beq_iff, text_eq}
use yaghan.Proto.{Sandbox}
use yaghan.Daemon.Controller.{
  Outside, Controller, dispatch, process_next, process_key, resync, resync_pages, index_page,
  observe, resync_max_pages,
}
use yaghan.Daemon.Controller.Steps.{
  Step, Steps, event_step, work_step, resync_step, stream_step, world_step, no_steps, one_more,
}
use yaghan.Daemon.Controller.Retries.{
  requeues, observe-requeues, process_key-Processed, process_key-other, Processed,
}

module _ (outside : Outside) (max_retries : ℕ) where
  open outside use {World, list_sandboxes}
  open outside.work_queue use {Queue, next, done_item, forget, requeues_next}

  abbrev State : Type 0
  State = Controller outside max_retries

  index_page-requeues :
      (k : Text) (page : List Sandbox) (c : State)
      → requeues outside max_retries k (index_page outside max_retries page c)
        ≡ requeues outside max_retries k c
  unfolding index_page
  index_page-requeues k [] c = refl
  index_page-requeues k (sb ∷ page) c = elim (Option-cases sb.intent) [
    | inl e ↦ rw (index_page, e) (index_page-requeues k page c)
    | inr (i, e) ↦
        rw (index_page, e)
          (index_page-requeues k page (observe outside max_retries sb c)
            ∙ observe-requeues outside max_retries k sb c)
  ]

  resync_pages-requeues :
      (k : Text) (pages : ℕ) (token : Text) (c : State)
      → requeues outside max_retries k (resync_pages outside max_retries pages token c)
        ≡ requeues outside max_retries k c
  unfolding resync_pages
  resync_pages-requeues k zero token c = refl
  resync_pages-requeues k (suc pages) token c =
      elim (Option-cases (list_sandboxes token c.world).1) [
        | inl e ↦ rw (resync_pages, e) refl
        | inr (page, e) ↦
            let here : State = record c { world = (list_sandboxes token c.world).0 } in
            let indexed : State = index_page outside max_retries page.sandboxes here in
            let before : requeues outside max_retries k indexed ≡ requeues outside max_retries k c =
              index_page-requeues k page.sandboxes here in
            elim (Bool-cases (text_beq page.continuation_token [])) [
              | inl last ↦ rw (resync_pages, e, last) before
              | inr more ↦
                  rw (resync_pages, e, more)
                    (resync_pages-requeues k pages page.continuation_token indexed ∙ before)
            ]
      ]

  Within : State → Type 0
  Within c = (k : Text) → requeues outside max_retries k c ≤ max_retries

  process_key-Within :
      (arrived : List (Option Sandbox)) (id : Text) (c : State)
      → Within c
      → Within (process_key outside max_retries arrived id c)
  unfolding Within Processed
  process_key-Within arrived id c h k = elim (Bool-cases (text_beq id k)) [
    | inl e ↦
        subst
          (λ j.
            requeues outside max_retries j (process_key outside max_retries arrived id c)
            ≤ max_retries)
          ((text_beq_iff id k).0 e) own
    | inr other ↦ omega (arith, process_key-other outside max_retries k arrived id c other, h k)
  ]
    where
      own :
          requeues outside max_retries id (process_key outside max_retries arrived id c)
          ≤ max_retries
      own = elim (process_key-Processed outside max_retries arrived id c) [
        | inl (fine, zeroed) ↦ omega (arith, zeroed)
        | inr (e, error, inl (budget, more)) ↦ omega (arith, budget, more)
        | inr (e, error, inr (spent, zeroed, same)) ↦ omega (arith, zeroed)
      ]

  Step-Within : {c d : State} → Step outside max_retries c d → Within c → Within d
  unfolding Within dispatch process_next resync
  Step-Within (event_step none c) h k = h k
  Step-Within (event_step (some sb) c) h k =
      omega (arith, observe-requeues outside max_retries k sb c, h k)
  Step-Within (work_step arrived c) h k = elim (Option-cases (next c.queue).1) [
    | inl stopped ↦ rw (process_next, stopped) (omega (arith, requeues_next k c.queue, h k))
    | inr (id, got) ↦
        rw (process_next, got)
          (process_key-Within arrived id (record c { queue = (next c.queue).0 })
            (λ j. omega (arith, requeues_next j c.queue, h j)) k)
  ]
  Step-Within (resync_step c) h k =
      omega (arith, resync_pages-requeues k resync_max_pages [] c, h k)
  Step-Within (stream_step up c) h k = h k
  Step-Within (world_step w c) h k = h k

  -- Whatever the reconciler, the stream and the api-server do, in every run of the controller's
  -- goroutines that starts with every id put back at most MaxRetries times, no id is ever put back
  -- more often.
  pub Steps-within_budget :
      (c d : State)
      → Steps outside max_retries c d
      → ((k : Text) → requeues outside max_retries k c ≤ max_retries)
      → (k : Text) → requeues outside max_retries k d ≤ max_retries
  unfolding Within
  Steps-within_budget c d run start = go run
    where
      go : {e : State} → Steps outside max_retries c e → Within e
      go no_steps = start
      go (one_more before step) = Step-Within step (go before)
