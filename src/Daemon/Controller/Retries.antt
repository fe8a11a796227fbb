-- ===== src/Daemon/Controller/Retries.antt =====
-- The retry budget of processNext in daemon/pkg/controller/controller.go.
use yaghan.Base.{
  ℕ, suc, ◌≤◌, ◌<◌, ◌≡◌, ◌⊎◌, refl, ap, ◌∙◌, true, false, List, [], ◌∷◌, Option, none, some, ltb,
  arith, Bool-cases, Option-cases, inl, inr,
}
use yaghan.Base.Text.{Text, text_beq, text_beq_iff, text_eq}
use yaghan.Base.Dict.{lookup}
use yaghan.Proto.{Sandbox, phase_failed}
use yaghan.Daemon.Indexer.{put}
use yaghan.Daemon.Controller.{
  Outside, Controller, Request, update_sandbox, Reconciled, reconciled, refused, observe, dispatch,
  dispatch_all, send_on_stream, send_update, finish_pass, process_item, mark_failed, with_queue,
  settle, process_key,
}

module _ (outside : Outside) (max_retries : ℕ) where
  open outside use {reconcile, same, send, World}
  open outside.work_queue use {
    Queue, add, next, done_item, add_rate_limited, forget, num_requeues, requeues_add,
    requeues_next, requeues_done, requeues_limited, requeues_forget,
  }

  abbrev State : Type 0
  State = Controller outside max_retries

  -- How often an id was put back since it was last forgotten.
  abbrev pub requeues : Text → State → ℕ
  requeues k c = num_requeues k c.queue

  pub observe-requeues :
      (k : Text) (sb : Sandbox) (c : State)
      → requeues k (observe outside max_retries sb c) ≡ requeues k c
  unfolding observe
  observe-requeues k sb c = elim (Bool-cases (put sb c.indexer).1) [
    | inl e ↦ rw e (requeues_add sb.metadata.id k c.queue)
    | inr e ↦ rw e refl
  ]

  pub dispatch_all-requeues :
      (k : Text) (events : List (Option Sandbox)) (c : State)
      → requeues k (dispatch_all outside max_retries events c) ≡ requeues k c
  unfolding dispatch_all dispatch
  dispatch_all-requeues k [] c = refl
  dispatch_all-requeues k (none ∷ events) c = dispatch_all-requeues k events c
  dispatch_all-requeues k (some sb ∷ events) c =
      dispatch_all-requeues k events (observe outside max_retries sb c) ∙ observe-requeues k sb c

  send_on_stream-queue :
      (r : Request) (c : State) → (send_on_stream outside max_retries r c).0.queue ≡ c.queue
  unfolding send_on_stream
  send_on_stream-queue r c = elim (Bool-cases c.connected) [ inl e ↦ rw e refl | inr e ↦ rw e refl ]

  send_update-queue :
      (sb : Sandbox) (c : State) → (send_update outside max_retries sb c).0.queue ≡ c.queue
  unfolding send_update
  send_update-queue sb c =
      elim (Option-cases (send_on_stream outside max_retries (update_sandbox sb) c).1) [
        | inl sent ↦ rw (send_update, sent) (send_on_stream-queue (update_sandbox sb) c)
        | inr (e, lost) ↦ rw (send_update, lost) (send_on_stream-queue (update_sandbox sb) c)
      ]

  mark_failed-queue :
      (id e : Text) (c : State) → (mark_failed outside max_retries id e c).queue ≡ c.queue
  unfolding mark_failed
  mark_failed-queue id e c = elim (Option-cases (lookup id c.indexer)) [
    | inl absent ↦ rw (mark_failed, absent) refl
    | inr (stored, found) ↦ rw (mark_failed, found) (send_on_stream-queue _ c)
  ]

  finish_pass-queue :
      (stored : Sandbox) (c : State) (r : Reconciled)
      → (finish_pass outside max_retries stored c r).0.queue ≡ c.queue
  unfolding finish_pass
  finish_pass-queue stored c (refused e) = refl
  finish_pass-queue stored c (reconciled updated) = elim (Bool-cases (same stored updated)) [
    | inl e ↦ rw e refl
    | inr e ↦ rw e (send_update-queue updated c)
  ]

  pub process_item-requeues :
      (k : Text) (arrived : List (Option Sandbox)) (id : Text) (c : State)
      → requeues k (process_item outside max_retries arrived id c).0 ≡ requeues k c
  unfolding process_item
  process_item-requeues k arrived id c = elim (Option-cases (lookup id c.indexer)) [
    | inl absent ↦ rw (process_item, absent) refl
    | inr (stored, found) ↦
        rw (process_item, found)
          (ap (num_requeues k) (finish_pass-queue stored _ (reconcile stored c.world).1)
            ∙ dispatch_all-requeues k arrived (record c { world = (reconcile stored c.world).0 }))
  ]

  settle_done :
      (id : Text) (r : State × Option Text)
      → r.1 ≡ none
      → settle outside max_retries id r ≡ with_queue outside max_retries (forget id) r.0
  unfolding settle
  settle_done id r fine = rw (settle, fine) refl

  settle_again :
      (id e : Text) (r : State × Option Text)
      → r.1 ≡ some e
      → ltb (requeues id r.0) max_retries ≡ true
      → settle outside max_retries id r ≡ with_queue outside max_retries (add_rate_limited id) r.0
  unfolding settle
  settle_again id e r error more = rw (settle, error, more) refl

  settle_last :
      (id e : Text) (r : State × Option Text)
      → r.1 ≡ some e
      → ltb (requeues id r.0) max_retries ≡ false
      → settle outside max_retries id r
        ≡ with_queue outside max_retries (forget id) (mark_failed outside max_retries id e r.0)
  unfolding settle
  settle_last id e r error last = rw (settle, error, last) refl

  -- What the pass leaves is what settle leaves, but for Done.
  process_key-requeues :
      (k : Text) (arrived : List (Option Sandbox)) (id : Text) (c : State)
      → requeues k (process_key outside max_retries arrived id c)
        ≡ requeues k (settle outside max_retries id (process_item outside max_retries arrived id c))
  unfolding process_key
  process_key-requeues k arrived id c = requeues_done id k _

  forget-requeues : (id : Text) (q : Queue) → num_requeues id (forget id q) ≡ 0
  forget-requeues id q = requeues_forget id id q ∙ rw ((text_beq_iff id id).1 refl) refl

  -- The update of the stored sandbox, with the phase FAILED and the error's text, has gone out on the
  -- stream if there is one; nothing else has changed.
  abbrev pub SentFailed : Text → Sandbox → State → State → Type 0
  SentFailed e stored c after =
      ((c.connected ≡ false) × (after ≡ c))
      ⊎ ((c.connected ≡ true)
          × (after ≡ record c {
            world =
                (send
                  (update_sandbox (record stored {
                    status = some (record { phase = phase_failed; message = e });
                  }))
                  c.world).0;
          }))

  -- The sandbox is reported if it is in the index.
  abbrev pub ReportedFailed : Text → Text → State → State → Type 0
  ReportedFailed id e c after =
      ((lookup id c.indexer ≡ none) × (after ≡ c))
      ⊎ ((stored : Sandbox) × (lookup id c.indexer ≡ some stored) × SentFailed e stored c after)

  pub mark_failed-ReportedFailed :
      (id e : Text) (c : State) → ReportedFailed id e c (mark_failed outside max_retries id e c)
  unfolding mark_failed send_on_stream
  mark_failed-ReportedFailed id e c = elim (Option-cases (lookup id c.indexer)) [
    | inl absent ↦ inl (absent, rw (mark_failed, absent) refl)
    | inr (stored, found) ↦ inr (
      stored,
      found,
      elim (Bool-cases c.connected) [
        | inr off ↦ inl (off, rw (mark_failed, found) (rw off refl))
        | inl on ↦ inr (on, rw (mark_failed, found) (rw on refl))
      ],
    )
  ]

  -- The outcomes of one pass over an id: it is done with, put back, or given up.
  unfoldable pub Processed : List (Option Sandbox) → Text → State → State → Type 0
  Processed arrived id c after =
      let r = process_item outside max_retries arrived id c in
      (r.1 ≡ none) × (requeues id after ≡ 0)
      ⊎ ((e : Text) × (r.1 ≡ some e)
          × ((requeues id c < max_retries) × (requeues id after ≡ suc (requeues id c))
              ⊎ (max_retries ≤ requeues id c)
                × (requeues id after ≡ 0)
                × ((reported : State) × ReportedFailed id e r.0 reported
                    × (after
                        ≡ with_queue outside max_retries (λ q. done_item id (forget id q))
                            reported))))

  -- One pass of the worker over an id ends in one of three ways: processItem returned no error, and
  -- the id's count of requeues is 0 afterwards; it returned an error while the count was below
  -- MaxRetries, and the count is one higher; or it returned an error while the count was not below
  -- MaxRetries, and the controller has forgotten the id, whose count is 0, and where the sandbox is in
  -- the index and the stream connected has sent it with the phase FAILED and the error as its message.
  pub process_key-Processed :
      (arrived : List (Option Sandbox)) (id : Text) (c : State)
      → Processed arrived id c (process_key outside max_retries arrived id c)
  unfolding Processed process_key
  process_key-Processed arrived id c =
      let r = process_item outside max_retries arrived id c in
      let kept : requeues id r.0 ≡ requeues id c = process_item-requeues id arrived id c in
      elim (Option-cases r.1) [
        | inl fine ↦ inl (
          fine,
          process_key-requeues id arrived id c
              ∙ ap (requeues id) (settle_done id r fine)
              ∙ forget-requeues id r.0.queue,
        )
        | inr (e, error) ↦ elim (Bool-cases (ltb (requeues id r.0) max_retries)) [
          | inl more ↦ inr (
            e,
            error,
            inl (
              ground (arith, kept, more),
              process_key-requeues id arrived id c
                  ∙ ap (requeues id) (settle_again id e r error more)
                  ∙ requeues_limited id id r.0.queue
                  ∙ rw ((text_beq_iff id id).1 refl) (ap suc kept),
            ),
          )
          | inr last ↦ inr (
            e,
            error,
            inr (
              ground (arith, kept, last),
              process_key-requeues id arrived id c
                  ∙ ap (requeues id) (settle_last id e r error last)
                  ∙ forget-requeues id (mark_failed outside max_retries id e r.0).queue,
              (
                mark_failed outside max_retries id e r.0,
                mark_failed-ReportedFailed id e r.0,
                ap (with_queue outside max_retries (done_item id)) (settle_last id e r error last),
              ),
            ),
          )
        ]
      ]

  pub process_key-other :
      (k : Text) (arrived : List (Option Sandbox)) (id : Text) (c : State)
      → text_beq id k ≡ false
      → requeues k (process_key outside max_retries arrived id c) ≡ requeues k c
  process_key-other k arrived id c other =
      let r = process_item outside max_retries arrived id c in
      let kept : requeues k r.0 ≡ requeues k c = process_item-requeues k arrived id c in
      process_key-requeues k arrived id c ∙ elim (Option-cases r.1) [
        | inl fine ↦
            ap (requeues k) (settle_done id r fine) ∙ requeues_forget id k r.0.queue ∙ rw other kept
        | inr (e, error) ↦ elim (Bool-cases (ltb (requeues id r.0) max_retries)) [
          | inl more ↦
              ap (requeues k) (settle_again id e r error more)
              ∙ requeues_limited id k r.0.queue
              ∙ rw other kept
          | inr last ↦
              ap (requeues k) (settle_last id e r error last)
              ∙ requeues_forget id k (mark_failed outside max_retries id e r.0).queue
              ∙ rw other (ap (num_requeues k) (mark_failed-queue id e r.0) ∙ kept)
        ]
      ]
