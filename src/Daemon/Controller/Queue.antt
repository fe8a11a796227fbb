-- ===== src/Daemon/Controller/Queue.antt =====
-- The rate limiting queue of k8s.io/client-go/util/workqueue as daemon/pkg/controller/controller.go
-- uses it, with the documented behaviour of NumRequeues.
use yaghan.Base.{ℕ, suc, ◌≡◌, Option, if◌then◌else◌}
use yaghan.Base.Text.{Text, text_beq}

-- `next` is Get; it gives no id once the queue is shut down.
pub record WorkQueue : Type 1 where
  pub Queue : Type 0
  pub add : Text → Queue → Queue
  pub next : Queue → Queue × Option Text
  pub done_item : Text → Queue → Queue
  pub add_rate_limited : Text → Queue → Queue
  pub forget : Text → Queue → Queue
  pub num_requeues : Text → Queue → ℕ
  pub requeues_add : (id k : Text) (q : Queue) → num_requeues k (add id q) ≡ num_requeues k q
  pub requeues_next : (k : Text) (q : Queue) → num_requeues k (next q).0 ≡ num_requeues k q
  pub requeues_done : (id k : Text) (q : Queue) → num_requeues k (done_item id q) ≡ num_requeues k q
  pub requeues_limited :
      (id k : Text) (q : Queue)
      → num_requeues k (add_rate_limited id q)
        ≡ (if text_beq id k then suc (num_requeues k q) else num_requeues k q)
  pub requeues_forget :
      (id k : Text) (q : Queue)
      → num_requeues k (forget id q) ≡ (if text_beq id k then 0 else num_requeues k q)
