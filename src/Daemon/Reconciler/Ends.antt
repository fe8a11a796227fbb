-- ===== src/Daemon/Reconciler/Ends.antt =====
-- daemon/pkg/reconciler/reconciler.go: what a pass that reports success has done.
use mathlib.Core.Path.{subst}
use mathlib.Core.Option.{some-injective}
use yaghan.Base.{
  List, ℕ, ◌≡◌, ◌⊎◌, inl, inr, refl, sym, ap, ◌∙◌, true, false, Option, none, some, beq_refl,
  Bool-cases, Option-cases,
}
use yaghan.Base.Text.{Text, text_eq}
use yaghan.Base.Dict.{lookup, delete, lookup-delete}
use yaghan.Proto.{
  Intent, Phase, phase_unspecified, phase_pending, phase_running, phase_pausing, phase_paused,
  phase_resuming, phase_snapshotting, phase_deleting, phase_deleted, phase_failed, Sandbox,
  status_phase,
}
use yaghan.Net.Addr.{addr_eq}
use yaghan.Net.Allocator.{validate_index, veth_subnet_for, namespace_veth_ip_for}
use yaghan.Dns.PolicyStore.{PolicyStore, find}
use yaghan.Dns.PolicyStore.Laws.{find-remove}
use yaghan.Daemon.Egress.{Library, Config, remove_dns_policy}
use yaghan.Daemon.Host.{ReconcileError, HostCall, Host, deprovision_network, delete_microvm}
use yaghan.Daemon.Reconciler.{
  Daemon, Result, done, failed, evict, delete_network, delete_vm, finish, dispatch, reconcile_phase,
  clear_intent, reconcile, intent_phase, is_unspecified, is_terminal_target,
}

module _ (host : Host) (lib : Library) (cfg : Config) where
  open host use {World, live, deprovision, run, deprovision_gone}

  -- An eviction leaves no policy under the address of a valid index.
  find-evict :
      (i : ℕ) (o : Option PolicyStore) (later : PolicyStore)
      → validate_index i ≡ true
      → evict host lib cfg i o ≡ some later
      → find (veth_subnet_for i).namespace later ≡ none
  unfolding namespace_veth_ip_for remove_dns_policy veth_subnet_for
  find-evict i o later valid e =
      let known : namespace_veth_ip_for i ≡ some (veth_subnet_for i).namespace =
        rw (valid, namespace_veth_ip_for) refl in
      go o (rw (known, evict) at e)
    where
      go :
          (q : Option PolicyStore)
          → remove_dns_policy (veth_subnet_for i).namespace q ≡ some later
          → find (veth_subnet_for i).namespace later ≡ none
      go none f = cc
      go (some store) f =
          ap (find (veth_subnet_for i).namespace) (sym (some-injective _ _ f))
          ∙ find-remove _ _ store
          ∙ rw (beq_refl (veth_subnet_for i).namespace) refl

  module _ (sb : Sandbox) (d : Daemon host lib cfg) (i : ℕ)
      (running : lookup sb.metadata.id d.vms ≡ some i) where
    -- The daemon once the VM is destroyed, and once its network is gone too.
    abbrev destroyed : Daemon host lib cfg
    destroyed = record d {
      vms = delete sb.metadata.id d.vms;
      world = (run (HostCall.destroy sb.metadata.id) d.world).0;
    }

    abbrev deprovisioned : Daemon host lib cfg
    deprovisioned = record destroyed {
      policies = evict host lib cfg i d.policies;
      world = (deprovision i destroyed.world).0;
    }

    -- The three ways that the delete of a VM ends.
    delete_vm-cases :
        (delete_vm host lib cfg sb d ≡ (destroyed, failed delete_microvm))
        ⊎ (delete_vm host lib cfg sb d ≡ (deprovisioned, failed deprovision_network))
        ⊎ ((delete_vm host lib cfg sb d ≡ (deprovisioned, done sb))
            × (live deprovisioned.world i ≡ false))
    unfolding delete_vm delete_network
    delete_vm-cases = elim (Bool-cases (run (HostCall.destroy sb.metadata.id) d.world).1) [
      | inr kept ↦ inl (rw (running, delete_vm) (rw kept refl))
      | inl down ↦ elim (Bool-cases (deprovision i destroyed.world).1) [
        | inr left ↦ inr (inl (rw (running, delete_vm) (rw down (rw left refl))))
        | inl gone ↦ inr (
            inr (
              rw (running, delete_vm) (rw down (rw gone refl)),
              deprovision_gone i destroyed.world gone,
            ))
      ]
    ]

  lookup-deleted_self : (vms : List (Text × ℕ)) (id : Text) → lookup id (delete id vms) ≡ none
  lookup-deleted_self vms id = lookup-delete id id vms ∙ rw (beq_refl id) refl

  -- A delete of a VM that reports success has taken the VM out of the index, removed its network and,
  -- for an index within the pool, left no DNS policy under its address.
  pub delete_vm-gone :
      (sb s : Sandbox) (d : Daemon host lib cfg) (i : ℕ)
      → lookup sb.metadata.id d.vms ≡ some i
      → (delete_vm host lib cfg sb d).1 ≡ done s
      → let r = (delete_vm host lib cfg sb d).0 in
        (lookup sb.metadata.id r.vms ≡ none)
        × (live r.world i ≡ false)
        × ((later : PolicyStore)
            → validate_index i ≡ true
            → r.policies ≡ some later
            → find (veth_subnet_for i).namespace later ≡ none)
  delete_vm-gone sb s d i e ended = elim (delete_vm-cases sb d i e) [
    | inl k ↦ cc (ap (λ r. r.1) k)
    | inr (inl k) ↦ cc (ap (λ r. r.1) k)
    | inr (inr (k, down)) ↦ rw k (
      lookup-deleted_self d.vms sb.metadata.id,
      down,
      (λ later valid p. find-evict i d.policies later valid p),
    )
  ]

  delete_vm-absent :
      (sb : Sandbox) (d : Daemon host lib cfg)
      → lookup sb.metadata.id d.vms ≡ none
      → delete_vm host lib cfg sb d ≡ (d, done sb)
  unfolding delete_vm
  delete_vm-absent sb d e = rw (e, delete_vm) refl

  -- A delete of a VM that has failed is not taken up again: the VM has left the index, so the next
  -- delete reports success and changes nothing, also where the network of the VM is still there.
  pub delete_vm-abandons :
      (sb : Sandbox) (d : Daemon host lib cfg) (i : ℕ) (why : ReconcileError)
      → lookup sb.metadata.id d.vms ≡ some i
      → (delete_vm host lib cfg sb d).1 ≡ failed why
      → let left = (delete_vm host lib cfg sb d).0 in
        delete_vm host lib cfg sb left ≡ (left, done sb)
  delete_vm-abandons sb d i why e ended = elim (delete_vm-cases sb d i e) [
    | inl k ↦ rw k (delete_vm-absent _ _ (lookup-deleted_self d.vms sb.metadata.id))
    | inr (inl k) ↦ rw k (delete_vm-absent _ _ (lookup-deleted_self d.vms sb.metadata.id))
    | inr (inr (k, down)) ↦ cc (ap (λ r. r.1) k)
  ]

  done-injective : (a b : Sandbox) → ◌≡◌ {A = Result host lib cfg Sandbox} (done a) (done b) → a ≡ b
  done-injective a b e = cc

  finish-phase :
      (p : Phase) (m : Text) (r : Daemon host lib cfg × Result host lib cfg Sandbox) (s : Sandbox)
      → (finish host lib cfg p m r).1 ≡ done s
      → status_phase s ≡ p
  unfolding finish
  finish-phase p m (d, done x) s e = ap status_phase (sym (done-injective _ _ e))
  finish-phase p m (d, failed f) s e = cc

  dispatch-phase :
      (now : ℕ) (target p : Phase) (sb s : Sandbox) (d : Daemon host lib cfg)
      → (dispatch host lib cfg now target p sb d).1 ≡ done s
      → (status_phase s ≡ target)
        ⊎ ((status_phase s ≡ status_phase sb) × ((p ≡ phase_failed) ⊎ (p ≡ phase_deleted)))
  unfolding dispatch
  dispatch-phase now target phase_pending sb s d e = inl (finish-phase target _ _ s e)
  dispatch-phase now target phase_pausing sb s d e = inl (finish-phase target _ _ s e)
  dispatch-phase now target phase_resuming sb s d e = inl (finish-phase target _ _ s e)
  dispatch-phase now target phase_deleting sb s d e = inl (finish-phase target _ _ s e)
  dispatch-phase now target phase_snapshotting sb s d e = inl (finish-phase target _ _ s e)
  dispatch-phase now target phase_failed sb s d e =
      inr (ap status_phase (sym (done-injective _ _ e)), inl refl)
  dispatch-phase now target phase_deleted sb s d e =
      inr (ap status_phase (sym (done-injective _ _ e)), inr refl)
  dispatch-phase now target phase_unspecified sb s d e = cc
  dispatch-phase now target phase_running sb s d e = cc
  dispatch-phase now target phase_paused sb s d e = cc

  -- Where a pass that reports success leaves the phase of the sandbox.
  abbrev pub Reached : Sandbox → Sandbox → Type 0
  Reached sb s =
      ((status_phase s ≡ intent_phase sb) × (is_terminal_target (intent_phase sb) ≡ true))
      ⊎ ((status_phase s ≡ status_phase sb)
          × ((is_unspecified (intent_phase sb) ≡ true)
              ⊎ (status_phase sb ≡ phase_failed)
              ⊎ (status_phase sb ≡ phase_deleted)))

  reconcile_phase-Reached :
      (now : ℕ) (sb s : Sandbox) (d : Daemon host lib cfg)
      → (reconcile_phase host lib cfg now sb d).1 ≡ done s
      → Reached sb s
  unfolding reconcile_phase
  reconcile_phase-Reached now sb s d e = elim (Bool-cases (is_unspecified (intent_phase sb))) [
    | inl u ↦
        let same : reconcile_phase host lib cfg now sb d ≡ (d, done sb) =
          rw (u, reconcile_phase) refl in
        let known = done-injective sb s (sym (ap (λ r. r.1) same) ∙ e) in
        inr (ap status_phase (sym known), inl u)
    | inr u ↦ elim (Bool-cases (is_terminal_target (intent_phase sb))) [
      | inr f ↦
          let stopped : reconcile_phase host lib cfg now sb d
              ≡ (d, failed ReconcileError.unsupported_intent_phase) =
            rw (u, reconcile_phase) (rw f refl) in
          cc (ap (λ r. r.1) stopped)
      | inl f ↦
          let same : reconcile_phase host lib cfg now sb d
              ≡ dispatch host lib cfg now (intent_phase sb) (status_phase sb) sb d =
            rw (u, reconcile_phase) (rw f refl) in
          elim (dispatch-phase now (intent_phase sb) (status_phase sb) sb s d
            (sym (ap (λ r. r.1) same) ∙ e)) [
              | inl reached ↦ inl (reached, f)
              | inr (kept, which) ↦ inr (kept, inr which)
            ]
    ]
  ]

  clear_intent-Reached :
      (sb s : Sandbox) (r : Daemon host lib cfg × Result host lib cfg Sandbox)
      → ((x : Sandbox) → r.1 ≡ done x → Reached sb x)
      → (clear_intent host lib cfg r).1 ≡ done s
      → (s.intent ≡ none) × Reached sb s
  unfolding clear_intent
  clear_intent-Reached sb s (d, done x) reached e =
      let known = done-injective (record x { intent = none }) s e in
      (ap (λ y. y.intent) (sym known), subst (Reached sb) known (reached x refl))
  clear_intent-Reached sb s (d, failed f) reached e = cc

  -- A pass that reports success has cleared the intent, and leaves the sandbox in the phase that the
  -- intent asks for, which is RUNNING, PAUSED or DELETED; in its old phase only if the intent asks for
  -- none or the sandbox was FAILED or DELETED before.
  pub reconcile-Reached :
      (now : ℕ) (sb s : Sandbox) (d : Daemon host lib cfg)
      → (reconcile host lib cfg now sb d).1 ≡ done s
      → (s.intent ≡ none) × Reached sb s
  unfolding reconcile is_unspecified
  reconcile-Reached now sb s d e = elim (Option-cases sb.intent) [
    | inl empty ↦
        let same : reconcile host lib cfg now sb d ≡ (d, done sb) = ap pass empty in
        let known = done-injective sb s (sym (ap (λ r. r.1) same) ∙ e) in
        let asks : is_unspecified (intent_phase sb) ≡ true = rw empty refl in
        (ap (λ y. y.intent) (sym known) ∙ empty, inr (ap status_phase (sym known), inl asks))
    | inr (i, given) ↦
        let same : reconcile host lib cfg now sb d
            ≡ clear_intent host lib cfg (reconcile_phase host lib cfg now sb d) =
          ap pass given in
        clear_intent-Reached sb s (reconcile_phase host lib cfg now sb d)
          (λ x. reconcile_phase-Reached now sb x d) (sym (ap (λ r. r.1) same) ∙ e)
  ]
    where
      pass : Option Intent → Daemon host lib cfg × Result host lib cfg Sandbox
      pass none = (d, done sb)
      pass (some i) = clear_intent host lib cfg (reconcile_phase host lib cfg now sb d)
