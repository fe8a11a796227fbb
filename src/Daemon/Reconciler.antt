-- ===== src/Daemon/Reconciler.antt =====
-- daemon/pkg/reconciler/reconciler.go: how a sandbox's intent is carried out on the host, with the
-- index of the running VMs of daemon/pkg/firecracker/impl.go. The kernel, Firecracker and the
-- snapshot service are the interface Host. Errors keep the step that failed and lose their text.
pub mod Isolation
pub mod Booting
pub mod Invariant
pub mod Outcome
pub mod Enforcement
pub mod Ends
use yaghan.Daemon.Host.{
  ReconcileError, HostCall, FileCall, Host, unsupported_intent_phase, unsupported_status_phase,
  no_snapshot_store, no_dns_responder, provision_network, create_microvm, restore_microvm,
  load_snapshot, pause_microvm, resume_microvm, delete_microvm, deprovision_network,
  microvm_not_found, create_snapshot, persist_snapshot, register_snapshot, launch, restore, destroy,
  pause_vm, resume_vm, put_snapshot, register, download, save_vm,
}
use yaghan.Base.{
  ℕ, ◌+◌, ◌≡◌, ◌≢◌, Bool, true, false, ◌&&◌, not, List, [], ◌∷◌, Option, none, some, if◌then◌else◌,
  ltb,
}
use yaghan.Base.Text.{Text, codes, text_beq, text_eq}
use yaghan.Base.Dict.{lookup, insert, delete}
use yaghan.Net.Allocator.{NamespaceHandle, build_handle, namespace_veth_ip_for}
use yaghan.Proto.{
  Phase, phase_unspecified, phase_pending, phase_running, phase_pausing, phase_paused,
  phase_resuming, phase_snapshotting, phase_deleting, phase_deleted, phase_failed, Reference,
  snapshot_id, image_id, Resources, Intent, StartSnapshotInput, SnapshotOutput, Sandbox, Snapshot,
  status_phase,
}
use yaghan.Dns.PolicyStore.{PolicyStore}
use yaghan.Daemon.Egress.{
  Library, Config, FirewallPolicy, translate_egress_policy, check_dns_prereq, register_dns_policy,
  remove_dns_policy, CreateMicroVmInput, build_create_input, LocalReference, LoadSnapshotInput,
  build_load_snapshot_input,
}

-- One more than the highest index in use, 0 if there is none.
unfoldable pub next_net_ns_index : List (Text × ℕ) → ℕ
next_net_ns_index [] = 0
next_net_ns_index ((id, i) ∷ vms) =
    let next = next_net_ns_index vms in if ltb next (i + 1) then i + 1 else next

-- The id of the snapshot that the sandbox starts from, GetSnapshotId.
abbrev pub source_snapshot : Sandbox → Text
source_snapshot sb = elim sb.metadata.source [
  | none ↦ []
  | some s ↦ elim s.reference [ none ↦ [] | some (snapshot_id i) ↦ i | some (image_id i) ↦ [] ]
]

abbrev pub intent_phase : Sandbox → Phase
intent_phase sb = elim sb.intent [ none ↦ phase_unspecified | some i ↦ i.phase ]

-- GetStartSnapshot().GetDescription()
abbrev description : Sandbox → Text
description sb = elim sb.intent [
  | none ↦ []
  | some i ↦ elim i.start_snapshot [ none ↦ [] | some s ↦ s.description ]
]

-- The three phases in which an intent may end.
unfoldable pub is_terminal_target : Phase → Bool
is_terminal_target phase_running = true
is_terminal_target phase_paused = true
is_terminal_target phase_deleted = true
is_terminal_target _ = false

unfoldable pub is_unspecified : Phase → Bool
is_unspecified phase_unspecified = true
is_unspecified _ = false

module _ (host : Host) (lib : Library) (cfg : Config) where
  open host use {World, attached, provision, deprovision, run, files}

  -- The Reconciler and the state it works on: the provider's index of VMs with their network index,
  -- the responder's policies, `none` without a responder, and the world.
  pub record Daemon : Type 0 where
    pub vms : List (Text × ℕ)
    pub policies : Option PolicyStore
    pub world : World

  pub data Result (A : Type 0) : Type 0 where
    done : A → Result A
    failed : ReconcileError → Result A

  -- What follows Provision: the policy is registered, the VM is started by `call`, and if that fails
  -- the policy and the network are removed again. A VM of the sandbox that runs already is put into the
  -- index with its own network index, and nothing is started.
  unfoldable pub boot_on :
      HostCall → ReconcileError → Sandbox → NamespaceHandle → ℕ → Daemon → Daemon × Result Sandbox
  boot_on call e sb nsh index d =
      let policies = register_dns_policy sb nsh d.policies in
      let r = run call d.world in
      elim (attached d.world sb.metadata.id) [
        | some j ↦ (record d { vms = insert sb.metadata.id j d.vms; policies = policies }, done sb)
        | none ↦
            if r.1
            then (
              record { vms = insert sb.metadata.id index d.vms; policies = policies; world = r.0 },
              done sb,
            )
            else (
              record d {
                policies = remove_dns_policy nsh.namespace_veth_ip policies;
                world = (deprovision index r.0).0;
              },
              failed e,
            )
      ]

  unfoldable pub boot_network :
      (NamespaceHandle → HostCall) → ReconcileError → Sandbox → Daemon → Daemon × Result Sandbox
  boot_network call e sb d =
      let index = next_net_ns_index d.vms in
      let r = provision index (translate_egress_policy lib sb) d.world in
      elim r.1 [
        | none ↦ (record d { world = r.0 }, failed provision_network)
        | some nsh ↦ boot_on (call nsh) e sb nsh index (record d { world = r.0 })
      ]

  unfoldable pub boot_fresh : Sandbox → Daemon → Daemon × Result Sandbox
  boot_fresh sb d = elim (lookup sb.metadata.id d.vms) [
    | some i ↦ (d, done sb)
    | none ↦
        if check_dns_prereq d.policies sb
        then boot_network (λ nsh. launch (build_create_input lib cfg sb nsh)) create_microvm sb d
        else (d, failed no_dns_responder)
  ]

  -- After the snapshot's files were asked for.
  unfoldable pub boot_files :
      Sandbox → Daemon → World × Option LocalReference → Daemon × Result Sandbox
  boot_files sb d (w, none) = (record d { world = w }, failed load_snapshot)
  boot_files sb d (w, some ref) =
      boot_network (λ nsh. restore (build_load_snapshot_input lib cfg sb nsh ref)) restore_microvm
        sb (record d { world = w })

  unfoldable pub boot_from_snapshot : Text → Sandbox → Daemon → Daemon × Result Sandbox
  boot_from_snapshot snapshot sb d = elim (lookup sb.metadata.id d.vms) [
    | some i ↦ (d, done sb)
    | none ↦
        if not cfg.has_snapshot_store
        then (d, failed no_snapshot_store)
        else if check_dns_prereq d.policies sb
        then boot_files sb d (files (download snapshot) d.world)
        else (d, failed no_dns_responder)
  ]

  unfoldable pub boot : Sandbox → Daemon → Daemon × Result Sandbox
  boot sb d =
      if text_beq (source_snapshot sb) []
      then boot_fresh sb d
      else boot_from_snapshot (source_snapshot sb) sb d

  -- Pause and resume: a call on a VM that must be in the index.
  unfoldable pub on_vm : HostCall → ReconcileError → Sandbox → Daemon → Daemon × Result Sandbox
  on_vm call e sb d = elim (lookup sb.metadata.id d.vms) [
    | none ↦ (d, failed microvm_not_found)
    | some i ↦
        let r = run call d.world in (record d { world = r.0 }, if r.1 then done sb else failed e)
  ]

  unfoldable pub pause : Sandbox → Daemon → Daemon × Result Sandbox
  pause sb d = on_vm (pause_vm sb.metadata.id) pause_microvm sb d

  unfoldable pub resume : Sandbox → Daemon → Daemon × Result Sandbox
  resume sb d = on_vm (resume_vm sb.metadata.id) resume_microvm sb d

  -- The policy of the VM with this index is evicted.
  abbrev pub evict : ℕ → Option PolicyStore → Option PolicyStore
  evict i policies = elim (namespace_veth_ip_for i) [
    | none ↦ policies
    | some src ↦ remove_dns_policy src policies
  ]

  -- The second half of `delete`, for a VM whose index was known.
  unfoldable pub delete_network : ℕ → Sandbox → Daemon → Daemon × Result Sandbox
  delete_network i sb d =
      let r = deprovision i d.world in
      (
        record d { policies = evict i d.policies; world = r.0 },
        if r.1 then done sb else failed deprovision_network,
      )

  -- The VM leaves the index before it is destroyed; one that is not there is no error.
  unfoldable pub delete_vm : Sandbox → Daemon → Daemon × Result Sandbox
  delete_vm sb d = elim (lookup sb.metadata.id d.vms) [
    | none ↦ (d, done sb)
    | some i ↦
        let r = run (destroy sb.metadata.id) d.world in
        let gone : Daemon = record d { vms = delete sb.metadata.id d.vms; world = r.0 } in
        if r.1 then delete_network i sb gone else (gone, failed delete_microvm)
  ]

  abbrev snapshot_of : Sandbox → LocalReference → Snapshot
  snapshot_of sb ref = record {
    id = ref.snapshot_id;
    namespace = sb.metadata.namespace;
    description = description sb;
    created_at = none;
    sandbox = sb.metadata.id;
    resources = sb.resources;
  }

  -- The fields that a snapshot leaves behind on the sandbox, at the time `now`.
  abbrev pub with_snapshot : ℕ → LocalReference → Sandbox → Sandbox
  with_snapshot now ref sb = record sb {
    intent = elim sb.intent [ none ↦ none | some i ↦ some (record i { start_snapshot = none }) ];
    last_snapshot =
        some (record { snapshot_id = ref.snapshot_id; created_at = some now; error = none });
  }

  unfoldable pub snapshot_registered :
      ℕ → Sandbox → LocalReference → Daemon → Daemon × Result Sandbox
  snapshot_registered now sb ref d =
      if not cfg.has_snapshot_client
      then (d, done (with_snapshot now ref sb))
      else (let r = run (register (snapshot_of sb ref)) d.world in
          (
            record d { world = r.0 },
            if r.1 then done (with_snapshot now ref sb) else failed register_snapshot,
          ))

  unfoldable pub snapshot_stored : ℕ → Sandbox → LocalReference → Daemon → Daemon × Result Sandbox
  snapshot_stored now sb ref d =
      let r = run (put_snapshot ref) d.world in
      if r.1
      then snapshot_registered now sb ref (record d { world = r.0 })
      else (record d { world = r.0 }, failed persist_snapshot)

  unfoldable pub snapshot : ℕ → Sandbox → Daemon → Daemon × Result Sandbox
  snapshot now sb d = elim (lookup sb.metadata.id d.vms) [
    | none ↦ (d, failed microvm_not_found)
    | some i ↦
        let r = files (save_vm sb.metadata.id) d.world in
        elim r.1 [
          | none ↦ (record d { world = r.0 }, failed create_snapshot)
          | some ref ↦ snapshot_stored now sb ref (record d { world = r.0 })
        ]
  ]

  -- The intent whose phase is done.
  abbrev pub without_target : Sandbox → Sandbox
  without_target sb = record sb {
    intent = elim sb.intent [
      | none ↦ none
      | some i ↦ some (record i { phase = phase_unspecified })
    ];
  }

  -- The shared end of reconcilePhase.
  unfoldable pub finish : Phase → Text → Daemon × Result Sandbox → Daemon × Result Sandbox
  finish target message (d, failed e) = (d, failed e)
  finish target message (d, done sb) = (
    d,
    done (
        without_target
          (record sb { status = some (record { phase = target; message = message }) })),
  )

  -- The `switch` on the phase of the status.
  unfoldable pub dispatch : ℕ → Phase → Phase → Sandbox → Daemon → Daemon × Result Sandbox
  dispatch now target phase_pending sb d = finish target (codes "Sandbox is running") (boot sb d)
  dispatch now target phase_pausing sb d =
      finish target (codes "Sandbox has been paused") (pause sb d)
  dispatch now target phase_resuming sb d = finish target (codes "Sandbox is running") (resume sb d)
  dispatch now target phase_deleting sb d =
      finish target (codes "Sandbox has been deleted") (delete_vm sb d)
  dispatch now target phase_snapshotting sb d =
      finish target (codes "Snapshot created") (snapshot now sb d)
  dispatch now target phase_failed sb d = (d, done (without_target sb))
  dispatch now target phase_deleted sb d = (d, done (without_target sb))
  dispatch now target phase_unspecified sb d = (d, failed unsupported_status_phase)
  dispatch now target phase_running sb d = (d, failed unsupported_status_phase)
  dispatch now target phase_paused sb d = (d, failed unsupported_status_phase)

  unfoldable pub reconcile_phase : ℕ → Sandbox → Daemon → Daemon × Result Sandbox
  reconcile_phase now sb d =
      if is_unspecified (intent_phase sb)
      then (d, done sb)
      else if is_terminal_target (intent_phase sb)
      then dispatch now (intent_phase sb) (status_phase sb) sb d
      else (d, failed unsupported_intent_phase)

  unfoldable pub clear_intent : Daemon × Result Sandbox → Daemon × Result Sandbox
  clear_intent (d, failed e) = (d, failed e)
  clear_intent (d, done sb) = (d, done (record sb { intent = none }))

  unfoldable pub reconcile : ℕ → Sandbox → Daemon → Daemon × Result Sandbox
  reconcile now sb d = elim sb.intent [
    | none ↦ (d, done sb)
    | some i ↦ clear_intent (reconcile_phase now sb d)
  ]
