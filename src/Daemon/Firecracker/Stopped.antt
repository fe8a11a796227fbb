-- ===== src/Daemon/Firecracker/Stopped.antt =====
-- A boot of daemon/pkg/firecracker/impl.go that fails, and the process that it has started.
pub mod Preparing
use yaghan.Base.{
  ℕ, ◌≡◌, refl, sym, ap, ◌∙◌, ◌⊎◌, inl, inr, Bool, true, false, not, ◌&&◌, List, Option, none, some,
  if◌then◌else◌, nat_beq, length, Bool-cases, Option-cases,
}
use mathlib.Core.Path.{subst}
use mathlib.Core.Option.{some-injective}
use yaghan.Base.Text.{Text}
use yaghan.Net.Allocator.{NamespaceHandle}
use yaghan.Daemon.Egress.{LocalReference}
use yaghan.Daemon.Firecracker.System.{
  Machine, Op, kill_pid, remove_vm_dir, spawn_jailer, reap_jailer, write_meta, VmMeta,
}
use yaghan.Daemon.Firecracker.Input.{
  CreateError, read_pid_file, write_meta_error, spawn_jailer_error, jailer_bootstrap, Attached,
  attached, vm_not_found, corrupt, Created, created, failed, Vm, CreateInput, LoadInput, Options,
  is_vm_id,
}
use yaghan.Daemon.Firecracker.Staging.{Action, ◌>>◌, prepare_boot, prepare_load}
use yaghan.Daemon.Firecracker.Launch.{
  run_jailer, kill_forked_firecracker, or_kill, register_vm, attach, launch, boot_ready, load_ready,
  netns_path,
}
use yaghan.Daemon.Firecracker.Provider.{
  Provider, attach_or, indexed, boot, load, create_microvm, load_snapshot,
}
use yaghan.Daemon.Firecracker.Stopped.Preparing.{
  Quiet, QuietStep, run-Quiet, prepare_boot-Quiet, prepare_load-Quiet, attach-Quiet,
}

failed-injective : {d e : CreateError} → ◌≡◌ {A = Created Vm} (failed d) (failed e) → d ≡ e
failed-injective h = cc

module _ (m : Machine) where
  open m use {World, up, pid_file, run, not_spawned, killed}

  -- What a failed call leaves of the Firecracker that it may have started.
  abbrev pub Halted : Text → World → CreateError → Type 0
  Halted id w e =
      (up w id ≡ false)
      ⊎ ((e ≡ read_pid_file)
          ⊎ ((e ≡ write_meta_error) ⊎ ((pid_file w id ≡ none) ⊎ (e ≡ jailer_bootstrap))))

  -- A sequence that fails has failed in its first or its second part.
  >>-failed :
      (s t : Action World) (w : World) (e : CreateError)
      → ((s >> t) w).1 ≡ some e
      → (((s w).1 ≡ some e) × ((s >> t) w ≡ s w)) ⊎ (((s w).1 ≡ none) × ((s >> t) w ≡ t (s w).0))
  unfolding ◌>>◌
  >>-failed s t w e h = elim (Option-cases (s w).1) [
    | inl fine ↦ inr (fine, rw (◌>>◌, fine) refl)
    | inr (e', bad) ↦
        let same : (s >> t) w ≡ s w = rw (◌>>◌, bad) (ap (λ o. ((s w).0, o)) bad) in
        inl (sym (ap (λ r. r.1) same) ∙ h, same)
  ]

  pub >>-done :
      (s t : Action World) (w : World)
      → ((s >> t) w).1 ≡ none
      → ((s w).1 ≡ none) × ((s >> t) w ≡ t (s w).0)
  unfolding ◌>>◌
  >>-done s t w h = elim (Option-cases (s w).1) [
    | inl fine ↦ (fine, rw (◌>>◌, fine) refl)
    | inr (e, bad) ↦
        let same : (s >> t) w ≡ s w = rw (◌>>◌, bad) (ap (λ o. ((s w).0, o)) bad) in
        cc (ap (λ (r : World × Option CreateError). r.1) same)
  ]

  run_jailer-Halted :
      (opts : Options) (id : Text) (network : NamespaceHandle) (configured : Bool) (w : World)
      (e : CreateError)
      → up w id ≡ false
      → (run_jailer m opts id network configured w).1 ≡ some e
      → Halted id (run_jailer m opts id network configured w).0 e
  unfolding run_jailer
  run_jailer-Halted opts id network configured w e down h =
      let spawn = spawn_jailer (netns_path network.namespace_name) configured in
      let spawned = run id spawn w in
      let reaped = run id reap_jailer spawned.0 in
      elim (Bool-cases spawned.1) [
        | inr stuck ↦
            rw (run_jailer, stuck)
              (inl (elim (Bool-cases (up spawned.0 id)) [
                | inl on ↦
                    cc (not_spawned id (netns_path network.namespace_name) configured w id stuck on)
                | inr off ↦ off
              ]))
        | inl fine ↦ elim (Bool-cases opts.attach_console) [
          | inl console ↦
              let kept : (run_jailer m opts id network configured w).1 ≡ none =
                rw (run_jailer, fine, console) refl in
              cc
          | inr daemon ↦ elim (Bool-cases reaped.1) [
            | inl ok ↦
                let kept : (run_jailer m opts id network configured w).1 ≡ none =
                  rw (run_jailer, fine, daemon, ok) refl in
                cc
            | inr bad ↦
                let lost : (run_jailer m opts id network configured w).1 ≡ some jailer_bootstrap =
                  rw (run_jailer, fine, daemon, bad) refl in
                inr (inr (inr (inr (some-injective _ _ (sym h ∙ lost)))))
          ]
        ]
      ]

  kill-Halted :
      (id : Text) (w : World) (e : CreateError) → Halted id (kill_forked_firecracker m id w) e
  unfolding kill_forked_firecracker
  kill-Halted id w e = elim (Option-cases (pid_file w id)) [
    | inl unknown ↦ inr (inr (inr (inl (rw (kill_forked_firecracker, unknown) unknown))))
    | inr (pid, known) ↦ inl (rw (kill_forked_firecracker, known) (killed id pid w known))
  ]

  or_kill-Halted :
      (id : Text) (s : Action World) (w : World) (e : CreateError)
      → (or_kill m id s w).1 ≡ some e
      → Halted id (or_kill m id s w).0 e
  unfolding or_kill
  or_kill-Halted id s w e h = elim (Option-cases (s w).1) [
    | inl fine ↦ let kept : (or_kill m id s w).1 ≡ none = rw (or_kill, fine) fine in cc
    | inr (e', bad) ↦ rw (or_kill, bad) (kill-Halted id (s w).0 e)
  ]

  abbrev error_of : Created Vm → Option CreateError
  error_of (created vm) = none
  error_of (failed e) = some e

  register_vm-Halted :
      (id : Text) (index : ℕ) (uds : Text) (port : ℕ) (w : World) (e : CreateError)
      → (register_vm m id index uds port w).1 ≡ failed e
      → Halted id (register_vm m id index uds port w).0 e
  unfolding register_vm
  register_vm-Halted id index uds port w e h = elim (Option-cases (pid_file w id)) [
    | inl unknown ↦
        let known : (register_vm m id index uds port w).1 ≡ failed read_pid_file =
          rw (register_vm, unknown) refl in
        inr (inl (failed-injective (sym h ∙ known)))
    | inr (pid, known) ↦
        let meta : VmMeta = record { pid = pid; agent_vsock_port = port; network_index = index } in
        elim (Bool-cases (run id (write_meta meta) w).1) [
          | inl wrote ↦
              let kept : (register_vm m id index uds port w).1
                  ≡ created (record {
                    id = id;
                    pid = pid;
                    network_index = index;
                    vsock_uds = uds;
                    vsock_port = port;
                  }) =
                rw (register_vm, known, wrote) refl in
              cc
          | inr lost ↦
              let kept : (register_vm m id index uds port w).1 ≡ failed write_meta_error =
                rw (register_vm, known, lost) refl in
              inr (inr (inl (failed-injective (sym h ∙ kept))))
        ]
  ]

  pub launch_fine :
      (opts : Options) (id : Text) (network : NamespaceHandle) (configured : Bool)
      (prepare ready : Action World) (uds : Text) (port : ℕ) (w : World)
      → ((prepare >> run_jailer m opts id network configured >> or_kill m id ready) w).1 ≡ none
      → launch m opts id network configured prepare ready uds port w
        ≡ register_vm m id network.index uds port
            ((prepare >> run_jailer m opts id network configured >> or_kill m id ready) w).0
  unfolding launch
  launch_fine opts id network configured prepare ready uds port w fine = rw (launch, fine) refl

  pub launch-failed :
      (opts : Options) (id : Text) (network : NamespaceHandle) (configured : Bool)
      (prepare ready : Action World) (uds : Text) (port : ℕ) (w : World) (e : CreateError)
      → ((prepare >> run_jailer m opts id network configured >> or_kill m id ready) w).1 ≡ some e
      → launch m opts id network configured prepare ready uds port w ≡ (
        ((prepare >> run_jailer m opts id network configured >> or_kill m id ready) w).0,
        failed e,
      )
  unfolding launch
  launch-failed opts id network configured prepare ready uds port w e bad = rw (launch, bad) refl

  -- The part of a launch in front of the registration.
  started-Halted :
      (opts : Options) (id : Text) (network : NamespaceHandle) (configured : Bool)
      (prepare ready : Action World) (w : World) (e : CreateError)
      → QuietStep m prepare
      → up w id ≡ false
      → ((prepare >> run_jailer m opts id network configured >> or_kill m id ready) w).1 ≡ some e
      → Halted id ((prepare >> run_jailer m opts id network configured >> or_kill m id ready) w).0 e
  started-Halted opts id network configured prepare ready w e quiet down h =
      let jail = run_jailer m opts id network configured in
      let guarded = or_kill m id ready in
      let off = quiet.stays w id down in
      elim (>>-failed prepare (jail >> guarded) w e h) [
        | inl (bad, same) ↦ rw same (inl off)
        | inr (fine, same) ↦
            let next = (prepare w).0 in
            let h' = sym (ap (λ (r : World × Option CreateError). r.1) same) ∙ h in
            rw same (elim (>>-failed jail guarded next e h') [
              | inl (bad, same') ↦
                  rw same' (run_jailer-Halted opts id network configured next e off bad)
              | inr (fine', same') ↦ rw same' (
                  or_kill-Halted id ready (jail next).0 e
                    (sym (ap (λ (r : World × Option CreateError). r.1) same') ∙ h'))
            ])
      ]

  pub launch-Halted :
      (opts : Options) (id : Text) (network : NamespaceHandle) (configured : Bool)
      (prepare ready : Action World) (uds : Text) (port : ℕ) (w : World) (e : CreateError)
      → QuietStep m prepare
      → up w id ≡ false
      → (launch m opts id network configured prepare ready uds port w).1 ≡ failed e
      → Halted id (launch m opts id network configured prepare ready uds port w).0 e
  unfolding launch
  launch-Halted opts id network configured prepare ready uds port w e quiet down h =
      let jail = run_jailer m opts id network configured in
      let all = prepare >> jail >> or_kill m id ready in
      elim (Option-cases (all w).1) [
        | inl fine ↦
            subst (λ (r : World × Created Vm). r.1 ≡ failed e → Halted id r.0 e)
              (sym (launch_fine opts id network configured prepare ready uds port w fine))
              (register_vm-Halted id network.index uds port (all w).0 e) h
        | inr (e', bad) ↦
            let same = launch-failed opts id network configured prepare ready uds port w e' bad in
            let e-same : e' ≡ e =
              failed-injective (sym (ap (λ (r : World × Created Vm). r.1) same) ∙ h) in
            rw same (
              started-Halted opts id network configured prepare ready w e quiet down
                (bad ∙ ap some e-same))
      ]
