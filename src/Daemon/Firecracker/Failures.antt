-- ===== src/Daemon/Firecracker/Failures.antt =====
-- CreateMicroVM and LoadSnapshot of daemon/pkg/firecracker/impl.go where they fail.
use yaghan.Base.{
  ◌≡◌, refl, sym, ◌⊎◌, inl, inr, true, false, not, ◌&&◌, some, nat_beq, length, Bool-cases,
  Option-cases,
}
use mathlib.Core.Path.{subst}
use yaghan.Base.Text.{Text}
use yaghan.Daemon.Egress.{LocalReference}
use yaghan.Daemon.Firecracker.System.{Machine}
use yaghan.Daemon.Firecracker.Input.{
  CreateError, Attached, attached, vm_not_found, corrupt, Created, created, failed, Vm, CreateInput,
  LoadInput, Options, is_vm_id,
}
use yaghan.Daemon.Firecracker.Staging.{prepare_boot, prepare_load}
use yaghan.Daemon.Firecracker.Launch.{attach, boot_ready, load_ready}
use yaghan.Daemon.Firecracker.Provider.{
  Provider, attach_or, indexed, boot, load, create_microvm, load_snapshot,
}
use yaghan.Daemon.Firecracker.Stopped.Preparing.{
  prepare_boot-Quiet, prepare_load-Quiet, attach-Quiet,
}
use yaghan.Daemon.Firecracker.Stopped.{Halted, launch-Halted}

Attached-cases :
    (a : Attached Vm) → ((vm : Vm) × (a ≡ attached vm)) ⊎ ((a ≡ vm_not_found) ⊎ (a ≡ corrupt))
Attached-cases (attached vm) = inl (vm, refl)
Attached-cases vm_not_found = inr (inl refl)
Attached-cases corrupt = inr (inr refl)

module _ (m : Machine) (opts : Options) where
  open m use {World, up}

  -- A failed call has indexed nothing, and no Firecracker runs but in the four ways of `Halted`.
  abbrev pub Failed : Text → Provider m opts → Provider m opts × Created Vm → CreateError → Type 0
  Failed id p r e = (r.0.vms ≡ p.vms) × Halted m id r.0.world e

  indexed-Failed :
      (id : Text) (p : Provider m opts) (r : World × Created Vm) (e : CreateError)
      → (r.1 ≡ failed e → Halted m id r.0 e)
      → (indexed m opts p r).1 ≡ failed e
      → Failed id p (indexed m opts p r) e
  unfolding indexed
  indexed-Failed id p (w, created vm) e halted h = cc
  indexed-Failed id p (w, failed d) e halted h = (refl, halted h)

  attach_or_found :
      (id : Text) (start : World → World × Created Vm) (p : Provider m opts) (vm : Vm)
      → (attach m opts id p.world).1 ≡ attached vm
      → (attach_or m opts id start p).1 ≡ created vm
  unfolding attach_or indexed
  attach_or_found id start p vm running = rw (attach_or, running) refl

  attach_or_boot :
      (id : Text) (start : World → World × Created Vm) (p : Provider m opts)
      → ((attach m opts id p.world).1 ≡ vm_not_found) ⊎ ((attach m opts id p.world).1 ≡ corrupt)
      → attach_or m opts id start p ≡ indexed m opts p (start (attach m opts id p.world).0)
  unfolding attach_or
  attach_or_boot id start p (inl gone) = rw (attach_or, gone) refl
  attach_or_boot id start p (inr broken) = rw (attach_or, broken) refl

  attach_or-Failed :
      (id : Text) (start : World → World × Created Vm) (p : Provider m opts) (e : CreateError)
      → ((w : World) → up w id ≡ false → (start w).1 ≡ failed e → Halted m id (start w).0 e)
      → up p.world id ≡ false
      → (attach_or m opts id start p).1 ≡ failed e
      → Failed id p (attach_or m opts id start p) e
  unfolding attach_or
  attach_or-Failed id start p e halted down h =
      let r = attach m opts id p.world in
      let off = attach-Quiet m opts id p.world id down in
      let booted = indexed-Failed id p (start r.0) e (halted r.0 off) in
      elim (Attached-cases r.1) [
        | inl (vm, running) ↦ let fine = attach_or_found id start p vm running in cc
        | inr (inl gone) ↦
            subst (λ x. x.1 ≡ failed e → Failed id p x e)
              (sym (attach_or_boot id start p (inl gone))) booted h
        | inr (inr broken) ↦
            subst (λ x. x.1 ≡ failed e → Failed id p x e)
              (sym (attach_or_boot id start p (inr broken))) booted h
      ]

  boot-Halted :
      (input : CreateInput) (w : World) (e : CreateError)
      → up w input.id ≡ false
      → (boot m opts input w).1 ≡ failed e
      → Halted m input.id (boot m opts input w).0 e
  unfolding boot
  boot-Halted input w e down h =
      launch-Halted m opts input.id input.network true (prepare_boot m input)
        (boot_ready m opts input) _ _ w e (prepare_boot-Quiet m input) down h

  load-Halted :
      (input : LoadInput) (ref : LocalReference) (w : World) (e : CreateError)
      → up w input.id ≡ false
      → (load m opts input ref w).1 ≡ failed e
      → Halted m input.id (load m opts input ref w).0 e
  unfolding load
  load-Halted input ref w e down h =
      launch-Halted m opts input.id input.network false (prepare_load m input ref)
        (load_ready m opts input ref) _ _ w e (prepare_load-Quiet m input ref) down h

  create_valid :
      (input : CreateInput) (p : Provider m opts)
      → is_vm_id input.id ≡ true
      → create_microvm m opts input p ≡ attach_or m opts input.id (boot m opts input) p
  unfolding create_microvm
  create_valid input p valid = rw (create_microvm, valid) refl

  -- Where no Firecracker runs for the id of a CreateMicroVM that fails, the index is unchanged, and no
  -- Firecracker of that id runs afterwards, unless the call has failed at the wait for the jailer, which kills nothing, or in the registration, at
  -- the pid file or at meta.json, or the pid file cannot be read, so that nothing could be killed.
  pub create_microvm-Failed :
      (input : CreateInput) (p : Provider m opts) (e : CreateError)
      → up p.world input.id ≡ false
      → (create_microvm m opts input p).1 ≡ failed e
      → Failed input.id p (create_microvm m opts input p) e
  unfolding create_microvm
  create_microvm-Failed input p e down h = elim (Bool-cases (is_vm_id input.id)) [
    | inr invalid ↦ rw (create_microvm, invalid) (refl, inl down)
    | inl valid ↦
        subst (λ x. x.1 ≡ failed e → Failed input.id p x e) (sym (create_valid input p valid))
          (attach_or-Failed input.id (boot m opts input) p e
            (λ w off bad. boot-Halted input w e off bad) down)
          h
  ]

  load_valid :
      (input : LoadInput) (ref : LocalReference) (p : Provider m opts)
      → input.local_reference ≡ some ref
      → (not (nat_beq input.agent_vsock_port 0) && nat_beq (length input.vsock_uds_path) 0) ≡ false
      → is_vm_id input.id ≡ true
      → load_snapshot m opts input p ≡ attach_or m opts input.id (load m opts input ref) p
  unfolding load_snapshot
  load_valid input ref p given path valid = rw (load_snapshot, given, path, valid) refl

  -- Where no Firecracker runs for the id of a LoadSnapshot that fails, whatever its input, the index is
  -- unchanged, and no Firecracker of that id runs afterwards, unless the call has failed at the wait for
  -- the jailer, which kills nothing, or in the registration, at the pid file or at meta.json, or the pid
  -- file cannot be read, so that nothing could be killed.
  pub load_snapshot-Failed :
      (input : LoadInput) (p : Provider m opts) (e : CreateError)
      → up p.world input.id ≡ false
      → (load_snapshot m opts input p).1 ≡ failed e
      → Failed input.id p (load_snapshot m opts input p) e
  unfolding load_snapshot
  load_snapshot-Failed input p e down h = elim (Option-cases input.local_reference) [
    | inl absent ↦ rw (load_snapshot, absent) (refl, inl down)
    | inr (ref, given) ↦
        let no_path =
          not (nat_beq input.agent_vsock_port 0) && nat_beq (length input.vsock_uds_path) 0 in
        elim (Bool-cases no_path) [
          | inl bad ↦ rw (load_snapshot, given, bad) (refl, inl down)
          | inr path ↦ elim (Bool-cases (is_vm_id input.id)) [
            | inr invalid ↦ rw (load_snapshot, given, path, invalid) (refl, inl down)
            | inl valid ↦
                subst (λ x. x.1 ≡ failed e → Failed input.id p x e)
                  (sym (load_valid input ref p given path valid))
                  (attach_or-Failed input.id (load m opts input ref) p e
                    (λ w off bad. load-Halted input ref w e off bad) down)
                  h
          ]
        ]
  ]
