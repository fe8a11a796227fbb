-- ===== src/Daemon/Firecracker/Provider.antt =====
-- daemon/pkg/firecracker/impl.go: the provider with its index of microVMs.
use yaghan.Base.{
  Bool, true, false, not, ◌&&◌, List, [], ◌∷◌, Option, none, some, if◌then◌else◌, ltb, nat_beq,
  length,
}
use yaghan.Base.Text.{Text, text_eq}
use yaghan.Base.Dict.{insert, lookup, delete}
use yaghan.Base.Integer.{Integer, nonneg, negative}
use yaghan.Daemon.Egress.{LocalReference}
use yaghan.Daemon.Firecracker.System.{
  missing, unreadable, found, Machine, remove_vm_dir, kill_pid, terminate_pid, await_exit,
  close_vsock,
}
use yaghan.Daemon.Firecracker.Input.{
  invalid_id, reference_required, uds_path_required, attached, vm_not_found, corrupt, Created,
  created, failed, Vm, CreateInput, LoadInput, is_vm_id, Options, resolve_vsock_uds, vsock_endpoint,
}
use yaghan.Daemon.Firecracker.Staging.{prepare_boot, prepare_load}
use yaghan.Daemon.Firecracker.Launch.{boot_ready, load_ready, attach, launch}

module _ (m : Machine) (opts : Options) where
  open m use {World, entries, run}

  pub record Provider : Type 0 where
    pub vms : List (Text × Vm)
    pub world : World

  unfoldable pub index_insert : Vm → Provider → Provider
  index_insert vm p = record p { vms = insert vm.id vm p.vms }

  -- A call that has made or found a VM puts it into the index.
  unfoldable pub indexed : Provider → World × Created Vm → Provider × Created Vm
  unfolding index_insert
  indexed p (w, created vm) = (index_insert vm (record p { world = w }), created vm)
  indexed p (w, failed e) = (record p { world = w }, failed e)

  -- A VM that answers is reused; otherwise the boot runs in the world that the attempt has left.
  unfoldable pub attach_or : Text → (World → World × Created Vm) → Provider → Provider × Created Vm
  unfolding attach indexed
  attach_or id boot p =
      let r = attach m opts id p.world in
      elim r.1 [
        | attached vm ↦ indexed p (r.0, created vm)
        | vm_not_found ↦ indexed p (boot r.0)
        | corrupt ↦ indexed p (boot r.0)
      ]

  unfoldable pub boot : CreateInput → World → World × Created Vm
  unfolding launch prepare_boot boot_ready
  boot input =
      let endpoint = vsock_endpoint opts input in
      launch m opts input.id input.network true (prepare_boot m input) (boot_ready m opts input)
        endpoint.0 endpoint.1

  unfoldable pub load : LoadInput → LocalReference → World → World × Created Vm
  unfolding launch prepare_load load_ready
  load input ref =
      launch m opts input.id input.network false (prepare_load m input ref)
        (load_ready m opts input ref) (resolve_vsock_uds opts input.id input.vsock_uds_path)
        input.agent_vsock_port

  unfoldable pub create_microvm : CreateInput → Provider → Provider × Created Vm
  unfolding attach_or boot is_vm_id
  create_microvm input p =
      if is_vm_id input.id then attach_or input.id (boot input) p else (p, failed invalid_id)

  unfoldable pub load_snapshot : LoadInput → Provider → Provider × Created Vm
  unfolding attach_or load is_vm_id
  load_snapshot input p = elim input.local_reference [
    | none ↦ (p, failed reference_required)
    | some ref ↦
        if not (nat_beq input.agent_vsock_port 0) && nat_beq (length input.vsock_uds_path) 0
        then (p, failed uds_path_required)
        else if is_vm_id input.id
        then attach_or input.id (load input ref) p
        else (p, failed invalid_id)
  ]

  unfoldable pub get_microvm : Text → Provider → Option Vm
  get_microvm id p = lookup id p.vms

  abbrev is_process : Integer → Bool
  is_process (nonneg n) = ltb 0 n
  is_process (negative n) = false

  -- A process that does not end in time is killed. The result says whether the VM is gone.
  unfoldable pub destroy : Vm → World → World × Bool
  destroy vm w =
      let shut = (run vm.id close_vsock w).0 in
      let signalled = run vm.id (terminate_pid vm.pid) shut in
      let waited = run vm.id (await_exit vm.pid) signalled.0 in
      let killed = (run vm.id (kill_pid vm.pid) waited.0).0 in
      let exited = (run vm.id (await_exit vm.pid) killed).0 in
      let stopped = if waited.1 then waited.0 else exited in
      if is_process vm.pid
      then (if signalled.1 then run vm.id remove_vm_dir stopped else (signalled.0, false))
      else run vm.id remove_vm_dir shut

  -- `none` is ErrVMNotFound.
  unfoldable pub delete_microvm : Text → Provider → Provider × Option Bool
  unfolding destroy
  delete_microvm id p = elim (lookup id p.vms) [
    | none ↦ (p, none)
    | some vm ↦
        let r = destroy vm p.world in (record p { vms = delete id p.vms; world = r.0 }, some r.1)
  ]

  -- One directory entry of Recover.
  unfoldable pub recover_entry : Text → Bool → Provider → Provider
  unfolding attach index_insert is_vm_id
  recover_entry id is_dir p =
      let r = attach m opts id p.world in
      let here = record p { world = r.0 } in
      if is_dir && is_vm_id id
      then (elim r.1 [ attached vm ↦ index_insert vm here | vm_not_found ↦ here | corrupt ↦ here ])
      else p

  unfoldable pub recover_all : List (Text × Bool) → Provider → Provider
  unfolding recover_entry
  recover_all [] p = p
  recover_all ((id, is_dir) ∷ rest) p = recover_all rest (recover_entry id is_dir p)

  -- `false` is an error: the directory cannot be read.
  unfoldable pub recover : Provider → Provider × Bool
  unfolding recover_all
  recover p = elim (entries p.world) [
    | missing ↦ (p, true)
    | unreadable ↦ (p, false)
    | found names ↦ (recover_all names p, true)
  ]
