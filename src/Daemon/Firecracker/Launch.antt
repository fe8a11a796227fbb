-- ===== src/Daemon/Firecracker/Launch.antt =====
-- daemon/pkg/firecracker/impl.go: the jailer, the waits for Firecracker and the guest's agent, the sidecar
-- file meta.json, and how the daemon attaches to a microVM that runs.
use yaghan.Base.{ℕ, Bool, ◌++◌, none, some, if◌then◌else◌, nat_beq}
use yaghan.Base.Text.{Text, codes, text_eq}
use yaghan.Net.Allocator.{NamespaceHandle}
use yaghan.Daemon.Egress.{LocalReference}
use yaghan.Daemon.Firecracker.System.{
  missing, unreadable, found, Machine, remove_vm_dir, spawn_jailer, reap_jailer, await_running,
  await_api, await_agent, load_rpc, kill_pid, write_meta, describe,
}
use yaghan.Daemon.Firecracker.Input.{
  spawn_jailer_error, jailer_bootstrap, not_running, api_not_ready, load_rpc_error, agent_not_ready,
  read_pid_file, write_meta_error, Attached, attached, vm_not_found, corrupt, Created, created,
  failed, Vm, CreateInput, LoadInput, Options, resolve_vsock_uds, vsock_endpoint, read_vsock_uds,
}
use yaghan.Daemon.Firecracker.Staging.{Action, attempt, ◌>>◌, nothing_to_do}

unfoldable pub netns_path : Text → Text
netns_path name = codes "/var/run/netns/" ++ name

module _ (m : Machine) where
  open m use {World, pid_file, meta, config, socket, run}

  -- Without a console the jailer is waited for, and a failed bootstrap takes the directory away.
  unfoldable pub run_jailer : Options → Text → NamespaceHandle → Bool → Action World
  unfolding netns_path
  run_jailer opts id network configured w =
      let spawned = run id (spawn_jailer (netns_path network.namespace_name) configured) w in
      let reaped = run id reap_jailer spawned.0 in
      let cleaned = run id remove_vm_dir reaped.0 in
      if spawned.1
      then (if opts.attach_console
          then (spawned.0, none)
          else if reaped.1
          then (reaped.0, none)
          else (cleaned.0, some jailer_bootstrap))
      else (spawned.0, some spawn_jailer_error)

  unfoldable pub kill_forked_firecracker : Text → World → World
  kill_forked_firecracker id w = elim (pid_file w id) [
    | none ↦ w
    | some pid ↦ (run id (kill_pid pid) w).0
  ]

  -- A step behind the jailer: where it fails, the Firecracker is killed.
  unfoldable pub or_kill : Text → Action World → Action World
  unfolding kill_forked_firecracker
  or_kill id step w =
      let r = step w in elim r.1 [ none ↦ r | some e ↦ (kill_forked_firecracker id r.0, some e) ]

  unfoldable pub agent_ready : Text → Text → ℕ → Action World
  unfolding attempt nothing_to_do
  agent_ready id uds port =
      if nat_beq port 0
      then nothing_to_do m
      else attempt m id (await_agent uds port) agent_not_ready

  unfoldable pub boot_ready : Options → CreateInput → Action World
  unfolding attempt ◌>>◌ agent_ready vsock_endpoint
  boot_ready opts input =
      let endpoint = vsock_endpoint opts input in
      attempt m input.id await_running not_running >> agent_ready input.id endpoint.0 endpoint.1

  unfoldable pub load_ready : Options → LoadInput → LocalReference → Action World
  unfolding attempt ◌>>◌ agent_ready
  load_ready opts input ref =
      attempt m input.id await_api api_not_ready
      >> attempt m input.id (load_rpc ref.snapshot_id) load_rpc_error
      >> attempt m input.id await_running not_running
      >> agent_ready input.id (resolve_vsock_uds opts input.id input.vsock_uds_path)
          input.agent_vsock_port

  -- registerVM up to the index.
  unfoldable pub register_vm : Text → ℕ → Text → ℕ → World → World × Created Vm
  register_vm id index uds port w = elim (pid_file w id) [
    | none ↦ (w, failed read_pid_file)
    | some pid ↦
        let r =
          run id (write_meta (record { pid = pid; agent_vsock_port = port; network_index = index }))
            w in
        (
          r.0,
          if r.1
              then created (record {
                id = id;
                pid = pid;
                network_index = index;
                vsock_uds = uds;
                vsock_port = port;
              })
              else failed write_meta_error,
        )
  ]

  unfoldable pub attach : Options → Text → World → World × Attached Vm
  unfolding read_vsock_uds
  attach opts id w = elim (socket w id) [
    | missing ↦ (w, vm_not_found)
    | unreadable ↦ (w, corrupt)
    | found s ↦ elim (meta w id) [
      | missing ↦ (w, vm_not_found)
      | unreadable ↦ (w, corrupt)
      | found meta ↦
          let r = run id describe w in
          (
            r.0,
            if r.1
                then attached (record {
                  id = id;
                  pid = meta.pid;
                  network_index = meta.network_index;
                  vsock_uds = read_vsock_uds opts id (config w id);
                  vsock_port = meta.agent_vsock_port;
                })
                else vm_not_found,
          )
    ]
  ]

  -- A boot behind its preparation, up to the index.
  unfoldable pub launch :
      Options
      → Text
      → NamespaceHandle
      → Bool
      → Action World
      → Action World
      → Text
      → ℕ
      → World
      → World × Created Vm
  unfolding ◌>>◌ run_jailer or_kill register_vm
  launch opts id network configured prepare ready uds port w =
      let r = (prepare >> run_jailer opts id network configured >> or_kill id ready) w in
      elim r.1 [ none ↦ register_vm id network.index uds port r.0 | some e ↦ (r.0, failed e) ]
