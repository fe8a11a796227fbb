-- ===== src/Daemon/Firecracker/Recovery.antt =====
-- What a later daemon finds of a microVM that daemon/pkg/firecracker/impl.go has booted.
use yaghan.Base.{
  ℕ, ◌≡◌, ◌≢◌, refl, sym, ap, ◌∙◌, inl, inr, Bool, true, false, [], ◌∷◌, Option, none, some,
  Bool-cases, Option-cases,
}
use mathlib.Core.Path.{subst}
use yaghan.Base.Text.{Text}
use yaghan.Base.Integer.{Integer}
use yaghan.Net.Allocator.{NamespaceHandle}
use yaghan.Daemon.Egress.{LocalReference}
use yaghan.Daemon.Firecracker.System.{
  Machine, Op, VmMeta, Found, missing, found, changes_config, remove_vm_dir, make_jail_root,
  write_config, write_meta, spawn_jailer, chmod_config, reap_jailer, describe,
}
use yaghan.Daemon.Firecracker.Input.{
  CreateError, Created, created, failed, Vm, attached, CreateInput, LoadInput, Options,
  vsock_endpoint, resolve_vsock_uds, read_vsock_uds, clean_vm_dir, create_jail_root, vm_config,
  chmod_vm_config, jailer_bootstrap, read_pid_file, write_meta_error,
}
use yaghan.Daemon.Firecracker.Staging.{
  Action, ◌>>◌, attempt, prepare_chroot, prepare_boot, prepare_load, stage_assets,
  resize_rootfs_for_input, stage_snapshot_files,
}
use yaghan.Daemon.Firecracker.Launch.{
  run_jailer, or_kill, register_vm, attach, launch, boot_ready, load_ready, netns_path,
}
use yaghan.Daemon.Firecracker.Provider.{boot, load}
use yaghan.Daemon.Firecracker.Frames
use yaghan.Daemon.Firecracker.Frames.{is_plain, Steady}
use yaghan.Daemon.Firecracker.Stopped.{>>-done, launch_fine, launch-failed}

plain_config : (op : Op) → is_plain op ≡ true → changes_config op ≡ false
plain_config remove_vm_dir h = cc
plain_config (write_config uds) h = cc
plain_config op h = refl

created-injective : {u v : Vm} → created u ≡ created v → u ≡ v
created-injective h = cc

module _ (m : Machine) where
  open m use {
    World, config, meta, pid_file, socket, run, run_config, wrote_config, wrote_meta, removed,
  }

  -- The configurations of all VMs are what they were.
  abbrev Same : World → World → Type 0
  Same w w' = (j : Text) → config w' j ≡ config w j

  Same_refl : (w : World) → Same w w
  Same_refl w j = refl

  Same_trans : (u v w : World) → Same u v → Same v w → Same u w
  Same_trans u v w a b j = b j ∙ a j

  plain-Same : (id : Text) (op : Op) (w : World) → is_plain op ≡ true → Same w (run id op w).0
  plain-Same id op w plain j = run_config id op w j (plain_config op plain)

  -- A call that succeeds makes its world; otherwise the step has an error.
  attempt-done :
      (id : Text) (op : Op) (e : CreateError) (w : World)
      → (attempt m id op e w).1 ≡ none
      → ((run id op w).1 ≡ true) × ((attempt m id op e w).0 ≡ (run id op w).0)
  unfolding attempt
  attempt-done id op e w h = elim (Bool-cases (run id op w).1) [
    | inl fine ↦ (fine, refl)
    | inr bad ↦ let lost : (attempt m id op e w).1 ≡ some e = rw (attempt, bad) refl in cc
  ]

  run_jailer-Same :
      (opts : Options) (id : Text) (network : NamespaceHandle) (configured : Bool) (w : World)
      → (run_jailer m opts id network configured w).1 ≡ none
      → Same w (run_jailer m opts id network configured w).0
  unfolding run_jailer
  run_jailer-Same opts id network configured w h =
      let spawn = spawn_jailer (netns_path network.namespace_name) configured in
      let spawned = run id spawn w in
      let reaped = run id reap_jailer spawned.0 in
      let first = λ (j : Text). run_config id spawn w j refl in
      elim (Bool-cases spawned.1) [
        | inr stuck ↦ rw (run_jailer, stuck) (λ j. first j)
        | inl fine ↦ elim (Bool-cases opts.attach_console) [
          | inl console ↦ rw (run_jailer, fine, console) (λ j. first j)
          | inr daemon ↦ elim (Bool-cases reaped.1) [
            | inl ok ↦
                rw (run_jailer, fine, daemon, ok)
                  (λ j. run_config id reap_jailer spawned.0 j refl ∙ first j)
            | inr bad ↦
                let lost : (run_jailer m opts id network configured w).1 ≡ some jailer_bootstrap =
                  rw (run_jailer, fine, daemon, bad) refl in
                cc
          ]
        ]
      ]

  or_kill-done :
      (id : Text) (s : Action World) (w : World)
      → (or_kill m id s w).1 ≡ none
      → or_kill m id s w ≡ s w
  unfolding or_kill
  or_kill-done id s w h = elim (Option-cases (s w).1) [
    | inl fine ↦ rw (or_kill, fine) (ap (λ o. ((s w).0, o)) fine)
    | inr (e, bad) ↦ let lost : (or_kill m id s w).1 ≡ some e = rw (or_kill, bad) refl in cc
  ]

  -- A registration that succeeds has written the fields of the handle.
  register_vm-written :
      (id : Text) (index : ℕ) (uds : Text) (port : ℕ) (w : World) (vm : Vm)
      → (register_vm m id index uds port w).1 ≡ created vm
      → (pid : Integer) × (vm ≡ record {
        id = id;
        pid = pid;
        network_index = index;
        vsock_uds = uds;
        vsock_port = port;
      })
        × (meta (register_vm m id index uds port w).0 id
            ≡ found (record { pid = pid; agent_vsock_port = port; network_index = index }))
        × Same w (register_vm m id index uds port w).0
  unfolding register_vm
  register_vm-written id index uds port w vm h = elim (Option-cases (pid_file w id)) [
    | inl unknown ↦
        let lost : (register_vm m id index uds port w).1 ≡ failed read_pid_file =
          rw (register_vm, unknown) refl in
        cc
    | inr (pid, known) ↦
        let m' : VmMeta = record { pid = pid; agent_vsock_port = port; network_index = index } in
        let handle : Vm = record {
          id = id;
          pid = pid;
          network_index = index;
          vsock_uds = uds;
          vsock_port = port;
        } in
        elim (Bool-cases (run id (write_meta m') w).1) [
          | inr lost ↦
              let bad : (register_vm m id index uds port w).1 ≡ failed write_meta_error =
                rw (register_vm, known, lost) refl in
              cc
          | inl wrote ↦
              let same : register_vm m id index uds port w
                  ≡ ((run id (write_meta m') w).0, created handle) =
                rw (register_vm, known, wrote) refl in
              let h' : created handle ≡ created vm =
                sym (ap (λ (r : World × Created Vm). r.1) same) ∙ h in
              (
                pid,
                created-injective (sym h'),
                rw same (wrote_meta id m' w wrote),
                rw same (λ j. run_config id (write_meta m') w j refl),
              )
        ]
  ]

  -- A launch that succeeds is a sequence of parts that succeed, the registration last.
  launch-parts :
      (opts : Options) (id : Text) (network : NamespaceHandle) (configured : Bool)
      (prepare ready : Action World) (uds : Text) (port : ℕ) (w : World) (vm : Vm)
      → Steady m Same Same_refl Same_trans plain-Same ready
      → (launch m opts id network configured prepare ready uds port w).1 ≡ created vm
      → (pid : Integer) × (vm ≡ record {
        id = id;
        pid = pid;
        network_index = network.index;
        vsock_uds = uds;
        vsock_port = port;
      })
        × (meta (launch m opts id network configured prepare ready uds port w).0 id
            ≡ found (record { pid = pid; agent_vsock_port = port; network_index = network.index }))
        × ((prepare w).1 ≡ none)
        × Same (prepare w).0 (launch m opts id network configured prepare ready uds port w).0
  launch-parts opts id network configured prepare ready uds port w vm steady h =
      let jail = run_jailer m opts id network configured in
      let guarded = or_kill m id ready in
      let all = prepare >> jail >> guarded in
      elim (Option-cases (all w).1) [
        | inr (e, bad) ↦
            let lost =
              ap (λ (r : World × Created Vm). r.1)
                (launch-failed m opts id network configured prepare ready uds port w e bad) in
            cc
        | inl fine ↦
            let same = launch_fine m opts id network configured prepare ready uds port w fine in
            let (prepared, rest) = >>-done m prepare (jail >> guarded) w fine in
            let fine' = sym (ap (λ (r : World × Option CreateError). r.1) rest) ∙ fine in
            let (jailed, last) = >>-done m jail guarded (prepare w).0 fine' in
            let fine'' = sym (ap (λ (r : World × Option CreateError). r.1) last) ∙ fine' in
            let made = or_kill-done id ready (jail (prepare w).0).0 fine'' in
            let final : (all w).0 ≡ (ready (jail (prepare w).0).0).0 =
              ap (λ (r : World × Option CreateError). r.0) (rest ∙ last ∙ made) in
            let (pid, handle, written, kept) =
              register_vm-written id network.index uds port (all w).0 vm
                (sym (ap (λ (r : World × Created Vm). r.1) same) ∙ h) in
            (
              pid,
              handle,
              rw same written,
              prepared,
              rw same (
                  Same_trans (prepare w).0 (all w).0
                    (register_vm m id network.index uds port (all w).0).0
                    (subst (Same (prepare w).0) (sym final) (
                      Same_trans (prepare w).0 (jail (prepare w).0).0
                        (ready (jail (prepare w).0).0).0
                        (run_jailer-Same opts id network configured (prepare w).0 jailed)
                        (steady.stays (jail (prepare w).0).0)))
                    kept),
            )
      ]

  world_of : {s t : World × Option CreateError} → s ≡ t → s.0 ≡ t.0
  world_of e = ap (λ (r : World × Option CreateError). r.0) e

  error_of : {s t : World × Option CreateError} → s ≡ t → s.1 ≡ none → t.1 ≡ none
  error_of e h = sym (ap (λ (r : World × Option CreateError). r.1) e) ∙ h

  prepare_boot-config :
      (input : CreateInput) (w : World)
      → (prepare_boot m input w).1 ≡ none
      → config (prepare_boot m input w).0 input.id ≡ found input.vsock_uds_path
  unfolding prepare_boot
  prepare_boot-config input w h =
      let id = input.id in
      let write = attempt m id (write_config input.vsock_uds_path) vm_config in
      let boot_files =
        attempt m id chmod_config chmod_vm_config
        >> stage_assets m id input.assets
        >> resize_rootfs_for_input m input in
      let files = Frames.boot_files-Steady m Same Same_refl Same_trans plain-Same input in
      let (done, rest) = >>-done m (prepare_chroot m id) (write >> boot_files) w h in
      let w' = (prepare_chroot m id w).0 in
      let (wrote, last) = >>-done m write boot_files w' (error_of rest h) in
      let (ok, same) = attempt-done id (write_config input.vsock_uds_path) vm_config w' wrote in
      ap (λ v. config v id) (world_of (rest ∙ last))
      ∙ files.stays (write w').0 id
      ∙ ap (λ v. config v id) same
      ∙ wrote_config id input.vsock_uds_path w' ok

  prepare_chroot-config :
      (id : Text) (w : World)
      → (prepare_chroot m id w).1 ≡ none
      → config (prepare_chroot m id w).0 id ≡ missing
  unfolding prepare_chroot
  prepare_chroot-config id w h =
      let (gone, rest) =
        >>-done m (attempt m id remove_vm_dir clean_vm_dir)
          (attempt m id make_jail_root create_jail_root) w h in
      let (ok, same) = attempt-done id remove_vm_dir clean_vm_dir w gone in
      let w' = (attempt m id remove_vm_dir clean_vm_dir w).0 in
      let (made, kept) = attempt-done id make_jail_root create_jail_root w' (error_of rest h) in
      ap (λ v. config v id) (world_of rest ∙ kept)
      ∙ run_config id make_jail_root w' id refl
      ∙ ap (λ v. config v id) same
      ∙ removed id w ok

  prepare_load-config :
      (input : LoadInput) (ref : LocalReference) (w : World)
      → (prepare_load m input ref w).1 ≡ none
      → config (prepare_load m input ref w).0 input.id ≡ missing
  unfolding prepare_load
  prepare_load-config input ref w h =
      let id = input.id in
      let files = Frames.load_files-Steady m Same Same_refl Same_trans plain-Same input ref in
      let (done, rest) =
        >>-done m (prepare_chroot m id)
          (stage_assets m id input.assets >> stage_snapshot_files m id ref) w h in
      ap (λ v. config v id) (world_of rest)
      ∙ files.stays (prepare_chroot m id w).0 id
      ∙ prepare_chroot-config id w done

  -- What attach makes of the sidecar files of a VM that answers.
  attach-found :
      (opts : Options) (id : Text) (w : World) (meta' : VmMeta) (c : Found (Option Text))
      → socket w id ≡ found tt
      → (run id describe w).1 ≡ true
      → meta w id ≡ found meta'
      → config w id ≡ c
      → (attach m opts id w).1
        ≡ attached (record {
          id = id;
          pid = meta'.pid;
          network_index = meta'.network_index;
          vsock_uds = read_vsock_uds opts id c;
          vsock_port = meta'.agent_vsock_port;
        })
  unfolding attach
  attach-found opts id w meta' c bound answers written configured =
      rw (attach, bound, written, answers, configured) refl

-- The path of an endpoint is read back, unless it is the empty one.
read_vsock_uds-endpoint :
    (opts : Options) (input : CreateInput)
    → input.vsock_uds_path ≢ some []
    → read_vsock_uds opts input.id (found input.vsock_uds_path) ≡ (vsock_endpoint opts input).0
unfolding read_vsock_uds vsock_endpoint resolve_vsock_uds
read_vsock_uds-endpoint opts input h = elim (Option-cases input.vsock_uds_path) [
  | inl absent ↦ rw (absent, vsock_endpoint) refl
  | inr ([], empty) ↦ absurd (h empty)
  | inr (c ∷ path, given) ↦ rw (given, vsock_endpoint) refl
]

module _ (m : Machine) (opts : Options) where
  open m use {World, config, meta, socket, run}

  -- A microVM that CreateMicroVM has booted, with no vsock device or one with a path, is found again by
  -- a later daemon as the same handle, while its socket is there and its Firecracker answers.
  pub attach-boot :
      (input : CreateInput) (w : World) (vm : Vm)
      → input.vsock_uds_path ≢ some []
      → (boot m opts input w).1 ≡ created vm
      → socket (boot m opts input w).0 input.id ≡ found tt
      → (run input.id describe (boot m opts input w).0).1 ≡ true
      → (attach m opts input.id (boot m opts input w).0).1 ≡ attached vm
  unfolding boot
  attach-boot input w vm path booted bound answers =
      let endpoint = vsock_endpoint opts input in
      let (pid, handle, written, prepared, same) =
        launch-parts m opts input.id input.network true (prepare_boot m input)
          (boot_ready m opts input) endpoint.0 endpoint.1 w vm
          (Frames.boot_ready-Steady m (Same m) (Same_refl m) (Same_trans m) (plain-Same m) opts
            input)
          booted in
      attach-found m opts input.id (boot m opts input w).0 _ (found input.vsock_uds_path) bound
        answers written (same input.id ∙ prepare_boot-config m input w prepared)
      ∙ ap
          (λ uds. attached (record {
            id = input.id;
            pid = pid;
            network_index = input.network.index;
            vsock_uds = uds;
            vsock_port = endpoint.1;
          }))
          (read_vsock_uds-endpoint opts input path)
      ∙ ap attached (sym handle)

  -- A microVM that LoadSnapshot has booted is found again by a later daemon, while its socket is there
  -- and its Firecracker answers, but without the path of its vsock device, whatever the path was.
  pub attach-load :
      (input : LoadInput) (ref : LocalReference) (w : World) (vm : Vm)
      → (load m opts input ref w).1 ≡ created vm
      → socket (load m opts input ref w).0 input.id ≡ found tt
      → (run input.id describe (load m opts input ref w).0).1 ≡ true
      → (attach m opts input.id (load m opts input ref w).0).1
        ≡ attached (record vm { vsock_uds = [] })
  unfolding load read_vsock_uds
  attach-load input ref w vm booted bound answers =
      let uds = resolve_vsock_uds opts input.id input.vsock_uds_path in
      let (pid, handle, written, prepared, same) =
        launch-parts m opts input.id input.network false (prepare_load m input ref)
          (load_ready m opts input ref) uds input.agent_vsock_port w vm
          (Frames.load_ready-Steady m (Same m) (Same_refl m) (Same_trans m) (plain-Same m) opts
            input ref)
          booted in
      attach-found m opts input.id (load m opts input ref w).0 _ missing bound answers written
        (same input.id ∙ prepare_load-config m input ref w prepared)
      ∙ ap (λ (v : Vm). attached (record v { vsock_uds = [] })) (sym handle)
