-- ===== src/Daemon/Firecracker/Frames.antt =====
-- The steps of a boot in daemon/pkg/firecracker/impl.go that touch neither the sidecar files nor a process,
-- and any relation on worlds that their calls respect.
use yaghan.Base.{
  ℕ, ◌≡◌, refl, ◌⊎◌, inl, inr, Bool, true, false, List, [], ◌∷◌, if◌then◌else◌, Bool-cases,
  Option-cases, ltb, nat_beq, ◌*◌,
}
use yaghan.Base.Text.{Text}
use yaghan.Daemon.Egress.{Asset, LocalReference}
use yaghan.Daemon.Firecracker.System.{
  Machine, Op, write_meta, spawn_jailer, remove_vm_dir, on_file, copy_file, link_file, write_config,
  chmod_config, make_snapshot_dir, make_parent, dig_holes, file_mode, remove_destination,
  truncate_file, resize2fs, FileOp, await_agent, await_running, await_api, load_rpc, Found, missing,
  unreadable, found, describe,
}
use yaghan.Daemon.Firecracker.Input.{
  CreateError, CreateInput, LoadInput, trim_slash, resize_rootfs_error, stage_asset_error,
  stage_snapshot, chmod_vm_config, Options, agent_not_ready, not_running, api_not_ready,
  load_rpc_error, vsock_endpoint, resolve_vsock_uds,
}
use yaghan.Daemon.Firecracker.Staging.{
  Action, ◌>>◌, attempt, ignore, nothing_to_do, copy_asset, link_asset, stage_asset, stage_assets,
  resize_rootfs, resize_rootfs_for_input, root_drive, stage_snapshot_file, stage_snapshot_files,
  mem_file, state_file,
}
use yaghan.Daemon.Firecracker.Launch.{attach, agent_ready, boot_ready, load_ready}

pub Found-cases :
    {A : Type 0} (f : Found A) → ((a : A) × (f ≡ found a)) ⊎ ((f ≡ missing) ⊎ (f ≡ unreadable))
Found-cases (found a) = inl (a, refl)
Found-cases missing = inr (inl refl)
Found-cases unreadable = inr (inr refl)

-- The calls of a boot that have such an effect, and the others.
abbrev pub is_plain : Op → Bool
is_plain remove_vm_dir = false
is_plain (write_config uds) = false
is_plain (write_meta meta) = false
is_plain (spawn_jailer netns configured) = false
is_plain op = true

module _ (m : Machine) (R : Machine.World m → Machine.World m → Type 0)
    (R_refl : (w : Machine.World m) → R w w)
    (R_trans : (u v w : Machine.World m) → R u v → R v w → R u w)
    (run_R : (id : Text) (op : Op) (w : Machine.World m)
      → is_plain op ≡ true
      → R w (Machine.run m id op w).0) where
  open m use {World, run, other_device, file_size, same_file, socket, meta}

  pub record Steady (s : Action World) : Type 0 where
    pub stays : (w : World) → R w (s w).0

  pub attempt-Steady :
      (id : Text) (op : Op) (e : CreateError) → is_plain op ≡ true → Steady (attempt m id op e)
  unfolding attempt
  attempt-Steady id op e q = record { stays = λ w. run_R id op w q }

  pub >>-Steady : {s t : Action World} → Steady s → Steady t → Steady (s >> t)
  unfolding ◌>>◌
  >>-Steady {s} {t} p q = record {
    stays = λ w. elim (Option-cases (s w).1) [
      | inl fine ↦ rw (◌>>◌, fine) (R_trans w (s w).0 (t (s w).0).0 (p.stays w) (q.stays (s w).0))
      | inr (e, bad) ↦ rw (◌>>◌, bad) (p.stays w)
    ];
  }

  file-Steady :
      (id path : Text) (e : CreateError) (op : FileOp) → Steady (attempt m id (on_file path op) e)
  file-Steady id path e op = attempt-Steady id (on_file path op) e refl

  nothing-Steady : Steady (nothing_to_do m)
  unfolding nothing_to_do
  nothing-Steady = record { stays = λ w. R_refl w }

  if-Steady : (b : Bool) {s t : Action World} → Steady s → Steady t → Steady (if b then s else t)
  if-Steady true p q = p
  if-Steady false p q = q

  link_asset-Steady :
      (id path : Text) (asset : Asset) (e : CreateError) → Steady (link_asset m id path asset e)
  unfolding link_asset
  link_asset-Steady id path asset e = record {
    stays = λ w.
        let link = on_file path (link_file asset.source_path) in
        let linked = run id link w in
        let off = run_R id link w refl in
        elim (Bool-cases linked.1) [
          | inl done ↦ rw done off
          | inr failed ↦ elim (Bool-cases (other_device linked.0 id asset.source_path)) [
            | inl far ↦
                rw (failed, far)
                  (R_trans w linked.0
                    (attempt m id (on_file path (copy_file asset.source_path)) e linked.0).0 off
                    ((file-Steady id path e (copy_file asset.source_path)).stays linked.0))
            | inr near ↦ rw (failed, near) off
          ]
        ];
  }

  ignore-Steady : (id : Text) (op : Op) → is_plain op ≡ true → Steady (ignore m id op)
  unfolding ignore
  ignore-Steady id op q = record { stays = λ w. run_R id op w q }

  stage_asset-Steady :
      (id : Text) (e : CreateError) (asset : Asset) → Steady (stage_asset m id e asset)
  unfolding stage_asset copy_asset
  stage_asset-Steady id e asset =
      let path = trim_slash asset.jail_path in
      >>-Steady (file-Steady id path e make_parent) (
        >>-Steady (ignore-Steady id (on_file path remove_destination) refl) (
          >>-Steady
            (if-Steady asset.writable
              (>>-Steady (file-Steady id path e (copy_file asset.source_path))
                (file-Steady id path e dig_holes))
              (link_asset-Steady id path asset e))
            (file-Steady id path e (file_mode (if asset.writable then 0x1b6 else 0x1a4)))))

  stage_assets-Steady : (id : Text) (assets : List Asset) → Steady (stage_assets m id assets)
  unfolding stage_assets
  stage_assets-Steady id [] = nothing-Steady
  stage_assets-Steady id (asset ∷ assets) =
      >>-Steady (stage_asset-Steady id stage_asset_error asset) (stage_assets-Steady id assets)

  resize_rootfs-Steady : (id path : Text) (size : ℕ) → Steady (resize_rootfs m id path size)
  unfolding resize_rootfs
  resize_rootfs-Steady id path size = record {
    stays = λ w. elim (Option-cases (file_size w id path)) [
      | inl unknown ↦ rw (resize_rootfs, unknown) (R_refl w)
      | inr (old, known) ↦ elim (Bool-cases (ltb (size * 1024 * 1024) old)) [
        | inl shrink ↦ rw (resize_rootfs, known, shrink) (R_refl w)
        | inr fits ↦ elim (Bool-cases (nat_beq old (size * 1024 * 1024))) [
          | inl same ↦ rw (resize_rootfs, known, fits, same) (R_refl w)
          | inr grow ↦
              rw (resize_rootfs, known, fits, grow)
                ((>>-Steady (file-Steady id path resize_rootfs_error (truncate_file size))
                    (file-Steady id path resize_rootfs_error resize2fs)).stays
                  w)
        ]
      ]
    ];
  }

  resize_rootfs_for_input-Steady : (input : CreateInput) → Steady (resize_rootfs_for_input m input)
  unfolding resize_rootfs_for_input
  resize_rootfs_for_input-Steady input = elim (Option-cases (root_drive input.drives)) [
    | inl no_drive ↦ rw (resize_rootfs_for_input, no_drive) nothing-Steady
    | inr (path, drive) ↦
        rw (resize_rootfs_for_input, drive)
          (if-Steady (ltb 0 input.rootfs_disk_mib)
            (resize_rootfs-Steady input.id (trim_slash path) input.rootfs_disk_mib) nothing-Steady)
  ]

  -- What CreateMicroVM does between the configuration and the jailer.
  pub boot_files-Steady :
      (input : CreateInput)
      → Steady (
          attempt m input.id chmod_config chmod_vm_config
          >> stage_assets m input.id input.assets
          >> resize_rootfs_for_input m input)
  boot_files-Steady input =
      >>-Steady (attempt-Steady input.id chmod_config chmod_vm_config refl) (
        >>-Steady (stage_assets-Steady input.id input.assets)
          (resize_rootfs_for_input-Steady input))

  stage_snapshot_file-Steady :
      (id source jail : Text) → Steady (stage_snapshot_file m id source jail)
  unfolding stage_snapshot_file
  stage_snapshot_file-Steady id source jail = record {
    stays = λ w. elim (Bool-cases (same_file w id source (trim_slash jail))) [
      | inl same ↦ rw same (R_refl w)
      | inr other ↦ rw other (
          (stage_asset-Steady id stage_snapshot
              (record { source_path = source; jail_path = jail; writable = false })).stays
            w)
    ];
  }

  pub load_files-Steady :
      (input : LoadInput) (ref : LocalReference)
      → Steady (stage_assets m input.id input.assets >> stage_snapshot_files m input.id ref)
  unfolding stage_snapshot_files
  load_files-Steady input ref = >>-Steady (stage_assets-Steady input.id input.assets) (
      >>-Steady (attempt-Steady input.id make_snapshot_dir stage_snapshot refl) (
        >>-Steady (stage_snapshot_file-Steady input.id ref.mem_file_path (mem_file ref.snapshot_id))
          (stage_snapshot_file-Steady input.id ref.state_file_path (state_file ref.snapshot_id))))

  pub attach-R : (opts : Options) (id : Text) (w : World) → R w (attach m opts id w).0
  unfolding attach
  attach-R opts id w = elim (Found-cases (socket w id)) [
    | inl (s, open_socket) ↦ elim (Found-cases (meta w id)) [
      | inl (found_meta, readable) ↦ rw (attach, open_socket, readable) (run_R id describe w refl)
      | inr (inl none_there) ↦ rw (attach, open_socket, none_there) (R_refl w)
      | inr (inr broken) ↦ rw (attach, open_socket, broken) (R_refl w)
    ]
    | inr (inl none_there) ↦ rw (attach, none_there) (R_refl w)
    | inr (inr broken) ↦ rw (attach, broken) (R_refl w)
  ]

  agent_ready-Steady : (id uds : Text) (port : ℕ) → Steady (agent_ready m id uds port)
  unfolding agent_ready
  agent_ready-Steady id uds port =
      if-Steady (nat_beq port 0) nothing-Steady
        (attempt-Steady id (await_agent uds port) agent_not_ready refl)

  pub boot_ready-Steady : (opts : Options) (input : CreateInput) → Steady (boot_ready m opts input)
  unfolding boot_ready
  boot_ready-Steady opts input =
      >>-Steady (attempt-Steady input.id await_running not_running refl)
        (agent_ready-Steady input.id (vsock_endpoint opts input).0 (vsock_endpoint opts input).1)

  pub load_ready-Steady :
      (opts : Options) (input : LoadInput) (ref : LocalReference)
      → Steady (load_ready m opts input ref)
  unfolding load_ready
  load_ready-Steady opts input ref =
      >>-Steady (attempt-Steady input.id await_api api_not_ready refl) (
        >>-Steady (attempt-Steady input.id (load_rpc ref.snapshot_id) load_rpc_error refl) (
          >>-Steady (attempt-Steady input.id await_running not_running refl) (
            agent_ready-Steady input.id (resolve_vsock_uds opts input.id input.vsock_uds_path)
              input.agent_vsock_port)))
