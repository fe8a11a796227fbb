-- ===== src/Daemon/Firecracker/Staging.antt =====
-- daemon/pkg/firecracker/impl.go and disk.go: the chroot of a microVM, up to the jailer.
use yaghan.Base.{
  ℕ, ◌*◌, false, ◌&&◌, List, [], ◌∷◌, ◌++◌, Option, none, some, if◌then◌else◌, ltb, nat_beq, length,
}
use yaghan.Base.Text.{Text, codes, text_eq}
use yaghan.Daemon.Egress.{Asset, LocalReference}
use yaghan.Daemon.Firecracker.System.{
  FileOp, Op, Machine, link_file, copy_file, dig_holes, file_mode, remove_destination, make_parent,
  remove_vm_dir, make_jail_root, write_config, chmod_config, on_file, make_snapshot_dir,
  truncate_file, resize2fs,
}
use yaghan.Daemon.Firecracker.Input.{
  CreateError, clean_vm_dir, create_jail_root, vm_config, chmod_vm_config, stage_asset_error,
  stage_snapshot, resize_rootfs_error, Drive, CreateInput, LoadInput, trim_slash,
}

-- A step of a boot: the world after it, and the error if it fails.
abbrev pub Action : Type 0 → Type 0
Action W = W → W × Option CreateError

-- The second step follows a first that succeeds.
infixr 6 ◌>>◌
unfoldable pub ◌>>◌ : {W : Type 0} → Action W → Action W → Action W
(first >> second) w = let r = first w in elim r.1 [ none ↦ second r.0 | some e ↦ r ]

-- The path of the first root drive that has one.
unfoldable pub root_drive : List Drive → Option Text
root_drive [] = none
root_drive (d ∷ drives) =
    let rest = root_drive drives in
    if d.is_root_device && ltb 0 (length d.path_on_host) then some d.path_on_host else rest

abbrev mib : ℕ → ℕ
mib n = n * 1024 * 1024

-- The chroot's paths of a snapshot's files.
abbrev pub mem_file : Text → Text
mem_file snapshot = codes "/snapshots/" ++ snapshot ++ codes "/mem"

abbrev pub state_file : Text → Text
state_file snapshot = codes "/snapshots/" ++ snapshot ++ codes "/state"

module _ (m : Machine) where
  open m use {
    World, pid_file, meta, config, socket, file_size, same_file, other_device, entries, run,
  }

  abbrev pub Step : Type 0
  Step = Action World

  -- One call, and the error if it fails.
  unfoldable pub attempt : Text → Op → CreateError → Step
  attempt id op e w = let r = run id op w in (r.0, if r.1 then none else some e)

  unfoldable pub nothing_to_do : Step
  nothing_to_do w = (w, none)

  -- A call whose result is not looked at.
  unfoldable pub ignore : Text → Op → Step
  ignore id op w = ((run id op w).0, none)

  abbrev file_step : Text → Text → CreateError → FileOp → Step
  file_step id path e op = attempt id (on_file path op) e

  unfoldable pub copy_asset : Text → Text → Asset → CreateError → Step
  unfolding attempt ◌>>◌
  copy_asset id path asset e =
      file_step id path e (copy_file asset.source_path) >> file_step id path e dig_holes

  -- A link, or a copy where the two files are on different devices.
  unfoldable pub link_asset : Text → Text → Asset → CreateError → Step
  unfolding attempt
  link_asset id path asset e w =
      let linked = run id (on_file path (link_file asset.source_path)) w in
      if linked.1
      then (linked.0, none)
      else if other_device linked.0 id asset.source_path
      then attempt id (on_file path (copy_file asset.source_path)) e linked.0
      else (linked.0, some e)

  unfoldable pub stage_asset : Text → CreateError → Asset → Step
  unfolding attempt ◌>>◌ ignore copy_asset link_asset
  stage_asset id e asset =
      let path = trim_slash asset.jail_path in
      file_step id path e make_parent
      >> ignore id (on_file path remove_destination)
      >> (if asset.writable then copy_asset id path asset e else link_asset id path asset e)
      >> file_step id path e (file_mode (if asset.writable then 0x1b6 else 0x1a4))

  unfoldable pub stage_assets : Text → List Asset → Step
  unfolding stage_asset ◌>>◌ nothing_to_do
  stage_assets id [] = nothing_to_do
  stage_assets id (asset ∷ assets) =
      stage_asset id stage_asset_error asset >> stage_assets id assets

  -- Sizes whose bytes fit in 64 bits.
  unfoldable pub resize_rootfs : Text → Text → ℕ → Step
  unfolding attempt ◌>>◌ nothing_to_do
  resize_rootfs id path size_mib w = elim (file_size w id path) [
    | none ↦ (w, some resize_rootfs_error)
    | some size ↦
        if ltb (mib size_mib) size
        then (w, some resize_rootfs_error)
        else if nat_beq size (mib size_mib)
        then (w, none)
        else (file_step id path resize_rootfs_error (truncate_file size_mib)
              >> file_step id path resize_rootfs_error resize2fs)
            w
  ]

  unfoldable pub resize_rootfs_for_input : CreateInput → Step
  unfolding resize_rootfs nothing_to_do root_drive
  resize_rootfs_for_input input = elim (root_drive input.drives) [
    | none ↦ nothing_to_do
    | some path ↦
        if ltb 0 input.rootfs_disk_mib
        then resize_rootfs input.id (trim_slash path) input.rootfs_disk_mib
        else nothing_to_do
  ]

  unfoldable pub stage_snapshot_file : Text → Text → Text → Step
  unfolding stage_asset nothing_to_do
  stage_snapshot_file id source jail w =
      if same_file w id source (trim_slash jail)
      then (w, none)
      else stage_asset id stage_snapshot
          (record { source_path = source; jail_path = jail; writable = false }) w

  unfoldable pub stage_snapshot_files : Text → LocalReference → Step
  unfolding attempt ◌>>◌ stage_snapshot_file
  stage_snapshot_files id ref =
      attempt id make_snapshot_dir stage_snapshot
      >> stage_snapshot_file id ref.mem_file_path (mem_file ref.snapshot_id)
      >> stage_snapshot_file id ref.state_file_path (state_file ref.snapshot_id)

  unfoldable pub prepare_chroot : Text → Step
  unfolding attempt ◌>>◌
  prepare_chroot id =
      attempt id remove_vm_dir clean_vm_dir >> attempt id make_jail_root create_jail_root

  -- All of CreateMicroVM up to the jailer.
  unfoldable pub prepare_boot : CreateInput → Step
  unfolding attempt ◌>>◌ prepare_chroot stage_assets resize_rootfs_for_input
  prepare_boot input =
      prepare_chroot input.id
      >> attempt input.id (write_config input.vsock_uds_path) vm_config
      >> attempt input.id chmod_config chmod_vm_config
      >> stage_assets input.id input.assets
      >> resize_rootfs_for_input input

  unfoldable pub prepare_load : LoadInput → LocalReference → Step
  unfolding ◌>>◌ prepare_chroot stage_assets stage_snapshot_files
  prepare_load input ref =
      prepare_chroot input.id
      >> stage_assets input.id input.assets
      >> stage_snapshot_files input.id ref
