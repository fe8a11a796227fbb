-- ===== src/Daemon/Firecracker/Input.antt =====
-- daemon/pkg/firecracker/types.go and impl.go: the inputs and the handle of a microVM, the errors of a
-- boot, and the ids and paths.
use yaghan.Base.{
  ℕ, Bool, true, ◌&&◌, ◌||◌, List, [], ◌∷◌, Option, none, some, if◌then◌else◌, leb, nat_beq, length,
}
use yaghan.Base.Text.{Text, codes, text_eq}
use yaghan.Base.Integer.{Integer}
use yaghan.Net.Allocator.{NamespaceHandle}
use yaghan.Daemon.Egress.{Asset, LocalReference}
use yaghan.Daemon.Firecracker.System.{Found, missing, unreadable, found}

pub data CreateError : Type 0 where
  invalid_id reference_required uds_path_required clean_vm_dir create_jail_root : CreateError
  vm_config chmod_vm_config stage_asset_error stage_snapshot resize_rootfs_error : CreateError
  spawn_jailer_error jailer_bootstrap not_running api_not_ready load_rpc_error : CreateError
  agent_not_ready read_pid_file write_meta_error : CreateError

pub data Attached (A : Type 0) : Type 0 where
  attached : A → Attached A
  vm_not_found corrupt : Attached A

-- A result, or the error of a call.
pub data Created (A : Type 0) : Type 0 where
  created : A → Created A
  failed : CreateError → Created A

pub record Vm : Type 0 where
  pub id : Text
  pub pid : Integer
  pub network_index : ℕ
  pub vsock_uds : Text
  pub vsock_port : ℕ

pub record Drive : Type 0 where
  pub is_root_device : Bool
  pub path_on_host : Text

-- firecracker.CreateMicroVMInput, of whose Config the root drive and the vsock device matter here.
pub record CreateInput : Type 0 where
  pub id : Text
  pub network : NamespaceHandle
  pub vsock_uds_path : Option Text
  pub drives : List Drive
  pub assets : List Asset
  pub agent_vsock_port : ℕ
  pub rootfs_disk_mib : ℕ

pub record LoadInput : Type 0 where
  pub id : Text
  pub network : NamespaceHandle
  pub assets : List Asset
  pub agent_vsock_port : ℕ
  pub local_reference : Option LocalReference
  pub vsock_uds_path : Text

-- vmIDPattern: ^[a-zA-Z0-9_-]{1,64}$
unfoldable pub is_id_byte : ℕ → Bool
is_id_byte c =
    (leb b'a' c && leb c b'z')
    || ((leb b'A' c && leb c b'Z')
        || ((leb b'0' c && leb c b'9') || (nat_beq c b'_' || nat_beq c b'-')))

unfoldable pub all_id_bytes : Text → Bool
unfolding is_id_byte
all_id_bytes [] = true
all_id_bytes (c ∷ s) = is_id_byte c && all_id_bytes s

unfoldable pub is_vm_id : Text → Bool
unfolding all_id_bytes
is_vm_id id = leb 1 (length id) && (leb (length id) 64 && all_id_bytes id)

-- strings.TrimPrefix(path, "/")
unfoldable pub trim_slash : Text → Text
trim_slash [] = []
trim_slash (c ∷ s) = if nat_beq c b'/' then s else c ∷ s

-- The options of the provider and filepath.Join; `exec_name` is the base name of the binary.
pub record Options : Type 0 where
  pub exec_name : Text
  pub chroot_base_dir : Text
  pub attach_console : Bool
  pub join_path : Text → Text → Text

abbrev pub vm_dir : Options → Text → Text
vm_dir opts id = opts.join_path (opts.join_path opts.chroot_base_dir opts.exec_name) id

abbrev pub jail_root : Options → Text → Text
jail_root opts id = opts.join_path (vm_dir opts id) (codes "root")

unfoldable pub resolve_vsock_uds : Options → Text → Text → Text
unfolding trim_slash
resolve_vsock_uds opts id [] = []
resolve_vsock_uds opts id (c ∷ path) = opts.join_path (jail_root opts id) (trim_slash (c ∷ path))

unfoldable pub vsock_endpoint : Options → CreateInput → Text × ℕ
unfolding resolve_vsock_uds
vsock_endpoint opts input = elim input.vsock_uds_path [
  | none ↦ ([], 0)
  | some path ↦ (resolve_vsock_uds opts input.id path, input.agent_vsock_port)
]

-- readVsockUDSPath, and what attach makes of its errors.
unfoldable pub read_vsock_uds : Options → Text → Found (Option Text) → Text
read_vsock_uds opts id (found (some path)) = opts.join_path (jail_root opts id) (trim_slash path)
read_vsock_uds opts id (found none) = []
read_vsock_uds opts id missing = []
read_vsock_uds opts id unreadable = []
