-- ===== src/Daemon/Firecracker/System.antt =====
-- What daemon/pkg/firecracker/impl.go and disk.go call: files, processes, the jailer and the API of a
-- Firecracker, as an interface with the documented behaviour of the calls.
use yaghan.Base.{ℕ, ◌≡◌, Bool, true, false, Option, some, List}
use yaghan.Base.Text.{Text}
use yaghan.Base.Integer.{Integer}

-- What a read of a file finds.
pub data Found (A : Type 0) : Type 0 where
  missing unreadable : Found A
  found : A → Found A

-- The fields of meta.json.
pub record VmMeta : Type 0 where
  pub pid : Integer
  pub agent_vsock_port : ℕ
  pub network_index : ℕ

-- Calls on one file of a chroot.
pub data FileOp : Type 0 where
  make_parent remove_destination dig_holes resize2fs : FileOp
  copy_file link_file : Text → FileOp
  file_mode truncate_file : ℕ → FileOp

-- The calls that succeed or fail, each for the VM of an id.
pub data Op : Type 0 where
  remove_vm_dir make_jail_root chmod_config make_snapshot_dir : Op
  write_config : Option Text → Op
  on_file : Text → FileOp → Op
  spawn_jailer : Text → Bool → Op
  reap_jailer await_running await_api describe close_vsock : Op
  await_agent : Text → ℕ → Op
  load_rpc : Text → Op
  write_meta : VmMeta → Op
  kill_pid terminate_pid await_exit : Integer → Op

-- Whether a call may change vm_config.json, meta.json or start a process.
abbrev pub changes_config : Op → Bool
changes_config remove_vm_dir = true
changes_config (write_config uds) = true
changes_config op = false

abbrev pub changes_meta : Op → Bool
changes_meta remove_vm_dir = true
changes_meta (write_meta m) = true
changes_meta op = false

abbrev pub starts : Op → Bool
starts (spawn_jailer netns configured) = true
starts op = false

-- `up` says that a Firecracker runs for an id, `pid_file` is what the jailer's pid file parses to,
-- `config` the path of the vsock device in vm_config.json.
pub record Machine : Type 1 where
  pub World : Type 0
  pub up : World → Text → Bool
  pub pid_file : World → Text → Option Integer
  pub meta : World → Text → Found VmMeta
  pub config : World → Text → Found (Option Text)
  pub socket : World → Text → Found (Unit {0})
  pub file_size : World → Text → Text → Option ℕ
  pub same_file : World → Text → Text → Text → Bool
  pub other_device : World → Text → Text → Bool
  pub entries : World → Found (List (Text × Bool))
  pub run : Text → Op → World → World × Bool
  pub run_config :
      (id : Text) (op : Op) (w : World) (j : Text)
      → changes_config op ≡ false
      → config (run id op w).0 j ≡ config w j
  pub run_meta :
      (id : Text) (op : Op) (w : World) (j : Text)
      → changes_meta op ≡ false
      → meta (run id op w).0 j ≡ meta w j
  pub run_up :
      (id : Text) (op : Op) (w : World) (j : Text)
      → starts op ≡ false
      → up (run id op w).0 j ≡ true
      → up w j ≡ true
  pub not_spawned :
      (id netns : Text) (configured : Bool) (w : World) (j : Text)
      → (run id (spawn_jailer netns configured) w).1 ≡ false
      → up (run id (spawn_jailer netns configured) w).0 j ≡ true
      → up w j ≡ true
  pub wrote_config :
      (id : Text) (uds : Option Text) (w : World)
      → (run id (write_config uds) w).1 ≡ true
      → config (run id (write_config uds) w).0 id ≡ found uds
  pub wrote_meta :
      (id : Text) (m : VmMeta) (w : World)
      → (run id (write_meta m) w).1 ≡ true
      → meta (run id (write_meta m) w).0 id ≡ found m
  pub removed :
      (id : Text) (w : World)
      → (run id remove_vm_dir w).1 ≡ true
      → config (run id remove_vm_dir w).0 id ≡ missing
  pub killed :
      (id : Text) (pid : Integer) (w : World)
      → pid_file w id ≡ some pid
      → up (run id (kill_pid pid) w).0 id ≡ false
