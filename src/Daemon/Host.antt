-- ===== src/Daemon/Host.antt =====
-- What the daemon's reconciler calls (daemon/pkg/network/driver.go, daemon/pkg/firecracker/types.go,
-- daemon/pkg/snapshot/types.go): the network driver, Firecracker, the snapshot store and the api-server,
-- as an interface, and the errors of its steps.
use yaghan.Base.{ℕ, ◌≡◌, ◌≢◌, Bool, true, false, Option, none, some}
use yaghan.Base.Text.{Text, text_eq}
use yaghan.Net.Allocator.{NamespaceHandle, build_handle}
use yaghan.Proto.{Snapshot}
use yaghan.Daemon.Egress.{FirewallPolicy, CreateMicroVmInput, LocalReference, LoadSnapshotInput}

pub data ReconcileError : Type 0 where
  unsupported_intent_phase unsupported_status_phase no_snapshot_store no_dns_responder :
      ReconcileError
  provision_network create_microvm restore_microvm load_snapshot pause_microvm : ReconcileError
  resume_microvm delete_microvm deprovision_network microvm_not_found : ReconcileError
  create_snapshot persist_snapshot register_snapshot : ReconcileError

-- The calls that only succeed or fail.
pub data HostCall : Type 0 where
  launch : CreateMicroVmInput → HostCall
  restore : LoadSnapshotInput → HostCall
  destroy pause_vm resume_vm : Text → HostCall
  put_snapshot : LocalReference → HostCall
  register : Snapshot → HostCall

-- The calls that yield the files of a snapshot.
pub data FileCall : Type 0 where
  download save_vm : Text → FileCall

-- What the daemon calls: the network driver, Firecracker, the snapshot store and the api-server.
-- `attached` is what CreateMicroVM and LoadSnapshot find of a VM of this id that runs already: the network
-- index in its meta.json. A network is neither given to nor taken from it by the driver or by a download.
pub record Host : Type 1 where
  pub World : Type 0
  pub live : World → ℕ → Bool
  pub attached : World → Text → Option ℕ
  pub provision : ℕ → Option FirewallPolicy → World → World × Option NamespaceHandle
  pub deprovision : ℕ → World → World × Bool
  pub run : HostCall → World → World × Bool
  pub files : FileCall → World → World × Option LocalReference
  pub provision_some :
      (i : ℕ) (p : Option FirewallPolicy) (w : World) (h : NamespaceHandle)
      → (provision i p w).1 ≡ some h
      → (h ≡ build_handle i)
        × (live (provision i p w).0 i ≡ true)
        × ((j : ℕ) → j ≢ i → live (provision i p w).0 j ≡ live w j)
  pub provision_none :
      (i : ℕ) (p : Option FirewallPolicy) (w : World)
      → (provision i p w).1 ≡ none
      → (j : ℕ) → j ≢ i
      → live (provision i p w).0 j ≡ live w j
  pub provision_attached :
      (i : ℕ) (p : Option FirewallPolicy) (w : World) (id : Text)
      → attached (provision i p w).0 id ≡ attached w id
  pub files_attached :
      (c : FileCall) (w : World) (id : Text) → attached (files c w).0 id ≡ attached w id
  pub deprovision_gone :
      (i : ℕ) (w : World) → (deprovision i w).1 ≡ true → live (deprovision i w).0 i ≡ false
  pub deprovision_others :
      (i : ℕ) (w : World) (j : ℕ) → j ≢ i → live (deprovision i w).0 j ≡ live w j
  pub run_live : (c : HostCall) (w : World) (j : ℕ) → live (run c w).0 j ≡ live w j
  pub files_live : (c : FileCall) (w : World) (j : ℕ) → live (files c w).0 j ≡ live w j
