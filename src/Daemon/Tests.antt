-- ===== src/Daemon/Tests.antt =====
-- The reconciler on a host whose networks are held in memory.
use mathlib.Core.Option.{some-injective}
use yaghan.Base.{
  sym, Bool-cases, ℕ, ◌≡◌, ◌≢◌, inl, inr, refl, Bool, true, false, [], ◌∷◌, Option, none, some,
  if◌then◌else◌, nat_beq, arith,
}
use yaghan.Base.Text.{text_eq, Text, codes, text_beq}
use yaghan.Base.Dict.{lookup, insert}
use yaghan.Net.Addr.{v4}
use yaghan.Net.Allocator.{
  namespace_name, NamespaceHandle, build_handle, validate_index, veth_subnet_for,
}
use yaghan.Proto.{
  phase_pending, phase_running, phase_deleting, phase_deleted, Sandbox, EgressRules, allow,
}
use yaghan.Dns.Matcher.{exact_matcher}
use yaghan.Dns.PolicyStore.{mode_allow, PolicyStore, new_policy_store, find}
use yaghan.Dns.Handler.{Msg, Handler}
use yaghan.Daemon.Egress.{Library, Config, check_dns_prereq}
use yaghan.Daemon.Host.{Host, deprovision_network}
use yaghan.Daemon.Reconciler.{
  Daemon, done, next_net_ns_index, boot, boot_fresh, boot_network, boot_on, delete_vm,
  delete_network, reconcile, reconcile_phase, dispatch, finish, clear_intent, is_unspecified,
  is_terminal_target,
}
use yaghan.Daemon.Reconciler.Outcome.{Ended, boot-cases}
use yaghan.Daemon.Reconciler.Ends.{delete_vm-gone, delete_vm-abandons, Reached, reconcile-Reached}

-- The networks that exist, by index.
abbrev Networks : Type 0
Networks = ℕ → Bool

abbrev set : ℕ → Bool → Networks → Networks
set i b w = λ j. if nat_beq i j then b else w j

abbrev provide : ℕ → Networks → Networks × Option NamespaceHandle
provide i w = if validate_index i then (set i true w, some (build_handle i)) else (w, none)

-- The flag says whether a network can be removed.
abbrev withdraw : Bool → ℕ → Networks → Networks × Bool
withdraw true i w = (set i false w, true)
withdraw false i w = (w, false)

provide-some :
    (i : ℕ) (w : Networks) (h : NamespaceHandle)
    → (provide i w).1 ≡ some h
    → (h ≡ build_handle i)
      × ((provide i w).0 i ≡ true)
      × ((j : ℕ) → j ≢ i → (provide i w).0 j ≡ w j)
provide-some i w h e = elim (Bool-cases (validate_index i)) [
  | inl v ↦
      let known : some (build_handle i) ≡ some h = rw v at e in
      rw v (sym (some-injective (build_handle i) h known), ground arith, (λ j ne. ground arith))
  | inr v ↦ let bad : none ≡ some h = rw v at e in cc
]

provide-none : (i : ℕ) (w : Networks) → (provide i w).1 ≡ none → (j : ℕ) → (provide i w).0 j ≡ w j
provide-none i w e j = ground arith

withdraw-gone :
    (b : Bool) (i : ℕ) (w : Networks) → (withdraw b i w).1 ≡ true → (withdraw b i w).0 i ≡ false
withdraw-gone true i w e = ground arith
withdraw-gone false i w e = cc

withdraw-others : (b : Bool) (i : ℕ) (w : Networks) (j : ℕ) → j ≢ i → (withdraw b i w).0 j ≡ w j
withdraw-others true i w j ne = ground arith
withdraw-others false i w j ne = refl

-- `running` are the VMs that run without being in the index, with their network indexes.
abbrev host_with : Bool → (Text → Option ℕ) → Host
host_with b running = record {
  World = Networks;
  live = λ w j. w j;
  attached = λ w id. running id;
  provision = λ i p w. provide i w;
  deprovision = withdraw b;
  run = λ c w. (w, true);
  files = λ c w. (w, none);
  provision_some = λ i p w h e. provide-some i w h e;
  provision_none = λ i p w e j ne. provide-none i w e j;
  provision_attached = λ i p w id. refl;
  files_attached = λ c w id. refl;
  deprovision_gone = withdraw-gone b;
  deprovision_others = withdraw-others b;
  run_live = λ c w j. refl;
  files_live = λ c w j. refl;
}

abbrev host : Bool → Host
host b = host_with b (λ id. none)

abbrev library : Library
library = record {
  show_addr = λ a. [];
  parse_addr = λ t. none;
  parse_prefix = λ t. none;
  join_path = λ a b. b;
}

abbrev config : Config
config = record {
  template = record {
    kernel_file = [];
    rootfs_file = [];
    kernel_jail_path = [];
    rootfs_jail_path = [];
    agent_init_path = [];
    agent_vsock_port = 1024;
    default_rootfs_disk_mib = 4096;
  };
  assets_dir = [];
  dns_listen_ip = codes "10.9.9.9";
  guest_dns = [];
  has_snapshot_store = false;
  has_snapshot_client = false;
}

abbrev rules : EgressRules
rules = allow (record { ip_addresses = []; cidr_blocks = []; domain_names = codes "ab" ∷ [] })

-- A sandbox that is to be booted.
abbrev fresh : Sandbox
fresh = record {
  metadata = record {
    id = codes "s1";
    namespace = codes "n";
    source = none;
    version = 1;
    created_at = none;
    last_modified_at = none;
    labels = [];
  };
  egress_policy = some (record { rules = some rules });
  resources = none;
  node = none;
  intent = some (record { phase = phase_running; start_snapshot = none });
  last_snapshot = none;
  status = some (record { phase = phase_pending; message = [] });
}

-- A daemon with one VM on network 4, and the same before any VM.
abbrev busy : Daemon (host true) library config
busy = record {
  vms = (codes "s0", 4) ∷ [];
  policies = some new_policy_store;
  world = λ j. nat_beq j 4;
}

-- A host on which the VM of the sandbox runs already, on network 7.
abbrev host_running : Host
host_running = host_with true (λ id. some 7)

abbrev crowded : Daemon host_running library config
crowded = record {
  vms = (codes "s0", 4) ∷ [];
  policies = some new_policy_store;
  world = λ j. if nat_beq j 4 then true else nat_beq j 7;
}

-- The VM enters the index on its own network, and network 5 exists without a VM.
reattaches :
    let r = (boot host_running library config fresh crowded).0 in
    (lookup (codes "s1") r.vms ≡ some 7) × (r.world 5 ≡ true)
unfolding lookup text_beq boot boot_fresh boot_network boot_on next_net_ns_index check_dns_prereq
    validate_index insert
reattaches = (refl, refl)

boot-cases_example :
    Ended (host true) library config fresh busy (boot (host true) library config fresh busy)
unfolding lookup text_beq
boot-cases_example = boot-cases (host true) library config fresh busy refl

-- The responder after the boot, and a query from the new VM for a name that is not allowed.
abbrev registered : PolicyStore
registered = record {
  by_src =
      (
        v4 0x0a000016,
        record {
          index = 5;
          namespace_name = codes "vm-ns5";
          mode = mode_allow;
          matchers = exact_matcher (codes "ab") ∷ [];
        },
      )
      ∷ [];
}

abbrev responder : Handler
responder = record { store = registered; min_ttl = 1; max_ttl = 1; forward_timeout = 1 }

abbrev query : Msg
query = record { id = 9; question = codes "xy" ∷ []; answer = [] }

-- The same daemon on a host that cannot remove networks.
abbrev busy_stuck : Daemon (host false) library config
busy_stuck = record {
  vms = (codes "s0", 4) ∷ [];
  policies = some new_policy_store;
  world = λ j. nat_beq j 4;
}

-- The sandbox of the VM on network 4, to be deleted.
abbrev doomed : Sandbox
doomed =
    let m = fresh.metadata in
    record fresh {
      metadata = record m { id = codes "s0" };
      intent = some (record { phase = phase_deleted; start_snapshot = none });
      status = some (record { phase = phase_deleting; message = [] });
    }

delete_vm-gone_example :
    let r = (delete_vm (host true) library config doomed busy).0 in
    (lookup (codes "s0") r.vms ≡ none)
    × (r.world 4 ≡ false)
    × ((later : PolicyStore)
        → validate_index 4 ≡ true
        → r.policies ≡ some later
        → find (veth_subnet_for 4).namespace later ≡ none)
unfolding lookup text_beq delete_vm delete_network
delete_vm-gone_example = delete_vm-gone (host true) library config doomed doomed busy 4 refl refl

delete_vm-abandons_example :
    let left = (delete_vm (host false) library config doomed busy_stuck).0 in
    delete_vm (host false) library config doomed left ≡ (left, done doomed)
unfolding lookup text_beq delete_vm delete_network
delete_vm-abandons_example =
    delete_vm-abandons (host false) library config doomed busy_stuck 4 deprovision_network refl refl

reconcile-Reached_example :
    let s = record fresh {
      intent = none;
      status = some (record { phase = phase_running; message = codes "Sandbox is running" });
    } in
    (s.intent ≡ none) × Reached (host true) library config fresh s
unfolding lookup text_beq boot boot_fresh boot_network boot_on next_net_ns_index reconcile
    reconcile_phase dispatch finish clear_intent is_unspecified is_terminal_target check_dns_prereq
    validate_index
reconcile-Reached_example =
    reconcile-Reached (host true) library config 50 fresh
      (record fresh {
        intent = none;
        status = some (record { phase = phase_running; message = codes "Sandbox is running" });
      })
      busy refl
