-- ===== src/Daemon/Firecracker/Tests.antt =====
-- Boots on a machine held in memory, whose Firecrackers come up or do not.
use yaghan.Base.{
  ◌≡◌, refl, Bool, true, false, [], ◌∷◌, ◌++◌, Option, none, some, if◌then◌else◌, ◌==◌, beq_refl,
  Bool-cases, inl, inr,
}
use yaghan.Base.Text.{Text, codes, text_eq, text_beq}
use yaghan.Base.Integer.{nonneg}
use yaghan.Net.Allocator.{build_handle}
use yaghan.Daemon.Egress.{LocalReference}
use yaghan.Daemon.Firecracker.System.{
  Machine, Op, VmMeta, Found, missing, found, remove_vm_dir, write_config, write_meta, spawn_jailer,
  kill_pid, await_running, changes_config, changes_meta, starts, reap_jailer, describe,
}
use yaghan.Daemon.Firecracker.Input.{
  created, failed, not_running, Vm, attached, CreateInput, LoadInput, Options, resolve_vsock_uds,
}
use yaghan.Daemon.Firecracker.Launch.{attach}
use yaghan.Daemon.Firecracker.Provider.{Provider, boot, load, create_microvm, load_snapshot}
use yaghan.Daemon.Firecracker.Failures.{Failed, create_microvm-Failed, load_snapshot-Failed}
use yaghan.Daemon.Firecracker.Recovery.{attach-boot, attach-load}

record Memory : Type 0 where
  running : Text → Bool
  configs : Text → Found (Option Text)
  metas : Text → Found VmMeta

abbrev set : {A : Type 0} → Text → A → (Text → A) → Text → A
set id a f j = if id == j then a else f j

set_same : {A : Type 0} (id : Text) (a : A) (f : Text → A) → set id a f id ≡ a
set_same id a f = rw (beq_refl id)

-- `ready` says whether a Firecracker comes up.
module _ (ready : Bool) where
  abbrev run_memory : Text → Op → Memory → Memory × Bool
  run_memory id remove_vm_dir w =
      (record w { configs = set id missing w.configs; metas = set id missing w.metas }, true)
  run_memory id (write_config uds) w = (record w { configs = set id (found uds) w.configs }, true)
  run_memory id (write_meta meta) w = (record w { metas = set id (found meta) w.metas }, true)
  run_memory id (spawn_jailer netns configured) w =
      (record w { running = set id true w.running }, true)
  run_memory id (kill_pid pid) w = (record w { running = set id false w.running }, true)
  run_memory id await_running w = (w, ready)
  run_memory id op w = (w, true)

  config_kept :
      (id : Text) (op : Op) (w : Memory) (j : Text)
      → changes_config op ≡ false
      → (run_memory id op w).0.configs j ≡ w.configs j
  config_kept id remove_vm_dir w j h = cc
  config_kept id (write_config uds) w j h = cc
  config_kept id op w j h = refl

  meta_kept :
      (id : Text) (op : Op) (w : Memory) (j : Text)
      → changes_meta op ≡ false
      → (run_memory id op w).0.metas j ≡ w.metas j
  meta_kept id remove_vm_dir w j h = cc
  meta_kept id (write_meta meta) w j h = cc
  meta_kept id op w j h = refl

  never_started :
      (id : Text) (op : Op) (w : Memory) (j : Text)
      → starts op ≡ false
      → (run_memory id op w).0.running j ≡ true
      → w.running j ≡ true
  never_started id (spawn_jailer netns configured) w j h on = cc
  never_started id (kill_pid pid) w j h on = elim (Bool-cases (text_beq id j)) [
    | inl same ↦ cc (on, set_true id j w.running same)
    | inr other ↦ cc (on, set_other id j w.running other)
  ]
    where
      set_true : (id j : Text) (f : Text → Bool) → text_beq id j ≡ true → set id false f j ≡ false
      set_true id j f e = rw e refl

      set_other : (id j : Text) (f : Text → Bool) → text_beq id j ≡ false → set id false f j ≡ f j
      set_other id j f e = rw e refl
  never_started id op w j h on = on

  spawned_always :
      (id netns : Text) (configured : Bool) (w : Memory) (j : Text)
      → (run_memory id (spawn_jailer netns configured) w).1 ≡ false
      → w.running j ≡ true
  spawned_always id netns configured w j h = cc

  reaped_always :
      (id : Text) (w : Memory) → (run_memory id reap_jailer w).1 ≡ false → w.running id ≡ false
  reaped_always id w h = cc

  abbrev memory : Machine
  memory = record {
    World = Memory;
    up = λ w id. w.running id;
    pid_file = λ w id. some (nonneg 7);
    meta = λ w id. w.metas id;
    config = λ w id. w.configs id;
    socket = λ w id. found tt;
    file_size = λ w id path. none;
    same_file = λ w id a b. false;
    other_device = λ w id source. false;
    entries = λ w. missing;
    run = run_memory;
    run_config = config_kept;
    run_meta = meta_kept;
    run_up = never_started;
    not_spawned = λ id netns configured w j h on. spawned_always id netns configured w j h;
    wrote_config = λ id uds w h. set_same id (found uds) w.configs;
    wrote_meta = λ id meta w h. set_same id (found meta) w.metas;
    removed = λ id w h. set_same id missing w.configs;
    killed = λ id pid w h. set_same id false w.running;
  }

abbrev options : Options
options = record {
  exec_name = codes "firecracker";
  chroot_base_dir = codes "/srv/jailer";
  attach_console = false;
  join_path = λ a b. a ++ 47 ∷ b;
}

abbrev input : CreateInput
input = record {
  id = codes "sb-1";
  network = build_handle 3;
  vsock_uds_path = some (codes "/v.sock");
  drives = [];
  assets = record { source_path = codes "/k"; jail_path = codes "/kernel"; writable = false } ∷ [];
  agent_vsock_port = 52;
  rootfs_disk_mib = 0;
}

abbrev reference : LocalReference
reference = record {
  snapshot_id = codes "s";
  mem_file_path = codes "/cache/s/mem";
  state_file_path = codes "/cache/s/state";
}

abbrev load_input : LoadInput
load_input = record {
  id = codes "sb-1";
  network = build_handle 3;
  assets = [];
  agent_vsock_port = 52;
  local_reference = some reference;
  vsock_uds_path = codes "/v.sock";
}

abbrev empty : Memory
empty = record { running = λ id. false; configs = λ id. missing; metas = λ id. missing }

abbrev provider : (ready : Bool) → Provider (memory ready) options
provider ready = record { vms = []; world = empty }

abbrev uds : Text
uds = codes "/srv/jailer/firecracker/sb-1/root/v.sock"

abbrev handle : Vm
handle = record {
  id = codes "sb-1";
  pid = nonneg 7;
  network_index = 3;
  vsock_uds = uds;
  vsock_port = 52;
}

booted : (boot (memory true) options input empty).1 ≡ created handle
unfolding boot build_handle
booted = refl

loaded : (load (memory true) options load_input reference empty).1 ≡ created handle
unfolding load build_handle resolve_vsock_uds
loaded = refl

answers : (m : Memory) → (run_memory true (codes "sb-1") describe m).1 ≡ true
answers m = refl

attach-boot_example :
    (attach (memory true) options (codes "sb-1") (boot (memory true) options input empty).0).1
    ≡ attached handle
attach-boot_example =
    attach-boot (memory true) options input empty handle (λ e. cc e) booted refl
      (answers (boot (memory true) options input empty).0)

attach-load_example :
    (attach
      (memory true)
      options
      (codes "sb-1")
      (load (memory true) options load_input reference empty).0).1
    ≡ attached (record handle { vsock_uds = [] })
attach-load_example =
    attach-load (memory true) options load_input reference empty handle loaded refl
      (answers (load (memory true) options load_input reference empty).0)

create_fails : (create_microvm (memory false) options input (provider false)).1 ≡ failed not_running
unfolding create_microvm
create_fails = refl

load_fails :
    (load_snapshot (memory false) options load_input (provider false)).1 ≡ failed not_running
unfolding load_snapshot
load_fails = refl

create_microvm-Failed_example :
    Failed
      (memory false)
      options
      (codes "sb-1")
      (provider false)
      (create_microvm (memory false) options input (provider false))
      not_running
create_microvm-Failed_example =
    create_microvm-Failed (memory false) options input (provider false) not_running refl
      create_fails

load_snapshot-Failed_example :
    Failed
      (memory false)
      options
      (codes "sb-1")
      (provider false)
      (load_snapshot (memory false) options load_input (provider false))
      not_running
load_snapshot-Failed_example =
    load_snapshot-Failed (memory false) options load_input (provider false) not_running refl
      load_fails
