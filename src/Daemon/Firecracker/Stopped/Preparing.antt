-- ===== src/Daemon/Firecracker/Stopped/Preparing.antt =====
-- The steps of daemon/pkg/firecracker/impl.go in front of the jailer start no process.
use yaghan.Base.{◌≡◌, refl, true, false, Bool-cases, inl, inr}
use yaghan.Base.Text.{Text}
use yaghan.Daemon.Egress.{LocalReference}
use yaghan.Daemon.Firecracker.System.{
  Machine, Op, starts, remove_vm_dir, make_jail_root, write_config, spawn_jailer,
}
use yaghan.Daemon.Firecracker.Input.{
  CreateError, CreateInput, LoadInput, clean_vm_dir, create_jail_root, vm_config, Options,
}
use yaghan.Daemon.Firecracker.Staging.{
  Action, ◌>>◌, attempt, prepare_chroot, prepare_boot, prepare_load,
}
use yaghan.Daemon.Firecracker.Launch.{attach}
use yaghan.Daemon.Firecracker.Frames
use yaghan.Daemon.Firecracker.Frames.{is_plain, Steady, attach-R}

plain_starts : (op : Op) → is_plain op ≡ true → starts op ≡ false
plain_starts (spawn_jailer netns configured) h = cc
plain_starts op h = refl

module _ (m : Machine) where
  open m use {World, up, run, run_up}

  -- Where no Firecracker ran for an id, none runs afterwards.
  abbrev pub Quiet : World → World → Type 0
  Quiet w w' = (j : Text) → up w j ≡ false → up w' j ≡ false

  pub Quiet-refl : (w : World) → Quiet w w
  Quiet-refl w j down = down

  pub Quiet-trans : (u v w : World) → Quiet u v → Quiet v w → Quiet u w
  Quiet-trans u v w a b j down = b j (a j down)

  pub run-Quiet : (id : Text) (op : Op) (w : World) → starts op ≡ false → Quiet w (run id op w).0
  run-Quiet id op w q j down = elim (Bool-cases (up (run id op w).0 j)) [
    | inl on ↦ cc (run_up id op w j q on)
    | inr off ↦ off
  ]

  pub plain-Quiet : (id : Text) (op : Op) (w : World) → is_plain op ≡ true → Quiet w (run id op w).0
  plain-Quiet id op w plain = run-Quiet id op w (plain_starts op plain)

  abbrev pub QuietStep : Action World → Type 0
  QuietStep = Steady m Quiet Quiet-refl Quiet-trans plain-Quiet

  quiet_then : {s t : Action World} → QuietStep s → QuietStep t → QuietStep (s >> t)
  quiet_then p q = Frames.>>-Steady m Quiet Quiet-refl Quiet-trans plain-Quiet p q

  call-Quiet :
      (id : Text) (op : Op) (e : CreateError) → starts op ≡ false → QuietStep (attempt m id op e)
  unfolding attempt
  call-Quiet id op e q = record { stays = λ w. run-Quiet id op w q }

  prepare_chroot-Quiet : (id : Text) → QuietStep (prepare_chroot m id)
  unfolding prepare_chroot
  prepare_chroot-Quiet id =
      quiet_then (call-Quiet id remove_vm_dir clean_vm_dir refl)
        (call-Quiet id make_jail_root create_jail_root refl)

  pub prepare_boot-Quiet : (input : CreateInput) → QuietStep (prepare_boot m input)
  unfolding prepare_boot
  prepare_boot-Quiet input = quiet_then (prepare_chroot-Quiet input.id) (
      quiet_then (call-Quiet input.id (write_config input.vsock_uds_path) vm_config refl)
        (Frames.boot_files-Steady m Quiet Quiet-refl Quiet-trans plain-Quiet input))

  pub prepare_load-Quiet :
      (input : LoadInput) (ref : LocalReference) → QuietStep (prepare_load m input ref)
  unfolding prepare_load
  prepare_load-Quiet input ref =
      quiet_then (prepare_chroot-Quiet input.id)
        (Frames.load_files-Steady m Quiet Quiet-refl Quiet-trans plain-Quiet input ref)

  pub attach-Quiet : (opts : Options) (id : Text) (w : World) → Quiet w (attach m opts id w).0
  attach-Quiet opts id w = attach-R m Quiet Quiet-refl Quiet-trans plain-Quiet opts id w
