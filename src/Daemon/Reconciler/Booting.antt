-- ===== src/Daemon/Reconciler/Booting.antt =====
-- The boot of a VM in daemon/pkg/reconciler/reconciler.go keeps the VMs of the host apart.
use yaghan.Base.{
  nat_beq, arith, ◌≢◌, ℕ, ◌≡◌, inl, inr, refl, sym, ap, ◌∙◌, true, [], Option, none, some,
  Bool-cases, Option-cases,
}
use yaghan.Base.Text.{Text, text_beq, text_eq}
use yaghan.Base.Dict.{lookup}
use yaghan.Proto.{Sandbox}
use yaghan.Net.Allocator.{NamespaceHandle}
use yaghan.Daemon.Egress.{
  Library, Config, FirewallPolicy, translate_egress_policy, check_dns_prereq, LocalReference,
}
use yaghan.Daemon.Host.{ReconcileError, HostCall, FileCall, Host}
use yaghan.Daemon.Reconciler.{
  next_net_ns_index, Daemon, boot_on, boot_network, boot_fresh, boot_files, boot_from_snapshot,
  boot, source_snapshot,
}
use yaghan.Daemon.Reconciler.Isolation.{
  Isolated, Free, Attachable, Isolated-world, Isolated-insert, Isolated-deprovision, next-Free,
  run_keeps, files_keeps,
}

module _ (host : Host) (lib : Library) (cfg : Config) where
  open host use {
    World, attached, provision_attached, files_attached, live, provision, deprovision, run, files,
    provision_some, provision_none, deprovision_others, run_live, files_live,
  }

  boot_on_started :
      (call : HostCall) (e : ReconcileError) (sb : Sandbox) (nsh : NamespaceHandle) (i : ℕ)
      (d : Daemon host lib cfg)
      → Isolated host lib cfg d
      → Free host lib cfg i d
      → live d.world i ≡ true
      → attached d.world sb.metadata.id ≡ none
      → Isolated host lib cfg (boot_on host lib cfg call e sb nsh i d).0
  unfolding boot_on
  boot_on_started call e sb nsh i d iso free here absent = elim (Bool-cases (run call d.world).1) [
    | inl up ↦
        rw (boot_on, absent, up)
          (Isolated-insert host lib cfg (record d { world = (run call d.world).0 }) sb.metadata.id i
            (Isolated-world host lib cfg d (run call d.world).0
              (run_keeps host lib cfg call d.world) iso)
            free (run_keeps host lib cfg call d.world i here))
    | inr down ↦
        rw (boot_on, absent, down)
          (Isolated-deprovision host lib cfg (record d { world = (run call d.world).0 }) i
            (Isolated-world host lib cfg d (run call d.world).0
              (run_keeps host lib cfg call d.world) iso)
            free)
  ]

  boot_on-Isolated :
      (call : HostCall) (e : ReconcileError) (sb : Sandbox) (nsh : NamespaceHandle) (i : ℕ)
      (d : Daemon host lib cfg)
      → Isolated host lib cfg d
      → Free host lib cfg i d
      → live d.world i ≡ true
      → Attachable host lib cfg sb d
      → Isolated host lib cfg (boot_on host lib cfg call e sb nsh i d).0
  unfolding boot_on
  boot_on-Isolated call e sb nsh i d iso free here own =
      elim (Option-cases (attached d.world sb.metadata.id)) [
        | inr (j, runs) ↦
            rw (boot_on, runs)
              (Isolated-insert host lib cfg d sb.metadata.id j iso (own j runs).0 (own j runs).1)
        | inl absent ↦ boot_on_started call e sb nsh i d iso free here absent
      ]

  boot_network-Isolated :
      (call : NamespaceHandle → HostCall) (e : ReconcileError) (sb : Sandbox)
      (d : Daemon host lib cfg)
      → Isolated host lib cfg d
      → Attachable host lib cfg sb d
      → Isolated host lib cfg (boot_network host lib cfg call e sb d).0
  unfolding boot_network
  boot_network-Isolated call e sb d iso own = elim (Option-cases r.1) [
    | inl f ↦
        rw (f, boot_network)
          (
            iso.0,
            λ a j h.
                provision_none index policy d.world f j (next-Free host lib cfg d a j h)
                ∙ iso.1 a j h,
          )
    | inr (nsh, f) ↦
        let (_, here, others) = provision_some index policy d.world nsh f in
        rw (f, boot_network)
          (boot_on-Isolated (call nsh) e sb nsh index (record d { world = r.0 })
            (iso.0, λ a j h. others j (next-Free host lib cfg d a j h) ∙ iso.1 a j h)
            (next-Free host lib cfg d) here
            (λ j runs.
              let (free, alive) =
                own j (sym (provision_attached index policy d.world sb.metadata.id) ∙ runs) in
              (free, still_live j here others alive)))
  ]
    where
      index : ℕ
      index = next_net_ns_index d.vms

      policy : Option FirewallPolicy
      policy = translate_egress_policy lib sb

      r : World × Option NamespaceHandle
      r = provision index policy d.world

      still_live :
          (j : ℕ)
          → live r.0 index ≡ true
          → ((k : ℕ) → k ≢ index → live r.0 k ≡ live d.world k)
          → live d.world j ≡ true
          → live r.0 j ≡ true
      still_live j here others alive = elim (Bool-cases (nat_beq j index)) [
        | inl same ↦ let e : j ≡ index = ground (arith, same) in ap (live r.0) e ∙ here
        | inr other ↦ others j (λ e. ground (arith, e, other)) ∙ alive
      ]

  boot_fresh-Isolated :
      (sb : Sandbox) (d : Daemon host lib cfg)
      → Isolated host lib cfg d
      → Attachable host lib cfg sb d
      → Isolated host lib cfg (boot_fresh host lib cfg sb d).0
  unfolding boot_fresh
  boot_fresh-Isolated sb d iso own = elim (Option-cases (lookup sb.metadata.id d.vms)) [
    | inr (i, e) ↦ rw (e, boot_fresh) iso
    | inl e ↦ elim (Bool-cases (check_dns_prereq d.policies sb)) [
      | inl ok ↦ rw (e, boot_fresh) (rw ok (boot_network-Isolated _ _ sb d iso own))
      | inr refused ↦ rw (e, boot_fresh) (rw refused iso)
    ]
  ]

  boot_files-Isolated :
      (sb : Sandbox) (d : Daemon host lib cfg) (c : FileCall)
      → Isolated host lib cfg d
      → Attachable host lib cfg sb d
      → Isolated host lib cfg (boot_files host lib cfg sb d (files c d.world)).0
  unfolding boot_files
  boot_files-Isolated sb d c iso own = go (files c d.world) refl
    where
      go :
          (r : World × Option LocalReference)
          → files c d.world ≡ r
          → Isolated host lib cfg (boot_files host lib cfg sb d r).0
      go (w, none) e =
          Isolated-world host lib cfg d w
            (λ i h. ap (λ r. live r.0 i) (sym e) ∙ files_keeps host lib cfg c d.world i h) iso
      go (w, some ref) e =
          boot_network-Isolated _ _ sb (record d { world = w })
            (Isolated-world host lib cfg d w
              (λ i h. ap (λ r. live r.0 i) (sym e) ∙ files_keeps host lib cfg c d.world i h) iso)
            (λ j runs.
              let found = own j (
                sym (files_attached c d.world sb.metadata.id)
                ∙ ap (λ r. attached r.0 sb.metadata.id) e
                ∙ runs) in
              (
                found.0,
                ap (λ r. live r.0 j) (sym e) ∙ files_keeps host lib cfg c d.world j found.1,
              ))

  boot_from_snapshot-Isolated :
      (image : Text) (sb : Sandbox) (d : Daemon host lib cfg)
      → Isolated host lib cfg d
      → Attachable host lib cfg sb d
      → Isolated host lib cfg (boot_from_snapshot host lib cfg image sb d).0
  unfolding boot_from_snapshot
  boot_from_snapshot-Isolated image sb d iso own =
      elim (Option-cases (lookup sb.metadata.id d.vms)) [
        | inr (i, e) ↦ rw (e, boot_from_snapshot) iso
        | inl e ↦ elim (Bool-cases cfg.has_snapshot_store) [
          | inr missing ↦ rw (e, boot_from_snapshot) (rw missing iso)
          | inl has ↦ elim (Bool-cases (check_dns_prereq d.policies sb)) [
            | inl ok ↦
                rw (e, boot_from_snapshot)
                  (rw has (rw ok (boot_files-Isolated sb d (FileCall.download image) iso own)))
            | inr refused ↦ rw (e, boot_from_snapshot) (rw has (rw refused iso))
          ]
        ]
      ]

  pub boot-Isolated :
      (sb : Sandbox) (d : Daemon host lib cfg)
      → Isolated host lib cfg d
      → Attachable host lib cfg sb d
      → Isolated host lib cfg (boot host lib cfg sb d).0
  unfolding boot
  boot-Isolated sb d iso own = elim (Bool-cases (text_beq (source_snapshot sb) [])) [
    | inl e ↦ rw (e, boot) (boot_fresh-Isolated sb d iso own)
    | inr e ↦ rw (e, boot) (boot_from_snapshot-Isolated (source_snapshot sb) sb d iso own)
  ]
