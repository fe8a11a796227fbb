-- ===== src/Daemon/Reconciler/Outcome.antt =====
-- daemon/pkg/reconciler/reconciler.go: where a pass leaves the sandbox, its VM, its network and its DNS
-- policy.
use yaghan.Base.{
  ℕ, ◌≡◌, ◌≢◌, ◌⊎◌, inl, inr, refl, sym, ap, ◌∙◌, true, [], Option, none, some, Bool-cases,
  Option-cases,
}
use yaghan.Base.Text.{text_eq, text_beq}
use yaghan.Base.Dict.{lookup, insert}
use yaghan.Proto.{Sandbox}
use yaghan.Net.Allocator.{NamespaceHandle, build_handle}
use yaghan.Daemon.Egress.{
  Library, Config, FirewallPolicy, translate_egress_policy, check_dns_prereq, register_dns_policy,
  LocalReference,
}
use yaghan.Daemon.Host.{ReconcileError, HostCall, FileCall, Host, provision_network}
use yaghan.Daemon.Reconciler.{
  next_net_ns_index, Daemon, Result, done, failed, boot_on, boot_network, boot_fresh, boot_files,
  boot_from_snapshot, boot, source_snapshot,
}

module _ (host : Host) (lib : Library) (cfg : Config) where
  open host use {
    World, attached, provision_attached, files_attached, live, provision, deprovision, run, files,
    provision_some, provision_none, deprovision_gone, deprovision_others, run_live, files_live,
  }

  -- A new VM runs on the network of the next index, under the sandbox's policy.
  abbrev pub Booted :
      Sandbox → Daemon host lib cfg → Daemon host lib cfg × Result host lib cfg Sandbox → Type 0
  Booted sb d r =
      let i = next_net_ns_index d.vms in
      (attached d.world sb.metadata.id ≡ none)
      × (r.1 ≡ done sb)
      × (r.0.vms ≡ insert sb.metadata.id i d.vms)
      × (live r.0.world i ≡ true)
      × (r.0.policies ≡ register_dns_policy sb (build_handle i) d.policies)

  -- The VM that runs already is in the index with the network index of its own; the network of the next
  -- index was made for nothing, and the policy is registered under that network's address.
  abbrev pub Reattached :
      Sandbox → Daemon host lib cfg → Daemon host lib cfg × Result host lib cfg Sandbox → Type 0
  Reattached sb d r =
      let i = next_net_ns_index d.vms in
      (j : ℕ) × (attached d.world sb.metadata.id ≡ some j)
      × (r.1 ≡ done sb)
      × (r.0.vms ≡ insert sb.metadata.id j d.vms)
      × (live r.0.world i ≡ true)
      × (r.0.policies ≡ register_dns_policy sb (build_handle i) d.policies)

  -- No VM was added, and no network but the one of the next index was touched.
  abbrev pub NotBooted :
      Sandbox → Daemon host lib cfg → Daemon host lib cfg × Result host lib cfg Sandbox → Type 0
  NotBooted sb d r =
      ((e : ReconcileError) × (r.1 ≡ failed e))
      × (r.0.vms ≡ d.vms)
      × ((j : ℕ) → j ≢ next_net_ns_index d.vms → live r.0.world j ≡ live d.world j)

  abbrev pub Ended :
      Sandbox → Daemon host lib cfg → Daemon host lib cfg × Result host lib cfg Sandbox → Type 0
  Ended sb d r = Booted sb d r ⊎ (Reattached sb d r ⊎ NotBooted sb d r)

  boot_on-cases :
      (call : HostCall) (e : ReconcileError) (sb : Sandbox) (d : Daemon host lib cfg) (w : World)
      → live w (next_net_ns_index d.vms) ≡ true
      → ((j : ℕ) → j ≢ next_net_ns_index d.vms → live w j ≡ live d.world j)
      → attached w sb.metadata.id ≡ attached d.world sb.metadata.id
      → let i = next_net_ns_index d.vms in
        let r = boot_on host lib cfg call e sb (build_handle i) i (record d { world = w }) in
        Ended sb d r
  unfolding boot_on
  boot_on-cases call e sb d w here others same = elim (Option-cases (attached w sb.metadata.id)) [
    | inr (j, runs) ↦ rw (boot_on, runs) (inr (inl (j, sym same ∙ runs, refl, refl, here, refl)))
    | inl absent ↦ elim (Bool-cases (run call w).1) [
      | inl up ↦
          rw (boot_on, absent, up)
            (inl (sym same ∙ absent, refl, refl, run_live call w _ ∙ here, refl))
      | inr down ↦
          rw (boot_on, absent, down)
            (inr (
              inr (
                (e, refl),
                refl,
                (λ j ne.
                    deprovision_others _ (run call w).0 j ne ∙ run_live call w j ∙ others j ne),
              )))
    ]
  ]

  boot_network-cases :
      (call : NamespaceHandle → HostCall) (e : ReconcileError) (sb : Sandbox)
      (d : Daemon host lib cfg)
      → let r = boot_network host lib cfg call e sb d in Ended sb d r
  unfolding boot_network
  boot_network-cases call e sb d = elim (Option-cases r.1) [
    | inl f ↦
        rw (f, boot_network)
          (inr (inr ((provision_network, refl), refl, provision_none index policy d.world f)))
    | inr (nsh, f) ↦
        let (known, here, others) = provision_some index policy d.world nsh f in
        rw (f, boot_network)
          (rw known (
            boot_on-cases (call (build_handle index)) e sb d r.0 here others
              (provision_attached index policy d.world sb.metadata.id)))
  ]
    where
      index : ℕ
      index = next_net_ns_index d.vms

      policy : Option FirewallPolicy
      policy = translate_egress_policy lib sb

      r : World × Option NamespaceHandle
      r = provision index policy d.world

  boot_files-cases :
      (sb : Sandbox) (d : Daemon host lib cfg) (c : FileCall)
      → let r = boot_files host lib cfg sb d (files c d.world) in Ended sb d r
  unfolding boot_files
  boot_files-cases sb d c = go (files c d.world) refl
    where
      go :
          (q : World × Option LocalReference)
          → files c d.world ≡ q
          → Ended sb d (boot_files host lib cfg sb d q)
      go (w, none) e = inr (
          inr (
            (ReconcileError.load_snapshot, refl),
            refl,
            (λ j ne. ap (λ q. live q.0 j) (sym e) ∙ files_live c d.world j),
          ))
      go (w, some ref) e =
          let kept : attached d.world sb.metadata.id ≡ attached w sb.metadata.id =
            sym (files_attached c d.world sb.metadata.id)
            ∙ ap (λ q. attached q.0 sb.metadata.id) e in
          elim (boot_network-cases _ _ sb (record d { world = w })) [
            | inl (absent, ok, vms, up, ps) ↦ inl (kept ∙ absent, ok, vms, up, ps)
            | inr (inl (j, runs, ok, vms, up, ps)) ↦ inr (inl (j, kept ∙ runs, ok, vms, up, ps))
            | inr (inr (why, same, others)) ↦ inr (
                inr (
                  why,
                  same,
                  (λ j ne. others j ne ∙ ap (λ q. live q.0 j) (sym e) ∙ files_live c d.world j),
                ))
          ]

  -- Booting a sandbox that has no VM in the index, fresh or from a snapshot, has three ends. No VM of it
  -- ran, and it succeeds with a new VM in the index on the next free network, that network exists, and the
  -- policies are those that were there with the sandbox's own registered for it. Or a VM of it ran
  -- already, and it succeeds with that VM in the index under the VM's own network index, while the next
  -- free network exists and has the sandbox's policy. Or it fails, and then no VM was added and no
  -- network but the next free one was touched.
  pub boot-cases :
      (sb : Sandbox) (d : Daemon host lib cfg)
      → lookup sb.metadata.id d.vms ≡ none
      → Ended sb d (boot host lib cfg sb d)
  unfolding boot boot_fresh boot_from_snapshot
  boot-cases sb d e = elim (Bool-cases (text_beq (source_snapshot sb) [])) [
    | inl fresh ↦
        rw (fresh, boot)
          (elim (Bool-cases (check_dns_prereq d.policies sb)) [
            | inl ok ↦ rw (e, boot_fresh) (rw ok (boot_network-cases _ _ sb d))
            | inr no_dns ↦
                rw (e, boot_fresh) (rw no_dns (inr (inr ((_, refl), refl, (λ j ne. refl)))))
          ])
    | inr image ↦
        rw (image, boot)
          (elim (Bool-cases cfg.has_snapshot_store) [
            | inr no_store ↦
                rw (e, boot_from_snapshot)
                  (rw no_store (inr (inr ((_, refl), refl, (λ j ne. refl)))))
            | inl has ↦ elim (Bool-cases (check_dns_prereq d.policies sb)) [
              | inl ok ↦ rw (e, boot_from_snapshot) (rw has (rw ok (boot_files-cases sb d _)))
              | inr no_dns ↦
                  rw (e, boot_from_snapshot)
                    (rw has (rw no_dns (inr (inr ((_, refl), refl, (λ j ne. refl))))))
            ]
          ])
  ]
