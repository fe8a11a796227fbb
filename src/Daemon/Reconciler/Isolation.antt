-- ===== src/Daemon/Reconciler/Isolation.antt =====
-- The invariant of daemon/pkg/reconciler/reconciler.go: the VMs of a host never share a network.
use yaghan.Base.{
  ℕ, ◌<◌, ◌≡◌, ◌≢◌, ◌⊎◌, inl, inr, sym, ap, ◌∙◌, true, List, [], ◌∷◌, none, some, if◌then◌else◌,
  arith, Bool-cases,
}
use mathlib.Core.Option.{some-injective}
use yaghan.Base.Text.{Text, text_beq, text_eq, text_beq_iff}
use yaghan.Base.Dict.{lookup, insert, delete, lookup-insert, lookup-delete}
use yaghan.Proto.{Sandbox}
use yaghan.Daemon.Egress.{Library, Config}
use yaghan.Daemon.Host.{HostCall, FileCall, Host}
use yaghan.Daemon.Reconciler.{next_net_ns_index, Daemon}

-- The next index lies above every index in use.
pub next_net_ns_index-above :
    (vms : List (Text × ℕ)) (id : Text) (i : ℕ) → lookup id vms ≡ some i → i < next_net_ns_index vms
unfolding next_net_ns_index lookup
next_net_ns_index-above [] id i e = cc
next_net_ns_index-above ((own, j) ∷ vms) id i e = elim (Bool-cases (text_beq own id)) [
  | inl same ↦
      let known : some j ≡ some i = rw same at e in ground (arith, some-injective j i known)
  | inr other ↦ let rest = next_net_ns_index-above vms id i (rw other at e) in ground (arith, rest)
]

-- What an entry of a changed index was before.
lookup-inserted :
    (vms : List (Text × ℕ)) (id a : Text) (i j : ℕ)
    → lookup a (insert id i vms) ≡ some j
    → ((id ≡ a) × (i ≡ j)) ⊎ (lookup a vms ≡ some j)
lookup-inserted vms id a i j e =
    let entry : (if text_beq id a then some i else lookup a vms) ≡ some j =
      sym (lookup-insert id a i vms) ∙ e in
    elim (Bool-cases (text_beq id a)) [
      | inl same ↦ inl ((text_beq_iff id a).0 same, some-injective i j (rw same at entry))
      | inr other ↦ inr (rw other at entry)
    ]

pub lookup-deleted :
    (vms : List (Text × ℕ)) (id a : Text) (j : ℕ)
    → lookup a (delete id vms) ≡ some j
    → (lookup a vms ≡ some j) × (id ≢ a)
lookup-deleted vms id a j e =
    let entry : (if text_beq id a then none else lookup a vms) ≡ some j =
      sym (lookup-delete id a vms) ∙ e in
    elim (Bool-cases (text_beq id a)) [
      | inl same ↦ let bad : none ≡ some j = rw same at entry in cc
      | inr other ↦ (rw other at entry, (λ q. cc ((text_beq_iff id a).1 q)))
    ]

module _ (host : Host) (lib : Library) (cfg : Config) where
  open host use {
    World, attached, provision_attached, files_attached, live, provision, deprovision, run, files,
    provision_some, provision_none, deprovision_others, run_live, files_live,
  }

  -- Different VMs have different indexes, and the network of every VM is there.
  abbrev pub Isolated : Daemon host lib cfg → Type 0
  Isolated d =
      ((a b : Text) (i : ℕ) → lookup a d.vms ≡ some i → lookup b d.vms ≡ some i → a ≡ b)
      × ((a : Text) (i : ℕ) → lookup a d.vms ≡ some i → live d.world i ≡ true)

  -- A call that touches neither the VMs nor their networks.
  pub Isolated-world :
      (d : Daemon host lib cfg) (w : World)
      → ((i : ℕ) → live d.world i ≡ true → live w i ≡ true)
      → Isolated d
      → Isolated (record d { world = w })
  Isolated-world d w keeps (apart, there) = (apart, λ a i e. keeps i (there a i e))

  pub run_keeps : (c : HostCall) (w : World) (i : ℕ) → live w i ≡ true → live (run c w).0 i ≡ true
  run_keeps c w i h = run_live c w i ∙ h

  pub files_keeps :
      (c : FileCall) (w : World) (i : ℕ) → live w i ≡ true → live (files c w).0 i ≡ true
  files_keeps c w i h = files_live c w i ∙ h

  -- No VM has the index.
  abbrev pub Free : ℕ → Daemon host lib cfg → Type 0
  Free i d = (a : Text) (j : ℕ) → lookup a d.vms ≡ some j → j ≢ i

  pub Isolated-insert :
      (d : Daemon host lib cfg) (id : Text) (i : ℕ)
      → Isolated d
      → Free i d
      → live d.world i ≡ true
      → Isolated (record d { vms = insert id i d.vms })
  Isolated-insert d id i (apart, there) free here = (unique, present)
    where
      unique :
          (a b : Text) (j : ℕ)
          → lookup a (insert id i d.vms) ≡ some j
          → lookup b (insert id i d.vms) ≡ some j
          → a ≡ b
      unique a b j ha hb = elim (lookup-inserted d.vms id a i j ha) [
        | inl p ↦ elim (lookup-inserted d.vms id b i j hb) [
          | inl q ↦ sym p.0 ∙ q.0
          | inr q ↦ absurd (free b j q (sym p.1))
        ]
        | inr p ↦ elim (lookup-inserted d.vms id b i j hb) [
          | inl q ↦ absurd (free a j p (sym q.1))
          | inr q ↦ apart a b j p q
        ]
      ]

      present : (a : Text) (j : ℕ) → lookup a (insert id i d.vms) ≡ some j → live d.world j ≡ true
      present a j h = elim (lookup-inserted d.vms id a i j h) [
        | inl p ↦ ap (live d.world) (sym p.1) ∙ here
        | inr p ↦ there a j p
      ]

  pub Isolated-delete :
      (d : Daemon host lib cfg) (id : Text)
      → Isolated d
      → Isolated (record d { vms = delete id d.vms })
  Isolated-delete d id (apart, there) = (
    (λ a b j ha hb.
        apart a b j (lookup-deleted d.vms id a j ha).0 (lookup-deleted d.vms id b j hb).0),
    (λ a j h. there a j (lookup-deleted d.vms id a j h).0),
  )

  pub Isolated-deprovision :
      (d : Daemon host lib cfg) (i : ℕ)
      → Isolated d
      → Free i d
      → Isolated (record d { world = (deprovision i d.world).0 })
  Isolated-deprovision d i (apart, there) free =
      (apart, (λ a j h. deprovision_others i d.world j (free a j h) ∙ there a j h))

  -- A VM of the sandbox that runs without being in the index has a network of its own.
  abbrev pub Attachable : Sandbox → Daemon host lib cfg → Type 0
  Attachable sb d =
      (j : ℕ) → attached d.world sb.metadata.id ≡ some j → Free j d × (live d.world j ≡ true)

  -- The index that boot uses belongs to no VM.
  pub next-Free : (d : Daemon host lib cfg) → Free (next_net_ns_index d.vms) d
  next-Free d a j h e = let below = next_net_ns_index-above d.vms a j h in absurd (ground arith)
