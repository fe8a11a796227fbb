-- ===== src/Daemon/Indexer.antt =====
-- daemon/pkg/controller/indexer.go: the latest sandboxes that the daemon has seen, by id. The lock
-- makes each operation atomic.
use yaghan.Base.{
  ℕ, ◌≤◌, ◌≡◌, ◌≢◌, ◌⊎◌, refl, sym, ap, ◌∙◌, Bool, true, false, List, [], none, some, if◌then◌else◌,
  ltb, arith, Bool-cases, Option-cases, inl, inr,
}
use mathlib.Core.Option.{some-injective}
use mathlib.Core.Path.{subst}
use yaghan.Base.Text.{Text, text_beq, text_beq_iff, text_eq}
use yaghan.Base.Dict.{lookup, insert, lookup-insert}
use yaghan.Proto.{Sandbox}

abbrev pub Index : Type 0
Index = List (Text × Sandbox)

-- Put
unfoldable pub put : Sandbox → Index → Index × Bool
put sb index =
    if text_beq sb.metadata.id [] then (index, false) else (elim (lookup sb.metadata.id index) [
      | none ↦ (insert sb.metadata.id sb index, true)
      | some existing ↦
          if ltb sb.metadata.version existing.metadata.version
          then (index, false)
          else (insert sb.metadata.id sb index, true)
    ])

-- The index holds the sandbox in this version or in a later one.
unfoldable pub Holds : Index → Text → ℕ → Type 0
Holds index id version =
    (sb : Sandbox) × (lookup id index ≡ some sb) × (version ≤ sb.metadata.version)

-- Nothing in the first index is lost or newer than in the second.
unfoldable pub Advances : Index → Index → Type 0
Advances i j = (id : Text) (version : ℕ) → Holds i id version → Holds j id version

pub Advances-refl : (i : Index) → Advances i i
unfolding Advances
Advances-refl i id version h = h

pub Advances-trans : (i j k : Index) → Advances i j → Advances j k → Advances i k
unfolding Advances
Advances-trans i j k f g id version h = g id version (f id version h)

-- Storing a sandbox keeps what the index holds, where the stored one is not older.
store-Advances :
    (sb : Sandbox) (i : Index)
    → ((old : Sandbox)
        → lookup sb.metadata.id i ≡ some old
        → old.metadata.version ≤ sb.metadata.version)
    → Advances i (insert sb.metadata.id sb i)
unfolding Advances Holds
store-Advances sb i newer id version (old, found, h) =
    elim (Bool-cases (text_beq sb.metadata.id id)) [
      | inl e ↦ (
        sb,
        lookup-insert sb.metadata.id id sb i ∙ rw e refl,
        omega (
          arith,
          h,
          newer old (
              subst (λ k. lookup k i ≡ some old) (sym ((text_beq_iff sb.metadata.id id).0 e))
                found),
        ),
      )
      | inr e ↦ (old, lookup-insert sb.metadata.id id sb i ∙ rw e found, h)
    ]

insert-Holds :
    (sb : Sandbox) (i : Index)
    → Holds (insert sb.metadata.id sb i) sb.metadata.id sb.metadata.version
unfolding Holds
insert-Holds sb i = (
  sb,
  lookup-insert sb.metadata.id sb.metadata.id sb i
      ∙ rw ((text_beq_iff sb.metadata.id sb.metadata.id).1 refl) refl,
  omega arith,
)

-- What Put does: nothing for a sandbox without an id or older than the one it has, else it stores.
pub put-cases :
    (sb : Sandbox) (i : Index)
    → (put sb i ≡ (i, false)) × ((sb.metadata.id ≡ []) ⊎ Holds i sb.metadata.id sb.metadata.version)
      ⊎ (put sb i ≡ (insert sb.metadata.id sb i, true))
        × ((old : Sandbox)
            → lookup sb.metadata.id i ≡ some old
            → old.metadata.version ≤ sb.metadata.version)
unfolding put Holds
put-cases sb i = elim (Bool-cases (text_beq sb.metadata.id [])) [
  | inl e ↦ inl (rw e refl, inl ((text_beq_iff sb.metadata.id []).0 e))
  | inr named ↦ elim (Option-cases (lookup sb.metadata.id i)) [
    | inl absent ↦ inr (rw (named, absent) refl, λ old found. cc)
    | inr (old, found) ↦ elim (Bool-cases (ltb sb.metadata.version old.metadata.version)) [
      | inl stale ↦ inl (rw (put, named, found, stale) refl, inr (old, found, ground arith))
      | inr newer ↦ inr (
        rw (put, named, found, newer) refl,
        λ other h.
            let same : old ≡ other = some-injective _ _ (sym found ∙ h) in
            subst (λ o. o.metadata.version ≤ sb.metadata.version) same (ground arith),
      )
    ]
  ]
]

pub put-Advances : (sb : Sandbox) (i : Index) → Advances i (put sb i).0
put-Advances sb i = elim (put-cases sb i) [
  | inl (e, _) ↦ rw e (Advances-refl i)
  | inr (e, newer) ↦ rw e (store-Advances sb i newer)
]

-- A sandbox with an id is held, in its version or a later one, once it was put.
pub put-Holds :
    (sb : Sandbox) (i : Index)
    → sb.metadata.id ≢ []
    → Holds (put sb i).0 sb.metadata.id sb.metadata.version
put-Holds sb i named = elim (put-cases sb i) [
  | inl (e, inl unnamed) ↦ elim (named unnamed) [ ]
  | inl (e, inr held) ↦ rw e held
  | inr (e, newer) ↦ rw e (insert-Holds sb i)
]

pub put-unchanged : (sb : Sandbox) (i : Index) → (put sb i).1 ≡ false → (put sb i).0 ≡ i
put-unchanged sb i h = elim (put-cases sb i) [
  | inl (e, _) ↦ rw e refl
  | inr (e, newer) ↦ cc (h, ap (λ r. r.1) e)
]
