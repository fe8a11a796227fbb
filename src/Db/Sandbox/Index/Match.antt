-- ===== src/Db/Sandbox/Index/Match.antt =====
-- api-server/pkg/db/sandbox/dynamodb/list.go: what the partition read by a List holds.
use yaghan.Base.{
  ◌≡◌, ◌≢◌, ◌↔◌, refl, sym, ◌∙◌, ◌⊎◌, inl, inr, Bool, true, false, ◌||◌, not, [], ◌∷◌, some,
}
use yaghan.Base.Text.{Text, text_beq, text_eq, contains_byte}
use yaghan.Proto.{Phase, phase_unspecified, Sandbox, status_phase, node_id}
use yaghan.Db.Dynamo.{member_s}
use yaghan.Db.Sandbox.{
  Codec, item_of, gsi_namespace_phase_key, gsi_namespace_node_key, gsi_node_phase_key,
  gsi_namespace_node_phase_key,
}
use yaghan.Db.Sandbox.Index.{ListOptions, has_phase, partition_of, select_index}
use yaghan.Db.Sandbox.Index.Keys.{
  split_first, split_last, phase_name-plain, phase_name-injective, member_s-injective,
  when_node_iff,
}

-- A sandbox passes the filters that are given.
abbrev pub Matches : ListOptions → Sandbox → Type 0
Matches opts sb =
    (opts.namespace ≢ [] → sb.metadata.namespace ≡ opts.namespace)
    × (opts.node_id ≢ [] → node_id sb ≡ opts.node_id)
    × (opts.status_phase ≢ phase_unspecified → status_phase sb ≡ opts.status_phase)

-- A flag that says whether a filter is given.
abbrev Given : Bool → Type 0 → Type 0
Given true P = P
Given false P = ¬ P

not_empty-Given : (t : Text) → Given (not (text_beq t [])) (t ≢ [])
unfolding text_beq
not_empty-Given [] = (λ h. h refl)
not_empty-Given (x ∷ t) = (λ e. cc)

has_phase-Given : (p : Phase) → Given (has_phase p) (p ≢ phase_unspecified)
unfolding has_phase
has_phase-Given phase_unspecified = (λ h. h refl)
has_phase-Given _ = (λ e. cc)

given_or : (s t : Text) → (s ≢ []) ⊎ (t ≢ []) → (not (text_beq s []) || not (text_beq t [])) ≡ true
unfolding text_beq
given_or [] [] (inl h) = absurd (h refl)
given_or [] [] (inr h) = absurd (h refl)
given_or [] (y ∷ t) h = refl
given_or (x ∷ s) t h = refl

module _ (c : Codec) (opts : ListOptions) (sb : Sandbox) (d pb : Text)
    (plain : contains_byte sb.metadata.namespace b'#' ≡ false)
    (asked : contains_byte opts.namespace b'#' ≡ false) where
  partition_holds :
      (ns node phase : Bool)
      → Given ns (opts.namespace ≢ [])
      → Given node (opts.node_id ≢ [])
      → Given phase (opts.status_phase ≢ phase_unspecified)
      → (ns || node) ≡ true
      → let p = partition_of opts ns node phase in
        (item_of c sb d pb p.hk_name ≡ some (member_s p.hk_value)) ↔ Matches opts sb
  unfolding partition_of item_of gsi_namespace_node_phase_key gsi_namespace_node_key
      gsi_namespace_phase_key gsi_node_phase_key
  partition_holds true true true hns hnode hphase some_given = (
    (λ h.
        let key = (when_node_iff sb (gsi_namespace_node_phase_key sb) _).0 h in
        let (same_ns, rest) =
          split_first sb.metadata.namespace opts.namespace _ _ plain asked key.1 in
        let (same_node, last) =
          split_last (node_id sb) opts.node_id _ _ (phase_name-plain (status_phase sb))
            (phase_name-plain opts.status_phase) rest in
        (
          (λ g. same_ns),
          (λ g. same_node),
          (λ g. phase_name-injective (status_phase sb) opts.status_phase last),
        )),
    (λ m.
        let same_ns = m.0 hns in
        let same_node = m.1 hnode in
        let same_phase = m.2 hphase in
        (when_node_iff sb (gsi_namespace_node_phase_key sb) _).1
          ((λ z. hnode (sym same_node ∙ z)), cc)),
  )
  partition_holds true true false hns hnode hphase some_given = (
    (λ h.
        let key = (when_node_iff sb (gsi_namespace_node_key sb) _).0 h in
        let (same_ns, rest) =
          split_first sb.metadata.namespace opts.namespace _ _ plain asked key.1 in
        ((λ g. same_ns), (λ g. rest), (λ g. absurd (hphase g)))),
    (λ m.
        let same_ns = m.0 hns in
        let same_node = m.1 hnode in
        (when_node_iff sb (gsi_namespace_node_key sb) _).1 ((λ z. hnode (sym same_node ∙ z)), cc)),
  )
  partition_holds true false true hns hnode hphase some_given = (
    (λ h.
        let (same_ns, rest) =
          split_first sb.metadata.namespace opts.namespace _ _ plain asked
            (member_s-injective _ _ h) in
        (
          (λ g. same_ns),
          (λ g. absurd (hnode g)),
          (λ g. phase_name-injective (status_phase sb) opts.status_phase rest),
        )),
    (λ m. let same_ns = m.0 hns in let same_phase = m.2 hphase in cc),
  )
  partition_holds true false false hns hnode hphase some_given = (
    (λ h. ((λ g. member_s-injective _ _ h), (λ g. absurd (hnode g)), (λ g. absurd (hphase g)))),
    (λ m. let same_ns = m.0 hns in cc),
  )
  partition_holds false true true hns hnode hphase some_given = (
    (λ h.
        let key = (when_node_iff sb (gsi_node_phase_key sb) _).0 h in
        let (same_node, last) =
          split_last (node_id sb) opts.node_id _ _ (phase_name-plain (status_phase sb))
            (phase_name-plain opts.status_phase) key.1 in
        (
          (λ g. absurd (hns g)),
          (λ g. same_node),
          (λ g. phase_name-injective (status_phase sb) opts.status_phase last),
        )),
    (λ m.
        let same_node = m.1 hnode in
        let same_phase = m.2 hphase in
        (when_node_iff sb (gsi_node_phase_key sb) _).1 ((λ z. hnode (sym same_node ∙ z)), cc)),
  )
  partition_holds false true false hns hnode hphase some_given = (
    (λ h.
        let key = (when_node_iff sb (node_id sb) _).0 h in
        ((λ g. absurd (hns g)), (λ g. key.1), (λ g. absurd (hphase g)))),
    (λ m.
        let (of_ns, of_node, of_phase) = m in
        let same_node = of_node hnode in
        (when_node_iff sb (node_id sb) _).1 ((λ z. hnode (sym same_node ∙ z)), same_node)),
  )
  partition_holds false false phase hns hnode hphase some_given = cc

-- A request that names a namespace or a node, on namespaces without the separator, reads the
-- partition that holds exactly the rows of the sandboxes that match all the filters given.
pub select_index-Matches :
    (c : Codec) (opts : ListOptions) (sb : Sandbox) (d pb : Text)
    → contains_byte sb.metadata.namespace b'#' ≡ false
    → contains_byte opts.namespace b'#' ≡ false
    → (opts.namespace ≢ []) ⊎ (opts.node_id ≢ [])
    → let p = select_index opts in
      (item_of c sb d pb p.hk_name ≡ some (member_s p.hk_value)) ↔ Matches opts sb
unfolding select_index
select_index-Matches c opts sb d pb plain asked some_given =
    partition_holds c opts sb d pb plain asked (not (text_beq opts.namespace []))
      (not (text_beq opts.node_id [])) (has_phase opts.status_phase)
      (not_empty-Given opts.namespace) (not_empty-Given opts.node_id)
      (has_phase-Given opts.status_phase) (given_or opts.namespace opts.node_id some_given)
