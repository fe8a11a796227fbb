-- ===== src/Db/Sandbox/Index/Keys.antt =====
-- The keys of the indexes: joined texts can be taken apart again.
use yaghan.Base.{
  ℕ, ◌≡◌, ◌≢◌, ◌↔◌, refl, ap, inl, inr, true, false, [], ◌∷◌, ◌++◌, none, some, Bool-cases, arith,
}
use yaghan.Base.Text.{Text, text_beq, text_beq_iff, text_eq, contains_byte}
use yaghan.Proto.{
  Phase, phase_unspecified, phase_pending, phase_running, phase_pausing, phase_paused,
  phase_resuming, phase_snapshotting, phase_deleting, phase_deleted, phase_failed, phase_name,
  Sandbox, node_id,
}
use yaghan.Db.Dynamo.{member_s}
use yaghan.Db.Sandbox.{when_node}

-- A key of two parts determines them if the first has no separator,
pub split_first :
    (a b r s : Text)
    → contains_byte a b'#' ≡ false
    → contains_byte b b'#' ≡ false
    → a ++ b'#' ∷ r ≡ b ++ b'#' ∷ s
    → (a ≡ b) × (r ≡ s)
unfolding contains_byte
split_first [] [] r s ha hb e = (refl, cc)
split_first [] (y ∷ b) r s ha hb e = absurd (ground arith)
split_first (x ∷ a) [] r s ha hb e = absurd (ground arith)
split_first (x ∷ a) (y ∷ b) r s ha hb e =
    let head : x ≡ y = cc in
    let (p, q) = split_first a b r s (ground arith) (ground arith) (cc) in (cc, q)

contains_byte-middle : (b s : Text) (k : ℕ) → contains_byte (b ++ k ∷ s) k ≡ true
unfolding contains_byte
contains_byte-middle [] s k = ground arith
contains_byte-middle (y ∷ b) s k = ground (arith, contains_byte-middle b s k)

-- and if the second has none.
pub split_last :
    (a b r s : Text)
    → contains_byte r b'#' ≡ false
    → contains_byte s b'#' ≡ false
    → a ++ b'#' ∷ r ≡ b ++ b'#' ∷ s
    → (a ≡ b) × (r ≡ s)
split_last [] [] r s hr hs e = (refl, cc)
split_last [] (y ∷ b) r s hr hs e =
    let same : r ≡ b ++ b'#' ∷ s = cc in
    let found = contains_byte-middle b s b'#' in
    absurd (ground (arith, ap (λ t. contains_byte t b'#') same))
split_last (x ∷ a) [] r s hr hs e =
    let same : a ++ b'#' ∷ r ≡ s = cc in
    let found = contains_byte-middle a r b'#' in
    absurd (ground (arith, ap (λ t. contains_byte t b'#') same))
split_last (x ∷ a) (y ∷ b) r s hr hs e = let (p, q) = split_last a b r s hr hs (cc) in (cc, q)

pub phase_name-plain : (p : Phase) → contains_byte (phase_name p) b'#' ≡ false
unfolding phase_name contains_byte
phase_name-plain phase_unspecified = refl
phase_name-plain _ = refl

pub phase_name-injective : (p q : Phase) → phase_name p ≡ phase_name q → p ≡ q
unfolding phase_name text_beq
phase_name-injective phase_unspecified phase_unspecified e = refl
phase_name-injective phase_pending phase_pending e = refl
phase_name-injective phase_running phase_running e = refl
phase_name-injective phase_pausing phase_pausing e = refl
phase_name-injective phase_paused phase_paused e = refl
phase_name-injective phase_resuming phase_resuming e = refl
phase_name-injective phase_snapshotting phase_snapshotting e = refl
phase_name-injective phase_deleting phase_deleting e = refl
phase_name-injective phase_deleted phase_deleted e = refl
phase_name-injective phase_failed phase_failed e = refl
phase_name-injective p q e = let apart : true ≡ false = ap (text_beq (phase_name p)) e in cc

pub member_s-injective : (v w : Text) → some (member_s v) ≡ some (member_s w) → v ≡ w
member_s-injective v w e = cc

pub when_node_iff :
    (sb : Sandbox) (v w : Text)
    → (when_node sb v ≡ some (member_s w)) ↔ ((node_id sb ≢ []) × (v ≡ w))
when_node_iff sb v w = elim (Bool-cases (text_beq (node_id sb) [])) [
  | inl none_set ↦ (
    (λ h. let bad : none ≡ some (member_s w) = rw none_set at h in cc),
    (λ t. absurd (t.0 ((text_beq_iff (node_id sb) []).0 none_set))),
  )
  | inr node_set ↦ (
    (λ h. (
      (λ e. cc ((text_beq_iff (node_id sb) []).1 e)),
      member_s-injective v w (rw node_set at h),
    )),
    (λ t. rw node_set (rw (t.1) refl)),
  )
]
