-- ===== src/Dns/Matcher/Coverage.antt =====
-- What a compiled pattern of daemon/pkg/dns/matcher.go covers.
use yaghan.Base.{
  ℕ, ◌-◌, ◌≡◌, refl, sym, ap, ◌∙◌, ◌≢◌, ◌↔◌, ◌⊎◌, inl, inr, true, false, [], ◌∷◌, ◌++◌, length,
  if◌then◌else◌, Bool-cases, arith, take-append, length-append, nat_beq,
}
use yaghan.Base.Text.{
  Text, text_eq, text_beq, text_beq_iff, has_suffix, has_suffix_iff, has_suffix-snoc, snoc_cases,
  to_lower, lower_byte, to_lower_idem, lower_byte_dot, to_lower-append,
}
use yaghan.Dns.Matcher.{
  DomainMatcher, exact_matcher, wildcard_matcher, matches, canonical_name, trim_dot,
}

-- A wildcard matches a name exactly when the name, without its trailing dot and in lower case, is
-- the wildcard's suffix or ends in a dot and that suffix.
pub wildcard-matches_iff :
    (p suffix name : Text)
    → (matches (wildcard_matcher p suffix) name ≡ true) ↔ (
        (canonical_name name ≡ suffix)
        ⊎ ((sub : Text) × (canonical_name name ≡ sub ++ b'.' ∷ suffix)))
unfolding matches
wildcard-matches_iff p suffix name = (there, back)
  where
    c : Text
    c = canonical_name name

    there :
        matches (wildcard_matcher p suffix) name ≡ true
        → (c ≡ suffix) ⊎ ((sub : Text) × (c ≡ sub ++ b'.' ∷ suffix))
    there h = elim (Bool-cases (text_beq c suffix)) [
      | inl e ↦ inl ((text_beq_iff c suffix).0 e)
      | inr e ↦ inr ((has_suffix_iff c (b'.' ∷ suffix)).0 (ground arith))
    ]

    back :
        (c ≡ suffix) ⊎ ((sub : Text) × (c ≡ sub ++ b'.' ∷ suffix))
        → matches (wildcard_matcher p suffix) name ≡ true
    back (inl e) = ground (arith, (text_beq_iff c suffix).1 e)
    back (inr t) = ground (arith, (has_suffix_iff c (b'.' ∷ suffix)).1 t)

trim_dot-snoc :
    (r : Text) (c : ℕ) → trim_dot (r ++ c ∷ []) ≡ (if nat_beq c b'.' then r else r ++ c ∷ [])
unfolding trim_dot
trim_dot-snoc r c =
    let cut : length (r ++ c ∷ []) - 1 ≡ length r = omega (arith, length-append r (c ∷ [])) in
    rw (has_suffix-snoc r c b'.', cut, take-append r (c ∷ [])) refl

pub canonical_name-snoc :
    (r : Text) (c : ℕ)
    → canonical_name (r ++ c ∷ []) ≡ (if nat_beq c b'.' then to_lower r else to_lower (r ++ c ∷ []))
unfolding canonical_name
canonical_name-snoc r c = elim (Bool-cases (nat_beq c b'.')) [
  | inl e ↦ rw (trim_dot-snoc r c, e) refl
  | inr e ↦ rw (trim_dot-snoc r c, e) refl
]

to_lower-snoc_idem :
    (r : Text) (c : ℕ)
    → canonical_name (to_lower r ++ lower_byte c ∷ []) ≡ canonical_name (r ++ c ∷ [])
unfolding to_lower
to_lower-snoc_idem r c = elim (Bool-cases (nat_beq c b'.')) [
  | inl e ↦
      rw
        (
          canonical_name-snoc (to_lower r) (lower_byte c),
          canonical_name-snoc r c,
          lower_byte_dot c,
          e,
        )
        (to_lower_idem r)
  | inr e ↦
      rw
        (
          canonical_name-snoc (to_lower r) (lower_byte c),
          canonical_name-snoc r c,
          lower_byte_dot c,
          e,
        )
        (ap to_lower (sym (to_lower-append r (c ∷ []))) ∙ to_lower_idem (r ++ c ∷ []))
]

canonical_name-to_lower : (s : Text) → canonical_name (to_lower s) ≡ canonical_name s
unfolding to_lower
canonical_name-to_lower s = elim (snoc_cases s) [
  | inl e ↦ rw e refl
  | inr (r, c, e) ↦ rw (e, to_lower-append r (c ∷ [])) (to_lower-snoc_idem r c)
]

canonical_name-root_dot :
    (s : Text)
    → has_suffix s (b'.' ∷ []) ≡ false
    → canonical_name (s ++ b'.' ∷ []) ≡ canonical_name s
unfolding canonical_name trim_dot
canonical_name-root_dot s h = rw (trim_dot-snoc s b'.', h) refl

matches-canonical :
    (m : DomainMatcher) (s t : Text)
    → canonical_name s ≡ canonical_name t
    → matches m s ≡ matches m t
unfolding matches
matches-canonical (exact_matcher p) s t e = rw e refl
matches-canonical (wildcard_matcher p x) s t e = rw e refl

-- Matching ignores the case of the name and the dot of the root zone behind it, for a name that
-- does not end in a dot.
pub matches_insensitive :
    (m : DomainMatcher) (name : Text)
    → has_suffix name (b'.' ∷ []) ≡ false
    → (matches m (to_lower name) ≡ matches m name)
      × (matches m (name ++ b'.' ∷ []) ≡ matches m name)
matches_insensitive m name h = (
  matches-canonical m (to_lower name) name (canonical_name-to_lower name),
  matches-canonical m (name ++ b'.' ∷ []) name (canonical_name-root_dot name h),
)

-- The byte before a common end is the same on both sides.
append_cancel : (pre sub end : Text) (a c : ℕ) → pre ++ c ∷ end ≡ sub ++ a ∷ end → c ≡ a
append_cancel [] [] end a c e = cc
append_cancel [] (y ∷ sub) end a c e =
    absurd (omega (arith, ap length e, length-append sub (a ∷ end)))
append_cancel (x ∷ pre) [] end a c e =
    absurd (omega (arith, ap length e, length-append pre (c ∷ end)))
append_cancel (x ∷ pre) (y ∷ sub) end a c e = append_cancel pre sub end a c (cc)

-- A wildcard stops at label boundaries: a name that ends in the suffix behind a byte that is no dot,
-- as `badexample.net` under `*.example.net`, is not matched.
pub wildcard_boundary :
    (p suffix name pre : Text) (c : ℕ)
    → c ≢ b'.'
    → canonical_name name ≡ pre ++ c ∷ suffix
    → matches (wildcard_matcher p suffix) name ≡ false
wildcard_boundary p suffix name pre c h e =
    elim (Bool-cases (matches (wildcard_matcher p suffix) name)) [
      | inr f ↦ f
      | inl t ↦ absurd (no_match ((wildcard-matches_iff p suffix name).0 t))
    ]
  where
    no_match : ¬ (
        (canonical_name name ≡ suffix)
        ⊎ ((sub : Text) × (canonical_name name ≡ sub ++ b'.' ∷ suffix)))
    no_match (inl q) = omega (arith, ap length (sym e ∙ q), length-append pre (c ∷ suffix))
    no_match (inr (sub, q)) = h (append_cancel pre sub suffix b'.' c (sym e ∙ q))
