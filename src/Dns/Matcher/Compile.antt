-- ===== src/Dns/Matcher/Compile.antt =====
-- Which patterns daemon/pkg/dns/matcher.go compiles, and what the compiled pattern covers.
use yaghan.Base.{
  sym, ◌∙◌, ℕ, ◌≡◌, refl, ap, ◌≢◌, ◌↔◌, ◌⊎◌, inl, inr, true, false, List, [], ◌∷◌, ◌++◌, drop,
  Bool-cases, arith, nat_beq,
}
use yaghan.Base.Text.{
  has_suffix, has_suffix_iff, Text, codes, text_eq, text_beq, text_beq_iff, has_prefix,
  has_prefix-split, contains_byte, to_lower, lower_byte,
}
use yaghan.Dns.Matcher.{
  trim_dot, DomainMatcher, exact_matcher, wildcard_matcher, matches, canonical_name, compiled,
  refused, compile_matcher, compile_matchers,
}
use yaghan.Dns.Matcher.Coverage.{wildcard-matches_iff, canonical_name-snoc}

lower_byte_star : (c : ℕ) → nat_beq (lower_byte c) b'*' ≡ nat_beq c b'*'
unfolding lower_byte
lower_byte_star c = ground arith

contains_byte-to_lower : (s : Text) → contains_byte (to_lower s) b'*' ≡ contains_byte s b'*'
unfolding contains_byte to_lower
contains_byte-to_lower [] = refl
contains_byte-to_lower (c ∷ s) = rw (lower_byte_star c, contains_byte-to_lower s) refl

-- The patterns that the validator of the protocol lets through, as far as wildcards go: a text
-- without stars, or `*.` and such a text.
abbrev pub IsPattern : Text → Type 0
IsPattern p =
    ((p ≢ []) × (contains_byte p b'*' ≡ false))
    ⊎ ((host : Text) × (p ≡ codes "*." ++ host) × (host ≢ []) × (contains_byte host b'*' ≡ false))

compile-star :
    (host : Text)
    → host ≢ []
    → contains_byte host b'*' ≡ false
    → compile_matcher (codes "*." ++ host)
      ≡ compiled (wildcard_matcher (codes "*." ++ host) (to_lower host))
unfolding compile_matcher has_prefix text_beq to_lower
compile-star [] h n = absurd (h refl)
compile-star (c ∷ s) h n = ground (arith, contains_byte-to_lower (c ∷ s))

compile-plain :
    (p : Text)
    → p ≢ []
    → contains_byte p b'*' ≡ false
    → compile_matcher p ≡ compiled (exact_matcher (to_lower p))
unfolding compile_matcher has_prefix text_beq contains_byte
compile-plain [] h n = absurd (h refl)
compile-plain (c ∷ s) h n = ground arith

compiled-star :
    (p : Text) (m : DomainMatcher)
    → compile_matcher p ≡ compiled m
    → has_prefix p (codes "*.") ≡ true
    → (drop 2 p ≢ []) × (contains_byte (drop 2 p) b'*' ≡ false)
unfolding compile_matcher to_lower
compiled-star p m e h = (
  λ q. ground (arith, text_beq_iff (to_lower (drop 2 p)) [], ap to_lower q),
  ground (arith, contains_byte-to_lower (drop 2 p)),
)

compiled-plain :
    (p : Text) (m : DomainMatcher)
    → compile_matcher p ≡ compiled m
    → has_prefix p (codes "*.") ≡ false
    → (p ≢ []) × (contains_byte p b'*' ≡ false)
unfolding compile_matcher
compiled-plain p m e h = (λ q. ground (arith, text_beq_iff p []), ground arith)

-- CompileMatcher accepts exactly the texts without stars and the texts `*.host` where `host` has no
-- star, both not empty.
pub compile_matcher_accepts :
    (p : Text) → ((m : DomainMatcher) × (compile_matcher p ≡ compiled m)) ↔ IsPattern p
compile_matcher_accepts p = (there, back)
  where
    there : (m : DomainMatcher) × (compile_matcher p ≡ compiled m) → IsPattern p
    there (m, e) = elim (Bool-cases (has_prefix p (codes "*."))) [
      | inl h ↦ inr (
        drop 2 p,
        has_prefix-split p (codes "*.") h,
        (compiled-star p m e h).0,
        (compiled-star p m e h).1,
      )
      | inr h ↦ inl (compiled-plain p m e h)
    ]

    back : IsPattern p → (m : DomainMatcher) × (compile_matcher p ≡ compiled m)
    back (inl t) = (exact_matcher (to_lower p), compile-plain p t.0 t.1)
    back (inr (host, e, h, n)) =
        (wildcard_matcher (codes "*." ++ host) (to_lower host), rw e (compile-star host h n))

-- A name without the root's dot, which it may have or not.
abbrev pub Unrooted : Text → Text → Type 0
Unrooted name base =
    (name ≡ base ++ b'.' ∷ []) ⊎ (((r : Text) → name ≢ r ++ b'.' ∷ []) × (name ≡ base))

unrooted : (name : Text) → (base : Text) × Unrooted name base
unrooted name = elim (Bool-cases (has_suffix name (b'.' ∷ []))) [
  | inl dotted ↦ let (r, e) = (has_suffix_iff name (b'.' ∷ [])).0 dotted in (r, inl e)
  | inr bare ↦ (name, inr ((λ r e. cc ((has_suffix_iff name (b'.' ∷ [])).1 (r, e), bare)), refl))
]

Unrooted-canonical_name :
    (name base : Text) → Unrooted name base → canonical_name name ≡ to_lower base
unfolding canonical_name trim_dot
Unrooted-canonical_name name base (inl e) = ap canonical_name e ∙ canonical_name-snoc base b'.'
Unrooted-canonical_name name base (inr (bare, e)) =
    elim (Bool-cases (has_suffix name (b'.' ∷ []))) [
      | inl dotted ↦ let (r, e) = (has_suffix_iff name (b'.' ∷ [])).0 dotted in absurd (bare r e)
      | inr plain ↦ rw (canonical_name, trim_dot, plain) (ap to_lower e)
    ]

-- What the pattern `*.host` covers once compiled: the host itself and every name below it, at any
-- depth, in any case and with or without the root's dot.
pub compile_matcher_covers :
    (host name : Text) (m : DomainMatcher)
    → compile_matcher (codes "*." ++ host) ≡ compiled m
    → (matches m name ≡ true) ↔ (
        (base : Text) × Unrooted name base
        × ((to_lower base ≡ to_lower host)
            ⊎ ((sub : Text) × (to_lower base ≡ sub ++ b'.' ∷ to_lower host))))
unfolding compile_matcher has_prefix
compile_matcher_covers host name m e =
    let t = compiled-star (codes "*." ++ host) m e (unfold has_prefix in refl) in
    let known : m ≡ wildcard_matcher (codes "*." ++ host) (to_lower host) =
      cc (compile-star host t.0 t.1) in
    let covers = wildcard-matches_iff (codes "*." ++ host) (to_lower host) name in
    rw known (
      (λ h.
          let (base, bare) = unrooted name in
          let same = Unrooted-canonical_name name base bare in
          (
            base,
            bare,
            elim (covers.0 h) [
              | inl own ↦ inl (sym same ∙ own)
              | inr (sub, below) ↦ inr (sub, sym same ∙ below)
            ],
          )),
      (λ (base, bare, fits).
          let same = Unrooted-canonical_name name base bare in
          covers.1 (elim fits [
            | inl own ↦ inl (same ∙ own)
            | inr (sub, below) ↦ inr (sub, same ∙ below)
          ])),
    )

-- Compiling a list is compiling its parts from left to right: the first part's error is reported
-- first, then the second part's, and the matchers keep their order.
pub compile_matchers-append :
    (ps qs : List Text)
    → compile_matchers (ps ++ qs) ≡ (elim (compile_matchers ps) [
      | refused e ↦ refused e
      | compiled ms ↦ elim (compile_matchers qs) [
        | refused e ↦ refused e
        | compiled ns ↦ compiled (ms ++ ns)
      ]
    ])
unfolding compile_matchers
compile_matchers-append [] qs = ground arith
compile_matchers-append (p ∷ ps) qs = ground (arith, compile_matchers-append ps qs)
