-- ===== src/Base/Text.antt =====
-- Go strings as their bytes, and the functions of Go's package strings that the program calls.
use Prim.Native.Char.{code}
use Prim.Native.Nat.{ℕ, ◌+◌, ◌-◌, ◌≤◌}
use Prim.Native.String.{String}
use mathlib.Core.Bool.{Bool, true, false, ◌&&◌, ◌||◌}
use mathlib.Core.List.{List, [], ◌∷◌, ◌++◌}
use mathlib.Core.Logic.{◌↔◌, ◌⊎◌, inl, inr}
use mathlib.Core.Path.{◌≡◌, refl, sym, ap, ◌∙◌}
use native.Mathlib.Omega.{arith}
use yaghan.Base.Tests.{leb, if◌then◌else◌, nat_beq, Comparable, nat_eq}
use yaghan.Base.Lists.{length, take, drop, length-append, drop-append, take-append-drop}

abbrev pub Text : Type 0
Text = List ℕ

-- The bytes of an ASCII literal.
abbrev pub codes : String → Text
codes String.[] = []
codes (String.◌∷◌ c s) = code c ∷ codes s

unfoldable pub text_beq : Text → Text → Bool
text_beq [] [] = true
text_beq [] (d ∷ t) = false
text_beq (c ∷ s) [] = false
text_beq (c ∷ s) (d ∷ t) = nat_beq c d && text_beq s t

pub text_beq_iff : (s t : Text) → (text_beq s t ≡ true) ↔ (s ≡ t)
unfolding text_beq
text_beq_iff [] [] = (λ h. refl, λ h. refl)
text_beq_iff [] (d ∷ t) = (λ h. cc, λ h. cc)
text_beq_iff (c ∷ s) [] = (λ h. cc, λ h. cc)
text_beq_iff (c ∷ s) (d ∷ t) =
    (λ h. ground (arith, text_beq_iff s t), λ h. ground (arith, text_beq_iff s t))

instance abbrev pub text_eq : Comparable Text
text_eq = record { equal = text_beq; equal_iff = text_beq_iff }

-- strings.HasPrefix
unfoldable pub has_prefix : Text → Text → Bool
has_prefix s [] = true
has_prefix [] (d ∷ p) = false
has_prefix (c ∷ s) (d ∷ p) = nat_beq c d && has_prefix s p

-- strings.HasSuffix: len(s) >= len(suffix) && s[len(s)-len(suffix):] == suffix
unfoldable pub has_suffix : Text → Text → Bool
has_suffix s p = leb (length p) (length s) && text_beq (drop (length s - length p) s) p

-- strings.Contains for a text of one byte
unfoldable pub contains_byte : Text → ℕ → Bool
contains_byte [] b = false
contains_byte (c ∷ s) b = nat_beq c b || contains_byte s b

-- strings.ToLower on ASCII
unfoldable pub lower_byte : ℕ → ℕ
lower_byte c = if leb b'A' c && leb c b'Z' then c + 32 else c

unfoldable pub to_lower : Text → Text
unfolding lower_byte
to_lower [] = []
to_lower (c ∷ s) = lower_byte c ∷ to_lower s

pub has_suffix-append : (r p : Text) → has_suffix (r ++ p) p ≡ true
unfolding has_suffix
has_suffix-append r p =
    let cut : length (r ++ p) - length p ≡ length r = omega (arith, length-append r p) in
    let fits : length p ≤ length (r ++ p) = omega (arith, length-append r p) in
    rw (cut, drop-append r p) (ground (arith, (text_beq_iff p p).1 refl))

-- A text has a suffix exactly when it is some text followed by it.
pub has_suffix_iff : (s p : Text) → (has_suffix s p ≡ true) ↔ ((r : Text) × (s ≡ r ++ p))
unfolding has_suffix
has_suffix_iff s p = (there, λ t. rw t.1 (has_suffix-append t.0 p))
  where
    there : has_suffix s p ≡ true → (r : Text) × (s ≡ r ++ p)
    there h = (
      take (length s - length p) s,
      sym (take-append-drop (length s - length p) s)
          ∙ ap (◌++◌ (take (length s - length p) s))
              ((text_beq_iff (drop (length s - length p) s) p).0 (ground arith)),
    )

-- A text is empty or has a last byte.
pub snoc_cases : (s : Text) → (s ≡ []) ⊎ ((r : Text) × (c : ℕ) × (s ≡ r ++ c ∷ []))
snoc_cases [] = inl refl
snoc_cases (x ∷ s) = elim (snoc_cases s) [
  | inl e ↦ inr ([], x, ap (◌∷◌ x) e)
  | inr (r, c, e) ↦ inr (x ∷ r, c, ap (◌∷◌ x) e)
]

pub has_suffix-snoc : (r : Text) (c d : ℕ) → has_suffix (r ++ c ∷ []) (d ∷ []) ≡ nat_beq c d
unfolding has_suffix text_beq
has_suffix-snoc r c d =
    let cut : length (r ++ c ∷ []) - 1 ≡ length r = omega (arith, length-append r (c ∷ [])) in
    rw (cut, drop-append r (c ∷ [])) (ground (arith, length-append r (c ∷ [])))

pub to_lower-append : (s t : Text) → to_lower (s ++ t) ≡ to_lower s ++ to_lower t
unfolding to_lower
to_lower-append [] t = refl
to_lower-append (c ∷ s) t = ap (◌∷◌ (lower_byte c)) (to_lower-append s t)

lower_byte_idem : (c : ℕ) → lower_byte (lower_byte c) ≡ lower_byte c
unfolding lower_byte
lower_byte_idem c = ground arith

pub to_lower_idem : (s : Text) → to_lower (to_lower s) ≡ to_lower s
unfolding to_lower
to_lower_idem [] = refl
to_lower_idem (c ∷ s) = cc (lower_byte_idem c, to_lower_idem s)

pub lower_byte_dot : (c : ℕ) → nat_beq (lower_byte c) b'.' ≡ nat_beq c b'.'
unfolding lower_byte
lower_byte_dot c = ground arith

pub has_prefix-split : (s p : Text) → has_prefix s p ≡ true → s ≡ p ++ drop (length p) s
unfolding has_prefix
has_prefix-split s [] h = refl
has_prefix-split [] (d ∷ p) h = cc
has_prefix-split (c ∷ s) (d ∷ p) h =
    ap (λ t. c ∷ t) (has_prefix-split s p (ground arith))
    ∙ ap (λ x. x ∷ p ++ drop (length p) s) (ground arith)
