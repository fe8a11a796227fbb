-- ===== src/Base/Integer.antt =====
-- Signed integers as package strconv prints and reads them, and strings.TrimSpace on ASCII.
use Prim.Native.Nat.{ℕ, zero, suc, ◌+◌, ◌/◌, ◌%◌, ◌^◌}
use mathlib.Core.Bool.{Bool, true, false, ◌&&◌, ◌||◌}
use mathlib.Core.List.{[], ◌∷◌, ◌++◌}
use mathlib.Core.Logic.{inl, inr}
use mathlib.Core.Option.{Option, none, some}
use mathlib.Core.Path.{◌≡◌, refl, subst, sym, ap, ◌∙◌}
use native.Mathlib.Omega.{arith}
use yaghan.Base.Tests.{ltb, leb, if◌then◌else◌, nat_beq, Bool-cases}
use yaghan.Base.Text.{Text}
use yaghan.Base.Decimal.{decimal, decimal_onto, value_from, value_from-decimal}

-- A number, or with `negative n` the number -n - 1.
pub data Integer : Type 0 where
  nonneg negative : ℕ → Integer

abbrev pub in_int64 : Integer → Bool
in_int64 (nonneg n) = ltb n (2 ^ 63)
in_int64 (negative n) = ltb n (2 ^ 63)

-- fmt's %d
unfoldable pub print_int : Integer → Text
print_int (nonneg n) = decimal n
print_int (negative n) = b'-' ∷ decimal (suc n)

abbrev pub is_digit : ℕ → Bool
is_digit c = leb b'0' c && leb c b'9'

unfoldable pub all_digits : Text → Bool
all_digits [] = true
all_digits (c ∷ s) = is_digit c && all_digits s

-- The value of at least one digit.
unfoldable pub parse_digits : Text → Option ℕ
parse_digits [] = none
parse_digits (c ∷ s) = if all_digits (c ∷ s) then some (value_from 0 (c ∷ s)) else none

abbrev signed : (ℕ → Integer) → Option ℕ → Option Integer
signed sign none = none
signed sign (some n) = if in_int64 (sign n) then some (sign n) else none

abbrev minus : ℕ → Integer
minus zero = nonneg 0
minus (suc n) = negative n

-- strconv.ParseInt(s, 10, 64)
unfoldable pub parse_int : Text → Option Integer
parse_int [] = none
parse_int (c ∷ s) =
    if nat_beq c b'-'
    then signed minus (parse_digits s)
    else if nat_beq c b'+'
    then signed nonneg (parse_digits s)
    else signed nonneg (parse_digits (c ∷ s))

abbrev pub is_space : ℕ → Bool
is_space c = nat_beq c 32 || leb 9 c && leb c 13

unfoldable pub trim_left : Text → Text
trim_left [] = []
trim_left (c ∷ s) = let rest = trim_left s in if is_space c then rest else c ∷ s

abbrev keep_right : ℕ → Text → Text
keep_right c [] = if is_space c then [] else c ∷ []
keep_right c (d ∷ s) = c ∷ d ∷ s

unfoldable pub trim_right : Text → Text
trim_right [] = []
trim_right (c ∷ s) = keep_right c (trim_right s)

unfoldable pub trim_space : Text → Text
trim_space s = trim_left (trim_right s)

-- No byte is white space.
unfoldable pub solid : Text → Bool
solid [] = true
solid (c ∷ s) = (if is_space c then false else true) && solid s

all_digits-solid : (s : Text) → all_digits s ≡ true → solid s ≡ true
unfolding all_digits solid
all_digits-solid [] h = refl
all_digits-solid (c ∷ s) h = ground (arith, all_digits-solid s)

all_digits-decimal_onto :
    (f n : ℕ) (acc : Text) → all_digits acc ≡ true → all_digits (decimal_onto f n acc) ≡ true
unfolding all_digits decimal_onto
all_digits-decimal_onto zero n acc h = h
all_digits-decimal_onto (suc f) n acc h =
    let digit : all_digits ((b'0' + n % 10) ∷ acc) ≡ true = ground (arith, h) in
    let rest = all_digits-decimal_onto f (n / 10) ((b'0' + n % 10) ∷ acc) digit in
    elim (Bool-cases (ltb n 10)) [
      | inl small ↦ rw small (ground (arith, small, h))
      | inr big ↦ rw big rest
    ]

decimal_onto-cons :
    (f n c : ℕ) (acc : Text) → (d : ℕ) × (s : Text) × (decimal_onto f n (c ∷ acc) ≡ d ∷ s)
unfolding decimal_onto
decimal_onto-cons zero n c acc = (c, acc, refl)
decimal_onto-cons (suc f) n c acc =
    let rest = decimal_onto-cons f (n / 10) (b'0' + n % 10) (c ∷ acc) in
    elim (Bool-cases (ltb n 10)) [
      | inl small ↦ (b'0' + n, c ∷ acc, rw small refl)
      | inr big ↦ (rest.0, rest.1, rw big rest.2)
    ]

decimal-cons : (n : ℕ) → (d : ℕ) × (s : Text) × (decimal n ≡ d ∷ s)
unfolding decimal decimal_onto
decimal-cons n =
    let rest = decimal_onto-cons n (n / 10) (b'0' + n % 10) [] in
    elim (Bool-cases (ltb n 10)) [
      | inl small ↦ (b'0' + n, [], rw small refl)
      | inr big ↦ (rest.0, rest.1, rw big rest.2)
    ]

all_digits-decimal : (n : ℕ) → all_digits (decimal n) ≡ true
unfolding decimal all_digits
all_digits-decimal n = all_digits-decimal_onto (suc n) n [] refl

parse_digits-decimal : (n : ℕ) → parse_digits (decimal n) ≡ some n
unfolding parse_digits
parse_digits-decimal n =
    go (decimal n) (decimal-cons n).2 (all_digits-decimal n) (value_from-decimal n)
  where
    go :
        (s : Text) {d : ℕ} {r : Text}
        → s ≡ d ∷ r
        → all_digits s ≡ true
        → value_from 0 s ≡ n
        → parse_digits s ≡ some n
    go [] e h v = cc
    go (c ∷ s) e h v = rw h (ap some v)

keep_right-cons : (c : ℕ) (s : Text) → is_space c ≡ false → keep_right c s ≡ c ∷ s
keep_right-cons c [] h = rw h refl
keep_right-cons c (d ∷ s) h = refl

trim_right-newline : (s : Text) → solid s ≡ true → trim_right (s ++ 10 ∷ []) ≡ s
unfolding solid trim_right
trim_right-newline [] h = refl
trim_right-newline (c ∷ s) h =
    rw (trim_right-newline s (ground arith)) (keep_right-cons c s (ground arith))

trim_left-solid : (s : Text) → solid s ≡ true → trim_left s ≡ s
unfolding solid trim_left
trim_left-solid [] h = refl
trim_left-solid (c ∷ s) h = let ink : is_space c ≡ false = ground arith in rw ink refl

trim_space-newline : (s : Text) → solid s ≡ true → trim_space (s ++ 10 ∷ []) ≡ s
unfolding trim_space
trim_space-newline s h = rw (trim_right-newline s h) (trim_left-solid s h)

solid-print_int : (k : Integer) → solid (print_int k) ≡ true
unfolding print_int solid
solid-print_int (nonneg n) = all_digits-solid (decimal n) (all_digits-decimal n)
solid-print_int (negative n) = all_digits-solid (decimal (suc n)) (all_digits-decimal (suc n))

parse_int-digits :
    (n : ℕ) (s : Text)
    → in_int64 (nonneg n) ≡ true
    → all_digits s ≡ true
    → parse_digits s ≡ some n
    → parse_int s ≡ some (nonneg n)
unfolding parse_int all_digits parse_digits
parse_int-digits n [] h a p = cc
parse_int-digits n (c ∷ s) h a p =
    let not_minus : nat_beq c b'-' ≡ false = ground arith in
    let not_plus : nat_beq c b'+' ≡ false = ground arith in
    rw (not_minus, not_plus) (subst (λ o. signed nonneg o ≡ some (nonneg n)) (sym p) (rw h refl))

parse_int-print_int : (k : Integer) → in_int64 k ≡ true → parse_int (print_int k) ≡ some k
unfolding parse_int print_int
parse_int-print_int (nonneg n) h =
    parse_int-digits n (decimal n) h (all_digits-decimal n) (parse_digits-decimal n)
parse_int-print_int (negative n) h = rw (parse_digits-decimal (suc n), h) refl

-- A printed integer on a line of its own is read back.
pub parse_int-line :
    (k : Integer) → in_int64 k ≡ true → parse_int (trim_space (print_int k ++ 10 ∷ [])) ≡ some k
parse_int-line k h =
    ap parse_int (trim_space-newline (print_int k) (solid-print_int k)) ∙ parse_int-print_int k h
