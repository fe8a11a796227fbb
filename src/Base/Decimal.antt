-- ===== src/Base/Decimal.antt =====
-- Numbers printed in decimal, as fmt's %d and strconv's FormatInt print one that is not negative,
-- and read back.
use Prim.Native.Nat.{ℕ, zero, suc, ◌+◌, ◌-◌, ◌*◌, ◌/◌, ◌%◌, ◌^◌, ◌≤◌, ◌<◌}
use mathlib.Core.List.{[], ◌∷◌}
use mathlib.Core.Path.{◌≡◌, sym, ap, ◌∙◌}
use mathlib.Core.Logic.{inl, inr}
use native.Mathlib.Omega.{arith}
use native.Mathlib.Nat.{pow-suc}
use yaghan.Base.Tests.{ltb, if◌then◌else◌, Bool-cases}
use yaghan.Base.Lists.{length}
use yaghan.Base.Text.{Text}

unfoldable pub decimal_onto : ℕ → ℕ → Text → Text
decimal_onto zero n acc = acc
decimal_onto (suc f) n acc =
    let rest = decimal_onto f (n / 10) ((b'0' + n % 10) ∷ acc) in
    if ltb n 10 then (b'0' + n) ∷ acc else rest

unfoldable pub decimal : ℕ → Text
decimal n = decimal_onto (suc n) n []

unfoldable pub value_from : ℕ → Text → ℕ
value_from acc [] = acc
value_from acc (c ∷ s) = value_from (acc * 10 + (c - b'0')) s

value_from-decimal_onto :
    (f n : ℕ) (acc : Text) → n < f → value_from 0 (decimal_onto f n acc) ≡ value_from n acc
unfolding decimal_onto value_from
value_from-decimal_onto zero n acc h = elim h [ ]
value_from-decimal_onto (suc f) n acc h = elim (Bool-cases (ltb n 10)) [
  | inl small ↦ rw small (ap (λ k. value_from k acc) (omega arith))
  | inr big ↦ rw big (
      value_from-decimal_onto f (n / 10) ((b'0' + n % 10) ∷ acc) (ground arith)
      ∙ ap (λ k. value_from k acc) (omega arith))
]

-- Reading a printed number gives the number back.
pub value_from-decimal : (n : ℕ) → value_from 0 (decimal n) ≡ n
unfolding decimal value_from
value_from-decimal n = value_from-decimal_onto (suc n) n [] (omega arith)

pub decimal-injective : (m n : ℕ) → decimal m ≡ decimal n → m ≡ n
decimal-injective m n e = sym (value_from-decimal m) ∙ ap (value_from 0) e ∙ value_from-decimal n

length-decimal_onto :
    (k f n : ℕ) (acc : Text) → n < 10 ^ suc k → length (decimal_onto f n acc) ≤ suc k + length acc
unfolding decimal_onto
length-decimal_onto k zero n acc h = omega arith
length-decimal_onto zero (suc f) n acc h = ground arith
length-decimal_onto (suc k) (suc f) n acc h =
    let small : n / 10 < 10 ^ suc k = omega (arith, pow-suc 10 (suc k)) in
    ground (arith, length-decimal_onto k f (n / 10) ((b'0' + n % 10) ∷ acc) small)

-- A number below 10 ^ k prints in at most k digits, for k at least 1.
pub length-decimal : (k n : ℕ) → n < 10 ^ suc k → length (decimal n) ≤ suc k
unfolding decimal
length-decimal k n h = omega (arith, length-decimal_onto k (suc n) n [] h)
