-- ===== src/Base/Decimal.antt =====
-- Numbers in decimal, as `ostream <<` writes an unsigned one.
use Prim.Native.Nat.{ℕ, zero, suc, ◌+◌, ◌-◌, ◌*◌, ◌/◌, ◌%◌, ◌^◌, ◌<◌}
use mathlib.Core.Path.{◌≡◌, refl, ap, sym, ◌∙◌}
use mathlib.Core.Logic.{inl, inr}
use mathlib.Core.List.{[], ◌∷◌, ◌++◌}
use native.Mathlib.Omega.{arith}
use native.Mathlib.Nat.{pow-suc}
use elevator.Base.Tests.{ltb, if◌then◌else◌, Bool-cases}
use elevator.Base.Words.{Bytes}

-- At most `n` digits.
unfoldable pub digits : ℕ → ℕ → Bytes
digits zero v = []
digits (suc n) v =
    let front = digits n (v / 10) in
    if ltb v 10 then (48 + v) ∷ [] else front ++ ((48 + v % 10) ∷ [])

-- Twenty digits are enough for 64 bits.
unfoldable pub decimal : ℕ → Bytes
unfolding digits
decimal v = digits 20 v

-- The number that digits stand for, after `acc`.
unfoldable pub value_from : ℕ → Bytes → ℕ
value_from acc [] = acc
value_from acc (b ∷ bs) = value_from (acc * 10 + (b - 48)) bs

value_from-append :
    (acc b : ℕ) (bs : Bytes) → value_from acc (bs ++ (b ∷ [])) ≡ value_from acc bs * 10 + (b - 48)
unfolding value_from
value_from-append acc b [] = refl
value_from-append acc b (c ∷ bs) = value_from-append (acc * 10 + (c - 48)) b bs

value_from-digits : (n v : ℕ) → v < 10 ^ n → value_from 0 (digits n v) ≡ v
unfolding digits
value_from-digits zero v h = unfold value_from in omega arith
value_from-digits (suc n) v h = elim (Bool-cases (ltb v 10)) [
  | inl one ↦ rw one (unfold value_from in omega arith)
  | inr more ↦ rw more (
      value_from-append 0 (48 + v % 10) (digits n (v / 10))
      ∙ (let e = value_from-digits n (v / 10) (let p = pow-suc 10 n in omega arith) in omega arith))
]

-- Different numbers are written differently.
pub decimal-inj : (v w : ℕ) → v < 10 ^ 20 → w < 10 ^ 20 → decimal v ≡ decimal w → v ≡ w
unfolding decimal
decimal-inj v w h k e =
    sym (value_from-digits 20 v h) ∙ ap (value_from 0) e ∙ value_from-digits 20 w k
