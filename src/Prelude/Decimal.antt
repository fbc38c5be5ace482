-- ===== src/Prelude/Decimal.antt =====
-- `f"{n}"` of a natural number: its decimal digits.
use Prim.Native.Char.{Char, code}
use Prim.Native.Nat.{ℕ, zero, suc, ◌+◌, ◌-◌, ◌*◌, ◌/◌, ◌%◌, ◌<◌}
use Prim.Native.String.{String}
use mathlib.Core.Path.{◌≡◌, refl, sym, ap, ◌∙◌}
use mathlib.Core.Logic.{inl, inr}
use native.Mathlib.Omega.{arith}
use realtime_py.Prelude.Tests.{◌==◌, Bool-cases, if◌then◌else◌}

digit : ℕ → Char
digit zero = "0"
digit (suc zero) = "1"
digit (suc (suc zero)) = "2"
digit (suc (suc (suc zero))) = "3"
digit (suc (suc (suc (suc zero)))) = "4"
digit (suc (suc (suc (suc (suc zero))))) = "5"
digit (suc (suc (suc (suc (suc (suc zero)))))) = "6"
digit (suc (suc (suc (suc (suc (suc (suc zero))))))) = "7"
digit (suc (suc (suc (suc (suc (suc (suc (suc zero)))))))) = "8"
digit (suc (suc (suc (suc (suc (suc (suc (suc (suc d))))))))) = "9"

emit : ℕ → ℕ → String → String
emit zero n out = out
emit (suc f) n out =
    let rest = emit f (n / 10) (String.◌∷◌ (digit (n % 10)) out) in
    if n / 10 == 0 then String.◌∷◌ (digit n) out else rest

unfoldable pub decimal : ℕ → String
unfolding digit emit
decimal n = emit (suc n) n ""

-- The number that a text of digits continues.
eval : ℕ → String → ℕ
eval a String.[] = a
eval a (String.◌∷◌ c s) = eval (a * 10 + (code c - 48)) s

code-digit : (d : ℕ) → d < 10 → code (digit d) ≡ 48 + d
unfolding digit
code-digit zero h = omega arith
code-digit (suc zero) h = omega arith
code-digit (suc (suc zero)) h = omega arith
code-digit (suc (suc (suc zero))) h = omega arith
code-digit (suc (suc (suc (suc zero)))) h = omega arith
code-digit (suc (suc (suc (suc (suc zero))))) h = omega arith
code-digit (suc (suc (suc (suc (suc (suc zero)))))) h = omega arith
code-digit (suc (suc (suc (suc (suc (suc (suc zero))))))) h = omega arith
code-digit (suc (suc (suc (suc (suc (suc (suc (suc zero)))))))) h = omega arith
code-digit (suc (suc (suc (suc (suc (suc (suc (suc (suc d))))))))) h = omega arith

eval-emit : (f n : ℕ) (out : String) → n < f → eval 0 (emit f n out) ≡ eval n out
unfolding emit eval
eval-emit zero n out h = absurd (omega arith)
eval-emit (suc f) n out h = elim (Bool-cases (n / 10 == 0)) [
  | inl small ↦ rw small (ap (λ a. eval a out) (ground (arith, code-digit n)))
  | inr big ↦
      rw (big, eval-emit f (n / 10) _ (ground arith))
        (ap (λ a. eval a out) (omega (arith, code-digit (n % 10))))
]

-- Different numbers have different texts.
pub decimal_injective : (m n : ℕ) → decimal m ≡ decimal n → m ≡ n
unfolding decimal eval
decimal_injective m n h =
    sym (eval-emit (suc m) m "" (omega arith))
    ∙ ap (eval 0) h
    ∙ eval-emit (suc n) n "" (omega arith)

-- The text of a number is not empty.
pub decimal_nonempty : (n : ℕ) → 0 < n → decimal n ≡ "" → ⊥
unfolding decimal eval
decimal_nonempty n h e =
    let zero_again : n ≡ 0 = sym (eval-emit (suc n) n "" (omega arith)) ∙ ap (eval 0) e in
    omega arith

decimal_test : decimal 1203 ≡ "1203"
unfolding decimal
decimal_test = refl
