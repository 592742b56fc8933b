-- ===== src/Text/Search/Decimal.antt =====
-- `to_string` on a number: what it prints determines the number.
use Prim.Native.Nat.{◌*◌, ◌/◌, ◌%◌}
use wardsweep.Base.{
  ◌≡◌, refl, sym, ap, ◌∙◌, ℕ, zero, suc, ◌+◌, ◌-◌, ◌<◌, [], ◌∷◌, ◌++◌, ltb, Bool-cases, inl, inr,
  arith,
}
use wardsweep.Text.Chars.{Text}
use wardsweep.Text.Search.{digits, decimal}

-- The number that a list of decimal digits stands for, after those that are read already.
unfoldable read_from : ℕ → Text → ℕ
read_from sofar [] = sofar
read_from sofar (c ∷ cs) = read_from (sofar * 10 + (c - b'0')) cs

read_from-append :
    (cs : Text) (sofar c : ℕ)
    → read_from sofar (cs ++ (c ∷ [])) ≡ read_from sofar cs * 10 + (c - b'0')
unfolding read_from
read_from-append [] sofar c = refl
read_from-append (d ∷ cs) sofar c = read_from-append cs (sofar * 10 + (d - b'0')) c

read_from-digits : (fuel n : ℕ) → n < fuel → read_from 0 (digits fuel n) ≡ n
unfolding digits read_from
read_from-digits zero n h = absurd (omega (arith, h))
read_from-digits (suc fuel) n h = elim (Bool-cases (ltb n 10)) [
  | inl small ↦ rw small (omega arith)
  | inr large ↦ rw large (
      read_from-append (digits fuel (n / 10)) 0 (b'0' + n % 10)
      ∙ (ap (λ x. x * 10 + (b'0' + n % 10 - b'0')) (read_from-digits fuel (n / 10) (ground arith))
          ∙ omega arith))
]

pub decimal_injective : (m n : ℕ) → decimal m ≡ decimal n → m ≡ n
unfolding decimal
decimal_injective m n e =
    sym (read_from-digits (suc m) m (omega arith))
    ∙ (ap (read_from 0) e ∙ read_from-digits (suc n) n (omega arith))
