-- ===== src/Json/Sample.antt =====
-- A concrete `IsoFormat` for tests: a time is written in unary.
use Prim.Native.String.{[], ◌∷◌}
use rann_agent.Prelude.{
  ℕ, zero, suc, String, ◌≡◌, refl, ap, ◌-◌, str_eq, false, eq_iff, arith, Bool-cases, inl, inr,
  Option, some,
}
use rann_agent.Json.{IsoFormat}

unfoldable pub tally : ℕ → String
tally zero = []
tally (suc n) = "0" ∷ tally n

unfoldable pub count : String → ℕ
count [] = 0
count (c ∷ s) = suc (count s)

count-tally : (n : ℕ) → count (tally n) ≡ n
unfolding count tally
count-tally zero = refl
count-tally (suc n) = ap suc (count-tally n)

pub fromisoformat-tally : (n : ℕ) → some (count (tally (suc n)) - 1) ≡ some n
unfolding count tally
fromisoformat-tally n = ap {B = Option ℕ} some (omega (arith, count-tally n))

pub tally_nonempty : (n : ℕ) → str_eq (tally (suc n)) "" ≡ false
unfolding count
tally_nonempty n = elim (Bool-cases (str_eq (tally (suc n)) "")) [
  | inl e ↦ absurd (omega (arith, count-tally (suc n), ap count ((eq_iff (tally (suc n)) "").0 e)))
  | inr e ↦ e
]

unfoldable pub unary : IsoFormat
unfolding tally count
unary = record {
  isoformat = λ t. tally (suc t);
  fromisoformat = λ s. some (count s - 1);
  fromisoformat-isoformat = fromisoformat-tally;
  isoformat_nonempty = tally_nonempty;
}
