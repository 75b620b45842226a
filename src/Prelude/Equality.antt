-- ===== src/Prelude/Equality.antt =====
-- The comparison of keys, numbers and names: a Boolean test that decides the path.
use Prim.Native.Nat.{ℕ, compare, Ordering}
use Prim.Native.String.{String}
use mathlib.Core.Path.{◌≡◌}
use mathlib.Core.Logic.{◌↔◌}
use mathlib.Core.Bool.{Bool, true, false, ◌&&◌}
use native.Mathlib.Omega.{arith}
use text.Mathlib.Text.{◌==◌ as text_test}
use text.Mathlib.TextEquality.{eq_iff}

-- A type whose values Python compares by `==`.
pub record Comparable {ℓ} (K : Type ℓ) : Type ℓ where
  pub same : K → K → Bool
  pub same_iff : (k j : K) → (same k j ≡ true) ↔ (k ≡ j)

module _ {ℓ} {K : Type ℓ} ⦃c : Comparable K⦄ where
  infix 50 ◌==◌
  abbrev pub ◌==◌ : K → K → Bool
  k == j = c.same k j

abbrev pub count_test : ℕ → ℕ → Bool
count_test m n = elim (compare m n) [ Ordering.eq ↦ true | _ ↦ false ]

pub count_test_iff : (m n : ℕ) → (count_test m n ≡ true) ↔ (m ≡ n)
count_test_iff m n = ground arith

-- The two parts of a key are compared one after the other, as Python compares tuples.
abbrev pub pair_test : String × String → String × String → Bool
pair_test (a, b) (c, d) = text_test a c && text_test b d

pub pair_test_iff : (p q : String × String) → (pair_test p q ≡ true) ↔ (p ≡ q)
pair_test_iff (a, b) (c, d) = ground (arith, eq_iff a c, eq_iff b d)

instance abbrev pub count_eq : Comparable ℕ
count_eq = record { same = count_test; same_iff = count_test_iff }

instance abbrev pub string_eq : Comparable String
string_eq = record { same = text_test; same_iff = eq_iff }

instance abbrev pub pair_eq : Comparable (String × String)
pair_eq = record { same = pair_test; same_iff = pair_test_iff }
