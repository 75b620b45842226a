-- ===== src/Prelude/Text.antt =====
-- A text as the list of its code points, and the searches that Python makes in it.
use Prim.Native.Char.{code}
use Prim.Native.String.{String}
use tide_gate.Prelude.{
  ℕ, Bool, true, false, ◌&&◌, ◌||◌, List, [], ◌∷◌, ◌+◌, if◌then◌else◌, ltb, leb, ◌==◌, ◌≡◌, ◌↔◌,
  Comparable, count_eq, arith,
}

unfoldable pub codes : String → List ℕ
codes String.[] = []
codes (String.◌∷◌ c s) = code c ∷ codes s

abbrev pub begins_with : List ℕ → List ℕ → Bool
begins_with [] text = true
begins_with (p ∷ ps) [] = false
begins_with (p ∷ ps) (c ∷ cs) = p == c && begins_with ps cs

-- `pattern in text`
abbrev pub occurs_in : List ℕ → List ℕ → Bool
occurs_in pattern [] = begins_with pattern []
occurs_in pattern (c ∷ cs) = begins_with pattern (c ∷ cs) || occurs_in pattern cs

abbrev pub within : ℕ → ℕ → ℕ → Bool
within low high c = leb low c && leb c high

-- `str.isspace` of one code point
abbrev pub is_space : ℕ → Bool
is_space c =
    within 9 13 c
    || within 28 32 c
    || c == 133
    || c == 160
    || c == 5760
    || within 8192 8202 c
    || within 8232 8233 c
    || c == 8239
    || c == 8287
    || c == 12288

abbrev pub lstrip : List ℕ → List ℕ
lstrip [] = []
lstrip (c ∷ cs) = if is_space c then lstrip cs else c ∷ cs

abbrev pub reverse_onto : List ℕ → List ℕ → List ℕ
reverse_onto [] done = done
reverse_onto (c ∷ cs) done = reverse_onto cs (c ∷ done)

-- `text.strip()`
abbrev pub strip : List ℕ → List ℕ
strip cs = reverse_onto (lstrip (reverse_onto (lstrip cs) [])) []

-- `len(text.encode("utf-8"))`
abbrev pub utf8_length : List ℕ → ℕ
utf8_length [] = 0
utf8_length (c ∷ cs) =
    (if ltb c 128 then 1 else if ltb c 2048 then 2 else if ltb c 65536 then 3 else 4)
    + utf8_length cs

abbrev pub codes_test : List ℕ → List ℕ → Bool
codes_test [] [] = true
codes_test [] (c ∷ cs) = false
codes_test (p ∷ ps) [] = false
codes_test (p ∷ ps) (c ∷ cs) = p == c && codes_test ps cs

pub codes_test_iff : (p c : List ℕ) → (codes_test p c ≡ true) ↔ (p ≡ c)
codes_test_iff [] [] = ground arith
codes_test_iff [] (c ∷ cs) = ground arith
codes_test_iff (p ∷ ps) [] = ground arith
codes_test_iff (p ∷ ps) (c ∷ cs) = ground (arith, codes_test_iff ps cs, count_eq.same_iff p c)

instance abbrev pub codes_eq : Comparable (List ℕ)
codes_eq = record { same = codes_test; same_iff = codes_test_iff }
