-- ===== src/Cache/Ranking/Best.antt =====
-- The best candidate is returned if it reaches the threshold, and only then.
use tide_gate.Prelude.{
  ℕ, ◌≡◌, ◌≢◌, ◌⊎◌, refl, sym, string_eq, Bool, true, false, Option, none, some, List, [], ◌∷◌,
  arith, if◌then◌else◌, length, ◌==◌, count_eq, Bool-cases, inl, inr,
}
use tide_gate.Prelude.Int.{ℤ, ltb_ℤ, ◌≤ℤ◌}
use mathlib.Core.Path.{subst}
use tide_gate.Core.{UnifiedResponse}
use tide_gate.Cache.Ranking.{SemanticHit, Candidate, scored, highest, take_best, best_reranked_hit}

-- Every score is at most `top`.
abbrev pub AtMost : ℤ → List (ℤ × Candidate) → Type 0
AtMost top [] = Unit
AtMost top (c ∷ cs) = (c.0 ≤ℤ top) × AtMost top cs

abbrev pub Among : ℤ × Candidate → List (ℤ × Candidate) → Type 0
Among c [] = ⊥
Among c (d ∷ cs) = (c ≡ d) ⊎ Among c cs

le_trans : (a b c : ℤ) → a ≤ℤ b → b ≤ℤ c → a ≤ℤ c
le_trans a b c h k = omega arith

highest_next :
    (best c : ℤ × Candidate) (cs : List (ℤ × Candidate)) (t : Bool)
    → ltb_ℤ best.0 c.0 ≡ t
    → highest best (c ∷ cs) ≡ highest (if t then c else best) cs
unfolding highest
highest_next best c cs t h = rw (highest, h) refl

abbrev Tops : ℤ × Candidate → List (ℤ × Candidate) → ℤ × Candidate → Type 0
Tops best cs top = (best.0 ≤ℤ top.0) × AtMost top.0 cs × ((top ≡ best) ⊎ Among top cs)

highest-Tops : (best : ℤ × Candidate) (cs : List (ℤ × Candidate)) → Tops best cs (highest best cs)
unfolding highest
highest-Tops best [] = (omega arith, tt, inl refl)
highest-Tops best (c ∷ cs) = elim (Bool-cases (ltb_ℤ best.0 c.0)) [
  | inl less ↦
      let (top, all, from) = highest-Tops c cs in
      subst (λ (x : ℤ × Candidate). Tops best (c ∷ cs) x) (sym (highest_next best c cs true less))
        (le_trans best.0 c.0 (highest c cs).0 (ground arith) top, (top, all), inr from)
  | inr not_less ↦
      let (top, all, from) = highest-Tops best cs in
      subst (λ (x : ℤ × Candidate). Tops best (c ∷ cs) x)
        (sym (highest_next best c cs false not_less))
        (
          top,
          (le_trans c.0 best.0 (highest best cs).0 (ground arith) top, all),
          elim from [ inl e ↦ inl e | inr i ↦ inr (inr i) ],
        )
]

-- No score reaches the threshold.
abbrev pub AllBelow : ℤ → List (ℤ × Candidate) → Type 0
AllBelow t [] = Unit
AllBelow t (c ∷ cs) = (ltb_ℤ c.0 t ≡ true) × AllBelow t cs

-- What comes of the scored candidates: the first with the highest score, which then replaces its own,
-- if that reaches the threshold, and nothing if no score does.
pub data Ranked (threshold : ℤ) (cs : List (ℤ × Candidate)) : Option Candidate → Type 0 where
  none_reaches : AllBelow threshold cs → Ranked threshold cs none
  best :
      (score : ℤ) (hit : SemanticHit) (response : UnifiedResponse)
      → Among (score, (hit, response)) cs
      → AtMost score cs
      → threshold ≤ℤ score
      → Ranked threshold cs (some (record hit { score = score }, response))

below : (top t : ℤ) (cs : List (ℤ × Candidate)) → AtMost top cs → ltb_ℤ top t ≡ true → AllBelow t cs
below top t [] a h = tt
below top t (c ∷ cs) a h = (ground arith, below top t cs a.1 h)

take_best-Ranked :
    (threshold : ℤ) (cs : List (ℤ × Candidate)) → Ranked threshold cs (take_best threshold cs)
unfolding take_best
take_best-Ranked threshold [] = none_reaches tt
take_best-Ranked threshold (c ∷ cs) =
    let (top, all, from) = highest-Tops c cs in
    elim (Bool-cases (ltb_ℤ (highest c cs).0 threshold)) [
      | inl short ↦
          rw (take_best, short)
            (none_reaches (below (highest c cs).0 threshold (c ∷ cs) (top, all) short))
      | inr enough ↦
          rw (take_best, enough)
            (best (highest c cs).0 (highest c cs).1.0 (highest c cs).1.1 from (top, all)
              (ground arith))
    ]

unequal : (m n : ℕ) → m ≢ n → (m == n) ≡ false
unequal m n h = ground (arith, count_eq.same_iff m n)

-- With one score for each candidate, the answer is the candidate with the highest score, which it
-- carries, if that reaches the threshold, and none if no score does; with another number of scores it
-- is none.
pub best_reranked_hit-Ranked :
    (candidates : List Candidate) (scores : List ℤ) (threshold : ℤ)
    → let hit = best_reranked_hit candidates scores threshold in
      (length candidates ≡ length scores → Ranked threshold (scored candidates scores) hit)
      × (length candidates ≢ length scores → hit ≡ none)
unfolding best_reranked_hit
best_reranked_hit-Ranked candidates scores threshold = (
  λ h.
      rw (best_reranked_hit, (count_eq.same_iff (length candidates) (length scores)).1 h)
        (take_best-Ranked threshold (scored candidates scores)),
  λ h. rw (best_reranked_hit, unequal (length candidates) (length scores) h) refl,
)
