-- ===== src/Routing/Stats/Average.antt =====
-- The exponentially weighted averages stay between the old value and the sample.
use tide_gate.Prelude.{ℕ, ◌+◌, ◌-◌, ◌*◌, ◌/◌, ◌≤◌, ◌<◌, min, max, ◌≡◌, Bool, true, false, arith}
use tide_gate.Config.{Ratio}
use tide_gate.Routing.Stats.{ewma}

le_div : (a d x : ℕ) → 0 < d → a * d ≤ x → a ≤ x / d
le_div a d x p h = grind arith

div_le : (a d x : ℕ) → 0 < d → x ≤ a * d → x / d ≤ a
div_le a d x p h = grind arith

mean_ge : (n r d s c m : ℕ) → n + r ≡ d → m ≤ s → m ≤ c → m * d ≤ n * s + r * c
mean_ge n r d s c m e h k = rw (← e) (grind arith)

mean_le : (n r d s c m : ℕ) → n + r ≡ d → s ≤ m → c ≤ m → n * s + r * c ≤ m * d
mean_le n r d s c m e h k = rw (← e) (grind arith)

-- With a weight between 0 and 1 the new average lies between the old average and the sample.
pub ewma-between :
    (current sample : ℕ) (alpha : Ratio) (initialized : Bool)
    → 0 < alpha.den
    → alpha.num ≤ alpha.den
    → (min current sample ≤ ewma current sample alpha initialized)
      × (ewma current sample alpha initialized ≤ max current sample)
unfolding ewma
ewma-between current sample alpha false p h = ground arith
ewma-between current sample alpha true p h =
    let r : ℕ = alpha.den - alpha.num in
    let low : ℕ = min current sample in
    let high : ℕ = max current sample in
    (
      le_div low alpha.den (alpha.num * sample + r * current) p (
          mean_ge alpha.num r alpha.den sample current low (omega arith) (omega arith)
            (omega arith)),
      div_le high alpha.den (alpha.num * sample + r * current) p (
          mean_le alpha.num r alpha.den sample current high (omega arith) (omega arith)
            (omega arith)),
    )
