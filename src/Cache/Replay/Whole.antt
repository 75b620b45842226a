-- ===== src/Cache/Replay/Whole.antt =====
-- A replayed stream carries the whole response, in chunks of the configured size.
use tide_gate.Prelude.{
  ℕ, zero, suc, ◌≤◌, ◌≡◌, refl, sym, ap, ◌∙◌, String, Option, none, some, List, [], ◌∷◌, ◌++◌,
  arith, length, take, drop, get_or, length-drop,
}
use tide_gate.Core.{Usage, UnifiedDelta, UnifiedResponse}
use tide_gate.Cache.Replay.{content_deltas, chunks, replay_as_stream}

-- what a client puts together from a stream: the text, the last finish reason, the last usage
abbrev pub text_of : List UnifiedDelta → List ℕ
text_of [] = []
text_of (d ∷ ds) = get_or d.content [] ++ text_of ds

abbrev or_last {ℓ} : {A : Type ℓ} → Option A → Option A → Option A
or_last none later = later
or_last (some a) none = some a
or_last (some a) (some b) = some b

abbrev pub finish_of : List UnifiedDelta → Option String
finish_of [] = none
finish_of (d ∷ ds) = or_last d.finish_reason (finish_of ds)

abbrev pub usage_of : List UnifiedDelta → Option Usage
usage_of [] = none
usage_of (d ∷ ds) = or_last d.usage (usage_of ds)

-- Every chunk has between one and `n` characters.
abbrev pub Sized : ℕ → List UnifiedDelta → Type 0
Sized n [] = Unit
Sized n (d ∷ ds) =
    ((c : List ℕ) → d.content ≡ some c → (1 ≤ length c) × (length c ≤ n)) × Sized n ds

take-drop : (n : ℕ) (cs : List ℕ) → take n cs ++ drop n cs ≡ cs
take-drop zero cs = refl
take-drop (suc n) [] = refl
take-drop (suc n) (c ∷ cs) = ap (λ (r : List ℕ). c ∷ r) (take-drop n cs)

length-take-le : (n : ℕ) (cs : List ℕ) → length (take n cs) ≤ n
length-take-le zero cs = omega arith
length-take-le (suc n) [] = omega arith
length-take-le (suc n) (c ∷ cs) = omega (arith, length-take-le n cs)

length-take-pos : (n c : ℕ) (cs : List ℕ) → 1 ≤ n → 1 ≤ length (take n (c ∷ cs))
length-take-pos zero c cs h = absurd (omega arith)
length-take-pos (suc n) c cs h = omega arith

append_assoc : (a b c : List ℕ) → (a ++ b) ++ c ≡ a ++ (b ++ c)
append_assoc [] b c = refl
append_assoc (x ∷ a) b c = ap (λ (r : List ℕ). x ∷ r) (append_assoc a b c)

module _ (n : ℕ) (tail : List UnifiedDelta) where
  text_of-chunks :
      (fuel : ℕ) (cs : List ℕ)
      → 1 ≤ n
      → length cs ≤ fuel
      → text_of (content_deltas (chunks fuel n cs) ++ tail) ≡ cs ++ text_of tail
  unfolding chunks
  text_of-chunks zero [] p h = refl
  text_of-chunks zero (c ∷ cs) p h = absurd (omega arith)
  text_of-chunks (suc fuel) [] p h = refl
  text_of-chunks (suc fuel) (c ∷ cs) p h =
      let chunk = take n (c ∷ cs) in
      let later = drop n (c ∷ cs) in
      ap (λ (r : List ℕ). chunk ++ r)
        (text_of-chunks fuel later p (omega (arith, length-drop n (c ∷ cs))))
      ∙ sym (append_assoc chunk later (text_of tail))
      ∙ ap (λ (r : List ℕ). r ++ text_of tail) (take-drop n (c ∷ cs))

  finish_of-chunks :
      (fuel : ℕ) (cs : List ℕ)
      → finish_of (content_deltas (chunks fuel n cs) ++ tail) ≡ finish_of tail
  unfolding chunks
  finish_of-chunks zero cs = refl
  finish_of-chunks (suc fuel) [] = refl
  finish_of-chunks (suc fuel) (c ∷ cs) = finish_of-chunks fuel (drop n (c ∷ cs))

  usage_of-chunks :
      (fuel : ℕ) (cs : List ℕ)
      → usage_of (content_deltas (chunks fuel n cs) ++ tail) ≡ usage_of tail
  unfolding chunks
  usage_of-chunks zero cs = refl
  usage_of-chunks (suc fuel) [] = refl
  usage_of-chunks (suc fuel) (c ∷ cs) = usage_of-chunks fuel (drop n (c ∷ cs))

  chunks-Sized :
      (fuel : ℕ) (cs : List ℕ)
      → 1 ≤ n
      → Sized n tail
      → Sized n (content_deltas (chunks fuel n cs) ++ tail)
  unfolding chunks
  chunks-Sized zero cs p t = t
  chunks-Sized (suc fuel) [] p t = t
  chunks-Sized (suc fuel) (c ∷ cs) p t = (
    λ chunk e.
        rw (← ap (λ (o : Option (List ℕ)). get_or o []) e)
          (length-take-pos n c cs p, length-take-le n (c ∷ cs)),
    chunks-Sized fuel (drop n (c ∷ cs)) p t,
  )

append_nil : (cs : List ℕ) → cs ++ [] ≡ cs
append_nil [] = refl
append_nil (c ∷ cs) = ap (λ (r : List ℕ). c ∷ r) (append_nil cs)

-- the two deltas that end a replayed stream
abbrev ending : UnifiedResponse → List UnifiedDelta
ending response =
    record { content = none; finish_reason = some response.finish_reason; usage = none }
    ∷ record { content = none; finish_reason = none; usage = some response.usage }
    ∷ []

-- With at least one character to a chunk, the chunks of a replayed stream have between one and that
-- many characters, and the client that puts the stream together gets the content, the finish reason
-- and the usage of the response.
pub replay_as_stream-whole :
    (n : ℕ) (response : UnifiedResponse)
    → 1 ≤ n
    → let stream = replay_as_stream n response in
      (text_of stream ≡ response.content)
      × (finish_of stream ≡ some response.finish_reason)
      × (usage_of stream ≡ some response.usage)
      × Sized n stream
unfolding replay_as_stream
replay_as_stream-whole n response p =
    let cs = response.content in
    let tail = ending response in
    (
      text_of-chunks n tail (length cs) cs p (omega arith) ∙ append_nil cs,
      finish_of-chunks n tail (length cs) cs,
      usage_of-chunks n tail (length cs) cs,
      chunks-Sized n tail (length cs) cs p (λ c e. absurd (cc), (λ c e. absurd (cc), tt)),
    )
