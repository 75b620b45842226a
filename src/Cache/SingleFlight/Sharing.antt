-- ===== src/Cache/SingleFlight/Sharing.antt =====
-- One leader at a time, and its outcome is what every follower gets.
use tide_gate.Prelude.{
  ℕ, ◌≡◌, ◌≢◌, refl, String, string_eq, count_eq, false, none, some, List, [], ◌∷◌, arith,
  Bool-cases, Option-cases, inl, inr,
}
use tide_gate.Prelude.Dict.{lookup, has_key, lookup-insert, lookup-insert_self, lookup-erase_ne}
use tide_gate.Core.{UnifiedResponse}
use tide_gate.Cache.SingleFlight.{
  Outcome, result, exception, Flight, SingleFlight, acquire, set_outcome, resolve, reject, release,
}

-- a call of the class
pub data Call : Type 0 where
  acquires : String → Call
  resolves : Flight → UnifiedResponse → Call
  rejects : Flight → String → Call
  releases : Flight → Call

unfoldable pub call : Call → SingleFlight → SingleFlight
call (acquires key) s = (acquire key s).1
call (resolves f v) s = resolve f v s
call (rejects f exc) s = reject f exc s
call (releases f) s = release f s

unfoldable pub calls : List Call → SingleFlight → SingleFlight
unfolding call
calls [] s = s
calls (c ∷ cs) s = calls cs (call c s)

-- No call of the list releases the key.
abbrev pub Keeps : String → List Call → Type 0
Keeps key [] = Unit
Keeps key (acquires k ∷ cs) = Keeps key cs
Keeps key (resolves f v ∷ cs) = Keeps key cs
Keeps key (rejects f exc ∷ cs) = Keeps key cs
Keeps key (releases f ∷ cs) = (f.key ≢ key) × Keeps key cs

acquire-lookup :
    (key k : String) (s : SingleFlight) (future : ℕ)
    → lookup key s.futures ≡ some future
    → lookup key (acquire k s).1.futures ≡ some future
unfolding acquire
acquire-lookup key k s future h = elim (Option-cases (lookup k s.futures)) [
  | inl absent ↦
      rw (acquire, absent)
        (ground (arith, lookup-insert k key s.created s.futures, string_eq.same_iff k key))
  | inr (f, present) ↦ rw (acquire, present) h
]

acquire-outcomes : (k : String) (s : SingleFlight) → (acquire k s).1.outcomes ≡ s.outcomes
unfolding acquire
acquire-outcomes k s = ground arith

-- whether it has just led or follows, the flight of a key is in the dict
acquire-registers :
    (k : String) (s : SingleFlight) → lookup k (acquire k s).1.futures ≡ some (acquire k s).0.future
unfolding acquire
acquire-registers k s = elim (Option-cases (lookup k s.futures)) [
  | inl absent ↦ rw (acquire, absent) (lookup-insert_self k s.created s.futures)
  | inr (f, present) ↦ rw (acquire, present) present
]

acquire_follows :
    (k : String) (s : SingleFlight) (future : ℕ)
    → lookup k s.futures ≡ some future
    → acquire k s ≡ (record { key = k; future = future; leader = false }, s)
unfolding acquire
acquire_follows k s future h = rw (acquire, h) refl

set_outcome-keeps :
    (future f : ℕ) (o p : Outcome) (s : SingleFlight)
    → lookup future s.outcomes ≡ some o
    → lookup future (set_outcome f p s).outcomes ≡ some o
unfolding set_outcome
set_outcome-keeps future f o p s h = elim (Bool-cases (has_key f s.outcomes)) [
  | inl done ↦ rw (set_outcome, done) h
  | inr pending ↦
      rw (set_outcome, pending)
        (ground (arith, lookup-insert f future p s.outcomes, count_eq.same_iff f future))
]

set_outcome-futures :
    (f : ℕ) (p : Outcome) (s : SingleFlight) → (set_outcome f p s).futures ≡ s.futures
unfolding set_outcome
set_outcome-futures f p s = ground arith

calls-lookup :
    (key : String) (future : ℕ) (cs : List Call) (s : SingleFlight)
    → Keeps key cs
    → lookup key s.futures ≡ some future
    → lookup key (calls cs s).futures ≡ some future
unfolding calls resolve reject release
calls-lookup key future [] s k h = h
calls-lookup key future (acquires j ∷ cs) s k h =
    calls-lookup key future cs (acquire j s).1 k (acquire-lookup key j s future h)
calls-lookup key future (resolves f v ∷ cs) s k h =
    calls-lookup key future cs (resolve f v s) k (rw (set_outcome-futures f.future (result v) s) h)
calls-lookup key future (rejects f exc ∷ cs) s k h =
    calls-lookup key future cs (reject f exc s) k
      (rw (set_outcome-futures f.future (exception exc) s) h)
calls-lookup key future (releases f ∷ cs) s k h =
    calls-lookup key future cs (release f s) k.1 (rw (lookup-erase_ne f.key key s.futures k.0) h)

calls-outcome :
    (future : ℕ) (o : Outcome) (cs : List Call) (s : SingleFlight)
    → lookup future s.outcomes ≡ some o
    → lookup future (calls cs s).outcomes ≡ some o
unfolding calls resolve reject release
calls-outcome future o [] s h = h
calls-outcome future o (acquires j ∷ cs) s h =
    calls-outcome future o cs (acquire j s).1 (rw (acquire-outcomes j s) h)
calls-outcome future o (resolves f v ∷ cs) s h =
    calls-outcome future o cs (resolve f v s) (set_outcome-keeps future f.future o (result v) s h)
calls-outcome future o (rejects f exc ∷ cs) s h =
    calls-outcome future o cs (reject f exc s)
      (set_outcome-keeps future f.future o (exception exc) s h)
calls-outcome future o (releases f ∷ cs) s h = calls-outcome future o cs (release f s) h

resolve-outcome :
    (f : Flight) (v : UnifiedResponse) (s : SingleFlight)
    → lookup f.future s.outcomes ≡ none
    → lookup f.future (resolve f v s).outcomes ≡ some (result v)
unfolding resolve set_outcome
resolve-outcome f v s h = rw (set_outcome, h) (lookup-insert_self f.future (result v) s.outcomes)

-- Once a key has a flight, and until it is released, whoever acquires the key gets that flight's
-- future and does not lead; and if the flight is then resolved before it is done, the value stays what
-- its followers get, whatever other calls come after.
pub one_flight :
    (key : String) (before after : List Call) (v : UnifiedResponse) (s : SingleFlight)
    → Keeps key before
    → let (f, s') = acquire key s in
      let s'' = calls before s' in
      (acquire key s'' ≡ (record { key = key; future = f.future; leader = false }, s''))
      × (lookup f.future s''.outcomes ≡ none
          → lookup f.future (calls after (resolve f v s'')).outcomes ≡ some (result v))
one_flight key before after v s k =
    let (f, s') = acquire key s in
    let s'' = calls before s' in
    (
      acquire_follows key s'' f.future
          (calls-lookup key f.future before s' k (acquire-registers key s)),
      λ pending.
          calls-outcome f.future (result v) after (resolve f v s'')
            (resolve-outcome f v s'' pending),
    )
