-- ===== src/Cache/Entries/Recent.antt =====
-- The dict stays within its capacity, and forgets no entry before that many others came.
use tide_gate.Prelude.{
  ℕ, suc, ◌+◌, ◌≤◌, ◌<◌, ◌≡◌, ◌≢◌, ◌⊎◌, refl, String, string_eq, true, false, none, some, List, [],
  ◌∷◌, arith, ltb, length, ◌==◌, Bool-cases, inl, inr,
}
use tide_gate.Prelude.Dict.{
  Dict, lookup, insert, erase, length-insert-le, length-erase-le, lookup-erase_self,
}
use tide_gate.Cache.Entries.{RequestEntries, trim, put_last, remember_request_entry, evict_feedback}

-- The first entry of the request is `e`, and no more than `n` entries stand behind it.
abbrev pub Kept : String → String → ℕ → Dict String String → Type 0
Kept r e n [] = ⊥
Kept r e n ((k, v) ∷ m) = ((k ≡ r) × (v ≡ e) × (length m ≤ n)) ⊎ ((k ≢ r) × Kept r e n m)

Kept-lookup : (r e : String) (n : ℕ) (m : Dict String String) → Kept r e n m → lookup r m ≡ some e
unfolding lookup
Kept-lookup r e n [] h = absurd h
Kept-lookup r e n ((k, v) ∷ m) (inl (same, held, le)) = ground (arith, string_eq.same_iff k r)
Kept-lookup r e n ((k, v) ∷ m) (inr (other, h)) =
    ground (arith, string_eq.same_iff k r, Kept-lookup r e n m h)

not_same : (j k : String) → j ≢ k → (j == k) ≡ false
not_same j k ne = ground (arith, string_eq.same_iff j k)

not_over : (capacity n : ℕ) → suc n ≤ capacity → ltb capacity (suc n) ≡ false
not_over capacity n h = ground arith

more-Kept :
    (r e : String) (n n' : ℕ) (m : Dict String String) → n ≤ n' → Kept r e n m → Kept r e n' m
more-Kept r e n n' [] le h = absurd h
more-Kept r e n n' ((j, v) ∷ m) le (inl (same, held, few)) = inl (same, held, omega arith)
more-Kept r e n n' ((j, v) ∷ m) le (inr (other, h)) = inr (other, more-Kept r e n n' m le h)

erase-Kept :
    (r e k : String) (n : ℕ) (m : Dict String String)
    → k ≢ r
    → Kept r e n m
    → Kept r e n (erase k m)
unfolding erase
erase-Kept r e k n [] ne h = absurd h
erase-Kept r e k n ((j, v) ∷ m) ne (inl (same, held, le)) =
    rw (not_same j k (λ e. ne (rw e at same)))
      (inl (same, held, omega (arith, length-erase-le k m, le)))
erase-Kept r e k n ((j, v) ∷ m) ne (inr (other, h)) = elim (Bool-cases (j == k)) [
  | inl erased ↦ rw erased (erase-Kept r e k n m ne h)
  | inr stays ↦ rw stays (inr (other, erase-Kept r e k n m ne h))
]

insert-Kept :
    (r e k w : String) (n : ℕ) (m : Dict String String)
    → k ≢ r
    → Kept r e n m
    → Kept r e (n + 1) (insert k w m)
unfolding insert
insert-Kept r e k w n [] ne h = absurd h
insert-Kept r e k w n ((j, v) ∷ m) ne (inl (same, held, le)) =
    rw (not_same j k (λ e. ne (rw e at same)))
      (inl (same, held, omega (arith, length-insert-le k w m, le)))
insert-Kept r e k w n ((j, v) ∷ m) ne (inr (other, h)) = elim (Bool-cases (j == k)) [
  | inl here ↦ rw here (inr (ne, more-Kept r e n (n + 1) m (omega arith) h))
  | inr further ↦ rw further (inr (other, insert-Kept r e k w n m ne h))
]

trim-Kept :
    (r e : String) (n capacity : ℕ) (m : Dict String String)
    → n < capacity
    → Kept r e n m
    → Kept r e n (trim capacity m)
unfolding trim
trim-Kept r e n capacity [] lt h = absurd h
trim-Kept r e n capacity ((j, v) ∷ m) lt (inl (same, held, le)) =
    rw (not_over capacity (length m) (omega arith)) (inl (same, held, le))
trim-Kept r e n capacity ((j, v) ∷ m) lt (inr (other, h)) =
    elim (Bool-cases (ltb capacity (suc (length m)))) [
      | inl over ↦ rw over (trim-Kept r e n capacity m lt h)
      | inr fits ↦ rw fits (inr (other, h))
    ]

new-Kept : (r e : String) (m : Dict String String) → lookup r m ≡ none → Kept r e 0 (insert r e m)
unfolding insert lookup
new-Kept r e [] h = inl (refl, refl, omega arith)
new-Kept r e ((j, v) ∷ m) h = elim (Bool-cases (j == r)) [
  | inl here ↦ absurd (let bad = (rw here at h) in cc)
  | inr other ↦ rw other (
      inr (
        λ same. absurd (let yes_ = (string_eq.same_iff j r).1 same in cc),
        new-Kept r e m (rw other at h),
      ))
]

length-trim : (capacity : ℕ) (m : Dict String String) → length (trim capacity m) ≤ capacity
unfolding trim
length-trim capacity [] = omega arith
length-trim capacity (x ∷ m) = ground (arith, length-trim capacity m)

-- one answer after the other is remembered
unfoldable pub remember_all : ℕ → List (String × String) → RequestEntries → RequestEntries
remember_all capacity [] s = s
remember_all capacity ((r, e) ∷ more) s =
    remember_all capacity more (remember_request_entry capacity r (some e) s)

-- None of the answers is for the request.
abbrev pub Others : String → List (String × String) → Type 0
Others r [] = Unit
Others r ((k, e) ∷ more) = (k ≢ r) × Others r more

remember-Kept :
    (capacity : ℕ) (r e k w : String) (n : ℕ) (s : RequestEntries)
    → k ≢ r
    → n + 1 < capacity
    → Kept r e n s.entries
    → Kept r e (n + 1) (remember_request_entry capacity k (some w) s).entries
unfolding remember_request_entry put_last
remember-Kept capacity r e k w n s ne lt h =
    trim-Kept r e (n + 1) capacity (put_last k w s.entries) lt
      (insert-Kept r e k w n (erase k s.entries) ne (erase-Kept r e k n s.entries ne h))

remember_all-Kept :
    (capacity : ℕ) (r e : String) (n : ℕ) (more : List (String × String)) (s : RequestEntries)
    → Others r more
    → n + length more < capacity
    → Kept r e n s.entries
    → Kept r e (n + length more) (remember_all capacity more s).entries
unfolding remember_all
remember_all-Kept capacity r e n [] s o lt h = more-Kept r e n (n + 0) s.entries (omega arith) h
remember_all-Kept capacity r e n ((k, w) ∷ more) s o lt h =
    let s' = remember_request_entry capacity k (some w) s in
    more-Kept r e (n + 1 + length more) (n + length ((k, w) ∷ more))
      (remember_all capacity more s').entries (omega arith)
      (remember_all-Kept capacity r e (n + 1) more s' o.1 (omega arith)
        (remember-Kept capacity r e k w n s o.0 (omega arith) h))

remembered-Kept :
    (capacity : ℕ) (r e : String) (s : RequestEntries)
    → 0 < capacity
    → Kept r e 0 (remember_request_entry capacity r (some e) s).entries
unfolding remember_request_entry put_last
remembered-Kept capacity r e s lt =
    trim-Kept r e 0 capacity (put_last r e s.entries) lt
      (new-Kept r e (erase r s.entries) (lookup-erase_self r s.entries))

evicts :
    (r e : String) (s : RequestEntries)
    → lookup r s.entries ≡ some e
    → let (found, s') = evict_feedback r s in
      (found ≡ true) × (s'.deleted ≡ e ∷ s.deleted) × (lookup r s'.entries ≡ none)
unfolding evict_feedback
evicts r e s h = rw (evict_feedback, h) (refl, refl, lookup-erase_self r s.entries)

evicts_nothing :
    (r : String) (s : RequestEntries) → lookup r s.entries ≡ none → (evict_feedback r s).0 ≡ false
unfolding evict_feedback
evicts_nothing r s h = rw (evict_feedback, h) refl

within_capacity :
    (capacity : ℕ) (r e : String) (s : RequestEntries)
    → length (remember_request_entry capacity r (some e) s).entries ≤ capacity
unfolding remember_request_entry
within_capacity capacity r e s = length-trim capacity (put_last r e s.entries)

-- An answer's entry is evicted by the feedback on its request, once, if fewer answers to other
-- requests than the dict holds were remembered since; and the dict never holds more than that.
pub evict_feedback_recent :
    (capacity : ℕ) (r e : String) (more : List (String × String)) (s : RequestEntries)
    → Others r more
    → length more < capacity
    → let s' = remember_all capacity more (remember_request_entry capacity r (some e) s) in
      let (found, s'') = evict_feedback r s' in
      (found ≡ true)
      × (s''.deleted ≡ e ∷ s'.deleted)
      × ((evict_feedback r s'').0 ≡ false)
      × (length (remember_request_entry capacity r (some e) s).entries ≤ capacity)
evict_feedback_recent capacity r e more s o lt =
    let s1 = remember_request_entry capacity r (some e) s in
    let s' = remember_all capacity more s1 in
    let kept =
      remember_all-Kept capacity r e 0 more s1 o (omega arith)
        (remembered-Kept capacity r e s (omega arith)) in
    let found = Kept-lookup r e (0 + length more) s'.entries kept in
    (
      (evicts r e s' found).0,
      (evicts r e s' found).1,
      evicts_nothing r (evict_feedback r s').1 (evicts r e s' found).2,
      within_capacity capacity r e s,
    )
