-- ===== src/Cache/Levels/Shrinks.antt =====
-- A lookup writes no response and no document: it removes some, and notes the times of the hits.
use mathlib.Core.Path.{subst}
use tide_gate.Cache.Levels.{broken, drop_entry, note_hit}
use tide_gate.Prelude.{
  ap, ℕ, String, string_eq, ◌≡◌, refl, ◌∙◌, Bool, true, false, Option, none, some, List, Bool-cases,
  Option-cases, inl, inr, count_eq,
}
use tide_gate.Prelude.Text.{codes_eq}
use tide_gate.Prelude.Dict.{lookup, lookup-erase_cases, lookup-insert_cases}
use tide_gate.Cache.Levels.{
  Levels, l1_get, l2_delete, mark_hit, SemcacheDocument, when, drop_l1, CallOutcome, SemcacheHash,
  intact, StoredValue, carried_out, is_answered, hit_at,
}
use tide_gate.Core.{UnifiedResponse}

abbrev pub HasDocument : Levels → String → SemcacheDocument → Type 0
HasDocument s id doc =
    (h : SemcacheHash) × (lookup id s.semcache ≡ some h) × (h.document ≡ some doc)

-- every response and every document of the one are in the other, in their places
abbrev pub Within : Levels → Levels → Type 0
Within s s' =
    ((k : List ℕ) (r : UnifiedResponse)
      → lookup k s.l1 ≡ some (intact r)
      → lookup k s'.l1 ≡ some (intact r))
    × ((id : String) (doc : SemcacheDocument) → HasDocument s id doc → HasDocument s' id doc)

pub Within-refl : (s : Levels) → Within s s
Within-refl s = (λ k r h. h, λ id doc h. h)

pub Within-trans : (s s' s'' : Levels) → Within s s' → Within s' s'' → Within s s''
Within-trans s s' s'' f g = (λ k r h. g.0 k r (f.0 k r h), λ id doc h. g.1 id doc (f.1 id doc h))

pub when-Within :
    (b : Bool) (f : Levels → Levels) (s : Levels) → Within (f s) s → Within (when b f s) s
when-Within true f s h = h
when-Within false f s h = Within-refl s

pub drop_l1-Within : (key : List ℕ) (s : Levels) → Within (drop_l1 key s) s
drop_l1-Within key s = (λ k r h. (lookup-erase_cases key k (intact r) s.l1 h).1, λ id doc h. h)

pub l1_get-Within :
    (get drop : CallOutcome) (key : List ℕ) (s : Levels) → Within (l1_get get drop key s).1 s
unfolding l1_get
l1_get-Within get drop key s = elim (Bool-cases (is_answered get)) [
  | inr no_ ↦ rw (l1_get, no_) (Within-refl s)
  | inl yes_ ↦ elim (Option-cases (lookup key s.l1)) [
    | inl absent ↦ rw (l1_get, yes_, absent) (Within-refl s)
    | inr (v, present) ↦ value_cases v yes_ present
  ]
]
  where
    value_cases :
        (v : StoredValue)
        → is_answered get ≡ true
        → lookup key s.l1 ≡ some v
        → Within (l1_get get drop key s).1 s
    value_cases (intact r) yes_ present = rw (l1_get, yes_, present) (Within-refl s)
    value_cases broken yes_ present =
        rw (l1_get, yes_, present)
          (when-Within (carried_out drop) (drop_l1 key) s (drop_l1-Within key s))

pub drop_entry-Within : (id : String) (s : Levels) → Within (drop_entry id s) s
drop_entry-Within id s =
    (λ k r h. h, λ j doc (g, there, is). (g, (lookup-erase_cases id j g s.semcache there).1, is))

pub l2_delete-Within :
    (call : CallOutcome) (id : String) (s : Levels) → Within (l2_delete call id s) s
unfolding l2_delete
l2_delete-Within call id s =
    when-Within (carried_out call) (drop_entry id) s (drop_entry-Within id s)

document_before :
    (now : ℕ) (doc : SemcacheDocument) (o : Option SemcacheHash)
    → (hit_at now o).document ≡ some doc
    → (h : SemcacheHash) × (o ≡ some h) × (h.document ≡ some doc)
document_before now doc none e = absurd (cc)
document_before now doc (some h) e = (h, refl, e)

note_hit-Within : (now : ℕ) (id : String) (s : Levels) → Within (note_hit now id s) s
note_hit-Within now id s = (
  λ k r h. h,
  λ j doc (g, there, is).
      elim (lookup-insert_cases id j (hit_at now (lookup id s.semcache)) g s.semcache there) [
        | inr before ↦ (g, before, is)
        | inl (same, marked) ↦
            subst (λ (x : String). HasDocument s x doc) same
              (document_before now doc (lookup id s.semcache)
                (ap (λ (x : SemcacheHash). x.document) marked ∙ is))
      ],
)

pub mark_hit-Within :
    (call : CallOutcome) (now : ℕ) (id : String) (s : Levels) → Within (mark_hit call now id s) s
unfolding mark_hit
mark_hit-Within call now id s =
    when-Within (carried_out call) (note_hit now id) s (note_hit-Within now id s)
