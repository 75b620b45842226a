-- ===== src/Cache/Entries.antt =====
-- cache/service.py: which semantic entry answered which request, for the feedback that evicts it.
-- The dict stands oldest first; its capacity is an argument, 10000 in the source.
pub mod Recent
mod Tests
use tide_gate.Prelude.{
  ℕ, String, string_eq, Bool, true, false, Option, none, some, List, [], ◌∷◌, ltb, if◌then◌else◌,
  length,
}
use tide_gate.Prelude.Dict.{Dict, lookup, insert, erase}

-- `deleted` lists the entries that the second level was asked to delete, latest first.
pub record RequestEntries : Type 0 where
  pub entries : Dict String String
  pub deleted : List String

-- `while len(entries) > capacity: entries.popitem(last=False)`
unfoldable pub trim : ℕ → Dict String String → Dict String String
trim capacity [] = []
trim capacity (e ∷ m) = if ltb capacity (length (e ∷ m)) then trim capacity m else e ∷ m

-- the assignment, and `move_to_end`
unfoldable pub put_last : String → String → Dict String String → Dict String String
put_last k v m = insert k v (erase k m)

-- `remember_request_entry`
unfoldable pub remember_request_entry : ℕ → String → Option String → RequestEntries → RequestEntries
unfolding trim put_last
remember_request_entry capacity request_id none s = s
remember_request_entry capacity request_id (some entry_id) s = record s {
  entries = trim capacity (put_last request_id entry_id s.entries);
}

-- `evict_feedback`, when the deletion reaches Redis
unfoldable pub evict_feedback : String → RequestEntries → Bool × RequestEntries
evict_feedback request_id s = elim (lookup request_id s.entries) [
  | none ↦ (false, s)
  | some entry_id ↦
      (true, record { entries = erase request_id s.entries; deleted = entry_id ∷ s.deleted })
]
