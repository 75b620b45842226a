-- ===== src/Cache/Levels.antt =====
-- cache/l1.py and cache/l2.py: the two levels of the cache in Redis. `CallOutcome` is what becomes of a call of Redis;
-- the compression and the index stand outside, and what the index finds is an argument.
pub mod Shrinks
use tide_gate.Prelude.{
  ℕ, ◌+◌, String, string_eq, Bool, true, false, Option, none, some, List, [], ◌∷◌, if◌then◌else◌,
}
use tide_gate.Prelude.Int.{ℤ, pos, ◌-ℤ◌, ltb_ℤ}
use tide_gate.Prelude.Text.{codes_eq}
use tide_gate.Prelude.Dict.{Dict, lookup, insert, erase}
use tide_gate.Core.{UnifiedResponse}
use tide_gate.Cache.Ranking.{SemanticHit}

-- A call is answered, or raises a `RedisError`, after Redis has carried it out or without that.
pub data CallOutcome : Type 0 where
  answered : CallOutcome
  raises_after : CallOutcome
  raises_before : CallOutcome

abbrev pub is_answered : CallOutcome → Bool
is_answered answered = true
is_answered raises_after = false
is_answered raises_before = false

abbrev pub carried_out : CallOutcome → Bool
carried_out answered = true
carried_out raises_after = true
carried_out raises_before = false

-- A value of the first level: a response, or bytes whose reading fails in a way that `L1Cache.get`
-- catches (OSError, JSONDecodeError or ValidationError). Bytes on which it raises something else, such as
-- a zlib.error or an EOFError, are left out.
pub data StoredValue : Type 0 where
  intact : UnifiedResponse → StoredValue
  broken : StoredValue

-- what `L2Cache.store` writes, without the vector and the time of creation
pub record SemcacheDocument : Type 0 where
  pub tenant : String
  pub prompt_version : String
  pub l1_key : List ℕ
  pub text : List ℕ

-- A hash of the second level; one that is gone when a hit is marked comes back without its document.
pub record SemcacheHash : Type 0 where
  pub document : Option SemcacheDocument
  pub last_hit_at : ℕ

pub record Levels : Type 0 where
  pub l1 : Dict (List ℕ) StoredValue
  pub semcache : Dict String SemcacheHash

abbrev pub no_levels : Levels
no_levels = record { l1 = []; semcache = [] }

abbrev pub when : Bool → (Levels → Levels) → Levels → Levels
when b f s = if b then f s else s

abbrev pub drop_l1 : List ℕ → Levels → Levels
drop_l1 key s = record s { l1 = erase key s.l1 }

-- `L1Cache.get`, or none where it raises; the second outcome is that of the deletion of a broken value
unfoldable pub l1_get :
    CallOutcome → CallOutcome → List ℕ → Levels → Option (Option UnifiedResponse) × Levels
l1_get get_call delete_call key s =
    if is_answered get_call
    then (elim (lookup key s.l1) [
      | none ↦ (some none, s)
      | some value ↦ elim value [
        | intact response ↦ (some (some response), s)
        | broken ↦ (
          if is_answered delete_call then some none else none,
          when (carried_out delete_call) (drop_l1 key) s,
        )
      ]
    ])
    else (none, s)

abbrev pub put_l1 : List ℕ → UnifiedResponse → Levels → Levels
put_l1 key response s = record s { l1 = insert key (intact response) s.l1 }

-- `L1Cache.set`; whether it has raised is left to the caller
unfoldable pub l1_set : CallOutcome → List ℕ → UnifiedResponse → Levels → Levels
l1_set call key response s = when (carried_out call) (put_l1 key response) s

-- A row of the index's answer; the entry is the key without its prefix, the distance is in millionths.
pub record SearchRow : Type 0 where
  pub entry_id : String
  pub l1_key : List ℕ
  pub text : List ℕ
  pub distance : ℤ

-- `L2Cache.lookup`, from the rows that the index answers with: none if it is late or fails
unfoldable pub l2_lookup : ℕ → List SearchRow → List SemanticHit
l2_lookup threshold [] = []
l2_lookup threshold (r ∷ rs) =
    let rest = l2_lookup threshold rs in
    let score = pos 1_000_000 -ℤ r.distance in
    if ltb_ℤ score (pos threshold)
    then rest
    else record { entry_id = r.entry_id; l1_key = r.l1_key; score = score; text = r.text } ∷ rest

abbrev pub put_document : String → SemcacheDocument → ℕ → Levels → Levels
put_document entry_id doc now s = record s {
  semcache = insert entry_id (record { document = some doc; last_hit_at = now }) s.semcache;
}

-- `L2Cache.store`, under the entry that it makes up
unfoldable pub l2_store : CallOutcome → String → SemcacheDocument → ℕ → Levels → Levels
l2_store call entry_id doc now s = when (carried_out call) (put_document entry_id doc now) s

abbrev pub hit_at : ℕ → Option SemcacheHash → SemcacheHash
hit_at now none = record { document = none; last_hit_at = now }
hit_at now (some h) = record h { last_hit_at = now }

abbrev pub note_hit : ℕ → String → Levels → Levels
note_hit now entry_id s = record s {
  semcache = insert entry_id (hit_at now (lookup entry_id s.semcache)) s.semcache;
}

-- `L2Cache.mark_hit`
unfoldable pub mark_hit : CallOutcome → ℕ → String → Levels → Levels
mark_hit call now entry_id s = when (carried_out call) (note_hit now entry_id) s

abbrev pub drop_entry : String → Levels → Levels
drop_entry entry_id s = record s { semcache = erase entry_id s.semcache }

-- `L2Cache.delete`
unfoldable pub l2_delete : CallOutcome → String → Levels → Levels
l2_delete call entry_id s = when (carried_out call) (drop_entry entry_id) s
