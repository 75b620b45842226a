-- ===== src/Cache/Entries/Tests.antt =====
-- The entries of three answers, in a dict of two.
use tide_gate.Prelude.{◌≡◌, refl, string_eq, [], ◌∷◌}
use tide_gate.Prelude.Dict.{insert, erase}
use tide_gate.Cache.Entries.{RequestEntries, remember_request_entry}
use tide_gate.Cache.Entries.Recent.{remember_all}

abbrev nothing : RequestEntries
nothing = record { entries = []; deleted = [] }

oldest_goes :
    (remember_all 2
      (("r1", "e1") ∷ ("r2", "e2") ∷ ("r1", "e3") ∷ ("r3", "e4") ∷ [])
      nothing).entries
    ≡ ("r1", "e3") ∷ ("r3", "e4") ∷ []
unfolding remember_all remember_request_entry insert erase
oldest_goes = refl
