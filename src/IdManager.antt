-- ===== src/IdManager.antt =====
-- src/IdManager.h and src/IdManager.cpp: packet names against packet numbers.
-- std::map is an association list in which the newest entry of a name is the one that counts.
pub mod Numbering
pub mod Acceptance
pub mod Decision
use packetcomms.Base.{
  ℕ, suc, ◌+◌, ◌%◌, ◌^◌, String, str_eq, List, [], ◌∷◌, ◌++◌, Option, none, some, length, get_elem?,
  if◌then◌else◌, Outcome, done, aborts, throws, faults,
}

abbrev pub invalid_packet : ℕ
invalid_packet = 0

abbrev pub control_packet : ℕ
control_packet = 1

abbrev pub invalid_string : String
invalid_string = "__INVALID__"

abbrev pub control_string : String
control_string = "__CONTROL__"

pub record IdManager : Type 0 where
  pub map : List (String × ℕ)
  pub reverse : List String

unfoldable pub find : String → List (String × ℕ) → Option ℕ
find name [] = none
find name ((key, id) ∷ rest) = if str_eq key name then some id else find name rest

-- The entries for the two reserved names.
abbrev pub reserved : IdManager
reserved = record {
  map = (control_string, control_packet) ∷ (invalid_string, invalid_packet) ∷ [];
  reverse = invalid_string ∷ control_string ∷ [];
}

-- The loop of the constructor over `list`. `id` is a size_t, stored as a uint32_t; the assert is
-- active in every build, since no build type defines NDEBUG.
unfoldable pub add_names : List String → ℕ → IdManager → Outcome IdManager
add_names [] id m = done m
add_names (name ∷ rest) id m =
    let added =
      add_names rest (id + 1)
        (record { map = (name, (id + 1) % 2 ^ 32) ∷ m.map; reverse = m.reverse ++ (name ∷ []) }) in
    elim (find name m.map) [ some taken ↦ aborts | none ↦ added ]

unfoldable pub new_id_manager : List String → Outcome IdManager
unfolding add_names
new_id_manager names = add_names names control_packet reserved

-- `m_map.at(name)` throws std::out_of_range for a name that is not there.
unfoldable pub to_id : IdManager → String → Outcome ℕ
to_id m name = elim (find name m.map) [ some id ↦ done id | none ↦ throws ]

-- `m_reverse[id]` reads past the vector for a number that was not given out.
unfoldable pub to_string : IdManager → ℕ → Outcome String
to_string m id = elim (get_elem? m.reverse id) [ some name ↦ done name | none ↦ faults ]
