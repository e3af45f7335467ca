-- ===== src/Examples/Parts.antt =====
-- The theorems on src/IdManager.h, src/VectorStream.h, the header words and the addresses at
-- concrete inputs.
use packetcomms.Base.{
  ℕ, ◌≤◌, ◌<◌, ◌≡◌, ◌≢◌, ◌↔◌, refl, String, str_eq, eq_iff, List, [], ◌∷◌, ◌++◌, false, Option,
  some, done, aborts, arith, ltb, if◌then◌else◌, Distinct, ◌⊎◌, ◌+◌, get_elem?,
}
use packetcomms.IdManager.{
  IdManager, reserved, new_id_manager, add_names, find, to_id, to_string, control_string,
  invalid_string,
}
use packetcomms.IdManager.Numbering.{to_id-to_string}
use packetcomms.IdManager.Decision.{new_id_manager_lem}
use packetcomms.Network.Posix.{SockAddr}
use packetcomms.Network.Ipv4Address.{NameInfo, name, eai_overflow, get_host_name_info}
use packetcomms.Network.Ipv4Address.HostName.{Resolves, get_host_name_info_lem}

abbrev ids : IdManager
ids = record {
  map = ("scan", 3) ∷ ("pose", 2) ∷ reserved.map;
  reverse = reserved.reverse ++ ("pose" ∷ "scan" ∷ []);
}

ids-made : new_id_manager ("pose" ∷ "scan" ∷ []) ≡ done ids
unfolding new_id_manager add_names find
ids-made = refl

to_id-to_string_example : (to_id ids "scan" ≡ done 3) ↔ (to_string ids 3 ≡ done "scan")
to_id-to_string_example = to_id-to_string ("pose" ∷ "scan" ∷ []) ids (omega arith) ids-made "scan" 3

differ : (a b : String) → str_eq a b ≡ false → a ≢ b
differ a b f e = ground (arith, eq_iff a b)

new_id_manager_lem_example :
    (Distinct (invalid_string ∷ control_string ∷ "pose" ∷ "scan" ∷ [])
      × ((m : IdManager) × (new_id_manager ("pose" ∷ "scan" ∷ []) ≡ done m)
          × ((n : String) (i : ℕ)
              → get_elem? ("pose" ∷ "scan" ∷ []) i ≡ some n
              → to_id m n ≡ done (i + 2))))
    ⊎ ((Distinct (invalid_string ∷ control_string ∷ "pose" ∷ "scan" ∷ []) → ⊥)
        × (new_id_manager ("pose" ∷ "scan" ∷ []) ≡ aborts))
new_id_manager_lem_example = new_id_manager_lem ("pose" ∷ "scan" ∷ []) (omega arith)

abbrev loopback : SockAddr
loopback = record { family = 2; port = 0; addr = 127 ∷ 0 ∷ 0 ∷ 1 ∷ [] }

abbrev resolver : String → Option (List ℕ)
resolver hostname = some (127 ∷ 0 ∷ 0 ∷ 1 ∷ [])

-- A name of 40 bytes.
abbrev long_name : ℕ → NameInfo
long_name size = if ltb size 40 then eai_overflow else name "a.very.long.host.name.example.com"

long_name-Resolves : Resolves long_name "a.very.long.host.name.example.com" 40
long_name-Resolves = record { enough = λ size h. ground arith; short = λ size h. ground arith }

get_host_name_info_lem_example :
    (40 ≤ 512 → get_host_name_info long_name "" ≡ some "a.very.long.host.name.example.com")
    × (512 < 40 → get_host_name_info long_name "" ≡ some "")
get_host_name_info_lem_example =
    get_host_name_info_lem long_name "a.very.long.host.name.example.com" "" 40 long_name-Resolves
