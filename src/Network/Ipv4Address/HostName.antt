-- ===== src/Network/Ipv4Address/HostName.antt =====
-- The growing buffer of GetHostNameInfo.
use packetcomms.Base.{ℕ, ◌<◌, ◌≤◌, ◌≡◌, ◌≢◌, ◌⊎◌, inl, inr, String, none, some, arith}
use native.Mathlib.Decide.{dec_le}
use packetcomms.Network.Ipv4Address.{NameInfo, name, eai_overflow, eai_other, get_host_name_info}

-- What getnameinfo documents: EAI_OVERFLOW if the buffer is smaller than the name needs, and the
-- name otherwise.
pub record Resolves (info : ℕ → NameInfo) (text : String) (needed : ℕ) : Type 0 where
  pub enough : (size : ℕ) → needed ≤ size → info size ≡ name text
  pub short : (size : ℕ) → size < needed → info size ≡ eai_overflow

at :
    (info : ℕ → NameInfo) (text : String) (needed : ℕ) (v : Resolves info text needed) (size : ℕ)
    → ((needed ≤ size) × (info size ≡ name text)) ⊎ ((size < needed) × (info size ≡ eai_overflow))
at info text needed v size = elim (dec_le needed size) [
  | yes h ↦ inl (h, v.enough size h)
  | no h ↦ inr (omega arith, v.short size (omega arith))
]

-- Where getnameinfo overflows exactly when the buffer is smaller than the name needs, a name that
-- fits 512 bytes is stored, and one that does not leaves the caller's string as it was.
pub get_host_name_info_lem :
    (info : ℕ → NameInfo) (text before : String) (needed : ℕ)
    → Resolves info text needed
    → (needed ≤ 512 → get_host_name_info info before ≡ some text)
      × (512 < needed → get_host_name_info info before ≡ some before)
unfolding get_host_name_info
get_host_name_info_lem info text before needed v = (
  (λ h. ground (
    arith,
    at info text needed v 16,
    at info text needed v 32,
    at info text needed v 64,
    at info text needed v 128,
    at info text needed v 256,
    at info text needed v 512,
  )),
  λ h. ground (arith, v.short 16, v.short 32, v.short 64, v.short 128, v.short 256, v.short 512),
)

-- It ends whatever getnameinfo does, and after an error other than an overflow the caller's string
-- is as it was.
pub get_host_name_info_ends :
    (info : ℕ → NameInfo) (before : String)
    → (get_host_name_info info before ≢ none)
      × (info 16 ≡ eai_other → get_host_name_info info before ≡ some before)
unfolding get_host_name_info
get_host_name_info_ends info before = ground arith
