-- ===== src/ControlMessage.antt =====
-- src/ControlMessage.h: the one-byte messages that a muxer sends to its demuxer.
use packetcomms.Base.{ℕ, ◌≡◌, arith}

pub data ControlMessage : Type 0 where
  heart_beat hello good_bye : ControlMessage

-- The value of the enumerator in its underlying uint8_t.
unfoldable pub underlying : ControlMessage → ℕ
underlying heart_beat = 0
underlying hello = 254
underlying good_bye = 255

pub underlying_injective : (a b : ControlMessage) → underlying a ≡ underlying b → a ≡ b
unfolding underlying
underlying_injective a b h = ground arith
