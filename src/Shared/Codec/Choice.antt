-- ===== src/Shared/Codec/Choice.antt =====
-- `select_codec` of shared/src/codec.rs against the order of preference.
use webshooter.Base.{◌≡◌, ◌≤◌, Bool, true, List, arith, any}
use webshooter.Shared.Codec.{Codec, to_byte, eq, select_codec}

-- The client says that it can decode `c`.
abbrev pub supports : List Codec → Codec → Bool
supports client_decoders c = any (λ d. eq d c) client_decoders

-- If the client supports anything at all, the codec chosen is one that it supports, and none that
-- it supports stands before it in the order of preference.
pub select_codec_best :
    (client_decoders : List Codec) (c : Codec)
    → supports client_decoders c ≡ true
    → (supports client_decoders (select_codec client_decoders) ≡ true)
      × (to_byte (select_codec client_decoders) ≤ to_byte c)
unfolding select_codec to_byte
select_codec_best client_decoders c h = ground arith
