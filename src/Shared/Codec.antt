-- ===== src/Shared/Codec.antt =====
-- shared/src/codec.rs: the video codecs, their bytes and names, and the choice between them.
pub mod Choice
use webshooter.Base.{
  ℕ, ◌≡◌, ◌≢◌, refl, Bool, true, false, List, [], ◌∷◌, arith, ◌==◌, if◌then◌else◌, codes, any,
}
use webshooter.Base.Text.{Text}
use webshooter.Base.Result.{ok, err}
use webshooter.Shared.Error.{Parsed, invalid_codec}

pub data Codec : Type 0 where
  av1 h265 h264 vp9 : Codec

unfoldable pub from_byte : ℕ → Parsed Codec
from_byte b =
    if b == 0
    then ok av1
    else if b == 1
    then ok h265
    else if b == 2
    then ok h264
    else if b == 3
    then ok vp9
    else err (invalid_codec b)

unfoldable pub to_byte : Codec → ℕ
to_byte av1 = 0
to_byte h265 = 1
to_byte h264 = 2
to_byte vp9 = 3

abbrev pub gst_encoder_element : Codec → Text
gst_encoder_element av1 = codes "vaav1enc"
gst_encoder_element h265 = codes "vah265enc"
gst_encoder_element h264 = codes "vah264enc"
gst_encoder_element vp9 = codes "vavp9enc"

abbrev pub web_codec_string : Codec → Text
web_codec_string av1 = codes "av01.0.09M.08"
web_codec_string h265 = codes "hvc1.1.6.L123.B0"
web_codec_string h264 = codes "avc1.640028"
web_codec_string vp9 = codes "vp09.00.10.08"

unfoldable pub slug : Codec → Text
slug av1 = codes "av1"
slug h265 = codes "h265"
slug h264 = codes "h264"
slug vp9 = codes "vp9"

abbrev pub all_codecs : List Codec
all_codecs = av1 ∷ h265 ∷ h264 ∷ vp9 ∷ []

-- Different codecs have different encoders, and different names in the browser.
codec_names_differ :
    (a b : Codec)
    → a ≢ b
    → (gst_encoder_element a ≢ gst_encoder_element b) × (web_codec_string a ≢ web_codec_string b)
codec_names_differ a b ne = ground (arith, ne)

-- The derived `PartialEq` compares discriminants.
unfoldable pub eq : Codec → Codec → Bool
unfolding to_byte
eq a b = to_byte a == to_byte b

-- The loop of `select_codec` over the codecs that are left.
unfoldable pub select_from : List Codec → List Codec → Codec
select_from [] client_decoders = av1
select_from (codec ∷ rest) client_decoders =
    let later = select_from rest client_decoders in
    if any (λ c. eq c codec) client_decoders then codec else later

unfoldable pub select_codec : List Codec → Codec
unfolding select_from
select_codec client_decoders = select_from all_codecs client_decoders

pub from_byte-to_byte : (c : Codec) → from_byte (to_byte c) ≡ ok c
unfolding from_byte to_byte
from_byte-to_byte av1 = refl
from_byte-to_byte h265 = refl
from_byte-to_byte h264 = refl
from_byte-to_byte vp9 = refl

pub from_byte-eq_ok : (b : ℕ) (c : Codec) → from_byte b ≡ ok c → to_byte c ≡ b
unfolding from_byte to_byte
from_byte-eq_ok b c h = ground arith
