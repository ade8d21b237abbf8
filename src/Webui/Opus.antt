-- ===== src/Webui/Opus.antt =====
-- The Opus packets of webui/wasm/src/audio.rs: the identification header of the decoder and the number
-- of samples in a packet. A byte is below 2 ^ 8; a shift of 32 bits drops what leaves them.
use webshooter.Base.{
  ℕ, ◌*◌, ◌/◌, ◌%◌, ◌^◌, ◌<◌, ◌≡◌, ◌⊎◌, inl, inr, arith, List, [], ◌∷◌, ◌++◌, Option, none, some,
  ◌==◌, ltb, if◌then◌else◌, codes,
}

abbrev to_le_16 : ℕ → List ℕ
to_le_16 n = (n % 256) ∷ (n / 256) ∷ []

abbrev to_le_32 : ℕ → List ℕ
to_le_32 n = (n % 256) ∷ (n / 256 % 256) ∷ (n / 65536 % 256) ∷ (n / 16777216) ∷ []

unfoldable pub opus_identification_header : ℕ → ℕ → List ℕ
opus_identification_header channels rate =
    codes "OpusHead"
    ++ (1
        ∷ channels
        ∷ (to_le_16 0
            ++ (to_le_32 rate
                ++ (to_le_16 0 ++ (if channels == 2 then 1 ∷ 1 ∷ 1 ∷ 0 ∷ 1 ∷ [] else 0 ∷ [])))))

-- `toc & 0x80`, `toc & 0x60` and `(toc >> 3) & 0x3` by division.
unfoldable pub opus_samples_per_frame : ℕ → ℕ → ℕ
opus_samples_per_frame toc fs =
    let n = toc / 8 % 4 in
    if toc / 128 % 2 == 1
    then fs * 2 ^ n % 2 ^ 32 / 400
    else if toc / 32 % 4 == 3
    then (if toc / 8 % 2 == 1 then fs / 50 else fs / 100)
    else if n == 3
    then fs * 60 % 2 ^ 32 / 1000
    else fs * 2 ^ n % 2 ^ 32 / 100

unfoldable pub opus_nb_frames : List ℕ → Option ℕ
opus_nb_frames [] = none
opus_nb_frames (toc ∷ []) = if toc % 4 == 0 then some 1 else if toc % 4 == 3 then none else some 2
opus_nb_frames (toc ∷ m ∷ rest) =
    if toc % 4 == 0 then some 1 else if toc % 4 == 3 then some (m % 64) else some 2

abbrev frames_of : Option ℕ → ℕ → ℕ
frames_of none samples = 0
frames_of (some frames) samples = frames * samples % 2 ^ 32

unfoldable pub opus_packet_samples : List ℕ → ℕ → ℕ
unfolding opus_nb_frames opus_samples_per_frame
opus_packet_samples [] fs = 0
opus_packet_samples (toc ∷ rest) fs =
    frames_of (opus_nb_frames (toc ∷ rest)) (opus_samples_per_frame toc fs)

-- The table of RFC 6716: how long a frame of each configuration is, in hundredths of milliseconds.
abbrev pub duration : ℕ → ℕ
duration config =
    if ltb config 12
    then (if config % 4 == 0
        then 1000
        else if config % 4 == 1
        then 2000
        else if config % 4 == 2
        then 4000
        else 6000)
    else if ltb config 16
    then (if config % 2 == 0 then 1000 else 2000)
    else if config % 4 == 0
    then 250
    else if config % 4 == 1
    then 500
    else if config % 4 == 2
    then 1000
    else 2000

-- The configurations by their last two bits.
last_two_bits : (n : ℕ) → n < 4 → (n ≡ 0) ⊎ ((n ≡ 1) ⊎ ((n ≡ 2) ⊎ (n ≡ 3)))
last_two_bits n h = ground arith

-- For every configuration and every rate up to 2 ^ 26, the samples of a frame are those of the
-- duration that RFC 6716 gives it.
pub opus_samples_per_frame-duration :
    (toc fs : ℕ)
    → toc < 2 ^ 8
    → fs < 2 ^ 26
    → opus_samples_per_frame toc fs ≡ fs * duration (toc / 8) / 100000
unfolding opus_samples_per_frame
opus_samples_per_frame-duration toc fs h k = elim (last_two_bits (toc / 8 % 4) (omega arith)) [
  | inl e ↦ rw e (ground (arith, e))
  | inr (inl e) ↦ rw e (ground (arith, e))
  | inr (inr (inl e)) ↦ rw e (ground (arith, e))
  | inr (inr (inr e)) ↦ rw e (ground (arith, e))
]
