-- ===== src/Base/Text.antt =====
-- Rust's `String` as its scalar values, `as_bytes`, and `String::from_utf8_lossy` of the standard
-- library, which replaces each maximal ill-formed part of its input by U+FFFD.
use webshooter.Base.Tests.{ltb, leb, ◌==◌, if◌then◌else◌}
use webshooter.Base.Lists.{All, All-append}
use webshooter.Base.Words.{IsByte}
use Prim.Native.Nat.{ℕ, zero, suc, ◌+◌, ◌-◌, ◌*◌, ◌/◌, ◌%◌, ◌<◌, ◌≤◌}
use mathlib.Core.Path.{◌≡◌, refl, ap, ◌∙◌, subst}
use mathlib.Core.Logic.{◌⊎◌, ◌↔◌}
use mathlib.Core.Bool.{Bool, true, false, ◌&&◌}
use mathlib.Core.Option.{Option, none, some}
use mathlib.Core.List.{List, [], ◌∷◌, ◌++◌}
use native.Mathlib.Omega.{arith}

-- A `String` is the list of its scalar values.
abbrev pub Text : Type 0
Text = List ℕ

abbrev pub IsScalar : ℕ → Type 0
IsScalar c = (c < 0xd800) ⊎ ((0xe000 ≤ c) × (c < 0x110000))

-- A `match` on a text compares it with each literal in turn.
unfoldable pub text_eq : Text → Text → Bool
text_eq [] [] = true
text_eq (a ∷ s) (b ∷ t) = a == b && text_eq s t
text_eq _ _ = false

pub text_eq_sound : (s t : Text) → text_eq s t ≡ true → s ≡ t
unfolding text_eq
text_eq_sound [] [] h = refl
text_eq_sound [] (b ∷ t) h = cc
text_eq_sound (a ∷ s) [] h = cc
text_eq_sound (a ∷ s) (b ∷ t) h = ground (arith, h, text_eq_sound s t)

pub text_eq_refl : (s : Text) → text_eq s s ≡ true
unfolding text_eq
text_eq_refl [] = refl
text_eq_refl (a ∷ s) = ground (arith, text_eq_refl s)

pub text_eq_iff : (s t : Text) → (text_eq s t ≡ true) ↔ (s ≡ t)
text_eq_iff s t = (text_eq_sound s t, λ e. subst (λ u. text_eq s u ≡ true) e (text_eq_refl s))

-- `str::split_once('=')`
unfoldable pub split_once : Text → Option (Text × Text)
split_once [] = none
split_once (c ∷ s) =
    if c == b'='
    then some ([], s)
    else elim (split_once s) [ none ↦ none | some (k, v) ↦ some (c ∷ k, v) ]

-- The UTF-8 bytes of one scalar value.
abbrev pub encode_char : ℕ → List ℕ
encode_char c =
    if ltb c 0x80
    then c ∷ []
    else if ltb c 0x800
    then (0xc0 + c / 64) ∷ (0x80 + c % 64) ∷ []
    else if ltb c 0x10000
    then (0xe0 + c / 4096) ∷ (0x80 + c / 64 % 64) ∷ (0x80 + c % 64) ∷ []
    else (0xf0 + c / 262144) ∷ (0x80 + c / 4096 % 64) ∷ (0x80 + c / 64 % 64) ∷ (0x80 + c % 64) ∷ []

unfoldable pub as_bytes : Text → List ℕ
as_bytes [] = []
as_bytes (c ∷ cs) = encode_char c ++ as_bytes cs

abbrev between : ℕ → ℕ → ℕ → Bool
between lo hi b = leb lo b && leb b hi

abbrev pub continuation : ℕ → Bool
continuation b = between 0x80 0xbf b

abbrev replacement : ℕ
replacement = 0xfffd

-- The second bytes that are allowed after the first byte of a sequence of three or four.
abbrev second_of_three : ℕ → ℕ → Bool
second_of_three a b =
    if a == 0xe0
    then between 0xa0 0xbf b
    else if a == 0xed
    then between 0x80 0x9f b
    else continuation b

abbrev second_of_four : ℕ → ℕ → Bool
second_of_four a b =
    if a == 0xf0
    then between 0x90 0xbf b
    else if a == 0xf4
    then between 0x80 0x8f b
    else continuation b

-- The character at the front, and how many bytes it takes behind its first.
decode_two : ℕ → List ℕ → ℕ × ℕ
decode_two a [] = (replacement, 0)
decode_two a (b ∷ r) =
    if continuation b then ((a - 0xc0) * 64 + (b - 0x80), 1) else (replacement, 0)

decode_three : ℕ → List ℕ → ℕ × ℕ
decode_three a [] = (replacement, 0)
decode_three a (b ∷ []) = if second_of_three a b then (replacement, 1) else (replacement, 0)
decode_three a (b ∷ c ∷ r) =
    if second_of_three a b
    then (if continuation c
        then (((a - 0xe0) * 64 + (b - 0x80)) * 64 + (c - 0x80), 2)
        else (replacement, 1))
    else (replacement, 0)

decode_four : ℕ → List ℕ → ℕ × ℕ
decode_four a [] = (replacement, 0)
decode_four a (b ∷ []) = if second_of_four a b then (replacement, 1) else (replacement, 0)
decode_four a (b ∷ c ∷ []) =
    if second_of_four a b
    then (if continuation c then (replacement, 2) else (replacement, 1))
    else (replacement, 0)
decode_four a (b ∷ c ∷ d ∷ r) =
    if second_of_four a b
    then (if continuation c
        then (if continuation d
            then ((((a - 0xf0) * 64 + (b - 0x80)) * 64 + (c - 0x80)) * 64 + (d - 0x80), 3)
            else (replacement, 2))
        else (replacement, 1))
    else (replacement, 0)

decode_char : ℕ → List ℕ → ℕ × ℕ
decode_char a r =
    if ltb a 0x80
    then (a, 0)
    else if between 0xc2 0xdf a
    then decode_two a r
    else if between 0xe0 0xef a
    then decode_three a r
    else if between 0xf0 0xf4 a
    then decode_four a r
    else (replacement, 0)

-- The first argument counts the bytes that the last character still takes.
decode_from : ℕ → List ℕ → Text
decode_from skip [] = []
decode_from (suc skip) (a ∷ r) = decode_from skip r
decode_from zero (a ∷ r) = let p = decode_char a r in p.0 ∷ decode_from p.1 r

unfoldable pub from_utf8_lossy : List ℕ → Text
unfolding decode_from decode_char decode_two decode_three decode_four
from_utf8_lossy bytes = decode_from 0 bytes

decode_two_lem :
    (q s : ℕ) (r : List ℕ) → s < 64 → decode_two (0xc0 + q) ((0x80 + s) ∷ r) ≡ (q * 64 + s, 1)
unfolding decode_two
decode_two_lem q s r h = ground arith

decode_three_lem :
    (q s t : ℕ) (r : List ℕ)
    → s < 64
    → t < 64
    → (q ≡ 0 → 32 ≤ s)
    → (q ≡ 13 → s < 32)
    → decode_three (0xe0 + q) ((0x80 + s) ∷ (0x80 + t) ∷ r) ≡ ((q * 64 + s) * 64 + t, 2)
unfolding decode_three
decode_three_lem q s t r hs ht low high = ground arith

decode_four_lem :
    (q s t u : ℕ) (r : List ℕ)
    → s < 64
    → t < 64
    → u < 64
    → (q ≡ 0 → 16 ≤ s)
    → (q ≡ 4 → s < 16)
    → decode_four (0xf0 + q) ((0x80 + s) ∷ (0x80 + t) ∷ (0x80 + u) ∷ r)
      ≡ (((q * 64 + s) * 64 + t) * 64 + u, 3)
unfolding decode_four
decode_four_lem q s t u r hs ht hu low high = ground arith

decode_two_step :
    (c : ℕ) (r : List ℕ)
    → 0x80 ≤ c
    → c < 0x800
    → decode_char (0xc0 + c / 64) ((0x80 + c % 64) ∷ r) ≡ (c, 1)
unfolding decode_char
decode_two_step c r lo hi = ground (arith, decode_two_lem (c / 64) (c % 64) r)

decode_three_step :
    (c : ℕ) (r : List ℕ)
    → IsScalar c
    → 0x800 ≤ c
    → c < 0x10000
    → decode_char (0xe0 + c / 4096) ((0x80 + c / 64 % 64) ∷ (0x80 + c % 64) ∷ r) ≡ (c, 2)
unfolding decode_char
decode_three_step c r h lo hi = ground (
  arith,
  decode_three_lem (c / 4096) (c / 64 % 64) (c % 64) r (omega arith) (omega arith)
      (λ e. omega arith) (λ e. omega arith),
)

decode_four_step :
    (c : ℕ) (r : List ℕ)
    → IsScalar c
    → 0x10000 ≤ c
    → decode_char
        (0xf0 + c / 262144)
        ((0x80 + c / 4096 % 64) ∷ (0x80 + c / 64 % 64) ∷ (0x80 + c % 64) ∷ r)
      ≡ (c, 3)
unfolding decode_char
decode_four_step c r h lo = ground (
  arith,
  decode_four_lem (c / 262144) (c / 4096 % 64) (c / 64 % 64) (c % 64) r (omega arith) (omega arith)
      (omega arith) (λ e. omega arith) (λ e. omega arith),
)

decode_one_step : (c : ℕ) (r : List ℕ) → c < 0x80 → decode_char c r ≡ (c, 0)
unfolding decode_char
decode_one_step c r h = ground arith

decode_from-encode_char :
    (c : ℕ) (r : List ℕ) → IsScalar c → decode_from 0 (encode_char c ++ r) ≡ c ∷ decode_from 0 r
unfolding decode_from
decode_from-encode_char c r h =
    ground
      (arith, decode_one_step c r, decode_two_step c r, decode_three_step c r, decode_four_step c r)

pub from_utf8_lossy-as_bytes : (s : Text) → All IsScalar s → from_utf8_lossy (as_bytes s) ≡ s
unfolding from_utf8_lossy as_bytes
from_utf8_lossy-as_bytes [] h = refl
from_utf8_lossy-as_bytes (c ∷ cs) h =
    decode_from-encode_char c (as_bytes cs) h.0 ∙ ap (λ s. c ∷ s) (from_utf8_lossy-as_bytes cs h.1)

decode_two-IsScalar :
    (a : ℕ) (r : List ℕ) → between 0xc2 0xdf a ≡ true → IsScalar (decode_two a r).0
unfolding decode_two
decode_two-IsScalar a [] h = omega arith
decode_two-IsScalar a (b ∷ r) h = ground arith

decode_three-IsScalar :
    (a : ℕ) (r : List ℕ) → between 0xe0 0xef a ≡ true → IsScalar (decode_three a r).0
unfolding decode_three
decode_three-IsScalar a [] h = omega arith
decode_three-IsScalar a (b ∷ []) h = ground arith
decode_three-IsScalar a (b ∷ c ∷ r) h = ground arith

decode_four-IsScalar :
    (a : ℕ) (r : List ℕ) → between 0xf0 0xf4 a ≡ true → IsScalar (decode_four a r).0
unfolding decode_four
decode_four-IsScalar a [] h = omega arith
decode_four-IsScalar a (b ∷ []) h = ground arith
decode_four-IsScalar a (b ∷ c ∷ []) h = ground arith
decode_four-IsScalar a (b ∷ c ∷ d ∷ r) h = ground arith

decode_char-IsScalar : (a : ℕ) (r : List ℕ) → IsScalar (decode_char a r).0
unfolding decode_char
decode_char-IsScalar a r =
    ground (arith, decode_two-IsScalar a r, decode_three-IsScalar a r, decode_four-IsScalar a r)

decode_from-IsScalar : (skip : ℕ) (bytes : List ℕ) → All IsScalar (decode_from skip bytes)
unfolding decode_from
decode_from-IsScalar skip [] = tt
decode_from-IsScalar (suc skip) (a ∷ r) = decode_from-IsScalar skip r
decode_from-IsScalar zero (a ∷ r) =
    (decode_char-IsScalar a r, decode_from-IsScalar (decode_char a r).1 r)

pub from_utf8_lossy-IsScalar : (bytes : List ℕ) → All IsScalar (from_utf8_lossy bytes)
unfolding from_utf8_lossy
from_utf8_lossy-IsScalar bytes = decode_from-IsScalar 0 bytes

encode_char-IsByte : (c : ℕ) → IsScalar c → All IsByte (encode_char c)
encode_char-IsByte c h = ground arith

pub as_bytes-IsByte : (s : Text) → All IsScalar s → All IsByte (as_bytes s)
unfolding as_bytes
as_bytes-IsByte [] h = tt
as_bytes-IsByte (c ∷ cs) h =
    All-append IsByte (encode_char c) (as_bytes cs) (encode_char-IsByte c h.0)
      (as_bytes-IsByte cs h.1)
