-- ===== src/Server/Config.antt =====
-- server/src/config.rs: which file is the configuration, and how it is parsed. A directory is its
-- entries in the order in which `read_dir` gives them; the parsers of the formats are parameters.
pub mod Discover
use webshooter.Base.{
  ℕ, ◌+◌, Bool, true, false, ◌&&◌, ◌||◌, List, [], ◌∷◌, ◌++◌, Option, none, some, ltb, leb, ◌==◌,
  if◌then◌else◌, length, any, codes, ◌≡◌,
}
use webshooter.Base.Text.{Text, text_eq}
use webshooter.Base.Result.{Result, ok, err}

abbrev pub config_extensions : List Text
config_extensions =
    codes "toml" ∷ codes "yaml" ∷ codes "yml" ∷ codes "json5" ∷ codes "jsonc" ∷ codes "json" ∷ []

abbrev pub json_extensions : List Text
json_extensions = codes "json5" ∷ codes "jsonc" ∷ codes "json" ∷ []

abbrev ascii_lower : ℕ → ℕ
ascii_lower c = if leb b'A' c && leb c b'Z' then c + 32 else c

unfoldable pub eq_ignore_ascii_case : Text → Text → Bool
eq_ignore_ascii_case [] [] = true
eq_ignore_ascii_case (a ∷ s) (b ∷ t) = ascii_lower a == ascii_lower b && eq_ignore_ascii_case s t
eq_ignore_ascii_case _ _ = false

unfoldable pub is_json_extension : Text → Bool
unfolding eq_ignore_ascii_case
is_json_extension ext = any (eq_ignore_ascii_case ext) json_extensions

after_last_dot : Text → Option Text
after_last_dot [] = none
after_last_dot (c ∷ s) = elim (after_last_dot s) [
  | some ext ↦ some ext
  | none ↦ if c == b'.' then some s else none
]

-- `Path::extension` of a file's name: a dot at its front does not count.
unfoldable pub extension : Text → Option Text
unfolding after_last_dot
extension [] = none
extension (c ∷ s) = after_last_dot s

supported_extension : Option Text → Bool
supported_extension none = false
supported_extension (some ext) = any (eq_ignore_ascii_case ext) config_extensions

unfoldable pub supported : Text → Bool
unfolding extension supported_extension eq_ignore_ascii_case
supported name = supported_extension (extension name)

starts_with : Text → Text → Bool
starts_with [] s = true
starts_with (c ∷ prefix) [] = false
starts_with (c ∷ prefix) (d ∷ s) = c == d && starts_with prefix s

unfoldable pub variant : Text → Bool
unfolding starts_with
variant name = ltb (length (codes "config")) (length name) && starts_with (codes "config") name

pub record Entry : Type 0 where
  pub name : Text
  pub is_file : Bool

unfoldable pub has_file : Text → List Entry → Bool
has_file name dir = any (λ e. text_eq e.name name && e.is_file) dir

-- `find` over the exact names.
unfoldable pub find_exact : List Text → List Entry → Option Text
find_exact [] dir = none
find_exact (ext ∷ exts) dir =
    let name = codes "config." ++ ext in
    let later = find_exact exts dir in if has_file name dir then some name else later

-- The order of names.
unfoldable pub text_le : Text → Text → Bool
text_le [] t = true
text_le (a ∷ s) [] = false
text_le (a ∷ s) (b ∷ t) = if ltb a b then true else (a == b && text_le s t)

abbrev smaller : Text → Option Text → Option Text
smaller name none = some name
smaller name (some other) = if text_le name other then some name else some other

-- The first of the variants once they are sorted.
unfoldable pub least_variant : List Entry → Option Text
unfolding variant supported text_le
least_variant [] = none
least_variant (e ∷ dir) =
    let rest = least_variant dir in
    if variant e.name && supported e.name && e.is_file then smaller e.name rest else rest

abbrev pub or_else : Option Text → Option Text → Option Text
or_else none later = later
or_else (some name) later = some name

unfoldable pub discover_config : List Entry → Option Text
discover_config dir = or_else (find_exact config_extensions dir) (least_variant dir)

-- What the parsers make of the contents; the failure of the parse by extension is reported.
pub data ConfigError (E : Type 0) : Type 0 where
  parser : E → ConfigError E
  no_extension : ConfigError E
  unknown_extension : Text → ConfigError E

module _ {C E : Type 0} (toml yaml json5 : Text → Result E C) where
  map_err : Result E C → Result (ConfigError E) C
  map_err (ok c) = ok c
  map_err (err e) = err (parser e)

  by_extension : Option Text → Text → Result (ConfigError E) C
  unfolding map_err
  by_extension none contents = err no_extension
  by_extension (some ext) contents =
      if eq_ignore_ascii_case ext (codes "toml")
      then map_err (toml contents)
      else if eq_ignore_ascii_case ext (codes "yaml") || eq_ignore_ascii_case ext (codes "yml")
      then map_err (yaml contents)
      else if is_json_extension ext
      then map_err (json5 contents)
      else err (unknown_extension ext)

  -- The fallbacks, in their order.
  first_ok : List (Result E C) → ConfigError E → Result (ConfigError E) C
  first_ok [] e = err e
  first_ok (ok c ∷ results) e = ok c
  first_ok (err f ∷ results) e = first_ok results e

  after_extension : Result (ConfigError E) C → Text → Result (ConfigError E) C
  unfolding first_ok
  after_extension (ok c) contents = ok c
  after_extension (err e) contents =
      first_ok (toml contents ∷ json5 contents ∷ yaml contents ∷ []) e

  unfoldable pub parse_config : Text → Text → Result (ConfigError E) C
  unfolding by_extension after_extension extension is_json_extension
  parse_config path contents = after_extension (by_extension (extension path) contents) contents

  abbrev Fails : Result E C → Type 0
  Fails (ok c) = ⊥
  Fails (err e) = Unit {0}

  abbrev pub FailsAll : Text → Type 0
  FailsAll contents = Fails (toml contents) × Fails (yaml contents) × Fails (json5 contents)

  all_fail :
      (t j y : Result E C) (e first : ConfigError E)
      → first_ok (t ∷ j ∷ y ∷ []) first ≡ err e
      → Fails t × Fails y × Fails j
  unfolding first_ok
  all_fail (ok c) j y e first h = cc
  all_fail (err f) (ok c) y e first h = cc
  all_fail (err f) (err g) (ok c) e first h = cc
  all_fail (err f) (err g) (err i) e first h = (tt, tt, tt)

  refused :
      (r : Result (ConfigError E) C) (contents : Text) (e : ConfigError E)
      → after_extension r contents ≡ err e
      → FailsAll contents
  unfolding after_extension
  refused (ok c) contents e h = cc
  refused (err first) contents e h =
      all_fail (toml contents) (json5 contents) (yaml contents) e first h

  -- A configuration is refused only where none of the three formats reads it, whatever the name of
  -- its file is.
  pub parse_config_fails :
      (path contents : Text) (e : ConfigError E)
      → parse_config path contents ≡ err e
      → FailsAll contents
  unfolding parse_config
  parse_config_fails path contents e h =
      refused (by_extension (extension path) contents) contents e h
