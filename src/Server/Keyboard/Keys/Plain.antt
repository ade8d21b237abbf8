-- ===== src/Server/Keyboard/Keys/Plain.antt =====
-- The codes that are not a modifier's in the key table of server/src/pipewire/eis_keyboard.rs.
use Prim.Native.String.{String}
use webshooter.Base.{
  ℕ, ◌≡◌, refl, arith, Bool, true, false, not, ◌&&◌, ◌||◌, List, [], ◌∷◌, some, ◌==◌, codes,
  Bool-cases, inl, inr, subst,
}
use webshooter.Base.Text.{Text, text_eq, text_eq_sound}
use webshooter.Server.Keyboard.Codes.{key_leftctrl, key_leftshift, key_leftalt, key_leftmeta}
use webshooter.Server.Keyboard.Keys.{
  key_table, lookup_text, js_keycode_to_eis_key, modifier_codes, is_one_of, is_modifier_code,
}

abbrev pub is_modifier_key : ℕ → Bool
is_modifier_key key =
    key == key_leftctrl || key == key_leftshift || key == key_leftalt || key == key_leftmeta

-- A row that gives a modifier's key has the code of a modifier.
abbrev row_fits : String × ℕ → Bool
row_fits row = not (is_modifier_key row.1) || is_one_of (codes row.0) modifier_codes

abbrev all_fit : List (String × ℕ) → Bool
all_fit [] = true
all_fit (row ∷ rows) = row_fits row && all_fit rows

table_fits : all_fit key_table ≡ true
unfolding is_one_of text_eq
table_fits = refl

lookup_text-plain :
    (code : Text) (rows : List (String × ℕ)) (key : ℕ)
    → all_fit rows ≡ true
    → lookup_text code rows ≡ some key
    → is_one_of code modifier_codes ≡ false
    → is_modifier_key key ≡ false
unfolding lookup_text
lookup_text-plain code [] key a h n = cc
lookup_text-plain code ((literal, k) ∷ rows) key a h n =
    elim (Bool-cases (text_eq code (codes literal))) [
      | inl e ↦
          let own : is_one_of (codes literal) modifier_codes ≡ false =
            subst (λ c. is_one_of c modifier_codes ≡ false) (text_eq_sound code (codes literal) e)
              n in
          ground (arith, a, h, e, own)
      | inr e ↦ lookup_text-plain code rows key (ground (arith, a)) (ground (arith, h, e)) n
    ]

pub plain_key :
    (code : Text) (key : ℕ)
    → is_modifier_code code ≡ false
    → js_keycode_to_eis_key code ≡ some key
    → is_modifier_key key ≡ false
unfolding is_modifier_code js_keycode_to_eis_key
plain_key code key n h = lookup_text-plain code key_table key table_fits h n
