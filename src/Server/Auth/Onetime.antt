-- ===== src/Server/Auth/Onetime.antt =====
-- The tokens of `onetime` in server/src/auth.rs, by which a page that is logged in opens its
-- WebTransport session once.
use webshooter.Base.{
  ℕ, ◌+◌, ◌≤◌, arith, List, [], ◌∷◌, Option, none, some, ltb, if◌then◌else◌, length, take,
}
use webshooter.Base.Text.{Text, text_eq, text_eq_iff}
use webshooter.Base.Result.{Result, ok, err}
use webshooter.Base.Dict.{get, insert, remove, get-insert, get-remove}
use webshooter.Server.Auth.Sessions.{WebshooterError, invalid_login}

abbrev pub onetime_length : ℕ
onetime_length = 256

-- `ONETIME_AUTHORISATIONS`, from a token to the bytes of the id.
abbrev pub Tokens : Type 0
Tokens = List (Text × Text)

-- `OnetimeToken::new` with its random bytes.
unfoldable pub new_token : Text → Text → Tokens → Tokens
new_token token user tokens = insert token user tokens

-- The end of the sleep that `new` spawns.
unfoldable pub expire : Text → Tokens → Tokens
expire token tokens = remove token tokens

unfoldable pub check : Text → Tokens → Tokens × Option Text
check token tokens = (remove token tokens, get token tokens)

-- `try_from`: the first 256 bytes.
unfoldable pub try_from : Text → Result WebshooterError Text
try_from bytes =
    if ltb (length bytes) onetime_length then err invalid_login else ok (take onetime_length bytes)

pub data Event : Type 0 where
  issue : Text → Text → Event
  expired : Text → Event
  use_token : Text → Event

abbrev one_if {ℓ} : {A : Type ℓ} → Option A → ℕ
one_if none = 0
one_if (some a) = 1

-- How often the token opens a session.
pub uses : Text → List Event → Tokens → ℕ
unfolding check new_token expire
uses t [] tokens = 0
uses t (issue k u ∷ events) tokens = uses t events (new_token k u tokens)
uses t (expired k ∷ events) tokens = uses t events (expire k tokens)
uses t (use_token k ∷ events) tokens =
    (if text_eq k t then one_if (check k tokens).1 else 0) + uses t events (check k tokens).0

abbrev pub issues : Text → List Event → ℕ
issues t [] = 0
issues t (issue k u ∷ events) = (if text_eq k t then 1 else 0) + issues t events
issues t (expired k ∷ events) = issues t events
issues t (use_token k ∷ events) = issues t events

uses-present :
    (t : Text) (events : List Event) (tokens : Tokens)
    → uses t events tokens ≤ issues t events + one_if (get t tokens)
unfolding uses
uses-present t [] tokens = omega arith
uses-present t (issue k u ∷ events) tokens =
    ground (arith, uses-present t events (insert k u tokens), get-insert k t u tokens)
uses-present t (expired k ∷ events) tokens =
    ground (arith, uses-present t events (remove k tokens), get-remove k t tokens)
uses-present t (use_token k ∷ events) tokens =
    ground (arith, uses-present t events (remove k tokens), get-remove k t tokens, text_eq_iff k t)

-- Whatever is issued, expires and is tried, a token opens at most as many sessions as it was issued.
pub uses-le-issues : (t : Text) (events : List Event) → uses t events [] ≤ issues t events
unfolding get
uses-le-issues t events = omega (arith, uses-present t events [])
