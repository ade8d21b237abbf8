-- ===== src/Shared/Error.antt =====
-- The errors with which the parsers of shared/src bail, one constructor for each message.
use webshooter.Base.{ℕ}
use webshooter.Base.Result.{Result}

-- `too_short variant length`: a message of that discriminant with too few (or, for a message of
-- fixed length, too many) bytes. `codecs_too_short found declared`: a list of codecs that is cut.
pub data WireError : Type 0 where
  empty_datagram : WireError
  too_short : ℕ → ℕ → WireError
  codecs_too_short : ℕ → ℕ → WireError
  invalid_discriminant : ℕ → WireError
  invalid_codec : ℕ → WireError
  invalid_level : ℕ → WireError

abbrev pub Parsed : Type 0 → Type 0
Parsed = Result WireError
