-- ===== src/Shared/LogLevel.antt =====
-- shared/src/log_level.rs: log levels as single bytes.
use webshooter.Base.{ℕ, ◌≡◌, ◌↔◌, arith, ◌==◌, if◌then◌else◌}
use webshooter.Base.Result.{ok, err}
use webshooter.Shared.Error.{Parsed, invalid_level}

-- `log::Level`, the severity of a record.
pub data Level : Type 0 where
  error warn info debug trace : Level

-- `log::LevelFilter`, the most verbose severity that is let through.
pub data LevelFilter : Type 0 where
  off error warn info debug trace : LevelFilter

unfoldable pub filter_to_byte : LevelFilter → ℕ
filter_to_byte LevelFilter.off = 0
filter_to_byte LevelFilter.error = 1
filter_to_byte LevelFilter.warn = 2
filter_to_byte LevelFilter.info = 3
filter_to_byte LevelFilter.debug = 4
filter_to_byte LevelFilter.trace = 5

unfoldable pub filter_from_byte : ℕ → Parsed LevelFilter
filter_from_byte byte =
    if byte == 0
    then ok LevelFilter.off
    else if byte == 1
    then ok LevelFilter.error
    else if byte == 2
    then ok LevelFilter.warn
    else if byte == 3
    then ok LevelFilter.info
    else if byte == 4
    then ok LevelFilter.debug
    else if byte == 5
    then ok LevelFilter.trace
    else err (invalid_level byte)

unfoldable pub level_to_byte : Level → ℕ
level_to_byte Level.error = 1
level_to_byte Level.warn = 2
level_to_byte Level.info = 3
level_to_byte Level.debug = 4
level_to_byte Level.trace = 5

unfoldable pub level_from_byte : ℕ → Parsed Level
level_from_byte byte =
    if byte == 1
    then ok Level.error
    else if byte == 2
    then ok Level.warn
    else if byte == 3
    then ok Level.info
    else if byte == 4
    then ok Level.debug
    else if byte == 5
    then ok Level.trace
    else err (invalid_level byte)

pub filter_from_byte-filter_to_byte : (l : LevelFilter) → filter_from_byte (filter_to_byte l) ≡ ok l
unfolding filter_from_byte filter_to_byte
filter_from_byte-filter_to_byte l = ground arith

pub level_from_byte-level_to_byte : (l : Level) → level_from_byte (level_to_byte l) ≡ ok l
unfolding level_from_byte level_to_byte
level_from_byte-level_to_byte l = ground arith

-- A byte is read as a severity exactly if it is the byte that is written for that severity.
pub level_from_byte_iff :
    (byte : ℕ) (l : Level) → (level_from_byte byte ≡ ok l) ↔ (level_to_byte l ≡ byte)
unfolding level_from_byte level_to_byte
level_from_byte_iff byte l = ground arith

-- A byte is read as a filter exactly if it is the byte that is written for that filter.
pub filter_from_byte_iff :
    (byte : ℕ) (l : LevelFilter) → (filter_from_byte byte ≡ ok l) ↔ (filter_to_byte l ≡ byte)
unfolding filter_from_byte filter_to_byte
filter_from_byte_iff byte l = ground arith
