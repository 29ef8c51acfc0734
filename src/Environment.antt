-- ===== src/Environment.antt =====
-- What the program asks of the operating system and of the library unicodedata, as parameters.
use tpool.Base.{Bool, Option, ℕ}
use tpool.Text.{Text}
use tpool.Paths.{FileSystem}

-- unicodedata.normalize('NFC', s), east_asian_width(c) in ('W', 'F') and combining(c)
pub record Unicode : Type 0 where
  pub normalize : Text → Text
  pub is_wide : ℕ → Bool
  pub is_combining : ℕ → Bool

-- `read` is codecs.open(name, 'r', 'utf8', 'replace').read(), `none` for an IOError; `fuel` bounds the
-- rounds of the loops that climb directories.
pub record Environment : Type 0 where
  pub files : FileSystem
  pub unicode : Unicode
  pub read : Text → Option Text
  pub fuel : ℕ
