-- ===== src/Base/Text.antt =====
-- Go strings as lists of code points, with what the source uses of Go's `strings`, `strconv` and
-- `unicode/utf8`. Comparing valid UTF-8 byte by byte orders texts as comparing their code points.
mod Laws
mod Defs
pub use Laws.*
unfoldable pub use Defs.*
