-- ===== src/Text.antt =====
-- The functions of Go's `strings` package that the program calls, over the bytes of a string.
-- `unicode.IsSpace` is exact: in UTF-8 the bytes of a white-space character stand nowhere inside
-- another character, so a scan for those sequences finds what a scan by characters finds.
mod Trim
mod Search
pub mod Laws
unfoldable pub use Trim.*
unfoldable pub use Search.*
use Prim.Native.Char.{code}
use Prim.Native.String.{String}
use gist.Prelude.{ℕ, ◌+◌, List, [], ◌∷◌, map, ◌&&◌, leb, if◌then◌else◌}

-- The bytes of a literal in ASCII.
abbrev pub codes : String → List ℕ
codes String.[] = []
codes (String.◌∷◌ c s) = code c ∷ codes s

-- `strings.ToLower` on ASCII text; beyond it the mapping is a parameter of the model.
unfoldable pub to_lower_ascii : List ℕ → List ℕ
to_lower_ascii = map λ c. if leb b'A' c && leb c b'Z' then c + 32 else c
