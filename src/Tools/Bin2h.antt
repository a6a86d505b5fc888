-- ===== src/Tools/Bin2h.antt =====
-- The names that src/tools/bin2h.c makes: the base name of a path, and the identifier for a file
-- name. A pointer into the path is an index, and a loop is given rounds.
pub mod Names
pub mod Text
pub mod Convert
pub mod Scan
pub mod Header
use crisp.Base.{
  ℕ, zero, suc, ◌+◌, ◌==◌, leb, not, ◌&&◌, ◌||◌, Bool, if◌then◌else◌, Outcome, ok, fault, ◌>>=◌,
}
use crisp.Array.{Array, load, store}

abbrev pub is_separator : ℕ → Bool
is_separator c = c == b'/' || c == b'\\'

unfoldable pub basename_loop : Array → (left base p : ℕ) → Outcome ℕ
basename_loop path zero base p = fault
basename_loop path (suc left) base p = do
  c ← load path p
  let rest = basename_loop path left (if is_separator c then p + 1 else base) (p + 1)
  if c == 0 then ok base else rest

-- `get_basename(path + start)`, as an index into `path`
unfoldable pub get_basename : Array → ℕ → Outcome ℕ
get_basename path start = basename_loop path (path.size + 1) start start

abbrev pub is_alphanumeric : ℕ → Bool
is_alphanumeric c = leb b'a' c && leb c b'z' || leb b'A' c && leb c b'Z' || leb b'0' c && leb c b'9'

abbrev pub identifier_character : ℕ → ℕ
identifier_character c = if is_alphanumeric c then c else b'_'

unfoldable pub identifier_loop : Array → (left p i : ℕ) → Array → Outcome Array
identifier_loop filename zero p i identifier = fault
identifier_loop filename (suc left) p i identifier = do
  c ← load filename p
  let rest =
      store identifier i (identifier_character c) >>= identifier_loop filename left (p + 1) (i + 1)
  if not (c == 0) && not (c == b'.') then rest else store identifier i 0

-- `filename_to_identifier(filename + p, identifier)`
unfoldable pub filename_to_identifier : Array → ℕ → Array → Outcome Array
filename_to_identifier filename p identifier =
    identifier_loop filename (filename.size + 1) p 0 identifier
