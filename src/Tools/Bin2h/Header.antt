-- ===== src/Tools/Bin2h/Header.antt =====
-- The header that `main` of src/tools/bin2h.c writes.
use crisp.Base.{
  ℕ, zero, suc, ◌+◌, ◌-◌, ◌≤◌, ◌<◌, ◌≡◌, ◌==◌, true, refl, arith, ◌++◌, some, ok, Returns, returns,
}
use crisp.Base.Runs.{Returns-bind, Returns-if, Returns-ok}
use crisp.Array.{Array, load-ok}
use crisp.CString.Literal.{codes}
use crisp.CString.Search.{IsString}
use crisp.Tools.Bin2h.{get_basename}
use crisp.Tools.Bin2h.Names.{IsStem, filename_to_identifier-characters}
use crisp.CString.Format.{Text, string_loop, string_from}
use crisp.Tools.Bin2h.Text.{chunks_text}
use crisp.Tools.Bin2h.Convert.{Streams, blank_identifier, opening, closing, convert, bin2h}
use crisp.Tools.Bin2h.Scan.{AllChunks, array_values, delivered, array_values-chunks_text}

module _ (s : Array) (n : ℕ) (string : IsString s n) where
  string_loop-Returns :
      (left p : ℕ) → p ≤ n → n < p + left → Returns (λ _. Unit {0}) (string_loop s left p)
  unfolding string_loop
  string_loop-Returns zero p h enough = absurd (omega arith)
  string_loop-Returns (suc left) p h enough = rw (load-ok s p (omega (arith, string.room))) (
      Returns-if (s.at p == 0) (λ _. returns tt)
        (λ more.
          Returns-bind
            (string_loop-Returns left (p + 1) (ground (arith, string.terminator)) (omega arith))
            λ text _. returns tt))

  string_from-Returns : (p : ℕ) → p ≤ n → Returns (λ _. Unit {0}) (string_from s p)
  unfolding string_from
  string_from-Returns p h = string_loop-Returns (s.size + 1) p h (omega (arith, string.room))

-- The converter on a path that is a string, whose base name has fewer than 256 characters before
-- its first dot, if both files open: it ends without undefined behaviour with exit code 0, and what
-- it writes holds the opening of an array whose values, read back as hexadecimal numbers up to the
-- closing brace, are the bytes that `fread` delivered.
pub bin2h-array_values :
    (input_file : Array) (n base q : ℕ) (files : Streams)
    → IsString input_file n
    → get_basename input_file 0 ≡ ok base
    → IsStem input_file n base q
    → q - base < 256
    → files.opens ≡ true
    → files.created ≡ true
    → AllChunks files.chunks
    → (before after : Text) × (bin2h 3 input_file files
        ≡ ok (0, before ++ (codes "[] = {\n" ++ after)))
      × (array_values after ≡ some (delivered files.chunks))
unfolding bin2h convert closing
bin2h-array_values input_file n base q files string basename stem short opens created chunks =
    let (name, named, identified) =
      filename_to_identifier-characters input_file n string q base blank_identifier stem short in
    let (base_name, printed, _) =
      Returns-ok
        (string_from-Returns input_file n string base (omega (arith, stem.from, stem.inside))) in
    let (identifier, copied, _) =
      Returns-ok (string_from-Returns name (q - base) identified.text 0 (omega arith)) in
    let footer : Text = closing identifier files.total_bytes in
    (
      opening base_name identifier,
      chunks_text true 0 files.chunks ++ footer,
      rw (opens, created, basename, named, printed, copied) refl,
      array_values-chunks_text files.chunks _ chunks,
    )
