-- ===== src/Tests/Headers.antt =====
-- A header of src/tools/bin2h.c.
use crisp.Base.{ℕ, ◌≡◌, refl, arith, true, List, [], ◌∷◌, ◌++◌, some, ok}
use crisp.Array.{load}
use crisp.CString.Literal.{literal, codes}
use crisp.Tools.Bin2h.{get_basename, basename_loop}
use crisp.CString.Format.{Text, hex_long, digits_loop, decimal_long}
use crisp.Tools.Bin2h.Text.{chunks_text, chunk_bytes}
use crisp.Tools.Bin2h.Convert.{Streams, bin2h}
use crisp.Tools.Bin2h.Scan.{array_values, delivered}
use crisp.Tools.Bin2h.Header.{bin2h-array_values}
use crisp.Tests.Names.{path, path-IsString, path-IsStem}

abbrev contents : List (List ℕ)
contents = (1 ∷ 0xAB ∷ []) ∷ (255 ∷ []) ∷ []

array_text :
    chunks_text true 0x12FE0 contents
    ≡ codes "    0x01, 0xab  /* 0x12fe0 */,\n    0xff  /* 0x12fe2 */"
unfolding chunks_text chunk_bytes hex_long digits_loop
array_text = refl

size_text : decimal_long 65536 ≡ codes "65536"
unfolding decimal_long digits_loop
size_text = refl

abbrev files : Streams
files = record { opens = true; total_bytes = 3; chunks = contents; created = true }

path-basename : get_basename path 0 ≡ ok 4
unfolding get_basename basename_loop load literal
path-basename = refl

bin2h-array_values_example :
    (before after : Text) × (bin2h 3 path files ≡ ok (0, before ++ (codes "[] = {\n" ++ after)))
    × (array_values after ≡ some (delivered contents))
bin2h-array_values_example =
    bin2h-array_values path 11 4 7 files path-IsString path-basename path-IsStem (omega arith) refl
      refl ((omega arith, (omega arith, tt)), ((omega arith, tt), tt))
