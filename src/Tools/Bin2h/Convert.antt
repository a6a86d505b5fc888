-- ===== src/Tools/Bin2h/Convert.antt =====
-- `main` of src/tools/bin2h.c. The C library's files are parameters: whether they open, the size
-- that `ftell` reports, and the bytes of each `fread`. What it prints on the terminal is left out.
use crisp.Base.{ℕ, ◌==◌, not, Bool, true, if◌then◌else◌, List, [], ◌++◌, Outcome, ok, ◌>>=◌}
use crisp.Array.{Array}
use crisp.CString.Literal.{codes}
use crisp.Tools.Bin2h.{get_basename, filename_to_identifier}
use crisp.CString.Format.{Text, decimal_long, string_from}
use crisp.Tools.Bin2h.Text.{chunks_text}

pub record Streams : Type 0 where
  pub opens : Bool
  pub total_bytes : ℕ
  pub chunks : List (List ℕ)
  pub created : Bool

-- `char identifier[256]`
abbrev pub blank_identifier : Array
blank_identifier = record { size = 256; at = λ i. 0 }

-- What stands before the bytes of the array, and what stands behind them.
unfoldable pub opening : (base_name identifier : Text) → Text
opening base_name identifier =
    codes "/*\n * Auto-generated from "
    ++ (base_name
        ++ (codes "\n * DO NOT EDIT - Generated by bin2h\n */\n\n#ifndef TEST_"
            ++ (identifier
                ++ (codes "_H\n#define TEST_"
                    ++ (identifier
                        ++ (codes "_H\n\n#include \"c32_types.h\"\n\nconst uint8_t test_"
                            ++ identifier))))))

unfoldable pub closing : Text → ℕ → Text
closing identifier total_bytes =
    codes "\n};\n\nconst uint32_t test_"
    ++ (identifier
        ++ (codes "_size = "
            ++ (decimal_long total_bytes
                ++ (codes ";\n\n#endif /* TEST_" ++ (identifier ++ codes "_H */\n")))))

-- The exit code, and what is written to the output file.
unfoldable pub convert : Array → Streams → Outcome (ℕ × Text)
convert input_file files = do
  base ← get_basename input_file 0
  name ← filename_to_identifier input_file base blank_identifier
  base_name ← string_from input_file base
  identifier ← string_from name 0
  ok (
    0,
    opening base_name identifier
        ++ (codes "[] = {\n"
            ++ (chunks_text true 0 files.chunks ++ closing identifier files.total_bytes)),
  )

unfoldable pub bin2h : (argc : ℕ) → Array → Streams → Outcome (ℕ × Text)
bin2h argc input_file files =
    let converted = convert input_file files in
    if not (argc == 3)
    then ok (1, [])
    else if not files.opens
    then ok (1, [])
    else if not files.created
    then ok (1, [])
    else converted
