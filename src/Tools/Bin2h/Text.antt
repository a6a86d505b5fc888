-- ===== src/Tools/Bin2h/Text.antt =====
-- The lines of the array that src/tools/bin2h.c prints.
use crisp.Base.{length, ℕ, ◌+◌, ◌%◌, ◌^◌, Bool, false, if◌then◌else◌, List, [], ◌∷◌, ◌++◌}
use crisp.CString.Literal.{codes}
use crisp.CString.Format.{Text, hex_byte, hex_long}

-- The loop over a chunk.
unfoldable pub chunk_bytes : List ℕ → Text
chunk_bytes [] = []
chunk_bytes (b ∷ []) = codes "0x" ++ hex_byte b
chunk_bytes (b ∷ c ∷ bytes) = codes "0x" ++ (hex_byte b ++ (codes ", " ++ chunk_bytes (c ∷ bytes)))

-- The loop over the chunks that `fread` delivers, up to one without bytes. `offset` is a `size_t`.
unfoldable pub chunks_text : (first : Bool) (offset : ℕ) → List (List ℕ) → Text
chunks_text first offset [] = []
chunks_text first offset ([] ∷ chunks) = []
chunks_text first offset ((b ∷ bytes) ∷ chunks) =
    (if first then [] else codes ",\n")
    ++ (codes "    "
        ++ (chunk_bytes (b ∷ bytes)
            ++ (codes "  /* 0x"
                ++ (hex_long offset
                    ++ (codes " */"
                        ++ chunks_text false ((offset + length (b ∷ bytes)) % 2 ^ 64) chunks)))))
