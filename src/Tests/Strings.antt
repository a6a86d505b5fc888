-- ===== src/Tests/Strings.antt =====
-- The memory and string routines on small buffers.
use crisp.Base.{refl, arith, ◌==◌, if◌then◌else◌}
use crisp.Array.{Array}
use crisp.CString.Search.{IsString}

-- "ab", and "ac", in buffers of four bytes
abbrev pub ab : Array
ab = record { size = 4; at = λ i. if i == 0 then 97 else if i == 1 then 98 else 0 }

abbrev ac : Array
ac = record { size = 4; at = λ i. if i == 0 then 97 else if i == 1 then 99 else 0 }

pub ab-IsString : IsString ab 2
ab-IsString = record { room = omega arith; terminator = refl; characters = λ k h. ground arith }
