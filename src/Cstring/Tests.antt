-- ===== src/Cstring/Tests.antt =====
-- The string library on the strings "ab" at 100 and "12" at 200.
use almorina_os.Prelude.{ℕ, refl, arith, List, [], ◌∷◌, ◌==◌, if◌then◌else◌}
use almorina_os.Cstring.{Memory}
use almorina_os.Cstring.Bytes.{IsString}

abbrev ab : List ℕ
ab = b'a' ∷ b'b' ∷ []

abbrev twelve : List ℕ
twelve = b'1' ∷ b'2' ∷ []

abbrev text : Memory
text q =
    if q == 100
    then b'a'
    else if q == 101
    then b'b'
    else if q == 200
    then b'1'
    else if q == 201
    then b'2'
    else 0

ab-IsString : IsString text 100 ab
ab-IsString = (refl, omega arith, (refl, omega arith, refl))

twelve-IsString : IsString text 200 twelve
twelve-IsString = (refl, omega arith, (refl, omega arith, refl))
