-- ===== src/Vint/Runs.antt =====
-- Runs of lib/utils/vint/vint.hpp, and the theorems at concrete inputs.
use enigma_db.Base.{ℕ, ◌≡◌, refl, some, List, [], ◌∷◌, ◌++◌, arith}
use enigma_db.Vint.{
  ok, put_loop, clear_flag, put_varint32, put_varint64, get_varint32, get_loop64, get_varint64,
}
use enigma_db.Vint.Get.{get_varint32_terminated, get_varint64_terminated}
use enigma_db.Vint.RoundTrip.{get-put32, get-put64}

put_300 : put_varint32 (7 ∷ []) 300 ≡ some (7 ∷ 0xac ∷ 0x02 ∷ [])
unfolding put_varint32 put_loop clear_flag
put_300 = refl

get_300 : get_varint64 (0xac ∷ 0x02 ∷ 9 ∷ []) 0 ≡ (ok, some (9 ∷ []), 300)
unfolding get_varint64 get_loop64
get_300 = refl

get-put32_example :
    (bytes : List ℕ) × (put_varint32 (7 ∷ []) 300 ≡ some (7 ∷ bytes))
    × (get_varint32 (bytes ++ (9 ∷ [])) 0 ≡ (ok, some (9 ∷ []), 300))
get-put32_example = get-put32 (7 ∷ []) 300 (9 ∷ []) 0 (omega arith)

get-put64_example :
    (bytes : List ℕ) × (put_varint64 (7 ∷ []) 300 ≡ some (7 ∷ bytes))
    × (get_varint64 (bytes ++ (9 ∷ [])) 0 ≡ (ok, some (9 ∷ []), 300))
get-put64_example = get-put64 (7 ∷ []) 300 (9 ∷ []) 0 (omega arith)

abbrev four_ff : List ℕ
four_ff = 0xff ∷ 0xff ∷ 0xff ∷ 0xff ∷ []

get_varint32_terminated_example :
    get_varint32 (0xff ∷ 0xff ∷ 0xff ∷ 0xff ∷ 0x7f ∷ []) 0 ≡ (ok, some [], 0xffff_ffff)
get_varint32_terminated_example =
    get_varint32_terminated four_ff 0x7f [] 0 (omega arith) (omega arith) (omega arith)

get_varint64_terminated_example :
    get_varint64 (0xff ∷ 0xff ∷ 0xff ∷ 0xff ∷ 0x7f ∷ []) 0 ≡ (ok, some [], 0x7_ffff_ffff)
get_varint64_terminated_example =
    get_varint64_terminated four_ff 0x7f [] 0 (omega arith) (omega arith) (omega arith)
