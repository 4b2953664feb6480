-- ===== src/Base/Fnv.antt =====
-- The 64-bit FNV-1a hash of Go's `hash/fnv`, on bytes, and the decimal digits that `%d` writes.
use true_now.Base.Tests.{if◌then◌else◌, ltb}
use true_now.Base.Word.{Word}
use Prim.Native.Nat.{ℕ, zero, suc, ◌+◌, ◌*◌, ◌/◌, ◌%◌, ◌^◌, bit_xor}
use mathlib.Core.List.{List, [], ◌∷◌, ◌++◌}

-- The hash of the bytes before goes on with those to come.
unfoldable pub fnv1a_from : Word → List ℕ → Word
fnv1a_from hash [] = hash
fnv1a_from hash (byte ∷ bytes) = fnv1a_from ((bit_xor hash byte * 1_099_511_628_211) % 2 ^ 64) bytes

unfoldable pub fnv1a : List ℕ → Word
unfolding fnv1a_from
fnv1a bytes = fnv1a_from 14_695_981_039_346_656_037 bytes

-- The bytes of a number in decimal; it has at most as many digits as its value, and one.
unfoldable pub decimal_from : ℕ → ℕ → List ℕ
decimal_from zero n = []
decimal_from (suc fuel) n =
    let front = decimal_from fuel (n / 10) in
    if ltb n 10 then (48 + n) ∷ [] else front ++ ((48 + n % 10) ∷ [])

unfoldable pub decimal : ℕ → List ℕ
unfolding decimal_from
decimal n = decimal_from (suc n) n
