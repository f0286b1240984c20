-- ===== src/Prelude/Words.antt =====
-- Unsigned words, their big-endian bytes, and their decimal text.
use Prim.Native.Nat.{ℕ, zero, suc, ◌+◌, ◌-◌, ◌*◌, ◌/◌, ◌%◌, ◌^◌, ◌<◌}
use Prim.Native.String.{String, ◌++◌ as str_append}
use mathlib.Core.Path.{◌≡◌, refl}
use mathlib.Core.List.{List, [], ◌∷◌}
use native.Mathlib.Omega.{arith}
use syncstate.Prelude.Tests.{ltb, if◌then◌else◌}

abbrev pub u64_mod : ℕ
u64_mod = 2 ^ 64

-- `x += 1` and `x - 1` on a u64, with the wrap-around of a release build.
unfoldable pub u64_inc : ℕ → ℕ
u64_inc x = (x + 1) % u64_mod

unfoldable pub u64_dec : ℕ → ℕ
u64_dec x = (x + u64_mod - 1) % u64_mod

pub u64_inc_lem : (x : ℕ) → x + 1 < u64_mod → u64_inc x ≡ suc x
unfolding u64_inc
u64_inc_lem x h = omega arith

pub u64_dec-u64_inc : (x : ℕ) → x + 1 < u64_mod → u64_dec (u64_inc x) ≡ x
unfolding u64_inc u64_dec
u64_dec-u64_inc x h = omega arith

-- `to_be_bytes` of a word of the given number of bytes; `as` drops the higher bits.
unfoldable pub to_be_bytes : ℕ → ℕ → List ℕ
to_be_bytes zero x = []
to_be_bytes (suc width) x = (x / 256 ^ width % 256) ∷ to_be_bytes width x

-- `from_be_bytes`
unfoldable pub from_be_bytes_onto : ℕ → List ℕ → ℕ
from_be_bytes_onto acc [] = acc
from_be_bytes_onto acc (b ∷ bytes) = from_be_bytes_onto (acc * 256 + b) bytes

unfoldable pub from_be_bytes : List ℕ → ℕ
unfolding from_be_bytes_onto
from_be_bytes = from_be_bytes_onto 0

-- A word of four bytes is read back.
pub from_be_bytes-to_be_bytes : (x : ℕ) → x < 2 ^ 32 → from_be_bytes (to_be_bytes 4 x) ≡ x
unfolding from_be_bytes from_be_bytes_onto to_be_bytes
from_be_bytes-to_be_bytes x h = omega arith

abbrev digit : ℕ → String
digit zero = "0"
digit (suc zero) = "1"
digit (suc (suc zero)) = "2"
digit (suc (suc (suc zero))) = "3"
digit (suc (suc (suc (suc zero)))) = "4"
digit (suc (suc (suc (suc (suc zero))))) = "5"
digit (suc (suc (suc (suc (suc (suc zero)))))) = "6"
digit (suc (suc (suc (suc (suc (suc (suc zero))))))) = "7"
digit (suc (suc (suc (suc (suc (suc (suc (suc zero)))))))) = "8"
digit _ = "9"

-- At most `places` decimal digits of a number; a u64 has no more than twenty.
decimal : ℕ → ℕ → String
decimal zero x = ""
decimal (suc places) x =
    let rest = decimal places (x / 10) in
    if ltb x 10 then digit x else str_append rest (digit (x % 10))

-- `Display` of a u64
unfoldable pub u64_to_string : ℕ → String
unfolding decimal
u64_to_string x = decimal 20 x

u64_to_string_max : u64_to_string (u64_mod - 1) ≡ "18446744073709551615"
unfolding u64_to_string
u64_to_string_max = refl

to_be_bytes_test : to_be_bytes 8 258 ≡ 0 ∷ 0 ∷ 0 ∷ 0 ∷ 0 ∷ 0 ∷ 1 ∷ 2 ∷ []
unfolding to_be_bytes
to_be_bytes_test = refl
