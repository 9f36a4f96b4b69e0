-- ===== src/Base/Hex.antt =====
-- Go's encoding/hex on bytes and texts given by their codes.
use Prim.Native.Nat.{ℕ, ◌+◌, ◌-◌, ◌*◌, ◌/◌, ◌%◌, ◌<◌}
use mathlib.Core.Path.{◌≡◌, refl, ap}
use mathlib.Core.Option.{Option, none, some}
use mathlib.Core.List.{List, [], ◌∷◌}
use native.Mathlib.Omega.{arith}
use openlinker_plugin.Base.Tests.{ltb, if◌then◌else◌}
use openlinker_plugin.Base.Lists.{length, All}
use openlinker_plugin.Base.Text.{between}

hex_digit : ℕ → Option ℕ
hex_digit c =
    if between b'0' b'9' c
    then some (c - b'0')
    else if between b'a' b'f' c
    then some (c - b'a' + 10)
    else if between b'A' b'F' c
    then some (c - b'A' + 10)
    else none

hex_byte : Option ℕ → Option ℕ → Option (List ℕ) → Option (List ℕ)
hex_byte (some h) (some l) (some rest) = some ((16 * h + l) ∷ rest)
hex_byte _ _ _ = none

-- hex.DecodeString: `none` for an odd length or another character.
unfoldable pub hex_decode : List ℕ → Option (List ℕ)
unfolding hex_digit hex_byte
hex_decode [] = some []
hex_decode (c ∷ []) = none
hex_decode (c ∷ d ∷ rest) = hex_byte (hex_digit c) (hex_digit d) (hex_decode rest)

abbrev hex_char : ℕ → ℕ
hex_char n = if ltb n 10 then b'0' + n else b'a' + (n - 10)

-- hex.EncodeToString
unfoldable pub hex_encode : List ℕ → List ℕ
hex_encode [] = []
hex_encode (b ∷ rest) = hex_char (b / 16) ∷ hex_char (b % 16) ∷ hex_encode rest

hex_digit-hex_char : (n : ℕ) → n < 16 → hex_digit (hex_char n) ≡ some n
unfolding hex_digit
hex_digit-hex_char n h = ground arith

pub hex_decode-hex_encode :
    (bytes : List ℕ) → All (λ b. b < 256) bytes → hex_decode (hex_encode bytes) ≡ some bytes
unfolding hex_decode hex_encode hex_byte
hex_decode-hex_encode [] h = refl
hex_decode-hex_encode (b ∷ rest) (hb, h) =
    rw
      (
        hex_digit-hex_char (b / 16) (omega arith),
        hex_digit-hex_char (b % 16) (omega arith),
        hex_decode-hex_encode rest h,
      )
      (ap (λ c. some (c ∷ rest)) (omega arith))

pub length-hex_encode : (bytes : List ℕ) → length (hex_encode bytes) ≡ 2 * length bytes
unfolding hex_encode
length-hex_encode [] = refl
length-hex_encode (b ∷ rest) = omega (arith, length-hex_encode rest)
