-- ===== src/Tests/Text.antt =====
-- Two characters, encoded and decoded.
use smart_home_xiugai.Prelude.{◌≡◌, refl, [], ◌∷◌, ◌++◌, some, arith}
use smart_home_xiugai.Base64.{base64_decode, base64_encode, base64char}
use smart_home_xiugai.Base64.RoundTrip.{base64_decode-base64_encode}

encoded : base64_encode (b'h' ∷ b'i' ∷ 0 ∷ []) ≡ b'a' ∷ b'G' ∷ b'k' ∷ b'=' ∷ 0 ∷ []
unfolding base64_encode base64char
encoded = refl

base64_decode-base64_encode_example :
    base64_decode (base64_encode ((b'h' ∷ b'i' ∷ []) ++ 0 ∷ 5 ∷ []) ++ (9 ∷ []))
    ≡ some (b'h' ∷ b'i' ∷ [])
base64_decode-base64_encode_example =
    base64_decode-base64_encode (b'h' ∷ b'i' ∷ []) (5 ∷ []) (9 ∷ [])
      (omega arith, omega arith, (omega arith, omega arith, tt))
