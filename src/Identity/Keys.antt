-- ===== src/Identity/Keys.antt =====
-- The text of a public key, read back.
use Prim.Native.Char.{code}
use Prim.Native.String as Text
use text.Mathlib.TextLemmas.{nil-append, cons-append}
use federloom.Prelude.{◌≡◌, refl, ap, true, ◌==◌, arith, String, Option, some, length}
use federloom.Proto.{Bytes}
use federloom.Identity.{◌<>◌, Crypto, after_prefix, encode_pub, decode_pub}

pub after_prefix-append : (p s : String) → after_prefix p (p <> s) ≡ some s
unfolding after_prefix
after_prefix-append Text.[] s = ap some (nil-append s)
after_prefix-append (Text.◌∷◌ c p) s =
    let same : (code c == code c) ≡ true = ground arith in
    rw (cons-append c p s, after_prefix, same) (after_prefix-append p s)

-- A key of 32 bytes whose base64 is read back is read back from its text.
pub decode_pub-encode_pub :
    (crypto : Crypto) (decode64 : String → Option Bytes) (key : Bytes)
    → length key ≡ 32
    → decode64 (crypto.base64 key) ≡ some key
    → decode_pub decode64 (encode_pub crypto key) ≡ some key
unfolding encode_pub decode_pub
decode_pub-encode_pub crypto decode64 key size reads =
    let sized : (length key == 32) ≡ true = ground arith in
    rw (decode_pub, after_prefix-append "ed25519:" (crypto.base64 key), reads, sized) refl
