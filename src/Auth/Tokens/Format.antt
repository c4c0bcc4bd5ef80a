-- ===== src/Auth/Tokens/Format.antt =====
-- machine_token.go: the tokens that are generated pass the test of the format.
use open_machine_core.Prelude.{
  ℕ, zero, suc, ◌*◌, ◌/◌, ◌%◌, String, List, [], ◌∷◌, ◌≡◌, refl, true, some, length, All, get_or,
  subst, some_inj, arith,
}
use Prim.Native.String.{len}
use text.Mathlib.TextPositions.{len-append, starts_with-append}
use open_machine_core.Prelude.Text.{text_append}
use open_machine_core.Auth.Tokens.{
  machine_token_prefix, validate_token_format, hex_digits, hex_digit, hex, generate_machine_token,
}

len-get_or :
    (digits : List String) (n : ℕ) (d : String)
    → All (λ s. len s ≡ 1) digits
    → len d ≡ 1
    → len (get_or digits n d) ≡ 1
len-get_or [] n d all h = h
len-get_or (x ∷ digits) zero d all h = all.0
len-get_or (x ∷ digits) (suc n) d all h = len-get_or digits n d all.1 h

len-hex_digit : (n : ℕ) → len (hex_digit n) ≡ 1
len-hex_digit n = len-get_or hex_digits n "f" (omega arith) refl

len-hex : (bs : List ℕ) → len (hex bs) ≡ 2 * length bs
unfolding hex
len-hex [] = refl
len-hex (b ∷ bs) = omega (
  arith,
  len-hex bs,
  len-hex_digit (b / 16),
  len-hex_digit (b % 16),
  len-append (hex_digit (b / 16)) (text_append (hex_digit (b % 16)) (hex bs)),
  len-append (hex_digit (b % 16)) (hex bs),
)

-- A token that is generated with the text of a uuid, 36 bytes, and 32 random bytes passes the test of
-- the format.
pub validate_token_format-generate_machine_token :
    (id : String) (secret : List ℕ) {token : String}
    → len id ≡ 36
    → length secret ≡ 32
    → generate_machine_token id (some secret) ≡ some token
    → validate_token_format token ≡ true
unfolding validate_token_format generate_machine_token
validate_token_format-generate_machine_token id secret {token} h k e =
    let rest : String = text_append id (text_append "_" (hex secret)) in
    subst (λ t. validate_token_format t ≡ true) (some_inj e)
      (ground (
        arith,
        h,
        k,
        starts_with-append machine_token_prefix rest,
        len-append machine_token_prefix rest,
        len-append id (text_append "_" (hex secret)),
        len-append "_" (hex secret),
        len-hex secret,
      ))
