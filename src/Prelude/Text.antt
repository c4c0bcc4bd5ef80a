-- ===== src/Prelude/Text.antt =====
-- What the program uses of Go's strings, fmt and sort: trimming, decimal printing, comparison.
use Prim.Native.Nat.{ℕ, zero, suc, ◌/◌, ◌%◌}
use Prim.Native.Char.{Char, code}
use Prim.Native.String.{String, compare, ◌++◌}
use text.Mathlib.Text.{is_lt}
use mathlib.Core.Bool.{Bool, ◌&&◌, ◌||◌}
use open_machine_core.Prelude.Tests.{leb, ltb, ◌==◌, if◌then◌else◌}

-- s + t
abbrev pub text_append : String → String → String
text_append s t = s ++ t

-- s < t, by bytes
abbrev pub text_less : String → String → Bool
text_less s t = is_lt (compare s t)

-- Unicode White_Space
abbrev pub is_space : ℕ → Bool
is_space c =
    (leb 9 c && leb c 13)
    || (c == 32
        || (c == 0x85
            || (c == 0xa0
                || (c == 0x1680
                    || ((leb 0x2000 c && leb c 0x200a)
                        || (c == 0x2028
                            || (c == 0x2029 || (c == 0x202f || (c == 0x205f || c == 0x3000)))))))))

abbrev pub trim_left : String → String
trim_left String.[] = String.[]
trim_left (String.◌∷◌ c s) = if is_space (code c) then trim_left s else String.◌∷◌ c s

abbrev pub before_space : Char → String → String
before_space c String.[] = if is_space (code c) then String.[] else String.◌∷◌ c String.[]
before_space c (String.◌∷◌ d s) = String.◌∷◌ c (String.◌∷◌ d s)

abbrev pub trim_right : String → String
trim_right String.[] = String.[]
trim_right (String.◌∷◌ c s) = before_space c (trim_right s)

-- strings.TrimSpace(s)
unfoldable pub trim_space : String → String
trim_space s = trim_right (trim_left s)

abbrev pub digit : ℕ → String
digit zero = "0"
digit (suc zero) = "1"
digit (suc (suc zero)) = "2"
digit (suc (suc (suc zero))) = "3"
digit (suc (suc (suc (suc zero)))) = "4"
digit (suc (suc (suc (suc (suc zero))))) = "5"
digit (suc (suc (suc (suc (suc (suc zero)))))) = "6"
digit (suc (suc (suc (suc (suc (suc (suc zero))))))) = "7"
digit (suc (suc (suc (suc (suc (suc (suc (suc zero)))))))) = "8"
digit _ = "9"

-- A number has fewer digits than it has units, and one more.
unfoldable pub decimal_on : ℕ → ℕ → String
decimal_on zero n = ""
decimal_on (suc fuel) n =
    let front = decimal_on fuel (n / 10) in
    if ltb n 10 then digit n else text_append front (digit (n % 10))

-- fmt's %d of a number that is not negative
unfoldable pub decimal : ℕ → String
unfolding decimal_on
decimal n = decimal_on (suc n) n
