-- ===== src/Modbus/Frame/Response.antt =====
-- frame.go: what `ParseRegisterResponse` returns, and that it never reads out of range.
use open_machine_core.Prelude.{
  ℕ, zero, suc, ◌+◌, ◌*◌, ◌/◌, ◌%◌, ◌<◌, ◌≤◌, ◌≡◌, ◌≢◌, ◌⊎◌, inl, inr, refl, List, [], ◌∷◌, ◌++◌,
  arith, length, length-append, some, uint16_at, dec_lt, List-cases,
}
use open_machine_core.Prelude.Outcome.{ok, err, panic}
use open_machine_core.Modbus.Frame.{
  ModbusFrame, parse_register_response, read_registers, incomplete_response_data,
}
use open_machine_core.Modbus.Frame.Codec.{big_endian}

-- Big-endian words in a row.
abbrev pub words : List ℕ → List ℕ
words [] = []
words (w ∷ ws) = big_endian w ++ words ws

pub length-words : (ws : List ℕ) → length (words ws) ≡ 2 * length ws
length-words [] = omega arith
length-words (w ∷ ws) = omega (arith, length-words ws)

uint16_at-some :
    (bytes : List ℕ) (at : ℕ) → suc at < length bytes → (w : ℕ) × (uint16_at bytes at ≡ some w)
uint16_at-some [] at h = absurd (omega arith)
uint16_at-some (a ∷ []) at h = absurd (omega arith)
uint16_at-some (a ∷ b ∷ bytes) zero h = (a * 256 + b, refl)
uint16_at-some (a ∷ b ∷ bytes) (suc at) h = uint16_at-some (b ∷ bytes) at (omega arith)

read_registers_returns :
    (bytes : List ℕ) (i rounds : ℕ)
    → 2 * (i + rounds) < length bytes
    → (ws : List ℕ) × (read_registers bytes i rounds ≡ ok ws) × (length ws ≡ rounds)
unfolding read_registers
read_registers_returns bytes i zero h = ([], refl, refl)
read_registers_returns bytes i (suc rounds) h =
    let (w, at_i) = uint16_at-some bytes (1 + i * 2) (omega arith) in
    let (ws, later, n) = read_registers_returns bytes (suc i) rounds (omega arith) in
    (w ∷ ws, ground arith, ground arith)

-- A response whose announced bytes are all there gives half as many registers, and a shorter one
-- is refused.
pub parse_counts :
    (f : ModbusFrame) (byte_count : ℕ) (rest : List ℕ)
    → f.data_bytes ≡ byte_count ∷ rest
    → ((byte_count ≤ length rest)
        × ((ws : List ℕ) × (parse_register_response f ≡ ok ws) × (length ws ≡ byte_count / 2)))
      ⊎ ((length rest < byte_count) × (parse_register_response f ≡ err incomplete_response_data))
unfolding parse_register_response
parse_counts f byte_count rest e = elim (dec_lt (length rest) byte_count) [
  | yes short ↦ inr (short, ground arith)
  | no enough ↦
      let (ws, read, n) =
        read_registers_returns (byte_count ∷ rest) 0 (byte_count / 2) (omega arith) in
      inl (omega arith, (ws, ground arith, n))
]

-- Whatever bytes a response holds, parsing it does not panic.
pub parse-ne-panic : (f : ModbusFrame) → parse_register_response f ≢ panic
parse-ne-panic f h = elim (List-cases f.data_bytes) [
  | inl e ↦ unfold parse_register_response in ground arith
  | inr (byte_count, rest, e) ↦ elim (parse_counts f byte_count rest e) [
    | inl (_, (_, read, _)) ↦ cc
    | inr (_, refused) ↦ cc
  ]
]

word : (w : ℕ) → w / 256 * 256 + w % 256 ≡ w
word w = omega arith

uint16_at-words :
    (c w : ℕ) (pre ws : List ℕ)
    → uint16_at (c ∷ (words pre ++ words (w ∷ ws))) (1 + length pre * 2) ≡ some w
uint16_at-words c w [] ws = ground (arith, word w)
uint16_at-words c w (p ∷ pre) ws =
    let shift : 1 + suc (length pre) * 2 ≡ suc (suc (1 + length pre * 2)) = omega arith in
    rw shift (uint16_at-words (p % 256) w pre ws)

words-snoc :
    (pre : List ℕ) (w : ℕ) (ws : List ℕ)
    → words (pre ++ w ∷ []) ++ words ws ≡ words pre ++ words (w ∷ ws)
words-snoc [] w ws = refl
words-snoc (p ∷ pre) w ws = rw (words-snoc pre w ws)

read_registers-words :
    (c : ℕ) (pre ws : List ℕ)
    → read_registers (c ∷ (words pre ++ words ws)) (length pre) (length ws) ≡ ok ws
unfolding read_registers
read_registers-words c pre [] = refl
read_registers-words c pre (w ∷ ws) =
    let next : length (pre ++ w ∷ []) ≡ suc (length pre) =
      omega (arith, length-append pre (w ∷ [])) in
    let later = read_registers-words c (pre ++ w ∷ []) ws in
    let later = rw (words-snoc pre w ws, next) at later in
    rw (uint16_at-words c w pre ws, later) refl

-- A response that holds a byte count and big-endian words, as the specification prescribes, is
-- parsed as those words.
pub parse-words :
    (f : ModbusFrame) (ws : List ℕ)
    → f.data_bytes ≡ (2 * length ws) ∷ words ws
    → parse_register_response f ≡ ok ws
unfolding parse_register_response
parse-words f ws e =
    let half : 2 * length ws / 2 ≡ length ws = omega arith in
    ground (arith, read_registers-words (2 * length ws) [] ws, length-words ws, half)
