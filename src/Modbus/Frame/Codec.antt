-- ===== src/Modbus/Frame/Codec.antt =====
-- frame.go: what `Encode` writes, and that `DecodeFrame` reads it back.
use open_machine_core.Prelude.{
  ℕ, suc, ◌+◌, ◌*◌, ◌/◌, ◌%◌, ◌≡◌, ◌≢◌, List, [], ◌∷◌, ◌++◌, arith, length, All, IsByte, IsWord,
  copy-make,
}
use open_machine_core.Prelude.Outcome.{ok, err, panic}
use open_machine_core.Modbus.Frame.{ModbusFrame, encode, decode_frame, invalid_protocol_id}

-- The wire layout by the Modbus TCP specification: big-endian words, then the unit, code and data.
abbrev pub big_endian : ℕ → List ℕ
big_endian w = (w / 256) ∷ (w % 256) ∷ []

abbrev pub mbap : ModbusFrame → List ℕ
mbap f =
    big_endian f.transaction_id
    ++ (big_endian f.protocol_id
        ++ (big_endian f.length_field ++ (f.unit_id ∷ f.function_code ∷ f.data_bytes)))

-- A frame whose fields fit their Go types.
pub record IsFrame (f : ModbusFrame) : Type 0 where
  pub transaction_word : IsWord f.transaction_id
  pub protocol_word : IsWord f.protocol_id
  pub unit_byte : IsByte f.unit_id
  pub code_byte : IsByte f.function_code

eight : (n : ℕ) → 7 + n + 1 ≡ suc (suc (suc (suc (suc (suc (suc (suc n)))))))
eight n = omega arith

-- The bytes that the encoder writes are the wire layout of the frame that it leaves behind, by
-- the Modbus TCP specification.
pub encode-mbap : (f : ModbusFrame) → (encode f).1 ≡ mbap (encode f).0
unfolding encode
encode-mbap f = rw (eight (length f.data_bytes)) (simp copy-make)

-- A frame carries seven bytes of header, the function code and the data.
pub length-encode : (f : ModbusFrame) → length (encode f).1 ≡ 8 + length f.data_bytes
unfolding encode
length-encode f = rw (encode-mbap f) (omega arith)

mbap-IsByte :
    (f : ModbusFrame)
    → IsFrame f
    → IsWord f.length_field
    → All IsByte f.data_bytes
    → All IsByte (mbap f)
mbap-IsByte f v l d = (
  omega arith,
  (
    omega arith,
    (omega arith, (omega arith, (omega arith, (omega arith, (v.unit_byte, (v.code_byte, d)))))),
  ),
)

-- Every byte that `Encode` writes is a byte, whatever the data's length.
pub encode-IsByte :
    (f : ModbusFrame) → IsFrame f → All IsByte f.data_bytes → All IsByte (encode f).1
unfolding encode
encode-IsByte f v d = rw (encode-mbap f) (mbap-IsByte (encode f).0 (ground arith) (omega arith) d)

two : (w : ℕ) → w / 256 * 256 + w % 256 ≡ w
two w = omega arith

decode-mbap : (f : ModbusFrame) → f.protocol_id ≡ 0 → decode_frame (mbap f) ≡ ok f
unfolding decode_frame
decode-mbap f p = ground (arith, two f.transaction_id, two f.protocol_id, two f.length_field)

decode-mbap_foreign :
    (f : ModbusFrame)
    → f.protocol_id ≢ 0
    → decode_frame (mbap f) ≡ err (invalid_protocol_id f.protocol_id)
unfolding decode_frame
decode-mbap_foreign f p = ground (arith, two f.protocol_id)

-- Decoding an encoded frame of protocol 0 gives the frame that the encoder leaves behind.
pub decode-encode :
    (f : ModbusFrame) → f.protocol_id ≡ 0 → decode_frame (encode f).1 ≡ ok (encode f).0
unfolding encode
decode-encode f p = rw (encode-mbap f) (decode-mbap (encode f).0 p)

-- A frame for another protocol is refused, naming the protocol.
pub decode_foreign :
    (f : ModbusFrame)
    → f.protocol_id ≢ 0
    → decode_frame (encode f).1 ≡ err (invalid_protocol_id f.protocol_id)
unfolding encode
decode_foreign f p = rw (encode-mbap f) (decode-mbap_foreign (encode f).0 p)

-- decoding never panics
pub decode-ne-panic : (bytes : List ℕ) → decode_frame bytes ≢ panic
unfolding decode_frame
decode-ne-panic (a ∷ b ∷ c ∷ d ∷ e ∷ f ∷ g ∷ h ∷ rest) p = ground arith
decode-ne-panic _ p = ground arith
