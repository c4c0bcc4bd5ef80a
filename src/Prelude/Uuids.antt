-- ===== src/Prelude/Uuids.antt =====
-- Values of github.com/google/uuid: 128-bit numbers. uuid.Nil is 0.
use Prim.Native.Nat.{ℕ}

abbrev pub Uuid : Type 0
Uuid = ℕ

abbrev pub uuid_nil : Uuid
uuid_nil = 0
