-- ===== src/Prelude/Bytes.antt =====
-- Go's byte slices and fixed-width conversions: `make`, `copy`, and encoding/binary's BigEndian.
use Prim.Native.Nat.{ℕ, zero, suc, ◌+◌, ◌*◌, ◌/◌, ◌%◌, ◌<◌}
use mathlib.Core.Path.{◌≡◌, refl, ap}
use mathlib.Core.List.{List, [], ◌∷◌}
use mathlib.Core.Option.{Option, none, some}
use open_machine_core.Prelude.Lists.{length, get_elem?, set, replicate}

-- uint8(x) and uint16(x) of an unsigned x
abbrev pub uint8 : ℕ → ℕ
uint8 x = x % 256

abbrev pub uint16 : ℕ → ℕ
uint16 x = x % 65536

abbrev pub IsByte : ℕ → Type 0
IsByte b = b < 256

abbrev pub IsWord : ℕ → Type 0
IsWord w = w < 65536

-- make([]byte, n)
abbrev pub make : ℕ → List ℕ
make n = replicate n 0

-- binary.BigEndian.PutUint16(buf[at:at+2], v)
abbrev pub put_uint16 : List ℕ → ℕ → ℕ → List ℕ
put_uint16 buf at v = set (set buf at (v / 256)) (suc at) (v % 256)

-- copy(buf, src): as many elements as both have
abbrev pub copy : List ℕ → List ℕ → List ℕ
copy [] src = []
copy (b ∷ buf) [] = b ∷ buf
copy (b ∷ buf) (s ∷ src) = s ∷ copy buf src

-- copy(buf[at:], src)
abbrev pub copy_at : List ℕ → ℕ → List ℕ → List ℕ
copy_at buf zero src = copy buf src
copy_at [] (suc at) src = []
copy_at (b ∷ buf) (suc at) src = b ∷ copy_at buf at src

abbrev both : Option ℕ → Option ℕ → Option ℕ
both (some hi) (some lo) = some (hi * 256 + lo)
both _ _ = none

-- binary.BigEndian.Uint16(buf[at:at+2]); `none` is the run-time panic of a slice out of range.
abbrev pub uint16_at : List ℕ → ℕ → Option ℕ
uint16_at buf at = both (get_elem? buf at) (get_elem? buf (suc at))

pub copy-make : (src : List ℕ) → copy (make (length src)) src ≡ src
copy-make [] = refl
copy-make (s ∷ src) = ap (λ (r : List ℕ). s ∷ r) (copy-make src)
