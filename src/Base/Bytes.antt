-- ===== src/Base/Bytes.antt =====
-- Arrays of bytes as functions of the index. An access that C bounds by nothing is checked where the
-- program makes it; these operations are total.
use Prim.Native.Nat.{ℕ, zero, suc, ◌+◌, ◌-◌, ◌<◌}
use mathlib.Core.Bool.{◌&&◌}
use mathlib.Core.List.{List, [], ◌∷◌}
use hid_bootloader.Base.Tests.{ltb, leb, ◌==◌, if◌then◌else◌}

abbrev pub Memory : Type 0
Memory = ℕ → ℕ

-- m[a] = v
abbrev pub write : Memory → ℕ → ℕ → Memory
write m a v i = if i == a then v else m i

-- memcpy (&dst[d], &src[s], n)
abbrev pub copy : ℕ → Memory → ℕ → Memory → ℕ → Memory
copy n dst d src s i = if leb d i && ltb i (d + n) then src (s + (i - d)) else dst i

abbrev pub get_or {ℓ} : {A : Type ℓ} → List A → ℕ → A → A
get_or [] i d = d
get_or (x ∷ xs) zero d = x
get_or (x ∷ xs) (suc i) d = get_or xs i d

abbrev pub length {ℓ} : {A : Type ℓ} → List A → ℕ
length [] = 0
length (x ∷ xs) = suc (length xs)

-- The array `m` after its first elements were assigned from the list.
abbrev pub overlay : List ℕ → Memory → Memory
overlay xs m i = get_or xs i (m i)

-- Every element of the first `n` is a byte.
abbrev pub IsBytes : ℕ → Memory → Type 0
IsBytes n m = (i : ℕ) → i < n → m i < 256
