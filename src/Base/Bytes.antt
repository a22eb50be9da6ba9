-- ===== src/Base/Bytes.antt =====
-- Byte strings, and the little-endian integers of Python's `struct` module.
use Prim.Native.Nat.{ℕ, zero, suc, ◌+◌, ◌-◌, ◌≤◌, ◌*◌, ◌/◌, ◌%◌, ◌^◌, ◌<◌}
use Prim.Native.Char.{code}
use Prim.Native.String.{String}
use mathlib.Core.Path.{◌≡◌, refl, ap}
use mathlib.Core.Bool.{Bool, true, false, ◌&&◌, ◌||◌}
use mathlib.Core.List.{List, [], ◌∷◌, ◌++◌}
use native.Mathlib.Nat.{pow-suc}
use native.Mathlib.Omega.{arith}
use vmware_migration_helper.Base.Lists.{take, drop, length, replicate, length-append, rev_onto}
use vmware_migration_helper.Base.Tests.{◌==◌, ltb, leb, if◌then◌else◌}

abbrev pub Bytes : Type 0
Bytes = List ℕ

-- An unsigned integer from its bytes, least first.
unfoldable pub from_le : Bytes → ℕ
from_le [] = 0
from_le (b ∷ bs) = b + 256 * from_le bs

-- The `n` bytes of an unsigned integer, least first.
unfoldable pub to_le : ℕ → ℕ → Bytes
to_le zero v = []
to_le (suc n) v = (v % 256) ∷ to_le n (v / 256)

-- The field of `n` bytes at the front, and what follows it.
abbrev pub read : ℕ → Bytes → ℕ × Bytes
read n bs = (from_le (take n bs), drop n bs)

abbrev pub eq_bytes : Bytes → Bytes → Bool
eq_bytes [] [] = true
eq_bytes (a ∷ as') (b ∷ bs) = a == b && eq_bytes as' bs
eq_bytes _ _ = false

-- `data.ljust(n, b"\0")`
abbrev pub ljust : ℕ → Bytes → Bytes
ljust n bs = bs ++ replicate (n - length bs) 0

abbrev pub is_blank : ℕ → Bool
is_blank c = c == b' ' || (leb 9 c && leb c 13)

abbrev pub lstrip : Bytes → Bytes
lstrip [] = []
lstrip (c ∷ cs) = if is_blank c then lstrip cs else c ∷ cs

-- `str.strip`
unfoldable pub strip : Bytes → Bytes
strip cs = rev_onto (lstrip (rev_onto (lstrip cs) [])) []

-- The bytes of an ASCII text.
abbrev pub codes : String → Bytes
codes String.[] = []
codes (String.◌∷◌ c s) = code c ∷ codes s

decimal_onto : ℕ → ℕ → Bytes → Bytes
decimal_onto zero n out = out
decimal_onto (suc fuel) n out =
    let digit = (b'0' + n % 10) ∷ out in
    let rest = decimal_onto fuel (n / 10) digit in if ltb n 10 then digit else rest

-- `str(n)`; every round but the last divides by ten
unfoldable pub decimal : ℕ → Bytes
unfolding decimal_onto
decimal n = decimal_onto (suc n) n []

-- The byte at a position, or 0 behind the end.
abbrev pub byte_at : ℕ → Bytes → ℕ
byte_at i [] = 0
byte_at zero (b ∷ bs) = b
byte_at (suc i) (b ∷ bs) = byte_at i bs

-- Python's `not any(data)`
abbrev pub all_zero : Bytes → Bool
all_zero [] = true
all_zero (b ∷ bs) = b == 0 && all_zero bs

pub length-to_le : (n v : ℕ) → length (to_le n v) ≡ n
unfolding to_le
length-to_le zero v = refl
length-to_le (suc n) v = ap suc (length-to_le n (v / 256))

pub take-to_le : (n v : ℕ) (rest : Bytes) → take n (to_le n v ++ rest) ≡ to_le n v
unfolding to_le
take-to_le zero v rest = refl
take-to_le (suc n) v rest = ap (λ l. (v % 256) ∷ l) (take-to_le n (v / 256) rest)

pub drop-to_le : (n v : ℕ) (rest : Bytes) → drop n (to_le n v ++ rest) ≡ rest
unfolding to_le
drop-to_le zero v rest = refl
drop-to_le (suc n) v rest = drop-to_le n (v / 256) rest

pub from_le-to_le : (n v : ℕ) → v < 256 ^ n → from_le (to_le n v) ≡ v
unfolding to_le from_le
from_le-to_le zero v h = omega arith
from_le-to_le (suc n) v h =
    omega (arith, pow-suc 256 n, from_le-to_le n (v / 256) (omega (arith, pow-suc 256 n)))

pub length-replicate : (n b : ℕ) → length (replicate n b) ≡ n
length-replicate zero b = refl
length-replicate (suc n) b = ap suc (length-replicate n b)

pub length-ljust : (n : ℕ) (bs : Bytes) → length bs ≤ n → length (ljust n bs) ≡ n
length-ljust n bs h =
    omega
      (arith, length-append bs (replicate (n - length bs) 0), length-replicate (n - length bs) 0)

pub byte_at-zero : (bs : Bytes) (i : ℕ) → all_zero bs ≡ true → byte_at i bs ≡ 0
byte_at-zero [] i h = refl
byte_at-zero (b ∷ bs) zero h = ground arith
byte_at-zero (b ∷ bs) (suc i) h = byte_at-zero bs i (ground arith)

pub byte_at-take : (n i : ℕ) (bs : Bytes) → i < n → byte_at i (take n bs) ≡ byte_at i bs
byte_at-take zero i bs h = absurd (omega arith)
byte_at-take (suc n) i [] h = refl
byte_at-take (suc n) zero (b ∷ bs) h = refl
byte_at-take (suc n) (suc i) (b ∷ bs) h = byte_at-take n i bs (omega arith)

pub byte_at-drop : (n i : ℕ) (bs : Bytes) → byte_at i (drop n bs) ≡ byte_at (n + i) bs
byte_at-drop zero i bs = let e : 0 + i ≡ i = omega arith in rw e
byte_at-drop (suc n) i [] = refl
byte_at-drop (suc n) i (b ∷ bs) =
    let e : suc n + i ≡ suc (n + i) = omega arith in rw e (byte_at-drop n i bs)

pub byte_at-replicate : (n i : ℕ) → byte_at i (replicate n 0) ≡ 0
byte_at-replicate zero i = refl
byte_at-replicate (suc n) zero = refl
byte_at-replicate (suc n) (suc i) = byte_at-replicate n i

pub byte_at-zeros : (bs : Bytes) (n i : ℕ) → byte_at i (bs ++ replicate n 0) ≡ byte_at i bs
byte_at-zeros [] n i = byte_at-replicate n i
byte_at-zeros (b ∷ bs) n zero = refl
byte_at-zeros (b ∷ bs) n (suc i) = byte_at-zeros bs n i

pub byte_at-behind : (bs : Bytes) (i : ℕ) → length bs ≤ i → byte_at i bs ≡ 0
byte_at-behind [] i h = refl
byte_at-behind (b ∷ bs) zero h = absurd (omega arith)
byte_at-behind (b ∷ bs) (suc i) h = byte_at-behind bs i (omega arith)
