-- ===== src/Base/BigEndian.antt =====
-- Unsigned integers as bytes, the most significant first: uN::to_be_bytes and uN::from_be_bytes, and
-- the order of byte strings.
use Prim.Native.Nat.{ℕ, zero, suc, ◌+◌, ◌*◌, ◌/◌, ◌%◌, ◌^◌, ◌<◌}
use mathlib.Core.Path.{◌≡◌, refl}
use mathlib.Core.Bool.{Bool, true, false, ◌&&◌}
use mathlib.Core.List.{[], ◌∷◌, ◌++◌}
use native.Mathlib.Nat.{pow-suc}
use native.Mathlib.Omega.{arith}
use cofferwire.Base.Tests.{Bytes, ltb, leb, if◌then◌else◌}
use cofferwire.Base.Lists.{Each, length, length-append, Each-append}

-- The last k bytes of a number.
unfoldable pub to_be : ℕ → ℕ → Bytes
to_be zero n = []
to_be (suc k) n = to_be k (n / 256) ++ (n % 256) ∷ []

unfoldable pub from_be_after : ℕ → Bytes → ℕ
from_be_after high [] = high
from_be_after high (b ∷ bytes) = from_be_after (high * 256 + b) bytes

unfoldable pub from_be : Bytes → ℕ
unfolding from_be_after
from_be bytes = from_be_after 0 bytes

-- memcmp, on strings of one length.
unfoldable pub bytes_le : Bytes → Bytes → Bool
bytes_le [] ys = true
bytes_le (x ∷ xs) [] = false
bytes_le (x ∷ xs) (y ∷ ys) = if ltb x y then true else if ltb y x then false else bytes_le xs ys

abbrev pub IsByte : ℕ → Type 0
IsByte b = b < 256

pub length-to_be : (k n : ℕ) → length (to_be k n) ≡ k
unfolding to_be
length-to_be zero n = refl
length-to_be (suc k) n =
    omega (arith, length-append (to_be k (n / 256)) ((n % 256) ∷ []), length-to_be k (n / 256))

pub to_be-IsByte : (k n : ℕ) → Each IsByte (to_be k n)
unfolding to_be
to_be-IsByte zero n = tt
to_be-IsByte (suc k) n =
    Each-append IsByte (to_be k (n / 256)) _ (to_be-IsByte k (n / 256)) (omega arith, tt)

from_be_after-snoc :
    (high b : ℕ) (bytes : Bytes)
    → from_be_after high (bytes ++ b ∷ []) ≡ from_be_after high bytes * 256 + b
unfolding from_be_after
from_be_after-snoc high b [] = refl
from_be_after-snoc high b (x ∷ bytes) = from_be_after-snoc (high * 256 + x) b bytes

-- A number that fits comes back.
pub from_be-snoc : (bytes : Bytes) (b : ℕ) → from_be (bytes ++ b ∷ []) ≡ from_be bytes * 256 + b
unfolding from_be
from_be-snoc bytes b = from_be_after-snoc 0 b bytes

pub from_be-to_be : (k n : ℕ) → n < 256 ^ k → from_be (to_be k n) ≡ n
unfolding from_be to_be
from_be-to_be zero n h = omega arith
from_be-to_be (suc k) n h = omega (
  arith,
  from_be_after-snoc 0 (n % 256) (to_be k (n / 256)),
  from_be-to_be k (n / 256) (omega (arith, pow-suc 256 k, h)),
)

from_be_after-lt :
    (a b : ℕ) (xs ys : Bytes)
    → a < b
    → length xs ≡ length ys
    → Each IsByte xs
    → from_be_after a xs < from_be_after b ys
unfolding from_be_after
from_be_after-lt a b [] [] h e f = h
from_be_after-lt a b [] (y ∷ ys) h e f = absurd (omega arith)
from_be_after-lt a b (x ∷ xs) [] h e f = absurd (omega arith)
from_be_after-lt a b (x ∷ xs) (y ∷ ys) h e f =
    from_be_after-lt (a * 256 + x) (b * 256 + y) xs ys (omega arith) (omega arith) f.1

bytes_le-from_be_after :
    (a : ℕ) (xs ys : Bytes)
    → length xs ≡ length ys
    → Each IsByte xs
    → Each IsByte ys
    → bytes_le xs ys ≡ leb (from_be_after a xs) (from_be_after a ys)
unfolding bytes_le from_be_after
bytes_le-from_be_after a [] [] e f g = ground arith
bytes_le-from_be_after a [] (y ∷ ys) e f g = absurd (omega arith)
bytes_le-from_be_after a (x ∷ xs) [] e f g = absurd (omega arith)
bytes_le-from_be_after a (x ∷ xs) (y ∷ ys) e f g = ground (
  arith,
  bytes_le-from_be_after (a * 256 + x) xs ys,
  from_be_after-lt (a * 256 + x) (a * 256 + y) xs ys,
  from_be_after-lt (a * 256 + y) (a * 256 + x) ys xs,
)

-- The order of the byte strings of two numbers is the order of the numbers.
pub bytes_le-from_be :
    (xs ys : Bytes)
    → length xs ≡ length ys
    → Each IsByte xs
    → Each IsByte ys
    → bytes_le xs ys ≡ leb (from_be xs) (from_be ys)
unfolding from_be
bytes_le-from_be xs ys e f g = bytes_le-from_be_after 0 xs ys e f g

abbrev pub all_bytes : Bytes → Bool
all_bytes [] = true
all_bytes (b ∷ bytes) = ltb b 256 && all_bytes bytes

pub Each-all_bytes : (bytes : Bytes) → all_bytes bytes ≡ true → Each IsByte bytes
Each-all_bytes [] h = tt
Each-all_bytes (b ∷ bytes) h = (ground (arith, h), Each-all_bytes bytes (ground (arith, h)))
