-- ===== src/Prelude/Buffers.antt =====
-- Byte buffers of a fixed size: writes at an offset, and windows.
use Prim.Native.Nat.{ℕ, zero, suc, ◌+◌, ◌≤◌}
use mathlib.Core.Path.{◌≡◌, refl, ap}
use mathlib.Core.List.{List, [], ◌∷◌}
use native.Mathlib.Omega.{arith}
use litrace.Prelude.Lists.{length, take, drop}

-- `memcpy(buffer + i, bytes, length bytes)`; what would fall behind the end is dropped.
unfoldable pub write_at : List ℕ → ℕ → List ℕ → List ℕ
write_at [] i bytes = []
write_at (x ∷ xs) (suc i) bytes = x ∷ write_at xs i bytes
write_at (x ∷ xs) zero [] = x ∷ xs
write_at (x ∷ xs) zero (b ∷ bytes) = b ∷ write_at xs zero bytes

-- The bytes from `start`, `count` of them.
abbrev pub window : ℕ → ℕ → List ℕ → List ℕ
window start count xs = take count (drop start xs)

pub length-write_at :
    (xs : List ℕ) (i : ℕ) (bytes : List ℕ) → length (write_at xs i bytes) ≡ length xs
unfolding write_at
length-write_at [] i bytes = refl
length-write_at (x ∷ xs) (suc i) bytes = ap suc (length-write_at xs i bytes)
length-write_at (x ∷ xs) zero [] = refl
length-write_at (x ∷ xs) zero (b ∷ bytes) = ap suc (length-write_at xs zero bytes)

-- What was written is read back, any front part of it.
pub window-write_at :
    (xs : List ℕ) (i n : ℕ) (bytes : List ℕ)
    → n ≤ length bytes
    → i + length bytes ≤ length xs
    → window i n (write_at xs i bytes) ≡ take n bytes
unfolding write_at
window-write_at [] zero zero bytes h k = refl
window-write_at [] zero (suc n) bytes h k = absurd (omega arith)
window-write_at [] (suc i) n bytes h k = absurd (omega arith)
window-write_at (x ∷ xs) (suc i) n bytes h k = window-write_at xs i n bytes h (omega arith)
window-write_at (x ∷ xs) zero zero [] h k = refl
window-write_at (x ∷ xs) zero (suc n) [] h k = absurd (omega arith)
window-write_at (x ∷ xs) zero zero (b ∷ bytes) h k = refl
window-write_at (x ∷ xs) zero (suc n) (b ∷ bytes) h k =
    ap (λ t. b ∷ t) (window-write_at xs zero n bytes (omega arith) (omega arith))

-- A write leaves the windows before it alone.
pub window-write_at_before :
    (xs : List ℕ) (s n i : ℕ) (bytes : List ℕ)
    → s + n ≤ i
    → window s n (write_at xs i bytes) ≡ window s n xs
unfolding write_at
window-write_at_before [] s n i bytes h = refl
window-write_at_before (x ∷ xs) zero zero zero bytes h = refl
window-write_at_before (x ∷ xs) zero (suc n) zero bytes h = absurd (omega arith)
window-write_at_before (x ∷ xs) (suc s) n zero bytes h = absurd (omega arith)
window-write_at_before (x ∷ xs) zero zero (suc i) bytes h = refl
window-write_at_before (x ∷ xs) zero (suc n) (suc i) bytes h =
    ap (λ t. x ∷ t) (window-write_at_before xs zero n i bytes (omega arith))
window-write_at_before (x ∷ xs) (suc s) n (suc i) bytes h =
    window-write_at_before xs s n i bytes (omega arith)
