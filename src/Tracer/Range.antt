-- ===== src/Tracer/Range.antt =====
-- The ranges of the machine's types: what the programs of internal/bpf/tracer.c store and submit are
-- bytes and words.
pub mod Snapshot
pub mod Capture
pub mod Event
pub mod Sized
pub mod Exit
pub mod Reach
use litrace.Prelude.{
  ℕ, zero, suc, ◌<◌, ◌≡◌, ◌^◌, refl, arith, List, [], ◌∷◌, Bool, true, ◌&&◌, length, set, get_or,
  replicate, write_at, ltb,
}
use Prim.Native.Nat.{bit_or}
use litrace.Types.{VarArgDesc, zero_desc}
use litrace.User.{Call, UserRead, fault, got}
use litrace.Decode.Reads.{All, Fits, InDesc}

abbrev pub IsByte : ℕ → Type 0
IsByte b = b < 2 ^ 8

abbrev pub ReadsBytes : UserRead → Type 0
ReadsBytes (fault left) = All IsByte left
ReadsBytes (got bytes) = All IsByte bytes

-- What the read helpers leave in memory are bytes, and the clock has 64 bits.
pub record IsMachine (c : Call) : Type 0 where
  pub read_user : (size ptr : ℕ) → ReadsBytes (c.read_user size ptr)
  pub read_user_str : (size ptr : ℕ) → ReadsBytes (c.read_user_str size ptr)

module _ {ℓ} {A : Type ℓ} (P : A → Type 0) where
  pub set-All : (xs : List A) (i : ℕ) (x : A) → All P xs → P x → All P (set xs i x)
  unfolding All
  set-All [] i x all_ p = tt
  set-All (y ∷ ys) zero x (here, later) p = (p, later)
  set-All (y ∷ ys) (suc i) x (here, later) p = (here, set-All ys i x later p)

  pub get_or-All : (xs : List A) (i : ℕ) (d : A) → All P xs → P d → P (get_or xs i d)
  unfolding All
  get_or-All [] i d all_ p = p
  get_or-All (y ∷ ys) zero d (here, later) p = here
  get_or-All (y ∷ ys) (suc i) d (here, later) p = get_or-All ys i d later p

  pub replicate-All : (n : ℕ) (x : A) → P x → All P (replicate n x)
  unfolding All replicate
  replicate-All zero x p = tt
  replicate-All (suc n) x p = (p, replicate-All n x p)

pub write_at-All :
    (xs : List ℕ) (i : ℕ) (bytes : List ℕ)
    → All IsByte xs
    → All IsByte bytes
    → All IsByte (write_at xs i bytes)
unfolding All write_at
write_at-All [] i bytes xs_ bytes_ = tt
write_at-All (x ∷ xs) (suc i) bytes (here, later) bytes_ =
    (here, write_at-All xs i bytes later bytes_)
write_at-All (x ∷ xs) zero [] xs_ bytes_ = xs_
write_at-All (x ∷ xs) zero (b ∷ bytes) (here, later) (first, rest) =
    (first, write_at-All xs zero bytes later rest)

-- The flags of a descriptor are three bits.
below_eight : ℕ → ℕ → Bool
below_eight zero k = true
below_eight (suc n) k = ltb (bit_or n k) 8 && below_eight n k

below_eight_sound : (n k x : ℕ) → below_eight n k ≡ true → x < n → bit_or x k < 8
unfolding below_eight
below_eight_sound zero k x h lt = absurd (omega arith)
below_eight_sound (suc n) k x h lt = ground (arith, below_eight_sound n k x)

pub bit_or_one : (flags : ℕ) → flags < 8 → bit_or flags 1 < 8
unfolding below_eight
bit_or_one flags lt = below_eight_sound 8 1 flags refl lt

pub bit_or_two : (flags : ℕ) → flags < 8 → bit_or flags 2 < 8
unfolding below_eight
bit_or_two flags lt = below_eight_sound 8 2 flags refl lt

pub zero_desc-InDesc : InDesc zero_desc
unfolding Fits
zero_desc-InDesc = record {
  arg_index = refl;
  flags = refl;
  offset = refl;
  length = refl;
  reserved = refl;
}

-- A descriptor of one of the first arguments.
pub desc-InDesc :
    (arg_index flags offset size : ℕ)
    → arg_index < 2 ^ 8
    → flags < 8
    → offset < 2 ^ 16
    → size < 2 ^ 16
    → InDesc (record {
      arg_index = arg_index;
      flags = flags;
      offset = offset;
      length = size;
      reserved = 0;
    })
unfolding Fits
desc-InDesc arg_index flags offset size i f o l = record {
  arg_index = omega arith;
  flags = omega arith;
  offset = omega arith;
  length = omega arith;
  reserved = refl;
}
