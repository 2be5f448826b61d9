-- ===== src/Decode/Takes.antt =====
-- How many bytes a reader needs.
use litrace.Prelude.{
  ℕ, zero, suc, ◌+◌, ◌*◌, ◌≡◌, ◌<◌, ◌≤◌, ◌↔◌, refl, ◌∙◌, ap, arith, List, [], ◌∷◌, Bool-cases, none,
  some, length, inl, inr, ltb,
}
use mathlib.Core.Path.{subst}
use litrace.Decode.{
  M, ◌>>=◌, continue_with, return, read_uint, read_array, read_desc, read_event, decode_event,
}

-- The reader fails exactly on fewer than `n` bytes, and takes `n` of them otherwise.
pub record Takes {ℓ} {A : Type ℓ} (m : M A) (n : ℕ) : Type ℓ where
  pub short : (raw : List ℕ) → length raw < n → m raw ≡ none
  pub enough :
      (raw : List ℕ)
      → n ≤ length raw
      → (x : A) × (rest : List ℕ) × (m raw ≡ some (x, rest)) × (length raw ≡ n + length rest)

pub return-Takes {ℓ} : {A : Type ℓ} (x : A) → Takes (return x) 0
unfolding return
return-Takes x = record {
  short = λ raw lt. absurd (omega arith);
  enough = λ raw le. (x, raw, refl, omega arith);
}

pub >>=-Takes {ℓ κ} :
    {A : Type ℓ} {B : Type κ} {m : M A} {j k : ℕ} (f : A → M B)
    → Takes m j
    → ((x : A) → Takes (f x) k)
    → Takes (m >>= f) (j + k)
unfolding ◌>>=◌ continue_with
>>=-Takes {m = m} {j = j} {k = k} f first second = record {
  short = λ raw lt. elim (Bool-cases (ltb (length raw) j)) [
    | inl few ↦ ap (continue_with f) (first.short raw (ground arith))
    | inr some_ ↦
        let (x, rest, got, size) = first.enough raw (ground arith) in
        ap (continue_with f) got ∙ (second x).short rest (omega arith)
  ];
  enough = λ raw le.
      let (x, rest, got, size) = first.enough raw (omega arith) in
      let (y, left, got', size') = (second x).enough rest (omega arith) in
      (y, left, ap (continue_with f) got ∙ got', omega arith);
}

read_uint-short : (w : ℕ) (raw : List ℕ) → length raw < w → read_uint w raw ≡ none
unfolding read_uint
read_uint-short zero raw lt = absurd (omega arith)
read_uint-short (suc w) [] lt = refl
read_uint-short (suc w) (b ∷ raw) lt = rw (read_uint-short w raw (omega arith)) refl

read_uint-enough :
    (w : ℕ) (raw : List ℕ)
    → w ≤ length raw
    → (x : ℕ) × (rest : List ℕ) × (read_uint w raw ≡ some (x, rest))
      × (length raw ≡ w + length rest)
unfolding read_uint
read_uint-enough zero raw le = (0, raw, refl, omega arith)
read_uint-enough (suc w) [] le = absurd (omega arith)
read_uint-enough (suc w) (b ∷ raw) le =
    let (x, rest, got, size) = read_uint-enough w raw (omega arith) in
    (b + 256 * x, rest, rw got refl, omega arith)

pub read_uint-Takes : (w : ℕ) → Takes (read_uint w) w
read_uint-Takes w = record { short = read_uint-short w; enough = read_uint-enough w }

pub read_array-Takes {ℓ} :
    {A : Type ℓ} (m : M A) (k n : ℕ) → Takes m k → Takes (read_array n m) (n * k)
unfolding read_array
read_array-Takes m k zero one = subst (Takes (read_array 0 m)) (grind arith) (return-Takes [])
read_array-Takes m k (suc n) one =
    let all_ =
      >>=-Takes (λ x. read_array n m >>= λ xs. return (x ∷ xs)) one
        (λ x.
          >>=-Takes (λ xs. return (x ∷ xs)) (read_array-Takes m k n one)
            (λ xs. return-Takes (x ∷ xs))) in
    subst (Takes (read_array (suc n) m)) (grind arith) all_

read_desc-Takes : Takes read_desc 8
unfolding read_desc
read_desc-Takes = >>=-Takes _ (read_uint-Takes 1) λ a. >>=-Takes _ (read_uint-Takes 1) λ b.
    >>=-Takes _ (read_uint-Takes 2)
      λ c. >>=-Takes _ (read_uint-Takes 2) λ d. >>=-Takes _ (read_uint-Takes 2) λ e. return-Takes _

read_event-Takes : Takes read_event 663
unfolding read_event
read_event-Takes = >>=-Takes _ (read_uint-Takes 8) λ ts. >>=-Takes _ (read_uint-Takes 8) λ dur.
    >>=-Takes _ (read_uint-Takes 8) λ syscall_id. >>=-Takes _ (read_uint-Takes 8) λ ret.
      >>=-Takes _ (read_array-Takes _ 8 6 (read_uint-Takes 8)) λ args.
        >>=-Takes _ (read_array-Takes _ 8 6 read_desc-Takes) λ var_desc.
          >>=-Takes _ (read_array-Takes _ 1 512 (read_uint-Takes 1)) λ payload.
            >>=-Takes _ (read_uint-Takes 4) λ pid. >>=-Takes _ (read_uint-Takes 4) λ tid.
              >>=-Takes _ (read_uint-Takes 4) λ seq. >>=-Takes _ (read_uint-Takes 2) λ payload_len.
                >>=-Takes _ (read_uint-Takes 1) λ arg_count.
                  >>=-Takes _ (read_uint-Takes 1) λ var_count.
                    >>=-Takes _ (read_array-Takes _ 1 6 (read_uint-Takes 1))
                      λ arg_types. >>=-Takes _ (read_uint-Takes 1) λ event_flags. return-Takes _

-- DecodeEvent returns an error exactly if it is given fewer than the 663 bytes of the fields.
pub decode_event-short : (raw : List ℕ) → (decode_event raw ≡ none) ↔ (length raw < 663)
unfolding decode_event
decode_event-short raw = (
  λ failed. elim (Bool-cases (ltb (length raw) 663)) [
    | inl few ↦ ground arith
    | inr some_ ↦
        let (x, rest, got, size) = read_event-Takes.enough raw (ground arith) in
        absurd (ground arith)
  ],
  λ few. rw (read_event-Takes.short raw few, decode_event) refl,
)
