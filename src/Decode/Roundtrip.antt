-- ===== src/Decode/Roundtrip.antt =====
-- DecodeEvent gives back the event whose bytes it is given.
use litrace.Prelude.{
  ℕ, ◌≡◌, ◌<◌, ◌^◌, ap, arith, List, [], ◌∷◌, ◌++◌, Option, none, some, length, ◌∙◌,
}
use mathlib.Core.Path.{subst}
use litrace.Types.{Event}
use litrace.Decode.{
  little_endian, array, fields, event_fields, event_bytes, M, read_uint, read_array, read_event,
  decode_event,
}
use litrace.Decode.Reads.{
  append_assoc, Reads, >>=-Reads, return-Reads, Fits, read_uint-Reads, All, read_array-Reads,
  InDesc, read_desc-Reads,
}

-- Every field is in the range of its C type, and every array has its length.
pub record InRange (e : Event) : Type 0 where
  pub ts : e.ts < 2 ^ 64
  pub dur : e.dur < 2 ^ 64
  pub syscall_id : e.syscall_id < 2 ^ 64
  pub ret : e.ret < 2 ^ 64
  pub pid : e.pid < 2 ^ 32
  pub tid : e.tid < 2 ^ 32
  pub seq : e.seq < 2 ^ 32
  pub payload_len : e.payload_len < 2 ^ 16
  pub arg_count : e.arg_count < 2 ^ 8
  pub var_count : e.var_count < 2 ^ 8
  pub event_flags : e.event_flags < 2 ^ 8
  pub args : All (λ x. x < 2 ^ 64) e.args
  pub var_desc : All InDesc e.var_desc
  pub payload : All (λ x. x < 2 ^ 8) e.payload
  pub arg_types : All (λ x. x < 2 ^ 8) e.arg_types
  pub args_size : length e.args ≡ 6
  pub var_desc_size : length e.var_desc ≡ 6
  pub payload_size : length e.payload ≡ 512
  pub arg_types_size : length e.arg_types ≡ 6

read_uint-8 : (x : ℕ) → x < 2 ^ 64 → Reads (read_uint 8) (little_endian 8 x) x
unfolding Fits
read_uint-8 x lt = read_uint-Reads 8 x (omega arith)

read_uint-4 : (x : ℕ) → x < 2 ^ 32 → Reads (read_uint 4) (little_endian 4 x) x
unfolding Fits
read_uint-4 x lt = read_uint-Reads 4 x (omega arith)

read_uint-2 : (x : ℕ) → x < 2 ^ 16 → Reads (read_uint 2) (little_endian 2 x) x
unfolding Fits
read_uint-2 x lt = read_uint-Reads 2 x (omega arith)

read_uint-1 : (x : ℕ) → x < 2 ^ 8 → Reads (read_uint 1) (little_endian 1 x) x
unfolding Fits
read_uint-1 x lt = read_uint-Reads 1 x (omega arith)

read_array-sized {ℓ} :
    {A : Type ℓ} (bytes : A → List ℕ) (m : M A) (P : A → Type 0) (n : ℕ)
    → ((x : A) → P x → Reads m (bytes x) x)
    → (xs : List A) → length xs ≡ n
    → All P xs
    → Reads (read_array n m) (array bytes xs) xs
read_array-sized bytes m P n one xs size all_ =
    subst (λ k. Reads (read_array k m) (array bytes xs) xs) size
      (read_array-Reads bytes m P one xs all_)

read_event-Reads : (e : Event) → InRange e → Reads read_event (event_fields e) e
unfolding read_event event_fields fields
read_event-Reads e r = >>=-Reads _ (read_uint-8 e.ts r.ts) (
    >>=-Reads _ (read_uint-8 e.dur r.dur) (
      >>=-Reads _ (read_uint-8 e.syscall_id r.syscall_id) (
        >>=-Reads _ (read_uint-8 e.ret r.ret) (
          >>=-Reads _
            (read_array-sized _ _ (λ x. x < 2 ^ 64) 6 read_uint-8 e.args r.args_size r.args)
            (>>=-Reads _
              (read_array-sized _ _ InDesc 6 read_desc-Reads e.var_desc r.var_desc_size r.var_desc)
              (>>=-Reads _
                (read_array-sized _ _ (λ x. x < 2 ^ 8) 512 read_uint-1 e.payload r.payload_size
                  r.payload)
                (>>=-Reads _ (read_uint-4 e.pid r.pid) (
                  >>=-Reads _ (read_uint-4 e.tid r.tid) (
                    >>=-Reads _ (read_uint-4 e.seq r.seq) (
                      >>=-Reads _ (read_uint-2 e.payload_len r.payload_len) (
                        >>=-Reads _ (read_uint-1 e.arg_count r.arg_count) (
                          >>=-Reads _ (read_uint-1 e.var_count r.var_count) (
                            >>=-Reads _
                              (read_array-sized _ _ (λ x. x < 2 ^ 8) 6 read_uint-1 e.arg_types
                                r.arg_types_size r.arg_types)
                              (>>=-Reads _ (read_uint-1 e.event_flags r.event_flags)
                                (return-Reads _)))))))))))))))

-- If every field of an event is in the range of its C type, DecodeEvent gives back the event from
-- the bytes of the structure in the ring buffer, whatever follows them.
pub decode_event-event_bytes :
    (e : Event) (rest : List ℕ) → InRange e → decode_event (event_bytes e ++ rest) ≡ some e
unfolding decode_event event_bytes
decode_event-event_bytes e rest r =
    ap decode_event (append_assoc (event_fields e) (0 ∷ []) rest)
    ∙ ap
        (λ (o : Option (Event × List ℕ)). elim o as (λ x. Option Event) [
          | none ↦ none
          | some (ev, left) ↦ some ev
        ])
        ((read_event-Reads e r).run (0 ∷ rest))
