-- ===== src/Maps.antt =====
-- The BPF maps that internal/bpf/tracer.c keeps its state in. A map's content is what a lookup
-- finds; bpf_map_update_elem and bpf_map_delete_elem belong to the kernel and are parameters.
use Prim.Native.Nat.{ℕ}
use litrace.Prelude.{
  ◌≡◌, ◌≢◌, ◌⊎◌, Option, none, some, ◌==◌, if◌then◌else◌, arith, inl, inr, Bool-cases, ==_iff,
}
use mathlib.Core.Path.{subst}

abbrev pub Map : Type 0 → Type 0
Map V = ℕ → Option V

pub record MapOps (V : Type 0) : Type 0 where
  pub update : ℕ → V → Map V → Map V
  pub delete : ℕ → Map V → Map V

-- A write through the pointer that bpf_map_lookup_elem returned for the key `k`.
unfoldable pub write_through : {V : Type 0} → ℕ → V → Map V → Map V
write_through k v m j = if k == j then some v else m j

-- What every kind of map documents: an update stores at most the pair it is given and may fail, or
-- drop other pairs (a full hash map refuses it, an LRU map evicts); a delete leaves no pair with
-- its key and stores nothing.
pub record IsMap {V : Type 0} (ops : MapOps V) : Type 0 where
  pub update_only :
      (k j : ℕ) (v w : V) (m : Map V)
      → ops.update k v m j ≡ some w
      → ((j ≡ k) × (w ≡ v)) ⊎ (m j ≡ some w)
  pub delete_only :
      (k j : ℕ) (w : V) (m : Map V) → ops.delete k m j ≡ some w → (j ≢ k) × (m j ≡ some w)

-- A map with room for the pair: the update succeeds and drops nothing.
pub record IsRoomy {V : Type 0} (ops : MapOps V) : Type 0 where
  pub lookup-update :
      (k j : ℕ) (v : V) (m : Map V) → ops.update k v m j ≡ (if k == j then some v else m j)
  pub lookup-delete : (k j : ℕ) (m : Map V) → ops.delete k m j ≡ (if k == j then none else m j)

-- Room for everything meets the documented behaviour.
pub Roomy-IsMap : {V : Type 0} {ops : MapOps V} → IsRoomy ops → IsMap ops
Roomy-IsMap r = record {
  update_only = λ k j v w m h. ground (arith, r.lookup-update k j v m);
  delete_only = λ k j w m h. ground (arith, r.lookup-delete k j m);
}

-- Every pair of a map satisfies `P`.
abbrev pub MapOk : {V : Type 0} → (ℕ → V → Type 0) → Map V → Type 0
MapOk {V} P m = (k : ℕ) (v : V) → m k ≡ some v → P k v

module _ {V : Type 0} (P : ℕ → V → Type 0) (m : Map V) (ok : MapOk P m) where
  pub update-MapOk :
      {ops : MapOps V} → IsMap ops → (k : ℕ) (v : V) → P k v → MapOk P (ops.update k v m)
  update-MapOk laws k v p j w found = elim (laws.update_only k j v w m found) [
    | inl (here, same) ↦ rw (here, same) p
    | inr old ↦ ok j w old
  ]

  pub delete-MapOk : {ops : MapOps V} → IsMap ops → (k : ℕ) → MapOk P (ops.delete k m)
  delete-MapOk laws k j w found = ok j w (laws.delete_only k j w m found).1

  pub write_through-MapOk : (k : ℕ) (v : V) → P k v → MapOk P (write_through k v m)
  unfolding write_through
  write_through-MapOk k v p j w found = elim (Bool-cases (k == j)) [
    | inl here ↦
        let same : v ≡ w = ground arith in
        subst (λ i. P i w) ((==_iff k j).0 here) (subst (P k) same p)
    | inr other ↦ ok j w (ground arith)
  ]
