-- ===== src/Tracer/Exit/Parts.antt =====
-- The steps that the captures of trace_sys_exit share leave an event well formed.
use mathlib.Core.Path.{subst}
use litrace.Prelude.{
  ℕ, zero, suc, ◌<◌, ◌≡◌, refl, sym, ◌∙◌, arith, List, [], ◌∷◌, Bool, true, Option, none, some,
  ◌&&◌, if-intro, length, get_or, set, length-set, length-write_at,
}
use litrace.Types.{Event, ExecveSnapshot, zero_desc, VarArgDesc}
use litrace.Capture.Bounds.{Fits, IsWellFormed}
use litrace.Execve.Bounds.{IsSnapshot}
use litrace.Tracer.Exit.Event.{when, set_arg_type, apply_snapshot}

abbrev pub AllSnapshots : Option ExecveSnapshot → Type 0
AllSnapshots none = Unit
AllSnapshots (some snap) = IsSnapshot snap

pub set_arg_type-IsWellFormed :
    (i kind : ℕ) (e : Event) → IsWellFormed e → IsWellFormed (set_arg_type i kind e)
unfolding set_arg_type
set_arg_type-IsWellFormed i kind e w = record {
  payload_size = w.payload_size;
  desc_size = w.desc_size;
  types_size = length-set e.arg_types i kind ∙ w.types_size;
  len = w.len;
  count = w.count;
  fits = w.fits;
}

pub when-IsWellFormed :
    (b : Bool) (f : Event → Event) (e : Event)
    → ((x : Event) → IsWellFormed x → IsWellFormed (f x))
    → IsWellFormed e
    → IsWellFormed (when b f e)
unfolding when
when-IsWellFormed b f e keep w = if-intro IsWellFormed b (λ yes_. keep e w) (λ no_. w)

pub when_given :
    (b : Bool) (f : Event → Event) (e : Event)
    → (b ≡ true → IsWellFormed (f e))
    → IsWellFormed e
    → IsWellFormed (when b f e)
unfolding when
when_given b f e keep w = if-intro IsWellFormed b keep (λ no_. w)

pub &&-left : (a b : Bool) → (a && b) ≡ true → a ≡ true
&&-left a b h = ground arith

-- The first two places of a list of six after both are set.
two_set :
    (xs : List VarArgDesc) (a b d : VarArgDesc)
    → length xs ≡ 6
    → (get_or (set (set xs 0 a) 1 b) 0 d ≡ a) × (get_or (set (set xs 0 a) 1 b) 1 d ≡ b)
two_set [] a b d six = absurd (omega arith)
two_set (x ∷ []) a b d six = absurd (omega arith)
two_set (x ∷ y ∷ xs) a b d six = (refl, refl)

pub apply_snapshot-IsWellFormed :
    (snapshot : Option ExecveSnapshot) (e : Event)
    → AllSnapshots snapshot
    → IsWellFormed e
    → IsWellFormed (apply_snapshot snapshot e)
unfolding apply_snapshot
apply_snapshot-IsWellFormed (some snap) e k w = record {
  payload_size = length-write_at e.payload 0 snap.payload ∙ w.payload_size;
  desc_size = length-set _ 1 _ ∙ length-set e.var_desc 0 _ ∙ w.desc_size;
  types_size = w.types_size;
  len = omega (arith, k.len);
  count = omega (arith, k.count);
  fits = place;
}
  where
    descs :
        (get_or (apply_snapshot (some snap) e).var_desc 0 zero_desc
          ≡ get_or snap.var_desc 0 zero_desc)
        × (get_or (apply_snapshot (some snap) e).var_desc 1 zero_desc
            ≡ get_or snap.var_desc 1 zero_desc)
    descs = two_set e.var_desc _ _ zero_desc w.desc_size

    place :
        (i : ℕ)
        → i < snap.var_count
        → Fits snap.payload_len (get_or (apply_snapshot (some snap) e).var_desc i zero_desc)
    place zero lt = subst (Fits snap.payload_len) (sym descs.0) (k.fits 0 lt)
    place (suc zero) lt = subst (Fits snap.payload_len) (sym descs.1) (k.fits 1 lt)
    place (suc (suc i)) lt = absurd (omega (arith, k.count))
apply_snapshot-IsWellFormed none e k w = record {
  payload_size = w.payload_size;
  desc_size = length-set _ 1 _ ∙ length-set e.var_desc 0 _ ∙ w.desc_size;
  types_size = w.types_size;
  len = w.len;
  count = omega arith;
  fits = place;
}
  where
    place :
        (i : ℕ) → i < 2 → Fits e.payload_len (get_or (apply_snapshot none e).var_desc i zero_desc)
    place zero lt =
        subst (Fits e.payload_len) (sym (two_set e.var_desc _ _ zero_desc w.desc_size).0)
          (λ r. absurd (omega arith))
    place (suc zero) lt =
        subst (Fits e.payload_len) (sym (two_set e.var_desc _ _ zero_desc w.desc_size).1)
          (λ r. absurd (omega arith))
    place (suc (suc i)) lt = absurd (omega arith)
