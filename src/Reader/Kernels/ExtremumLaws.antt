-- ===== src/Reader/Kernels/ExtremumLaws.antt =====
-- What the minimum kernel holds after it read a record of unsigned values.
use caliper_msg_pattern.Prelude.{
  ℕ, ◌≤◌, ◌≡◌, refl, sym, ap, ◌∙◌, arith, Bool, true, false, List, [], ◌∷◌, ◌||◌, if◌then◌else◌,
  ◌==◌, ltb, ◌⊎◌, inl, inr, Bool-cases,
}
use caliper_msg_pattern.Util.Vlenc.{IsU64}
use caliper_msg_pattern.Common.Variant.Types.{
  type_uint, CaliVariant, make_empty_variant, make_variant_from_uint,
}
use caliper_msg_pattern.Common.Variant.Convert.{DoubleOps, to_uint}
use caliper_msg_pattern.Common.Entry.{Entry, entry_attribute, is_empty_value}
use caliper_msg_pattern.Reader.Kernels.Extremum.{min_record, min_as, max_as}

module _ (tgt other : ℕ) where
  -- The entries that a kernel reads: those of the target attribute or of the kernel's own.
  abbrev pub fits : Entry → Bool
  fits e = entry_attribute e == tgt || entry_attribute e == other

  -- Each entry that the kernel reads holds an unsigned 64-bit value.
  abbrev pub AllUnsigned : List Entry → Type 0
  AllUnsigned [] = Unit {0}
  AllUnsigned (e ∷ rec) =
      (fits e ≡ true → (v : ℕ) × IsU64 v × (e.value ≡ make_variant_from_uint v)) × AllUnsigned rec

  -- The values of the entries that the kernel reads.
  abbrev pub HasValue : ℕ → List Entry → Type 0
  HasValue v [] = ⊥
  HasValue v (e ∷ rec) =
      ((fits e ≡ true) × IsU64 v × (e.value ≡ make_variant_from_uint v)) ⊎ HasValue v rec

module _ (d : DoubleOps) (tgt other : ℕ) where
  min_uint :
      (a b : ℕ)
      → IsU64 a
      → IsU64 b
      → min_as d type_uint (make_variant_from_uint a) (make_variant_from_uint b)
        ≡ make_variant_from_uint (if ltb b a then b else a)
  unfolding make_variant_from_uint to_uint
  min_uint a b ha hb = ground arith

  max_uint :
      (a b : ℕ)
      → IsU64 a
      → IsU64 b
      → max_as d type_uint (make_variant_from_uint a) (make_variant_from_uint b)
        ≡ make_variant_from_uint (if ltb a b then b else a)
  unfolding make_variant_from_uint to_uint
  max_uint a b ha hb = ground arith

  uint_injective :
      (v w : ℕ) → IsU64 v → IsU64 w → make_variant_from_uint v ≡ make_variant_from_uint w → v ≡ w
  unfolding make_variant_from_uint
  uint_injective v w hv hw e = ground arith

  -- `v` is the least of `a` and the values that the kernel reads.
  abbrev IsLeast : ℕ → List Entry → ℕ → Type 0
  IsLeast a rec v =
      IsU64 v
      × ((v ≡ a) ⊎ HasValue tgt other v rec)
      × (v ≤ a)
      × ((w : ℕ) → HasValue tgt other w rec → v ≤ w)

  min_skips :
      (m : CaliVariant) (e : Entry) (rec : List Entry)
      → fits tgt other e ≡ false
      → min_record d type_uint tgt other m (e ∷ rec) ≡ min_record d type_uint tgt other m rec
  unfolding min_record
  min_skips m e rec skips = ap (λ t. min_record d type_uint tgt other t rec) (ground arith)

  uint_full : (a : ℕ) → is_empty_value (make_variant_from_uint a) ≡ false
  unfolding make_variant_from_uint
  uint_full a = refl

  min_reads :
      (a u : ℕ) (e : Entry) (rec : List Entry)
      → fits tgt other e ≡ true
      → e.value ≡ make_variant_from_uint u
      → IsU64 a
      → IsU64 u
      → min_record d type_uint tgt other (make_variant_from_uint a) (e ∷ rec)
        ≡ min_record d type_uint tgt other (make_variant_from_uint (if ltb u a then u else a)) rec
  unfolding min_record
  min_reads a u e rec reads eu ha hu =
      ap (λ t. min_record d type_uint tgt other t rec) (ground (arith, uint_full a, min_uint a u))

  least_cons :
      (e : Entry) (rec : List Entry) (v u : ℕ)
      → IsU64 u
      → e.value ≡ make_variant_from_uint u
      → v ≤ u
      → ((w : ℕ) → HasValue tgt other w rec → v ≤ w)
      → (w : ℕ) → HasValue tgt other w (e ∷ rec)
      → v ≤ w
  least_cons e rec v u hu eu below all w (inl (f, hw, ew)) =
      rw (sym (uint_injective u w hu hw (sym eu ∙ ew))) below
  least_cons e rec v u hu eu below all w (inr h) = all w h

  least_skip :
      (e : Entry) (rec : List Entry) (v : ℕ)
      → fits tgt other e ≡ false
      → ((w : ℕ) → HasValue tgt other w rec → v ≤ w)
      → (w : ℕ) → HasValue tgt other w (e ∷ rec)
      → v ≤ w
  least_skip e rec v skips all w (inl (f, hw, ew)) = cc
  least_skip e rec v skips all w (inr h) = all w h

  held_cons :
      (a u v : ℕ) (e : Entry) (rec : List Entry)
      → fits tgt other e ≡ true
      → IsU64 u
      → e.value ≡ make_variant_from_uint u
      → (v ≡ (if ltb u a then u else a)) ⊎ HasValue tgt other v rec
      → (v ≡ a) ⊎ HasValue tgt other v (e ∷ rec)
  held_cons a u v e rec reads hu eu (inr h) = inr (inr h)
  held_cons a u v e rec reads hu eu (inl q) = elim (Bool-cases (ltb u a)) [
    | inl t ↦ let q' : v ≡ u = rw t at q in inr (inl (reads, rw q' hu, rw q' eu))
    | inr t ↦ inl (rw t at q)
  ]

  held_skip :
      (a v : ℕ) (e : Entry) (rec : List Entry)
      → (v ≡ a) ⊎ HasValue tgt other v rec
      → (v ≡ a) ⊎ HasValue tgt other v (e ∷ rec)
  held_skip a v e rec (inl q) = inl q
  held_skip a v e rec (inr h) = inr (inr h)

  if_le : (u a v : ℕ) → v ≤ (if ltb u a then u else a) → (v ≤ u) × (v ≤ a)
  if_le u a v h = ground arith

  min_record_from :
      (a : ℕ) (rec : List Entry)
      → IsU64 a
      → AllUnsigned tgt other rec
      → (v : ℕ) × (min_record d type_uint tgt other (make_variant_from_uint a) rec
          ≡ make_variant_from_uint v)
        × IsLeast a rec v
  min_record_from a [] ha all =
      (a, unfold min_record in refl, (ha, inl refl, omega arith, λ w h. absurd h))
  min_record_from a (e ∷ rec) ha all = elim (Bool-cases (fits tgt other e)) [
    | inl reads ↦
        let (u, hu, eu) = all.0 reads in
        let (v, run, least) = min_record_from (if ltb u a then u else a) rec (ground arith) all.1 in
        let below = if_le u a v least.2 in
        (
          v,
          min_reads a u e rec reads eu ha hu ∙ run,
          (
            least.0,
            held_cons a u v e rec reads hu eu least.1,
            below.1,
            least_cons e rec v u hu eu below.0 least.3,
          ),
        )
    | inr skips ↦
        let (v, run, least) = min_record_from a rec ha all.1 in
        (
          v,
          min_skips (make_variant_from_uint a) e rec skips ∙ run,
          (least.0, held_skip a v e rec least.1, least.2, least_skip e rec v skips least.3),
        )
  ]

  min_first :
      (u : ℕ) (e : Entry) (rec : List Entry)
      → fits tgt other e ≡ true
      → e.value ≡ make_variant_from_uint u
      → min_record d type_uint tgt other make_empty_variant (e ∷ rec)
        ≡ min_record d type_uint tgt other (make_variant_from_uint u) rec
  unfolding min_record
  min_first u e rec reads eu = ap (λ t. min_record d type_uint tgt other t rec) (ground arith)

  -- `r` is empty where no entry fits, and else the least value of the entries that fit.
  abbrev pub HoldsLeast : List Entry → CaliVariant → Type 0
  HoldsLeast rec r =
      ((r ≡ make_empty_variant) × ((w : ℕ) → HasValue tgt other w rec → ⊥))
      ⊎ ((v : ℕ) × (r ≡ make_variant_from_uint v)
          × HasValue tgt other v rec
          × ((w : ℕ) → HasValue tgt other w rec → v ≤ w))

  skip_first :
      (e : Entry) (rec : List Entry)
      → fits tgt other e ≡ false
      → HoldsLeast rec (min_record d type_uint tgt other make_empty_variant rec)
      → HoldsLeast (e ∷ rec) (min_record d type_uint tgt other make_empty_variant (e ∷ rec))
  skip_first e rec skips (inl (q, free)) = inl (min_skips make_empty_variant e rec skips ∙ q, still)
    where
      still : (w : ℕ) → HasValue tgt other w (e ∷ rec) → ⊥
      still w (inl (f, hw, ew)) = cc
      still w (inr h) = free w h
  skip_first e rec skips (inr (v, q, held, least)) =
      inr
        (v, min_skips make_empty_variant e rec skips ∙ q, inr held, least_skip e rec v skips least)

  -- A minimum kernel that holds nothing yet and reads a record whose fitting entries hold unsigned
  -- 64-bit values: it stays empty if no entry fits, and else holds the least of their values.
  pub min_record_least :
      (rec : List Entry)
      → AllUnsigned tgt other rec
      → HoldsLeast rec (min_record d type_uint tgt other make_empty_variant rec)
  min_record_least [] all = inl (unfold min_record in refl, λ w h. h)
  min_record_least (e ∷ rec) all = elim (Bool-cases (fits tgt other e)) [
    | inl reads ↦
        let (u, hu, eu) = all.0 reads in
        let (v, run, least) = min_record_from u rec hu all.1 in
        inr (
          v,
          min_first u e rec reads eu ∙ run,
          held_first u v e rec reads hu eu least.1,
          least_cons e rec v u hu eu least.2 least.3,
        )
    | inr skips ↦ skip_first e rec skips (min_record_least rec all.1)
  ]
    where
      held_first :
          (u v : ℕ) (e : Entry) (rec : List Entry)
          → fits tgt other e ≡ true
          → IsU64 u
          → e.value ≡ make_variant_from_uint u
          → (v ≡ u) ⊎ HasValue tgt other v rec
          → HasValue tgt other v (e ∷ rec)
      held_first u v e rec reads hu eu (inl q) = inl (reads, rw q hu, rw q eu)
      held_first u v e rec reads hu eu (inr h) = inr h
