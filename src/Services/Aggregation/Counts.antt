-- ===== src/Services/Aggregation/Counts.antt =====
-- src/services/aggregate/AggregationDB.cpp: the counts of a database over processed snapshots.
use caliper_msg_pattern.Prelude.{
  ℕ, zero, suc, ◌+◌, ◌≤◌, ◌<◌, ◌≡◌, refl, inl, inr, arith, some, List, [], ◌∷◌, ◌++◌, length,
  get_elem?, Bool-cases,
}
use mathlib.Core.Path.{subst}
use caliper_msg_pattern.Common.Variant.Convert.{DoubleOps, to_double}
use caliper_msg_pattern.Common.Entry.{Attribute, Entry, is_null}
use caliper_msg_pattern.Common.Snapshot.{get_immediate_entry}
use caliper_msg_pattern.Services.Aggregation.{AggregateKernel, AggregateEntry, update_kernel}
use caliper_msg_pattern.Services.Aggregation.Update.{change_at, count_up, update_kernels}

-- The sum of the counts of the entries.
abbrev pub total_count : List AggregateEntry → ℕ
total_count [] = 0
total_count (e ∷ es) = e.count + total_count es

pub total_count-append :
    (es fs : List AggregateEntry) → total_count (es ++ fs) ≡ total_count es + total_count fs
total_count-append [] fs = omega arith
total_count-append (e ∷ es) fs = omega (arith, total_count-append es fs)

-- An element but for its count.
abbrev pub SameRanges : AggregateEntry → AggregateEntry → Type 0
SameRanges e f =
    (e.key_idx ≡ f.key_idx)
    × (e.key_len ≡ f.key_len)
    × (e.kernels_idx ≡ f.kernels_idx)
    × (e.num_kernels ≡ f.num_kernels)
    × (e.next_entry_idx ≡ f.next_entry_idx)

abbrev pub Same : List AggregateEntry → List AggregateEntry → Type 0
Same es changed =
    (j : ℕ) (f : AggregateEntry)
    → get_elem? changed j ≡ some f
    → (e : AggregateEntry) × (get_elem? es j ≡ some e) × SameRanges e f

some_injective : (g f : AggregateEntry) → some g ≡ some f → g ≡ f
some_injective g f h = cc h

SameRanges-of : (e g f : AggregateEntry) → SameRanges e g → some g ≡ some f → SameRanges e f
SameRanges-of e g f same h = subst (SameRanges e) (some_injective g f h) same

Same-first : (e : AggregateEntry) (es : List AggregateEntry) → Same (e ∷ es) (count_up e ∷ es)
Same-first e es zero f h =
    (e, refl, SameRanges-of e (count_up e) f (refl, refl, refl, refl, refl) h)
Same-first e es (suc j) f h = (f, h, (refl, refl, refl, refl, refl))

Same-later :
    (e : AggregateEntry) (es changed : List AggregateEntry)
    → Same es changed
    → Same (e ∷ es) (e ∷ changed)
Same-later e es changed same zero f h =
    (e, refl, SameRanges-of e e f (refl, refl, refl, refl, refl) h)
Same-later e es changed same (suc j) f h = same j f h

pub record Recounted (es : List AggregateEntry) (i : ℕ) : Type 0 where
  pub changed : List AggregateEntry
  pub runs : change_at count_up es i ≡ some changed
  pub same_length : length changed ≡ length es
  pub total : total_count changed ≡ total_count es + 1
  pub same : Same es changed

pub Recounted-at : (es : List AggregateEntry) (i : ℕ) → i < length es → Recounted es i
unfolding change_at
Recounted-at [] i lt = absurd (omega (arith, lt))
Recounted-at (e ∷ es) zero lt = record {
  changed = count_up e ∷ es;
  runs = refl;
  same_length = refl;
  total = omega arith;
  same = Same-first e es;
}
Recounted-at (e ∷ es) (suc i) lt =
    let rest = Recounted-at es i (omega (arith, lt)) in
    record {
      changed = e ∷ rest.changed;
      runs = rw (rest.runs) refl;
      same_length = omega (arith, rest.same_length);
      total = omega (arith, rest.total);
      same = Same-later e es rest.changed rest.same;
    }

change_at-runs {ℓ} :
    {A : Type ℓ} (f : A → A) (xs : List A) (i : ℕ)
    → i < length xs
    → (ys : List A) × (change_at f xs i ≡ some ys) × (length ys ≡ length xs)
unfolding change_at
change_at-runs f [] i lt = absurd (omega (arith, lt))
change_at-runs f (x ∷ xs) zero lt = (f x ∷ xs, refl, refl)
change_at-runs f (x ∷ xs) (suc i) lt =
    let (ys, run, same) = change_at-runs f xs i (omega (arith, lt)) in
    (x ∷ ys, rw run refl, omega (arith, same))

pub update_kernels-runs :
    (d : DoubleOps) (rec : List Entry) (attrs : List Attribute) (n i : ℕ)
    (kernels : List AggregateKernel)
    → n ≤ length attrs
    → i + n ≤ length kernels
    → (ks : List AggregateKernel) × (update_kernels d rec attrs n i kernels ≡ some ks)
      × (length ks ≡ length kernels)
unfolding update_kernels
update_kernels-runs d rec attrs zero i kernels le within = (kernels, refl, refl)
update_kernels-runs d rec [] (suc n) i kernels le within = absurd (omega (arith, le))
update_kernels-runs d rec (attr ∷ attrs) (suc n) i kernels le within =
    elim (Bool-cases (is_null (get_immediate_entry rec attr).node)) [
      | inl skip ↦
          let (ks, run, same) =
            update_kernels-runs d rec attrs n (i + 1) kernels (omega (arith, le))
              (omega (arith, within)) in
          (ks, rw skip run, same)
      | inr given ↦
          let (changed, step, size) =
            change_at-runs
              (λ k. update_kernel d k (to_double d (get_immediate_entry rec attr).value).0) kernels
              i (omega (arith, within)) in
          let (ks, run, same) =
            update_kernels-runs d rec attrs n (i + 1) changed (omega (arith, le))
              (omega (arith, within, size)) in
          (ks, simp (given, step, run), omega (arith, same, size))
    ]
