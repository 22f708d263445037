-- ===== src/Common/Snapshot/Build.antt =====
-- include/caliper/SnapshotRecord.h: the two appends of a builder against one another.
use caliper_msg_pattern.Prelude.{
  ℕ, zero, suc, ◌+◌, ◌-◌, ◌^◌, ◌≤◌, ◌<◌, min, ◌≡◌, refl, sym, ap, ◌∙◌, inl, inr, arith, true, false,
  List, [], ◌∷◌, ◌++◌, ltb, ltb→lt, length, take, length-append, append_assoc, append-nil,
  Bool-cases,
}
use mathlib.Core.Path.{subst}
use caliper_msg_pattern.Common.Variant.Compare.{wrap_difference}
use caliper_msg_pattern.Common.Entry.{Entry}
use caliper_msg_pattern.Common.Snapshot.{SnapshotBuilder, build_entry, build_entries, build_each}

take-nil : (n : ℕ) → take {A = Entry} n [] ≡ []
take-nil zero = refl
take-nil (suc n) = refl

take-min : (xs : List Entry) (k n : ℕ) → k ≡ min (length xs) n → take k xs ≡ take n xs
take-min [] k n h = take-nil k ∙ sym (take-nil n)
take-min (x ∷ xs) zero zero h = refl
take-min (x ∷ xs) zero (suc n) h = absurd (omega (arith, h))
take-min (x ∷ xs) (suc k) zero h = absurd (omega (arith, h))
take-min (x ∷ xs) (suc k) (suc n) h = ap (λ t. x ∷ t) (take-min xs k n (omega (arith, h)))

-- Room for one entry more.
take-room :
    (content : List Entry) (e : Entry) (es : List Entry) (k n : ℕ)
    → n ≡ suc k
    → (content ++ (e ∷ [])) ++ take k es ≡ content ++ take n (e ∷ es)
take-room content e es k n h =
    append_assoc content (e ∷ []) (take k es) ∙ ap (λ (i : ℕ). content ++ take i (e ∷ es)) (sym h)

-- What is in a builder after entries: those that there is room for, and the number of the others.
abbrev Built : SnapshotBuilder → List Entry → SnapshotBuilder → Type 0
Built b es after =
    (after.content ≡ b.content ++ take (b.capacity - length b.content) es)
    × (after.skipped ≡ b.skipped + (length es - (b.capacity - length b.content)))
    × (after.capacity ≡ b.capacity)

add_one : SnapshotBuilder → Entry → SnapshotBuilder
add_one b e = record b { content = b.content ++ (e ∷ []) }

skip_one : SnapshotBuilder → SnapshotBuilder
skip_one b = record b { skipped = b.skipped + 1 }

Built-one :
    (b : SnapshotBuilder) (e : Entry) (es : List Entry) (after : SnapshotBuilder)
    → ltb (length b.content) b.capacity ≡ true
    → Built (add_one b e) es after
    → Built b (e ∷ es) after
unfolding add_one
Built-one b e es after fits (c, s, p) =
    let more = length-append b.content (e ∷ []) in
    let room = ltb→lt (length b.content) b.capacity fits in
    (c ∙ take-room b.content e es _ _ (omega (arith, more, room)), omega (arith, s, more, room), p)

Built-skip :
    (b : SnapshotBuilder) (e : Entry) (es : List Entry) (after : SnapshotBuilder)
    → b.capacity - length b.content ≡ 0
    → Built (skip_one b) es after
    → Built b (e ∷ es) after
unfolding skip_one
Built-skip b e es after full (c, s, p) = (
  c
      ∙ ap (λ (n : ℕ). b.content ++ take n es) full
      ∙ ap (λ (n : ℕ). b.content ++ take n (e ∷ es)) (sym full),
  omega (arith, s, full),
  p,
)

one_more :
    (b : SnapshotBuilder) (e : Entry)
    → ltb (length b.content) b.capacity ≡ true
    → build_entry b e ≡ add_one b e
unfolding build_entry add_one
one_more b e fits = rw fits refl

none_more :
    (b : SnapshotBuilder) (e : Entry)
    → ltb (length b.content) b.capacity ≡ false
    → build_entry b e ≡ skip_one b
unfolding build_entry skip_one
none_more b e full = rw full refl

Built-each : (es : List Entry) (b : SnapshotBuilder) → Built b es (build_each b es)
unfolding build_each
Built-each [] b =
    (sym (append-nil b.content) ∙ ap (λ xs. b.content ++ xs) (sym (take-nil _)), omega arith, refl)
Built-each (e ∷ es) b = elim (Bool-cases (ltb (length b.content) b.capacity)) [
  | inl fits ↦
      subst (λ z. Built b (e ∷ es) (build_each z es)) (sym (one_more b e fits))
        (Built-one b e es _ fits (Built-each es (add_one b e)))
  | inr full ↦
      subst (λ z. Built b (e ∷ es) (build_each z es)) (sym (none_more b e full))
        (Built-skip b e es _ (ground (arith, full)) (Built-each es (skip_one b)))
]

room :
    (b : SnapshotBuilder)
    → length b.content ≤ b.capacity
    → b.capacity < 2 ^ 64
    → wrap_difference b.capacity (length b.content) ≡ b.capacity - length b.content
room b le small = omega (arith, le, small)

Built-entries :
    (es : List Entry) (b : SnapshotBuilder)
    → length b.content ≤ b.capacity
    → b.capacity < 2 ^ 64
    → Built b es (build_entries b es)
unfolding build_entries
Built-entries es b le small =
    let n = b.capacity - length b.content in
    (
      ap (λ xs. b.content ++ xs)
          (take-min es (min (length es) (wrap_difference b.capacity (length b.content))) n
            (ap (λ (k : ℕ). min (length es) k) (room b le small))),
      omega (arith, room b le small),
      refl,
    )

builder_eq :
    (a b : SnapshotBuilder)
    → a.capacity ≡ b.capacity
    → a.content ≡ b.content
    → a.skipped ≡ b.skipped
    → a ≡ b
builder_eq a b p c s = λ i. record { capacity = p i; content = c i; skipped = s i }

-- On a builder that is not over its capacity: appending entries at once leaves in the builder what appending them one at a time leaves, and
-- counts as many as skipped.
pub build_entries-build_each :
    (es : List Entry) (b : SnapshotBuilder)
    → length b.content ≤ b.capacity
    → b.capacity < 2 ^ 64
    → build_entries b es ≡ build_each b es
build_entries-build_each es b le small =
    let (c, s, p) = Built-entries es b le small in
    let (c₂, s₂, p₂) = Built-each es b in
    builder_eq (build_entries b es) (build_each b es) (p ∙ sym p₂) (c ∙ sym c₂) (s ∙ sym s₂)
