-- ===== src/Util/LockfreeTree.antt =====
-- include/caliper/common/lockfree-tree.hpp: the intrusive tree whose nodes threads append without a
-- lock. A pointer is a number, and null is 0; the fields of the nodes are functions of the pointer.
-- Each call of `append` is a process of its own, and the calls' steps interleave in any order.
pub mod Append
pub mod Finish
mod Tests
use caliper_msg_pattern.Prelude.{ℕ, suc, ◌+◌, ◌≡◌, if◌then◌else◌, ◌==◌}

-- The fields of `LockfreeIntrusiveTree::Node`.
pub record Fields : Type 0 where
  pub parent : ℕ → ℕ
  pub next : ℕ → ℕ
  pub head : ℕ → ℕ

abbrev pub set_at {ℓ} : {A : Type ℓ} → (ℕ → A) → ℕ → A → ℕ → A
set_at f i a x = if x == i then a else f x

-- Where a call of `append` is: before it sets the parent, in the loop, behind it.
pub data Place : Type 0 where
  entered looping returned : Place

pub record State : Type 0 where
  pub fields : Fields
  pub place : ℕ → Place

-- `node(sub).parent = m_me`
abbrev pub set_parent : Fields → ℕ → ℕ → Fields
set_parent f sub me = record f { parent = set_at f.parent sub me }

-- `compare_exchange_weak(node(sub).next, sub)` on the head of `me`, where it succeeds and where it
-- fails. It may fail though the head is the one expected.
abbrev pub exchange_head : Fields → ℕ → ℕ → Fields
exchange_head f sub me = record f { head = set_at f.head me sub }

abbrev pub load_head : Fields → ℕ → ℕ → Fields
load_head f sub me = record f { next = set_at f.next sub (f.head me) }

abbrev pub goes_to : State → ℕ → Place → Fields → State
goes_to s i place f = record { fields = f; place = set_at s.place i place }

-- The call `i` appends the node `sub i` to the node `me i`.
module _ (sub me : ℕ → ℕ) where
  -- A step of one of the calls.
  pub data Step (s : State) : State → Type 0 where
    enter :
        (i : ℕ)
        → s.place i ≡ entered
        → Step s (goes_to s i looping (set_parent s.fields (sub i) (me i)))
    succeed :
        (i : ℕ)
        → s.place i ≡ looping
        → s.fields.head (me i) ≡ s.fields.next (sub i)
        → Step s (goes_to s i returned (exchange_head s.fields (sub i) (me i)))
    fail :
        (i : ℕ)
        → s.place i ≡ looping
        → Step s (goes_to s i looping (load_head s.fields (sub i) (me i)))

  -- Steps one after the other.
  pub data Steps (s : State) : State → Type 0 where
    none_yet : Steps s s
    and_then : {t u : State} → Steps s t → Step t u → Steps s u
