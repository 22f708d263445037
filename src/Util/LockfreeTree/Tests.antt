-- ===== src/Util/LockfreeTree/Tests.antt =====
-- Two calls of `append` on one node, whose steps interleave.
use caliper_msg_pattern.Prelude.{ℕ, ◌+◌, ◌≡◌, ◌≢◌, refl, arith, List, []}
use caliper_msg_pattern.Util.LockfreeTree.{
  entered, State, goes_to, set_parent, load_head, exchange_head, looping, returned, enter, succeed,
  fail, Steps, none_yet, and_then,
}
use caliper_msg_pattern.Util.LockfreeTree.Append.{IsStart, IsAppending, Steps-IsAppending}
use caliper_msg_pattern.Util.LockfreeTree.Finish.{Returns, call-Returns}

abbrev subs : ℕ → ℕ
subs i = i + 2

abbrev root : ℕ → ℕ
root _ = 1

abbrev empty : State
empty = record {
  fields = record { parent = λ _. 0; next = λ _. 0; head = λ _. 0 };
  place = λ _. entered;
}

abbrev childless : ℕ → List ℕ
childless _ = []

empty-IsStart : IsStart subs root childless empty
empty-IsStart = record { all_enter = λ _. refl; chains = λ _. refl; apart = λ _ _. tt }

subs-real : (i : ℕ) → subs i ≢ 0
subs-real i = omega arith

subs-distinct : (i j : ℕ) → subs i ≡ subs j → i ≡ j
subs-distinct i j e = omega arith

-- Both calls begin with a null head; the first one wins, and the second one has to load the head.
abbrev both_begun : State
both_begun =
    goes_to (goes_to empty 0 looping (set_parent empty.fields 2 1)) 1 looping
      (set_parent (set_parent empty.fields 2 1) 3 1)

abbrev one_won : State
one_won = goes_to both_begun 0 returned (exchange_head both_begun.fields 2 1)

abbrev other_loaded : State
other_loaded = goes_to one_won 1 looping (load_head one_won.fields 3 1)

abbrev both_won : State
both_won = goes_to other_loaded 1 returned (exchange_head other_loaded.fields 3 1)

race : Steps subs root empty both_won
race =
    and_then
      (and_then
        (and_then (and_then (and_then none_yet (enter 0 refl)) (enter 1 refl))
          (succeed 0 refl refl))
        (fail 1 refl))
      (succeed 1 refl refl)

Steps-IsAppending_example : (new : ℕ → List ℕ) × IsAppending subs root childless both_won new
Steps-IsAppending_example =
    Steps-IsAppending subs root childless subs-real subs-distinct empty-IsStart race

call-Returns_example : Returns subs root 1 one_won
call-Returns_example = call-Returns subs root one_won 1
