-- ===== src/Arena/Runs.antt =====
-- src/arena.rs: runs of the arena in bytes, and the theorems about it at concrete inputs.
use ltop.Base.{ℕ, ◌≡◌, refl, ◌>>=◌, Option, none, some, List, [], ◌∷◌, arith}
use ltop.Arena.Storage.{
  Storage, Layout, FSpan, store, read, collect, compact, replace2, uncommit_tail, align_up,
}
use ltop.Arena.Slots.{FVec, contents, extend_from_slice, push, pop, truncate}
use ltop.Arena.Ops.{Op, push_op, pop_op, truncate_op, extend_op}
use ltop.Arena.Vec.{run_ops, run_list, Refines, run_ops-Refines}
use ltop.Arena.Moves.{Compacted, compact-moves, Replaced, replace2-moves}
use ltop.Arena.Build.{Holds, collect-values}
use ltop.Arena.Tail.{CoversTail, uncommit_tail-CoversTail}

abbrev u8 : Layout
u8 = record { size = 1; align = 1 }

abbrev u16 : Layout
u16 = record { size = 2; align = 2 }

-- An arena with three bytes in use.
abbrev three : Storage
three = record { offset = 3; buf = store (λ x. 0) 0 (10 ∷ 11 ∷ 12 ∷ []) }

-- A closure that leaves two values behind some scratch.
abbrev scratch : Storage → Option (FSpan × Storage)
scratch s = some (
  record { start = 8; len = 2 },
  record { offset = 14; buf = store s.buf 8 (1 ∷ 2 ∷ 3 ∷ 4 ∷ []) },
)

abbrev behind : Storage
behind = record { offset = 14; buf = store three.buf 8 (1 ∷ 2 ∷ 3 ∷ 4 ∷ []) }

abbrev compacted : Option (FSpan × ℕ × List ℕ)
compacted = compact u16 scratch three >>= λ r. some (r.0, r.1.offset, read r.1.buf 4 4)

compact_runs : compacted ≡ some (record { start = 4; len = 2 }, 8, 1 ∷ 2 ∷ 3 ∷ 4 ∷ [])
unfolding compact read store
compact_runs = refl

compact-moves_example :
    (span : FSpan) × (after : Storage) × (compact u16 scratch three ≡ some (span, after))
    × Compacted u16 three (record { start = 8; len = 2 }) behind span after
unfolding align_up
compact-moves_example =
    compact-moves u16 scratch three (record { start = 8; len = 2 }) behind (omega arith) refl
      (omega arith)

-- Two spans of the old tick in the three bytes, and those of the new tick behind them.
abbrev old_one : FSpan
old_one = record { start = 0; len = 1 }

abbrev old_two : FSpan
old_two = record { start = 2; len = 1 }

abbrev tick : Storage → Option ((FSpan × FSpan) × Storage)
tick s = some (
  (record { start = 3; len = 3 }, record { start = 8; len = 2 }),
  record { offset = 10; buf = store s.buf 3 (1 ∷ 2 ∷ 3 ∷ 0 ∷ 0 ∷ 6 ∷ 7 ∷ []) },
)

abbrev ticked : Storage
ticked = record { offset = 10; buf = store three.buf 3 (1 ∷ 2 ∷ 3 ∷ 0 ∷ 0 ∷ 6 ∷ 7 ∷ []) }

abbrev replaced : Option (ℕ × ℕ × List ℕ)
replaced = replace2 u8 u8 old_one old_two tick three >>= λ r.
    some (r.0.1.start, r.1.offset, read r.1.buf 0 5)

replace2_runs : replaced ≡ some (3, 5, 1 ∷ 2 ∷ 3 ∷ 6 ∷ 7 ∷ [])
unfolding replace2 read store
replace2_runs = refl

replace2-moves_example :
    (kept : FSpan × FSpan) × (after : Storage) × (replace2 u8 u8 old_one old_two tick three
      ≡ some (kept, after))
    × Replaced u8 u8 old_one
        (record { start = 3; len = 3 }, record { start = 8; len = 2 })
        ticked
        kept
        after
replace2-moves_example =
    replace2-moves u8 u8 tick three ticked old_one old_two (record { start = 3; len = 3 })
      (record { start = 8; len = 2 }) (omega arith) (omega arith) (omega arith) refl (omega arith)
      (omega arith) (omega arith)

collect-values_example :
    (made : FSpan) × (after : Storage) × (collect u16 ((1 ∷ 2 ∷ []) ∷ (3 ∷ 4 ∷ []) ∷ []) three
      ≡ some (made, after))
    × Holds u16 ((1 ∷ 2 ∷ []) ∷ (3 ∷ 4 ∷ []) ∷ []) three made after
unfolding align_up
collect-values_example =
    collect-values u16 ((1 ∷ 2 ∷ []) ∷ (3 ∷ 4 ∷ []) ∷ []) three (omega arith) (omega arith)
      (omega arith) (refl, (refl, tt)) (omega arith)

-- Three slots of two bytes behind the bytes in use.
abbrev slots : FVec
slots = record { start = 4; capacity = 3; len = 0 }

abbrev script : List Op
script =
    push_op (1 ∷ 2 ∷ [])
    ∷ extend_op ((3 ∷ 4 ∷ []) ∷ (5 ∷ 6 ∷ []) ∷ [])
    ∷ push_op (7 ∷ 8 ∷ [])
    ∷ pop_op
    ∷ truncate_op 1
    ∷ []

abbrev script_result : Option (List (Option (List ℕ)) × List (List ℕ))
script_result = run_ops u16 script (slots, three) >>= λ r. some (r.0, contents u16 r.1)

run_ops_script :
    script_result
    ≡ some (none ∷ none ∷ some (7 ∷ 8 ∷ []) ∷ some (5 ∷ 6 ∷ []) ∷ none ∷ [], (1 ∷ 2 ∷ []) ∷ [])
unfolding run_ops extend_from_slice push pop truncate
run_ops_script = refl

run_ops-Refines_example :
    Refines u16
      (slots, three)
      (run_ops u16 script (slots, three))
      (run_list 3 script (contents u16 (slots, three)))
run_ops-Refines_example =
    run_ops-Refines u16 script slots three (refl, ((refl, (refl, tt)), (refl, (tt, (tt, tt)))))
      (omega arith)

uncommit_tail-CoversTail_example : CoversTail 100000 4096 three (uncommit_tail 100000 4096 three)
uncommit_tail-CoversTail_example = uncommit_tail-CoversTail 100000 4096 three (omega arith)
