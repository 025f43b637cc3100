-- ===== src/Filter/Room.antt =====
-- src/main.rs, filter_with_children: the room that it needs in the arena.
use ltop.Base.{
  ℕ, ◌+◌, ◌-◌, ◌*◌, ◌/◌, ◌≤◌, ◌<◌, ◌≡◌, refl, arith, true, map, some, List, [], ◌∷◌, length,
  Option-cases, inl, inr,
}
use ltop.Arena.{arena_size, max_align, bump}
use ltop.Arena.Bump.{round_up}
use ltop.Map.{get}
use ltop.Proc.{ProcInfo}
use ltop.Filter.{reserve_room, nest_room, edges_from, in_lockstep}
use ltop.Filter.Queue.{pids}

pub reserve_room_fits :
    (offset size align : ℕ)
    → 0 < align
    → align ≤ max_align
    → offset + size + (align - 1) ≤ arena_size
    → (end : ℕ) × (reserve_room offset size align ≡ some end) × (end ≤ offset + size + (align - 1))
unfolding reserve_room bump
reserve_room_fits offset size align pos small room =
    let up = round_up offset align pos in
    let end = (offset + (align - 1)) / align * align + size in (end, ground arith, omega arith)

pub nest_room_fits :
    (offset n pairs : ℕ)
    → pairs ≤ n
    → offset + 12 * n + 13 ≤ arena_size
    → (end : ℕ) × (nest_room offset n pairs ≡ some end) × (end ≤ offset + 8 * n + 10)
unfolding nest_room
nest_room_fits offset n pairs few room =
    let (a, first, le_a) =
      reserve_room_fits offset (4 * (n + 1)) 4 (omega arith) (omega arith) (omega arith) in
    let (b, second, le_b) =
      reserve_room_fits a (4 * pairs) 4 (omega arith) (omega arith) (omega arith) in
    let (c, third, le_c) =
      reserve_room_fits b (4 * n) 4 (omega arith) (omega arith) (omega arith) in
    (b, rw (first, second, third) refl, omega arith)

-- All reservations of a table with `n` rows.
pub filter_room_fits :
    (offset n pairs : ℕ)
    → pairs ≤ n
    → offset + 25 * n + 16 ≤ arena_size
    → (at_map : ℕ) × (at_nest : ℕ) × (at_queue : ℕ) × (at_flags : ℕ) × (reserve_room offset
          (8 * n)
          4
        ≡ some at_map)
      × (nest_room at_map n pairs ≡ some at_nest)
      × (reserve_room at_nest (8 * n) 4 ≡ some at_queue)
      × (reserve_room at_queue n 1 ≡ some at_flags)
filter_room_fits offset n pairs few room =
    let (a, first, le_a) =
      reserve_room_fits offset (8 * n) 4 (omega arith) (omega arith) (omega arith) in
    let (b, second, le_b) = nest_room_fits a n pairs few (omega arith) in
    let (c, third, le_c) =
      reserve_room_fits b (8 * n) 4 (omega arith) (omega arith) (omega arith) in
    let (d, fourth, le_d) = reserve_room_fits c n 1 (omega arith) (omega arith) (omega arith) in
    (a, b, c, d, first, second, third, fourth)

module _ {F : Type 0} where
  pub length-edges_from :
      (m : List (ℕ × ℕ)) (i : ℕ) (procs : List (ProcInfo F))
      → length (edges_from m i procs) ≤ length procs
  unfolding edges_from
  length-edges_from m i [] = omega arith
  length-edges_from m i (p ∷ procs) =
      let ih = length-edges_from m (i + 1) procs in
      elim (Option-cases (get m p.ppid)) [
        | inl root ↦ rw (root, edges_from) (omega arith)
        | inr (pa, child) ↦ rw (child, edges_from) (omega arith)
      ]

  -- Rows and samples with the same pids pass the assertion.
  pub in_lockstep-pids :
      (procs : List (ProcInfo F)) (next : List (ℕ × ℕ))
      → pids procs ≡ map (λ e. e.0) next
      → (in_lockstep procs next ≡ true) × (length procs ≡ length next)
  unfolding in_lockstep
  in_lockstep-pids [] [] h = (refl, refl)
  in_lockstep-pids [] (entry ∷ next) h = cc
  in_lockstep-pids (p ∷ procs) [] h = cc
  in_lockstep-pids (p ∷ procs) ((pid, packed) ∷ next) h =
      let head : p.pid ≡ pid = cc in
      let tail : pids procs ≡ map (λ e. e.0) next = cc in
      let (rest, size) = in_lockstep-pids procs next tail in
      (ground (arith, head, rest), omega (arith, size))
