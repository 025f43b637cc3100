-- ===== src/Arena/Ops.antt =====
-- src/arena.rs: one operation of an FVec in the arena's bytes, and the same on a bounded list.
use native.Mathlib.Nat.{mul-le-mul_right}
use ltop.Base.{
  ℕ, zero, suc, ◌+◌, ◌-◌, ◌*◌, ◌≤◌, ◌<◌, ◌≡◌, refl, sym, ap, ◌∙◌, arith, ◌⊎◌, inl, inr, Option,
  none, some, List, [], ◌∷◌, ◌++◌, append-nil, ltb, leb, ◌==◌, if◌then◌else◌, ◌>>=◌, length,
  get_elem?, take, Bool-cases, min, get_elem?-append_length, take-append_length, get_elem?-eq_none,
  leb→le, leb→lt,
}
use ltop.Arena.Storage.{Storage, Layout, store, read}
use ltop.Arena.Copy.{store-below, store-above}
use ltop.Arena.Slots.{
  FVec, slot, push, pop, truncate_loop, truncate, extend_from_slice, flat, values_from, contents,
}
use ltop.Arena.Spans.{AllFit, length-flat, values-shift, values-append, values-store, length-values}

pub data Op : Type 0 where
  push_op : List ℕ → Op
  pop_op : Op
  truncate_op : ℕ → Op
  extend_op : List (List ℕ) → Op

-- What an operation hands back, and the state behind it.
abbrev pub step : Layout → Op → FVec × Storage → Option (Option (List ℕ) × (FVec × Storage))
step t (push_op value) (v, s) =
    let (taken, r) = push t value (v, s) in some (if taken then none else some value, r)
step t pop_op (v, s) = let (value, v') = pop t (v, s) in some (value, (v', s))
step t (truncate_op n) (v, s) = some (none, (truncate n v, s))
step t (extend_op values) (v, s) = extend_from_slice t values (v, s) >>= λ r. some (none, r)

-- The same on a list of at most `capacity` values.
abbrev pub list_step : ℕ → Op → List (List ℕ) → Option (Option (List ℕ) × List (List ℕ))
list_step capacity (push_op value) xs =
    if leb capacity (length xs) then some (some value, xs) else some (none, xs ++ value ∷ [])
list_step capacity pop_op xs = some (get_elem? xs (length xs - 1), take (length xs - 1) xs)
list_step capacity (truncate_op n) xs = some (none, take n xs)
list_step capacity (extend_op values) xs =
    if length values == 0
    then some (none, xs)
    else if leb (length xs + length values) capacity
    then some (none, xs ++ values)
    else none

abbrev pub OpFits : ℕ → Op → Type 0
OpFits size (push_op value) = length value ≡ size
OpFits size pop_op = Unit {0}
OpFits size (truncate_op n) = Unit {0}
OpFits size (extend_op values) = AllFit size values

pub take-min : (n : ℕ) (xs : List (List ℕ)) → take (min n (length xs)) xs ≡ take n xs
take-min zero xs = let e : min 0 (length xs) ≡ 0 = omega arith in rw e refl
take-min (suc n) [] = let e : min (suc n) 0 ≡ 0 = omega arith in rw e refl
take-min (suc n) (x ∷ xs) =
    let e : min (suc n) (suc (length xs)) ≡ suc (min n (length xs)) = omega arith in
    rw e (ap (◌∷◌ x) (take-min n xs))

module _ (t : Layout) where
  -- The state behind an operation: the contents are the list's, the place is the same, and no byte
  -- outside of it has changed.
  abbrev pub Stands : FVec × Storage → FVec × Storage → List (List ℕ) → Type 0
  Stands (v, s) (v', s') xs =
      (contents t (v', s') ≡ xs)
      × (v'.len ≤ v'.capacity)
      × (v'.capacity ≡ v.capacity)
      × (v'.start ≡ v.start)
      × (s'.offset ≡ s.offset)
      × ((x : ℕ) → (x < v.start) ⊎ (v.start + v.capacity * t.size ≤ x) → s'.buf x ≡ s.buf x)

  abbrev pub Agrees :
      FVec × Storage
      → Option (Option (List ℕ) × (FVec × Storage))
      → Option (Option (List ℕ) × List (List ℕ))
      → Type 0
  Agrees vs none none = Unit {0}
  Agrees vs (some (o, vs')) (some (o', xs)) = (o ≡ o') × Stands vs vs' xs
  Agrees vs (some r) none = ⊥
  Agrees vs none (some r) = ⊥

  -- Writing values behind the contents.
  pub append-Stands :
      (v : FVec) (s : Storage) (values : List (List ℕ))
      → AllFit t.size values
      → v.len + length values ≤ v.capacity
      → Stands
          (v, s)
          (
            record v { len = v.len + length values },
            record s { buf = store s.buf (slot t v v.len) (flat values) },
          )
          (contents t (v, s) ++ values)
  append-Stands v s values fit room =
      let bytes = length-flat t.size values fit in
      let end : (v.len + length values) * t.size ≡ v.len * t.size + length values * t.size =
        grind arith in
      let inside : (v.len + length values) * t.size ≤ v.capacity * t.size =
        mul-le-mul_right t.size room in
      let buf' = store s.buf (slot t v v.len) (flat values) in
      let old =
        values-shift t buf' s.buf v.start v.len
          (λ x low high. store-below s.buf (slot t v v.len) (flat values) x high) in
      let added = values-store t s.buf (slot t v v.len) values fit in
      (
        values-append t buf' v.start v.len (length values) ∙ rw (old, added) refl,
        room,
        refl,
        refl,
        refl,
        λ x out. elim out [
          | inl low ↦ store-below s.buf (slot t v v.len) (flat values) x (omega arith)
          | inr high ↦ store-above s.buf (slot t v v.len) (flat values) x (omega arith)
        ],
      )

  -- Fewer of the values.
  pub fewer-Stands :
      (v : FVec) (s : Storage) (n : ℕ)
      → v.len ≤ v.capacity
      → n ≤ v.len
      → Stands (v, s) (record v { len = n }, s) (take n (contents t (v, s)))
  fewer-Stands v s n room le =
      let split : v.len ≡ n + (v.len - n) = omega arith in
      let front = values-append t s.buf v.start n (v.len - n) in
      let whole = rw (← split) at front in
      (
        rw whole (
            sym (
              take-append_length (values_from s.buf t v.start n) _ n
                (sym (length-values t s.buf v.start n)))),
        omega arith,
        refl,
        refl,
        refl,
        λ x out. refl,
      )

  pub truncate_loop-eq :
      (rounds n : ℕ) (v : FVec)
      → v.len ≤ rounds
      → truncate_loop rounds n v ≡ record v { len = min n v.len }
  unfolding truncate_loop
  truncate_loop-eq zero n v h = ground arith
  truncate_loop-eq (suc rounds) n v h = elim (Bool-cases (ltb n v.len)) [
    | inl more ↦
        let less : min n (v.len - 1) ≡ min n v.len = ground arith in
        rw more (
          truncate_loop-eq rounds n (record v { len = v.len - 1 }) (omega arith)
          ∙ ap (λ (k : ℕ). record v { len = k }) less)
    | inr enough ↦
        let same : v.len ≡ min n v.len = ground arith in
        rw enough (ap (λ (k : ℕ). record v { len = k }) same)
  ]

  pub pop_last :
      (v : FVec) (s : Storage) (k : ℕ)
      → v.len ≡ k + 1
      → get_elem? (contents t (v, s)) k ≡ some (read s.buf (slot t v k) t.size)
  pop_last v s k e =
      let split = values-append t s.buf v.start k 1 in
      let last =
        get_elem?-append_length (values_from s.buf t v.start k) (read s.buf (slot t v k) t.size) []
          k (sym (length-values t s.buf v.start k)) in
      rw (e, split) last

  pub step-Agrees :
      (op : Op) (v : FVec) (s : Storage)
      → OpFits t.size op
      → v.len ≤ v.capacity
      → Agrees (v, s) (step t op (v, s)) (list_step v.capacity op (contents t (v, s)))
  unfolding push pop truncate extend_from_slice
  step-Agrees (push_op value) v s fit room =
      let count = length-values t s.buf v.start v.len in
      elim (Bool-cases (leb v.capacity v.len)) [
        | inl no_room ↦ rw (count, no_room) (refl, (refl, room, refl, refl, refl, λ x out. refl))
        | inr free ↦
            let one = append-Stands v s (value ∷ []) (fit, tt) (omega (arith, leb→lt _ _ free)) in
            rw (count, free) (refl, (rw (append-nil value) at one))
      ]
  step-Agrees pop_op v s fit room =
      let count = length-values t s.buf v.start v.len in
      elim (Bool-cases (v.len == 0)) [
        | inl none_left ↦
            let zero_len : v.len ≡ 0 = ground arith in
            let less : v.len - 1 ≡ v.len = omega arith in
            let same = fewer-Stands v s v.len room (omega arith) in
            rw (count, none_left, less)
              (sym (get_elem?-eq_none (contents t (v, s)) v.len (omega (arith, count))), same)
        | inr some_left ↦
            let positive : v.len ≡ v.len - 1 + 1 = ground arith in
            rw (count, some_left)
              (
                sym (pop_last v s (v.len - 1) positive),
                fewer-Stands v s (v.len - 1) room (omega arith),
              )
      ]
  step-Agrees (truncate_op n) v s fit room =
      let count = length-values t s.buf v.start v.len in
      let capped = rw count at (take-min n (contents t (v, s))) in
      let fewer = fewer-Stands v s (min n v.len) room (omega arith) in
      rw (truncate_loop-eq v.len n v (omega arith)) (refl, (rw capped at fewer))
  step-Agrees (extend_op values) v s fit room =
      let count = length-values t s.buf v.start v.len in
      elim (Bool-cases (length values == 0)) [
        | inl nothing ↦ rw nothing (refl, (refl, room, refl, refl, refl, λ x out. refl))
        | inr something ↦ elim (Bool-cases (leb (v.len + length values) v.capacity)) [
          | inl fits ↦
              rw (something, count, fits) (refl, append-Stands v s values fit (leb→le _ _ fits))
          | inr over ↦ rw (something, count, over) tt
        ]
      ]
