-- ===== src/OsBinary/Table.antt =====
-- src/osbinary.rs, Ckpts: the table holds every stride-th object of those recorded, and recording
-- never panics.
use native.Mathlib.Nat.{div-add-mod, mul-mod_left}
use ltop.Base.{
  ℕ, zero, suc, ◌+◌, ◌*◌, ◌/◌, ◌%◌, ◌<◌, ◌≤◌, ◌≡◌, ◌≢◌, refl, sym, ap, ◌∙◌, arith, true, some, List,
  [], ◌∷◌, ◌++◌, ltb, ltb→lt, ltb→le, ◌==◌, ==_iff, length, get_elem?, set, length-set,
  get_elem?-set, get_elem?-append, get_elem?-append_length, length-append, Bool-cases, inl, inr,
  get_or, get_elem?-get_or,
}
use ltop.OsBinary.Checkpoints.{Ckpts, store, halve_loop, halve, push, record_offset}

-- `ck` covers the objects at the offsets `os`.
pub record Covers (os : List ℕ) (ck : Ckpts) : Type 0 where
  pub room : 0 < length ck.buf
  pub apart : 0 < ck.stride
  pub fits : ck.n ≤ length ck.buf
  pub started : (i : ℕ) → i < ck.n → i * ck.stride < length os
  pub reaches : length os ≤ ck.n * ck.stride
  pub entries : (i : ℕ) → i < ck.n → get_elem? ck.buf i ≡ get_elem? os (i * ck.stride)

-- A multiple of the stride that is not covered is the next one.
next_multiple :
    (c s n : ℕ) → 0 < s → c % s ≡ 0 → ((i : ℕ) → i < n → i * s < c) → c ≤ n * s → c ≡ n * s
next_multiple c s zero pos whole started reaches = omega arith
next_multiple c s (suc n) pos whole started reaches =
    let split = div-add-mod c s in let last : n * s < c = started n (omega arith) in grind arith

no_multiple : (c s n : ℕ) → c % s ≢ 0 → c ≤ n * s → c < n * s
no_multiple c s n other reaches = elim (Bool-cases (ltb c (n * s))) [
  | inl less ↦ ltb→lt _ _ less
  | inr not_less ↦
      let e : c ≡ n * s = omega (arith, ltb→le _ _ not_less) in
      absurd (other (rw e (mul-mod_left n s)))
]

skip-Covers :
    (os : List ℕ) (o : ℕ) (ck : Ckpts)
    → length os % ck.stride ≢ 0
    → Covers os ck
    → Covers (os ++ o ∷ []) ck
skip-Covers os o ck other v =
    let grown = length-append os (o ∷ []) in
    record {
      room = v.room;
      apart = v.apart;
      fits = v.fits;
      started = λ i h. omega (arith, grown, v.started i h);
      reaches = omega (arith, grown, no_multiple (length os) ck.stride ck.n other v.reaches);
      entries =
          λ i h. v.entries i h ∙ sym (get_elem?-append os (o ∷ []) (i * ck.stride) (v.started i h));
    }

push-Covers :
    (os : List ℕ) (o : ℕ) (ck : Ckpts)
    → length os % ck.stride ≡ 0
    → ck.n < length ck.buf
    → Covers os ck
    → (ck' : Ckpts) × (push ck o ≡ some ck') × Covers (os ++ o ∷ []) ck'
unfolding push store
push-Covers os o ck whole free v =
    let grown = length-append os (o ∷ []) in
    let here : length os ≡ ck.n * ck.stride =
      next_multiple (length os) ck.stride ck.n v.apart whole v.started v.reaches in
    let in_range : ltb ck.n (length ck.buf) ≡ true = ground arith in
    (
      record { buf = set ck.buf ck.n o; n = ck.n + 1; stride = ck.stride },
      rw in_range,
      record {
        room = omega (arith, length-set ck.buf ck.n o, v.room);
        apart = v.apart;
        fits = omega (arith, length-set ck.buf ck.n o);
        started = λ i h. grind (arith, v.started i);
        reaches = grind arith;
        entries = λ i h. elim (Bool-cases (i == ck.n)) [
          | inl last ↦
              let e : i ≡ ck.n = (==_iff _ _).0 last in
              let written : get_elem? (set ck.buf ck.n o) ck.n ≡ some o =
                ground (arith, get_elem?-set ck.buf ck.n ck.n o) in
              rw e (written ∙ sym (get_elem?-append_length os o [] (ck.n * ck.stride) (sym here)))
          | inr before ↦
              let low : i < ck.n = ground arith in
              let kept : get_elem? (set ck.buf ck.n o) i ≡ get_elem? ck.buf i =
                ground (arith, get_elem?-set ck.buf ck.n i o) in
              kept
              ∙ (v.entries i low
                  ∙ sym (get_elem?-append os (o ∷ []) (i * ck.stride) (v.started i low)))
        ];
      },
    )

-- The halving loop moves the entry at `2 * j` to `j`, round by round.
halve_loop_entries :
    (rounds w : ℕ) (old buf : List ℕ)
    → length buf ≡ length old
    → 2 * (w + rounds) ≤ length old + 1
    → ((j : ℕ) → j < w → get_elem? buf j ≡ get_elem? old (2 * j))
    → ((j : ℕ) → w ≤ j → get_elem? buf j ≡ get_elem? old j)
    → (new : List ℕ) × (halve_loop rounds w buf ≡ some new)
      × (length new ≡ length old)
      × ((j : ℕ) → j < w + rounds → get_elem? new j ≡ get_elem? old (2 * j))
unfolding halve_loop store
halve_loop_entries zero w old buf size fits moved rest =
    (buf, refl, size, λ j h. moved j (omega arith))
halve_loop_entries (suc rounds) w old buf size fits moved rest =
    let v = get_or buf (2 * w) 0 in
    let read : get_elem? buf (2 * w) ≡ some v = get_elem?-get_or buf (2 * w) 0 (omega arith) in
    let in_range : ltb w (length buf) ≡ true = ground arith in
    let (new, ran, size', all) =
      halve_loop_entries rounds (w + 1) old (set buf w v) (length-set buf w v ∙ size) (omega arith)
        (λ j h. ground (arith, get_elem?-set buf w j v, moved j, rest (2 * w)))
        (λ j h. ground (arith, get_elem?-set buf w j v, rest j)) in
    (new, rw (read, in_range) ran, size', λ j h. all j (omega arith))

pub mul_mono : (a b s : ℕ) → a ≤ b → a * s ≤ b * s
mul_mono a b s h = grind arith

halved_reach : (n h s c : ℕ) → n ≤ 2 * h → c ≤ n * s → c ≤ h * (s * 2)
halved_reach n h s c small reach = omega (arith, mul_mono n (2 * h) s small)

halved_exactly : (n k s : ℕ) → 0 < s → n * s ≡ k * (s * 2) → n ≡ 2 * k
halved_exactly n k s pos e =
    let below : ¬ (n < 2 * k) = λ less. omega (arith, mul_mono (suc n) (2 * k) s less) in
    let above : ¬ (2 * k < n) = λ more. omega (arith, mul_mono (suc (2 * k)) n s more) in
    omega arith

halve-Covers :
    (os : List ℕ) (ck : Ckpts)
    → ck.n ≡ length ck.buf
    → Covers os ck
    → (half : Ckpts) × (halve ck ≡ some half)
      × Covers os half
      × (half.n ≡ (ck.n + 1) / 2)
      × (length half.buf ≡ ck.n)
      × (half.stride ≡ ck.stride * 2)
unfolding halve
halve-Covers os ck full v =
    let h : ℕ = (ck.n + 1) / 2 in
    let (new, ran, size, all) =
      halve_loop_entries h 0 ck.buf ck.buf refl (omega arith) (λ j p. absurd (omega arith))
        (λ j p. refl) in
    (
      record { buf = new; n = h; stride = ck.stride * 2 },
      rw ran,
      record {
        room = omega (arith, size, v.room);
        apart = omega (arith, v.apart);
        fits = omega (arith, size);
        started = λ i p. omega (arith, v.started (2 * i) (omega arith));
        reaches = halved_reach ck.n h ck.stride (length os) (omega arith) v.reaches;
        entries = λ i p.
            let twice : 2 * i * ck.stride ≡ i * (ck.stride * 2) = omega arith in
            all i (omega arith) ∙ (v.entries (2 * i) (omega arith) ∙ ap (get_elem? os) twice);
      },
      refl,
      omega (arith, size),
      refl,
    )

-- A full table is halved; then it has room, unless the object is between two multiples of the
-- new stride.
room_after_halving :
    (os : List ℕ) (half : Ckpts) (n : ℕ)
    → Covers os half
    → half.n ≡ (n + 1) / 2
    → length half.buf ≡ n
    → length os % half.stride ≡ 0
    → (s : ℕ) → half.stride ≡ s * 2
    → length os ≡ n * s
    → half.n < length half.buf
room_after_halving os half n v size cap whole s double here =
    let here' = next_multiple (length os) half.stride half.n v.apart whole v.started v.reaches in
    let n_is : n ≡ 2 * half.n =
      halved_exactly n half.n s (omega arith)
        (sym here ∙ (here' ∙ ap (λ (t : ℕ). half.n * t) double)) in
    omega arith

-- If the checkpoint table covers the objects recorded so far, then recording the next one does
-- not panic and the new table covers it too: it holds the offset of every stride-th object,
-- in a buffer of the same room, whether or not the stride doubled.
pub record_offset-Covers :
    (os : List ℕ) (o : ℕ) (ck : Ckpts)
    → Covers os ck
    → (ck' : Ckpts) × (record_offset ck (length os) o ≡ some ck') × Covers (os ++ o ∷ []) ck'
unfolding record_offset
record_offset-Covers os o ck v = elim (Bool-cases (length os % ck.stride == 0)) [
  | inr between ↦ (ck, rw between, skip-Covers os o ck (λ e. cc ((==_iff _ _).1 e)) v)
  | inl multiple ↦
      let whole = (==_iff _ _).0 multiple in
      elim (Bool-cases (ck.n == length ck.buf)) [
        | inr free ↦
            let (ck', pushed, v') = push-Covers os o ck whole (ground (arith, v.fits)) v in
            (ck', rw (multiple, free) pushed, v')
        | inl full ↦
            let full' = (==_iff _ _).0 full in
            let (half, halved, w, size, cap, double) = halve-Covers os ck full' v in
            elim (Bool-cases (length os % half.stride == 0)) [
              | inr between ↦ (
                half,
                rw (multiple, full, halved, between),
                skip-Covers os o half (λ e. cc ((==_iff _ _).1 e)) w,
              )
              | inl again ↦
                  let whole' = (==_iff _ _).0 again in
                  let here =
                    next_multiple (length os) ck.stride ck.n v.apart whole v.started v.reaches in
                  let free =
                    room_after_halving os half ck.n w size cap whole' ck.stride double here in
                  let (ck', pushed, v') = push-Covers os o half whole' free w in
                  (ck', rw (multiple, full, halved, again) pushed, v')
            ]
      ]
]

-- A fresh table covers no object.
pub Covers-start :
    (buf : List ℕ) → 0 < length buf → Covers [] (record { buf = buf; n = 0; stride = 1 })
Covers-start buf h = record {
  room = h;
  apart = omega arith;
  fits = omega arith;
  started = λ i p. absurd (omega arith);
  reaches = omega arith;
  entries = λ i p. absurd (omega arith);
}
