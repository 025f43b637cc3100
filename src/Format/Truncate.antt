-- ===== src/Format/Truncate.antt =====
-- src/main.rs, Truncate: no panic, at most `max` bytes, cut in front of a character.
use ltop.Base.{
  ℕ, zero, suc, ◌-◌, ◌<◌, ◌≤◌, ◌≡◌, ◌⊎◌, inl, inr, refl, arith, false, some, [], ◌∷◌, ◌++◌, ltb,
  leb, leb→le, leb→lt, if◌then◌else◌, length, get_elem?, take, length-append, length-take,
  Bool-cases, get_or, get_elem?-get_or,
}
use ltop.Bytes.{Bytes}
use ltop.Twrite.{is_continuation, put_slice}
use ltop.Twrite.Slice.{length-put_slice}
use ltop.Format.{back_up, truncate}

-- The byte at `n` starts a character, or nothing is left in front of it.
abbrev pub IsBoundary : Bytes → ℕ → Type 0
IsBoundary s n = (n ≡ 0) ⊎ ((b : ℕ) × (get_elem? s n ≡ some b) × (is_continuation b ≡ false))

back_up_total :
    (s : Bytes) (n : ℕ) → n < length s → (m : ℕ) × (back_up s n ≡ some m) × (m ≤ n) × IsBoundary s m
unfolding back_up
back_up_total s zero h = (0, refl, omega arith, inl refl)
back_up_total s (suc n) h =
    let b = get_or s (suc n) 0 in
    let there : get_elem? s (suc n) ≡ some b = get_elem?-get_or s (suc n) 0 h in
    elim (Bool-cases (is_continuation b)) [
      | inl inside ↦
          let (m, backed, low, start) = back_up_total s n (omega arith) in
          (m, rw (there, inside) backed, omega arith, start)
      | inr start ↦ (suc n, rw (there, start), omega arith, inr (b, there, start))
    ]

-- What a cut keeps: `n` bytes up to a character boundary, and the dots if there is room for them.
abbrev pub cut_at : Bytes → ℕ → ℕ → Bytes
cut_at s n max = put_slice (take n s) ++ (if ltb 3 max then b'.' ∷ b'.' ∷ b'.' ∷ [] else [])

-- truncate panics on no input and writes at most max bytes. A slice of at most max bytes is
-- written whole; any other is cut at its start or in front of a byte that starts a character,
-- with dots behind if max is above 3.
pub truncate_correct :
    (s : Bytes) (max : ℕ)
    → (out : Bytes) × (truncate s max ≡ some out)
      × (length out ≤ max)
      × ((length s ≤ max × (out ≡ put_slice s))
          ⊎ ((n : ℕ) × (max < length s) × IsBoundary s n × (out ≡ cut_at s n max)))
unfolding truncate
truncate_correct s max = elim (Bool-cases (leb (length s) max)) [
  | inl fits ↦ (
    put_slice s,
    rw fits,
    omega (arith, length-put_slice s, leb→le _ _ fits),
    inl (leb→le _ _ fits, refl),
  )
  | inr long ↦
      let more : max < length s = leb→lt _ _ long in
      let target = if ltb 3 max then max - 3 else max in
      let (n, backed, low, start) = back_up_total s target (ground arith) in
      (
        cut_at s n max,
        rw (long, backed),
        ground (
          arith,
          length-append (put_slice (take n s)) (if ltb 3 max then b'.' ∷ b'.' ∷ b'.' ∷ [] else []),
          length-put_slice (take n s),
          length-take n s,
        ),
        inr (n, more, start, refl),
      )
]
