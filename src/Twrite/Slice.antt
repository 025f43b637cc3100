-- ===== src/Twrite/Slice.antt =====
-- src/twrite.rs, Put for [u8]: byte slices with malformed UTF-8 replaced.
use ltop.Base.{
  ℕ, zero, suc, ◌-◌, ◌≤◌, ◌≡◌, refl, ap, arith, true, false, [], ◌∷◌, ◌++◌, length, take, drop,
  Bool-cases, inl, inr, length-append, length-take, length-drop, take_append, take-take,
  drop-append_length,
}
use ltop.Bytes.{Bytes}
use ltop.Twrite.{leader_len, all_continuations, is_sequence, put_slice_loop, put_slice}

-- A round that passes a sequence on: the leader and `k` continuation bytes.
record Passes (b : ℕ) (s : Bytes) (k : ℕ) : Type 0 where
  leads : leader_len b ≡ suc k
  inside : k ≤ length s
  follows : all_continuations (take k s) ≡ true

sequence_parts : (b : ℕ) (s : Bytes) → is_sequence b s ≡ true → (k : ℕ) × Passes b s k
unfolding is_sequence
sequence_parts b s h = (leader_len b - 1, ground arith)

is_sequence-Passes : (b k : ℕ) (s : Bytes) → Passes b s k → is_sequence b s ≡ true
unfolding is_sequence
is_sequence-Passes b k s p =
    let e : suc k - 1 ≡ k = omega arith in
    rw (p.leads, e, p.follows) (let inside = p.inside in ground arith)

-- A round, with the rest of the loop as it is.
loop-Passes :
    (fuel b k : ℕ) (s : Bytes)
    → Passes b s k
    → put_slice_loop (suc fuel) (b ∷ s) ≡ b ∷ (take k s ++ put_slice_loop fuel (drop k s))
unfolding put_slice_loop
loop-Passes fuel b k s p = rw (is_sequence-Passes b k s p, p.leads)

loop_replaces :
    (fuel b : ℕ) (s : Bytes)
    → is_sequence b s ≡ false
    → put_slice_loop (suc fuel) (b ∷ s) ≡ b'?' ∷ put_slice_loop fuel s
unfolding put_slice_loop
loop_replaces fuel b s h = rw h

loop_end : (fuel : ℕ) → put_slice_loop fuel [] ≡ []
unfolding put_slice_loop
loop_end zero = refl
loop_end (suc fuel) = refl

question_Passes : (s : Bytes) → Passes b'?' s 0
unfolding leader_len all_continuations
question_Passes s = record { leads = refl; inside = omega arith; follows = refl }

length-loop : (fuel : ℕ) (s : Bytes) → length s ≤ fuel → length (put_slice_loop fuel s) ≡ length s
length-loop fuel [] h = rw loop_end
length-loop zero (b ∷ s) h = absurd (omega arith)
length-loop (suc fuel) (b ∷ s) h = elim (Bool-cases (is_sequence b s)) [
  | inl ok ↦
      let (k, p) = sequence_parts b s ok in
      rw (loop-Passes fuel b k s p) (
        omega (
          arith,
          p.inside,
          length-append (take k s) (put_slice_loop fuel (drop k s)),
          length-take k s,
          length-drop k s,
          length-loop fuel (drop k s) (omega (arith, length-drop k s)),
        ))
  | inr bad ↦ rw (loop_replaces fuel b s bad) (omega (arith, length-loop fuel s (omega arith)))
]

-- Writing a byte slice takes as many bytes as the slice has.
pub length-put_slice : (s : Bytes) → length (put_slice s) ≡ length s
unfolding put_slice
length-put_slice s = length-loop (length s) s (omega arith)

-- The output of the loop passes through a second loop unchanged.
loop-loop :
    (f g : ℕ) (s : Bytes)
    → length s ≤ f
    → length s ≤ g
    → put_slice_loop g (put_slice_loop f s) ≡ put_slice_loop f s
loop-loop f g [] hf hg = rw (loop_end f) (loop_end g)
loop-loop zero g (b ∷ s) hf hg = absurd (omega arith)
loop-loop (suc f) zero (b ∷ s) hf hg = absurd (omega arith)
loop-loop (suc f) (suc g) (b ∷ s) hf hg = elim (Bool-cases (is_sequence b s)) [
  | inl ok ↦
      let (k, p) = sequence_parts b s ok in
      let rest = put_slice_loop f (drop k s) in
      let size : k ≡ length (take k s) = omega (arith, length-take k s, p.inside) in
      let again : Passes b (take k s ++ rest) k = record {
        leads = p.leads;
        inside = omega (arith, length-append (take k s) rest);
        follows = rw (take_append k (take k s) rest (omega arith), take-take k s) p.follows;
      } in
      rw (
        loop-Passes f b k s p,
        loop-Passes g b k (take k s ++ rest) again,
        take_append k (take k s) rest (omega arith),
        take-take k s,
        drop-append_length k (take k s) rest size,
        loop-loop f g (drop k s) (omega (arith, length-drop k s)) (omega (arith, length-drop k s)),
      )
  | inr bad ↦
      rw (loop_replaces f b s bad, loop-Passes g b'?' 0 _ (question_Passes (put_slice_loop f s)))
        (ap (◌∷◌ b'?') (loop-loop f g s (omega arith) (omega arith)))
]

-- Writing a byte slice that was written before changes nothing.
pub put_slice-put_slice : (s : Bytes) → put_slice (put_slice s) ≡ put_slice s
unfolding put_slice
put_slice-put_slice s =
    loop-loop (length s) (length (put_slice_loop (length s) s)) s (omega arith)
      (omega (arith, length-put_slice s))
