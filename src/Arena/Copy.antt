-- ===== src/Arena/Copy.antt =====
-- src/arena.rs, copy_down and writes: what each byte of the buffer is afterwards.
use ltop.Base.{
  ℕ, zero, suc, ◌+◌, ◌-◌, ◌≤◌, ◌<◌, ◌≡◌, refl, ap, ◌∙◌, arith, inl, inr, true, false, ◌&&◌, List,
  [], ◌∷◌, ◌++◌, ltb, leb, ◌==◌, if◌then◌else◌, length, Bool-cases,
}
use ltop.Arena.Storage.{update, store, read, copy_loop, copy_down}

copy_loop-eq :
    (rounds i src dst : ℕ) (buf : ℕ → ℕ) (x : ℕ)
    → dst ≤ src
    → copy_loop rounds i src dst buf x
      ≡ (if leb (dst + i) x && ltb x (dst + i + rounds) then buf (src + (x - dst)) else buf x)
unfolding copy_loop
copy_loop-eq zero i src dst buf x h = ground arith
copy_loop-eq (suc rounds) i src dst buf x h =
    let later = copy_loop-eq rounds (i + 1) src dst (update buf (dst + i) (buf (src + i))) x h in
    elim (Bool-cases (x == dst + i)) [
      | inl here ↦
          let at : x ≡ dst + i = ground arith in
          let from : src + (x - dst) ≡ src + i = omega arith in
          let inside : (leb (dst + i) x && ltb x (dst + i + suc rounds)) ≡ true = ground arith in
          let behind : leb (dst + (i + 1)) x ≡ false = ground arith in
          rw (behind, here) at later ∙ rw (inside, from) refl
      | inr elsewhere ↦
          let same : (leb (dst + (i + 1)) x && ltb x (dst + (i + 1) + rounds))
              ≡ (leb (dst + i) x && ltb x (dst + i + suc rounds)) =
            ground arith in
          elim (Bool-cases (leb (dst + i) x && ltb x (dst + i + suc rounds))) [
            | inl inside ↦
                let apart : (src + (x - dst) == dst + i) ≡ false = ground arith in
                rw (same, inside, apart) at later ∙ rw inside refl
            | inr outside ↦ rw (same, outside, elsewhere) at later ∙ rw outside refl
          ]
    ]

-- For a destination at or below the source, overlapping or not, copy_down leaves the old bytes of
-- the source in the destination, and all other bytes as they were.
pub copy_down-eq :
    (src dst len : ℕ) (buf : ℕ → ℕ) (x : ℕ)
    → dst ≤ src
    → copy_down src dst len buf x
      ≡ (if leb dst x && ltb x (dst + len) then buf (src + (x - dst)) else buf x)
unfolding copy_down
copy_down-eq src dst len buf x h =
    let start : dst + 0 ≡ dst = omega arith in
    let ran = copy_loop-eq len 0 src dst buf x h in rw start at ran

pub read-length : (buf : ℕ → ℕ) (at n : ℕ) → length (read buf at n) ≡ n
unfolding read
read-length buf at zero = refl
read-length buf at (suc n) = ap suc (read-length buf (at + 1) n)

-- Buffers that agree on a range are read alike, also where the range is shifted.
pub read-shift :
    (f g : ℕ → ℕ) (at at' n : ℕ)
    → ((i : ℕ) → i < n → f (at + i) ≡ g (at' + i))
    → read f at n ≡ read g at' n
unfolding read
read-shift f g at at' zero h = refl
read-shift f g at at' (suc n) h =
    let first : f at ≡ g at' =
      let e : at + 0 ≡ at = omega arith in
      let e' : at' + 0 ≡ at' = omega arith in let h0 = h 0 (omega arith) in rw (e, e') at h0 in
    let rest = read-shift f g (at + 1) (at' + 1) n (λ i lt.
      let e : at + 1 + i ≡ at + suc i = omega arith in
      let e' : at' + 1 + i ≡ at' + suc i = omega arith in rw (e, e') (h (suc i) (omega arith))) in
    rw (first, rest) refl

pub store-below :
    (buf : ℕ → ℕ) (at : ℕ) (bytes : List ℕ) (x : ℕ) → x < at → store buf at bytes x ≡ buf x
unfolding store
store-below buf at [] x h = refl
store-below buf at (b ∷ bytes) x h =
    store-below (update buf at b) (at + 1) bytes x (omega arith) ∙ ground arith

pub store-above :
    (buf : ℕ → ℕ) (at : ℕ) (bytes : List ℕ) (x : ℕ)
    → at + length bytes ≤ x
    → store buf at bytes x ≡ buf x
unfolding store
store-above buf at [] x h = refl
store-above buf at (b ∷ bytes) x h =
    store-above (update buf at b) (at + 1) bytes x (omega arith) ∙ ground arith

pub read-store :
    (buf : ℕ → ℕ) (at : ℕ) (bytes : List ℕ) → read (store buf at bytes) at (length bytes) ≡ bytes
unfolding read store
read-store buf at [] = refl
read-store buf at (b ∷ bytes) =
    let first = store-below (update buf at b) (at + 1) bytes at (omega arith) in
    let same : update buf at b at ≡ b = ground arith in
    rw (first, same, read-store (update buf at b) (at + 1) bytes) refl

pub read-append :
    (buf : ℕ → ℕ) (at m n : ℕ) → read buf at (m + n) ≡ read buf at m ++ read buf (at + m) n
unfolding read
read-append buf at zero n =
    let e : at + 0 ≡ at = omega arith in let z : 0 + n ≡ n = omega arith in rw (e, z) refl
read-append buf at (suc m) n =
    let e : at + suc m ≡ at + 1 + m = omega arith in
    let z : suc m + n ≡ suc (m + n) = omega arith in
    rw (e, z) (ap (◌∷◌ (buf at)) (read-append buf (at + 1) m n))
