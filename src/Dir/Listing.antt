-- ===== src/Dir/Listing.antt =====
-- src/platform.rs, PidDir: the entries of a whole directory.
use mathlib.Core.Path.{ap₂}
use ltop.Base.{
  drop-drop, ℕ, suc, ◌+◌, ◌*◌, ◌/◌, ◌%◌, ◌^◌, ◌<◌, ◌≡◌, sym, ap, ◌∙◌, arith, Option, none, some,
  List, [], ◌∷◌, ◌++◌, append_assoc, ◌>>=◌, length, length-append, get_elem?, get_elem?-drop, drop,
  drop-append_length,
}
use ltop.Bytes.{Bytes}
use ltop.Dir.{name_loop, no_start, PidDir, Entry, entry_of, refill, next}
use ltop.Dir.Names.{NoZero}

-- A record as the kernel writes it: d_ino and d_off, d_type, the name, and the padding behind its
-- zero.
pub record Dirent : Type 0 where
  pub ino_off : Bytes
  pub kind : ℕ
  pub name : Bytes
  pub pad : Bytes

abbrev pub reclen : Dirent → ℕ
reclen e = 20 + length e.name + length e.pad

unfoldable pub encode : Dirent → Bytes
encode e = e.ino_off ++ reclen e % 2 ^ 8 ∷ reclen e / 2 ^ 8 ∷ e.kind ∷ (e.name ++ 0 ∷ e.pad)

unfoldable pub encode_all : List Dirent → Bytes
unfolding encode
encode_all [] = []
encode_all (e ∷ es) = encode e ++ encode_all es

pub record IsDirent (e : Dirent) : Type 0 where
  pub ids : length e.ino_off ≡ 16
  pub no_zero : NoZero e.name
  pub short : reclen e < 2 ^ 16

pub length-encode : (e : Dirent) → IsDirent e → length (encode e) ≡ reclen e
unfolding encode
length-encode e ok =
    let ids = ok.ids in
    let front =
      length-append e.ino_off
        (reclen e % 2 ^ 8 ∷ reclen e / 2 ^ 8 ∷ e.kind ∷ (e.name ++ 0 ∷ e.pad)) in
    let back = length-append e.name (0 ∷ e.pad) in omega arith

-- The number and the head of a name.
unfoldable pub numbers : Bytes → Option (Option (ℕ × ℕ))
numbers name = name_loop 0 no_start 0 (name ++ 0 ∷ [])

module _ (fuel : ℕ) (answers : List Bytes) (pre post : Bytes) (e : Dirent) (ok : IsDirent e) where
  unfoldable pub here : PidDir
  here = record { answers = answers; buf = pre ++ (encode e ++ post); buf_pos = length pre }

  unfoldable pub behind : PidDir
  behind = record {
    answers = answers;
    buf = pre ++ (encode e ++ post);
    buf_pos = length pre + reclen e;
  }

  -- The bytes of the name and what follows.
  unfoldable pub tail : Bytes
  tail = e.name ++ 0 ∷ (e.pad ++ post)

  unfoldable pub step : Option (Option (ℕ × ℕ)) → Option (Option (Entry × PidDir))
  unfolding behind tail
  step ok = ok >>= λ found. elim found [
    | none ↦ next fuel behind
    | some f ↦ some (some (entry_of f tail, behind))
  ]

  -- The bytes from the length of the record on.
  buf_tail :
      drop (length pre + 16) (pre ++ (encode e ++ post))
      ≡ reclen e % 2 ^ 8 ∷ reclen e / 2 ^ 8 ∷ e.kind ∷ tail
  unfolding encode tail
  buf_tail =
      let ids = ok.ids in
      let rest = reclen e % 2 ^ 8 ∷ reclen e / 2 ^ 8 ∷ e.kind ∷ (e.name ++ 0 ∷ e.pad) in
      let front = length-append pre e.ino_off in
      ap (λ s. drop (length pre + 16) (pre ++ s)) (append_assoc e.ino_off rest post)
      ∙ ap (drop (length pre + 16)) (sym (append_assoc pre e.ino_off (rest ++ post)))
      ∙ drop-append_length (length pre + 16) (pre ++ e.ino_off) (rest ++ post) (omega arith)
      ∙ ap (λ s. reclen e % 2 ^ 8 ∷ reclen e / 2 ^ 8 ∷ e.kind ∷ s)
          (append_assoc e.name (0 ∷ e.pad) post)

  buf_at :
      (i n : ℕ)
      → length pre + 16 + i ≡ n
      → get_elem? (pre ++ (encode e ++ post)) n
        ≡ get_elem? (reclen e % 2 ^ 8 ∷ reclen e / 2 ^ 8 ∷ e.kind ∷ tail) i
  buf_at i n h =
      ap (get_elem? (pre ++ (encode e ++ post))) (sym h)
      ∙ sym (get_elem?-drop (length pre + 16) (pre ++ (encode e ++ post)) i)
      ∙ ap (λ s. get_elem? s i) buf_tail

  buf_name : drop (length pre + 19) (pre ++ (encode e ++ post)) ≡ tail
  buf_name =
      let n : length pre + 19 ≡ length pre + 16 + 3 = omega arith in
      ap (λ m. drop m (pre ++ (encode e ++ post))) n
      ∙ drop-drop (length pre + 16) 3 (pre ++ (encode e ++ post))
      ∙ ap (drop 3) buf_tail

  -- The end of a round, with the length of the record and its name.
  round : ℕ → Bytes → Option (Option (Entry × PidDir))
  unfolding here
  round n name =
      let moved = record here { buf_pos = length pre + n } in
      name_loop 0 no_start 0 name >>= λ found. elim found [
        | none ↦ next fuel moved
        | some f ↦ some (some (entry_of f name, moved))
      ]

  pub next-step :
      (d : PidDir) → refill d ≡ some here → next (suc fuel) d ≡ step (name_loop 0 no_start 0 tail)
  unfolding next here behind step round
  next-step d filled =
      let short = ok.short in
      let lo = buf_at 0 (length pre + 16) (omega arith) in
      let hi = buf_at 1 (length pre + 17) (omega arith) in
      let len : reclen e % 2 ^ 8 + reclen e / 2 ^ 8 * 2 ^ 8 ≡ reclen e = omega arith in
      rw (filled, lo, hi, next) (ap₂ round len buf_name)
