-- ===== src/Dir/Shown.antt =====
-- src/platform.rs, PidDir: what is seen of the entries of a directory.
use ltop.Base.{
  ℕ, ◌≡◌, refl, sym, ap, ◌∙◌, arith, false, Option, none, some, List, [], ◌∷◌, ◌++◌, map, ◌>>=◌,
  ◌==◌, if◌then◌else◌, length, Bool-cases, inl, inr,
}
use ltop.Bytes.{Bytes}
use ltop.Dir.{no_start, PidDir, Entry, entry_of}
use ltop.Dir.Names.{NoZero}
use ltop.Dir.Listing.{Dirent, IsDirent, encode_all, numbers}

-- The bytes of a C string.
unfoldable pub c_str : Bytes → Bytes
c_str [] = []
c_str (b ∷ s) = let rest = c_str s in if b == 0 then [] else b ∷ rest

c_str-stops : (name rest : Bytes) → NoZero name → c_str (name ++ 0 ∷ rest) ≡ name
unfolding c_str
c_str-stops [] rest h = refl
c_str-stops (b ∷ name) rest (pos, h) =
    let more : (b == 0) ≡ false = ground arith in rw more (ap (◌∷◌ b) (c_str-stops name rest h))

unfoldable pub shown : Entry → ℕ × ℕ × Bytes
shown e = (e.pid, e.start, c_str e.name)

pub shown-stops :
    (n : ℕ × ℕ) (name rest : Bytes)
    → NoZero name
    → shown (entry_of n (name ++ 0 ∷ rest)) ≡ shown (entry_of n (name ++ 0 ∷ []))
unfolding shown entry_of
shown-stops (n, head) name rest h =
    let c = c_str-stops name rest h ∙ sym (c_str-stops name [] h) in
    elim (Bool-cases (head == no_start)) [ inl e ↦ rw (e, c) refl | inr e ↦ rw (e, c) refl ]

abbrev pub cons_shown :
    Bytes → Option (Option (ℕ × ℕ)) → List (ℕ × ℕ × Bytes) → List (ℕ × ℕ × Bytes)
cons_shown name none rest = rest
cons_shown name (some none) rest = rest
cons_shown name (some (some found)) rest = shown (entry_of found (name ++ 0 ∷ [])) ∷ rest

-- The entries that are named by numbers, in the order of the records.
unfoldable pub listed : List Dirent → List (ℕ × ℕ × Bytes)
listed [] = []
listed (e ∷ es) = cons_shown e.name (numbers e.name) (listed es)

-- Records that come together, and the answers that hold them.
abbrev pub Batch : Type 0
Batch = Dirent × List Dirent

unfoldable pub answers_of : List Batch → List Bytes
answers_of [] = []
answers_of ((e, es) ∷ batches) = encode_all (e ∷ es) ∷ answers_of batches

unfoldable pub records : List Batch → List Dirent
records [] = []
records ((e, es) ∷ batches) = e ∷ (es ++ records batches)

abbrev pub AllDirents : List Dirent → Type 0
AllDirents [] = Unit {0}
AllDirents (e ∷ es) = IsDirent e × AllDirents es

pub AllDirents-append :
    (es ds : List Dirent) → AllDirents (es ++ ds) → AllDirents es × AllDirents ds
AllDirents-append [] ds all = (tt, all)
AllDirents-append (e ∷ es) ds (ok, all) =
    let (these, those) = AllDirents-append es ds all in ((ok, these), those)

unfoldable pub dir : List Batch → Bytes → List Dirent → PidDir
dir batches pre es = record {
  answers = answers_of batches;
  buf = pre ++ encode_all es;
  buf_pos = length pre;
}

unfoldable pub all_shown : Option (List Entry) → Option (List (ℕ × ℕ × Bytes))
all_shown l = l >>= λ l. some (map shown l)
