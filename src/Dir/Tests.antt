-- ===== src/Dir/Tests.antt =====
-- src/platform.rs at concrete inputs: a directory in two answers, and arguments.
use ltop.Base.{◌++◌, ◌≡◌, refl, arith, false, none, some, List, [], ◌∷◌, replicate}
use ltop.Bytes.{Bytes}
use ltop.Display.Text.{codes}
use ltop.Dir.{name_loop, no_start, entries, entry_of, at, has_arg, arg_loop, arg_is}
use ltop.Dir.Listing.{Dirent, numbers}
use ltop.Dir.Shown.{answers_of, records, all_shown, shown, listed, c_str, Batch}
use ltop.Decimal.Parse.{all_digits, value}
use ltop.Dir.Names.{entry_at, numbers_of_label}
use ltop.Dir.Whole.{entries-listed}
use ltop.Dir.Args.{c_string}

named : Bytes → Dirent
named name = record { ino_off = replicate 16 1; kind = 8; name = name; pad = 0 ∷ 0 ∷ [] }

-- Names of a process, of no process, of a label, and of a label without its start time.
unfoldable two_answers : List Batch
two_answers =
    (named (codes "12"), named (codes "self") ∷ [])
    ∷ (named (codes "7.99"), named (codes "12.") ∷ named (codes "x7.99") ∷ [])
    ∷ []

listed_two :
    listed (records two_answers)
    ≡ (12, no_start, codes "12") ∷ (7, 99, codes "7.99") ∷ (12, 0, codes "12.") ∷ []
unfolding two_answers listed records numbers name_loop entry_of shown c_str named
listed_two = refl

entries-listed_example :
    all_shown (entries 6 6 (at (answers_of two_answers))) ≡ some (listed (records two_answers))
entries-listed_example =
    entries-listed two_answers 6
      (unfold two_answers records named in
        (
          record { ids = refl; no_zero = omega arith; short = omega arith },
          (
            record { ids = refl; no_zero = omega arith; short = omega arith },
            (
              record { ids = refl; no_zero = omega arith; short = omega arith },
              (
                record { ids = refl; no_zero = omega arith; short = omega arith },
                (record { ids = refl; no_zero = omega arith; short = omega arith }, tt),
              ),
            ),
          ),
        ))
      (unfold two_answers records in omega arith)

numbers_of_label_example :
    (entry_at (codes "619" ++ 0 ∷ []) []
      ≡ some (record { pid = value 0 (codes "619"); start = no_start; name = [] }))
    × (entry_at (codes "619.42" ++ 0 ∷ []) []
        ≡ some (record { pid = value 0 (codes "619"); start = value 0 (codes "42"); name = [] }))
numbers_of_label_example =
    numbers_of_label b'6' (codes "19") (codes "42") [] (unfold all_digits in refl)
      (unfold value in omega arith) (unfold all_digits in refl) (unfold value in omega arith)

not_first : has_arg (some (c_string (codes "--once")) ∷ none ∷ []) (codes "--once") ≡ some false
unfolding has_arg arg_loop arg_is
not_first = refl
