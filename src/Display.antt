-- ===== src/Display.antt =====
-- src/main.rs: the names of processes, which of them are noise, and the text of a row's command.
-- `none` of parse_stat is a slice panic; the other functions return the code's Option.
pub mod Text
pub mod Slices
pub mod Stat
mod Tests
use ltop.Base.{
  ℕ, zero, suc, ◌+◌, ◌-◌, Bool, true, false, ◌&&◌, ◌||◌, not, Option, none, some, List, [], ◌∷◌,
  ◌++◌, leb, ltb, ◌==◌, if◌then◌else◌, ◌>>=◌, length, get_elem?, take, drop, map,
}
use ltop.Bytes.{Bytes, ieq, name_hash, has, is_ascii_whitespace}
use ltop.OsBinary.Tags.{bytes_eq}
use ltop.Coalesce.{ends_with}
use ltop.Display.Text.{
  codes, position, rposition, slice_range, starts_with, any_window, find_down, any,
}

unfoldable pub parse_stat : Bytes → Option (Bytes × Bytes)
unfolding position rposition slice_range is_ascii_whitespace
parse_stat stat =
    let open_at : ℕ = elim (position (λ b. b == b'(') stat) [ none ↦ 0 | some i ↦ i ] in
    elim (rposition (λ b. b == b')') stat) [
      | none ↦ some ([], [])
      | some close ↦ slice_range stat (open_at + 1) close >>= λ comm.
          let after : Bytes =
            elim (position (λ b. not (is_ascii_whitespace b)) (drop (close + 1) stat)) [
              | none ↦ []
              | some i ↦ drop (close + 1 + i) stat
            ] in
          some (comm, after)
    ]

unfoldable pub icontains : Bytes → Bytes → Bool
unfolding any_window
icontains haystack needle =
    if length needle == 0
    then true
    else if ltb (length haystack) (length needle)
    then false
    else any_window needle haystack

unfoldable pub basename : Bytes → Bytes
unfolding rposition
basename s = elim (rposition (λ b. b == b'/') s) [ none ↦ s | some i ↦ drop (i + 1) s ]

unfoldable pub rfind_bytes : Bytes → Bytes → Option ℕ
unfolding find_down
rfind_bytes haystack needle =
    if length needle == 0
    then some (length haystack)
    else if ltb (length haystack) (length needle)
    then none
    else find_down haystack needle (length haystack - length needle)

-- `args.first().copied().map(basename).unwrap_or(d)`.
unfoldable pub first_base : List Bytes → Bytes → Bytes
unfolding basename
first_base [] d = d
first_base (a ∷ args) d = basename a

-- The fingerprints of NOISE.
abbrev pub noise : List ℕ
noise = map name_hash (
    codes "ssm-session-worker"
    ∷ codes "spotlight"
    ∷ codes "springboard"
    ∷ codes "newstoday2"
    ∷ codes "newsscoringservice"
    ∷ codes "screentimeagent"
    ∷ codes "appleaccountd"
    ∷ codes "siriinferenced"
    ∷ codes "siriactionsd"
    ∷ codes "callservicesd"
    ∷ codes "calaccessd"
    ∷ codes "amsengagementd"
    ∷ codes "chronod"
    ∷ codes "remindd"
    ∷ codes "routined"
    ∷ codes "textunderstandingd"
    ∷ codes "corespeechd"
    ∷ codes "characterpalette"
    ∷ [])

unfoldable pub is_noise : Bytes → List Bytes → Bool
unfolding first_base has name_hash icontains starts_with ends_with
is_noise comm args =
    let name = first_base args comm in
    has noise (name_hash name)
    || icontains name (codes "chrome")
    || icontains name (codes "widget")
    || starts_with name (codes "com.apple.")
    || starts_with name (codes "amazon-")
    || ends_with name (codes "BlastDoorService")

-- On Linux nothing is idle noise.
unfoldable pub is_idle_noise : Bytes → List Bytes → Bool
is_idle_noise comm args = false

unfoldable pub is_lean_or_lake : Bytes → List Bytes → Bool
unfolding first_base bytes_eq
is_lean_or_lake comm args =
    let base = first_base args [] in
    bytes_eq comm (codes "lean")
    || bytes_eq comm (codes "lake")
    || bytes_eq base (codes "lean")
    || bytes_eq base (codes "lake")

unfoldable pub has_lean_keyword : Bytes → Bool
unfolding icontains
has_lean_keyword s =
    icontains s (codes "lean") || icontains s (codes "lake") || icontains s (codes "certificate")

unfoldable pub is_lean_related : Bytes → List Bytes → Bool
unfolding has_lean_keyword any
is_lean_related comm args = has_lean_keyword comm || any has_lean_keyword (take 3 args)

-- `base.get(..6)` is none for a shorter name.
unfoldable pub is_interpreter : Bytes → Bool
unfolding ieq
is_interpreter base =
    (leb 6 (length base) && ieq (take 6 base) (codes "python"))
    || ieq base (codes "ruby")
    || ieq base (codes "node")
    || ieq base (codes "perl")
    || ieq base (codes "lua")

-- A flag that takes the next argument as its value.
unfoldable pub takes_value : Bytes → Bool
unfolding bytes_eq
takes_value (x ∷ c ∷ []) = c == b'c' || c == b'm' || c == b'W' || c == b'X' || c == b'Q'
takes_value arg = bytes_eq arg (codes "--check-hash-based-pycs")

-- The loop of find_script_arg, with skip_next.
unfoldable pub script_loop : Bool → List Bytes → Option Bytes
unfolding starts_with takes_value basename
script_loop skip_next [] = none
script_loop true (arg ∷ args) = script_loop false args
script_loop false (arg ∷ args) =
    let rest = script_loop (takes_value arg) args in
    if starts_with arg (codes "-") then rest else some (basename arg)

unfoldable pub find_script_arg : List Bytes → Option Bytes
unfolding script_loop
find_script_arg args = script_loop false (drop 1 args)

unfoldable pub has_cxx_ext : Bytes → Bool
unfolding ends_with
has_cxx_ext a =
    ends_with a (codes ".cc")
    || ends_with a (codes ".cpp")
    || ends_with a (codes ".cxx")
    || ends_with a (codes ".c")
    || ends_with a (codes ".C")
    || ends_with a (codes ".c++")

unfoldable pub find_cc_source : List Bytes → Option Bytes
unfolding starts_with has_cxx_ext basename
find_cc_source [] = none
find_cc_source (arg ∷ args) =
    let rest = find_cc_source args in
    if starts_with arg (codes "-")
    then rest
    else if has_cxx_ext arg
    then some (basename arg)
    else rest

-- The last loop of lean_label.
unfoldable pub keyword_base : List Bytes → Option Bytes
unfolding has_lean_keyword basename
keyword_base [] = none
keyword_base (arg ∷ args) =
    let rest = keyword_base args in if has_lean_keyword arg then some (basename arg) else rest

unfoldable pub lean_label : List Bytes → Bytes
unfolding any icontains keyword_base first_base
lean_label args =
    let named = λ (needle : Bytes). any (λ a. icontains a needle) args in
    let fallback : Bytes = elim (keyword_base args) [
      | some base ↦ base
      | none ↦ first_base args (codes "?")
    ] in
    if named (codes "--worker")
    then codes "lean"
    else if named (codes "--server")
    then codes "lean --server"
    else if named (codes "lake") && named (codes "serve")
    then codes "lake serve"
    else if named (codes "lean.rs") || named (codes "debug/lean")
    then codes "lean-mcp"
    else if named (codes "certificate")
    then codes "certificate"
    else fallback

-- `arg.strip_prefix(b"file://").unwrap_or(arg)`.
unfoldable pub strip_file : Bytes → Bytes
unfolding starts_with
strip_file arg = if starts_with arg (codes "file://") then drop 7 arg else arg

-- `arg[..dot].first().is_some_and(|b| b.is_ascii_uppercase())` at the first dot.
unfoldable pub is_module_name : Bytes → Bool
unfolding position
is_module_name arg = elim (position (λ b. b == b'.') arg) [
  | none ↦ false
  | some dot ↦ elim (get_elem? (take dot arg) 0) [
    | none ↦ false
    | some b ↦ leb b'A' b && leb b b'Z'
  ]
]

-- What one argument gives.
unfoldable pub lean_file : Bytes → Option Bytes
unfolding strip_file ends_with rfind_bytes basename starts_with any is_module_name
lean_file arg =
    let path = strip_file arg in
    let shown : Bytes = elim (rfind_bytes path (codes "/AKS/")) [
      | some idx ↦ drop (idx + 1) path
      | none ↦ basename path
    ] in
    if ends_with path (codes ".lean")
    then some shown
    else if not (starts_with arg (codes "-"))
        && not (any (λ b. b == b'/') arg)
        && is_module_name arg
    then some arg
    else none

unfoldable pub find_lean_file : List Bytes → Option Bytes
unfolding lean_file
find_lean_file [] = none
find_lean_file (arg ∷ args) = elim (lean_file arg) [ some f ↦ some f | none ↦ find_lean_file args ]

-- The text for a process that has to do with Lean: the label, and the file after a blank.
unfoldable pub lean_display : List Bytes → Bytes
unfolding lean_label find_lean_file
lean_display args = elim (find_lean_file args) [
  | some f ↦ lean_label args ++ codes " " ++ f
  | none ↦ lean_label args
]

-- The text for any other process.
unfoldable pub plain_display : Bytes → List Bytes → Bytes
unfolding basename is_interpreter find_script_arg
plain_display comm [] = comm
plain_display comm (arg0 ∷ args) =
    let base = basename arg0 in
    let script : Bytes = elim (find_script_arg (arg0 ∷ args)) [ some s ↦ s | none ↦ base ] in
    if is_interpreter base then script else base

-- build_display_into, as the bytes that it appends.
unfoldable pub build_display_into : Bytes → List Bytes → Bool → Bytes
unfolding find_cc_source plain_display lean_display bytes_eq
build_display_into comm args is_related =
    let other = if is_related then lean_display args else plain_display comm args in
    let compiler : Bytes = elim (find_cc_source args) [
      | some src ↦ comm ++ codes " " ++ src
      | none ↦ other
    ] in
    if bytes_eq comm (codes "cc1plus") || bytes_eq comm (codes "cc1") then compiler else other
