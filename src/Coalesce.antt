-- ===== src/Coalesce.antt =====
-- src/main.rs: helpers and shards fold into their app's row. This is the Linux build, where no
-- `launchd_sim` is looked for. `none` is an index panic.
pub mod Totals
mod Tests
use ltop.Base.{
  ℕ, zero, suc, ◌+◌, ◌-◌, ◌%◌, ◌^◌, Bool, true, false, ◌&&◌, ◌||◌, Option, none, some, List, [],
  ◌∷◌, leb, ◌==◌, if◌then◌else◌, ◌>>=◌, length, get_elem?, set, take, drop, min,
}
use ltop.Bytes.{Bytes, ieq}
use ltop.OsBinary.Tags.{bytes_eq}
use ltop.Map.{get}
use ltop.Proc.{Float32, GpuUsage, ProcInfo, visible, set_visible}

abbrev pub helper : Bytes
helper = 0x20 ∷ b'H' ∷ b'e' ∷ b'l' ∷ b'p' ∷ b'e' ∷ b'r' ∷ []

abbrev pub renderer : Bytes
renderer = 0x20 ∷ b'(' ∷ b'R' ∷ b'e' ∷ b'n' ∷ b'd' ∷ b'e' ∷ b'r' ∷ b'e' ∷ b'r' ∷ b')' ∷ []

abbrev pub service : Bytes
service = 0x20 ∷ b'(' ∷ b'S' ∷ b'e' ∷ b'r' ∷ b'v' ∷ b'i' ∷ b'c' ∷ b'e' ∷ b')' ∷ []

abbrev pub lake_serve : Bytes
lake_serve = b'l' ∷ b'a' ∷ b'k' ∷ b'e' ∷ 0x20 ∷ b's' ∷ b'e' ∷ b'r' ∷ b'v' ∷ b'e' ∷ []

abbrev pub lean_server : Bytes
lean_server =
    b'l' ∷ b'e' ∷ b'a' ∷ b'n' ∷ 0x20 ∷ b'-' ∷ b'-' ∷ b's' ∷ b'e' ∷ b'r' ∷ b'v' ∷ b'e' ∷ b'r' ∷ []

abbrev pub lean_mcp : Bytes
lean_mcp = b'l' ∷ b'e' ∷ b'a' ∷ b'n' ∷ b'-' ∷ b'm' ∷ b'c' ∷ b'p' ∷ []

-- `kid[..n] == *root && kid[n..n + 7] == *b" Helper"`, behind the test of the length.
unfoldable pub is_helper_of : Bytes → Bytes → Bool
unfolding bytes_eq
is_helper_of kid root =
    let n = length root in
    leb (n + 7) (length kid) && bytes_eq (take n kid) root && bytes_eq (take 7 (drop n kid)) helper

-- slice::ends_with.
unfoldable pub ends_with : Bytes → Bytes → Bool
unfolding bytes_eq
ends_with s suffix =
    leb (length suffix) (length s) && bytes_eq (drop (length s - length suffix) s) suffix

unfoldable pub is_shard_name : Bytes → Bool
unfolding ends_with
is_shard_name name = ends_with name renderer || ends_with name service

-- The test of coalesce_root: `name`, a shard's or not, folds into the parent called `pname`.
unfoldable pub folds_into : Bool → Bytes → Bytes → Bool
unfolding is_helper_of ieq
folds_into shard name pname =
    shard
    || is_helper_of name pname
    || (ieq pname lake_serve && ieq name lean_server)
    || (ieq pname lean_mcp && ieq name lake_serve)

-- `saturating_add` on u32.
abbrev pub saturating_add : ℕ → ℕ → ℕ
saturating_add a b = min (2 ^ 32 - 1) (a + b)

-- The GPU use of a root after one of its helpers with the use `g`.
unfoldable pub add_gpu : Option GpuUsage → GpuUsage → Option GpuUsage
add_gpu root g =
    let s0 : ℕ = elim root [ none ↦ 0 | some h ↦ h.sm_pct ] in
    let m0 : ℕ = elim root [ none ↦ 0 | some h ↦ h.mem_mib ] in
    let mem = saturating_add m0 g.mem_mib in
    if mem == 0 then none else some (record { sm_pct = (s0 + g.sm_pct) % 2 ^ 32; mem_mib = mem })

module _ {F : Type 0} where
  -- The walk up the chain of parents, by the hops left: the last root, the name and whether it
  -- is a shard's, and the pid of the next parent.
  unfoldable pub climb_loop :
      List (ProcInfo F) → List (ℕ × ℕ) → ℕ → Option ℕ → Bytes → Bool → ℕ → Option (Option ℕ)
  unfolding folds_into is_shard_name
  climb_loop procs pid_to_idx zero root name shard a = some root
  climb_loop procs pid_to_idx (suc hops) root name shard a = elim (get pid_to_idx a) [
    | none ↦ some root
    | some pa ↦ get_elem? procs pa >>= λ p.
        let fold = folds_into shard name p.display in
        climb_loop procs pid_to_idx hops (if fold then some pa else root)
          (if fold then p.display else name) (if fold then is_shard_name p.display else shard)
          p.ppid
  ]

  unfoldable pub coalesce_root : List (ProcInfo F) → List (ℕ × ℕ) → ℕ → Option (Option ℕ)
  unfolding climb_loop is_shard_name
  coalesce_root procs pid_to_idx idx = do
    p ← get_elem? procs idx
    climb_loop procs pid_to_idx 64 none p.display (is_shard_name p.display) p.ppid

  -- The helper after it gave its figures to the root, and the root after it took them.
  unfoldable pub drained : Float32 F → ProcInfo F → ProcInfo F
  unfolding set_visible
  drained f k = record (set_visible k false) { cpu = f.zero; rss_kib = 0; gpu = none }

  unfoldable pub absorbs : Float32 F → ProcInfo F → ProcInfo F → ProcInfo F
  unfolding visible set_visible add_gpu
  absorbs f k p =
      let shown = if visible k then set_visible p true else p in
      record shown {
        cpu = f.add p.cpu k.cpu;
        rss_kib = saturating_add p.rss_kib k.rss_kib;
        gpu = elim k.gpu [ none ↦ p.gpu | some g ↦ add_gpu p.gpu g ];
      }

  -- The body of the loop of coalesce_helpers.
  unfoldable pub fold_helper :
      Float32 F → List (ℕ × ℕ) → ℕ → List (ProcInfo F) → Option (List (ProcInfo F))
  unfolding coalesce_root drained absorbs
  fold_helper f pid_to_idx idx procs = coalesce_root procs pid_to_idx idx >>= λ root. elim root [
    | none ↦ some procs
    | some r ↦ get_elem? procs idx >>= λ k. get_elem? (set procs idx (drained f k)) r >>= λ p.
        some (set (set procs idx (drained f k)) r (absorbs f k p))
  ]

  -- `for idx in 0..procs.len()`, by the rounds left.
  unfoldable pub fold_loop :
      Float32 F → List (ℕ × ℕ) → ℕ → ℕ → List (ProcInfo F) → Option (List (ProcInfo F))
  unfolding fold_helper
  fold_loop f pid_to_idx zero idx procs = some procs
  fold_loop f pid_to_idx (suc rounds) idx procs = fold_helper f pid_to_idx idx procs >>= λ procs'.
      fold_loop f pid_to_idx rounds (idx + 1) procs'

  unfoldable pub coalesce_helpers :
      Float32 F → List (ℕ × ℕ) → List (ProcInfo F) → Option (List (ProcInfo F))
  unfolding fold_loop
  coalesce_helpers f pid_to_idx procs = fold_loop f pid_to_idx (length procs) 0 procs
