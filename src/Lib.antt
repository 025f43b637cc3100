-- ===== src/Lib.antt =====
-- ltop is a process monitor in one small binary. Each tick it reads the processes of the system,
-- folds helper processes into their apps, filters the rows, lays them out as a tree, and prints
-- them, with memory from one static arena and no heap. This library models its pure core.
--
-- Files, the code they model (paths from the repository's root), and the correspondence:
--   Bytes, Pad        src/bytes.rs: splitting, ieq, name_hash, has; PadRight, PadLeft, PadZero.
--   Sort              src/sort.rs: sort_raw and sift_down over the closures key and swap, as
--                     functions of the slice's state; sort_by_u32_key is sort_slice.
--   Map               src/map.rs: dedup_in_place, freeze_map, freeze_set, Map::get, Set::contains.
--                     A Map is the sorted list of its entries.
--   Arena             src/arena.rs: the offsets and the bytes of the one arena (Storage), and on them
--                     frames, spans, builders, reserves and vectors; copy_down, compact, replace2,
--                     uncommit_tail. A value is its bytes, a span its offset and its length.
--   Nest              src/arena.rs: Frame::nest and FNest::bucket, with both passes.
--   Twrite            src/twrite.rs: Put for integers and byte slices, write_u32, digit_count. What
--                     a Put writes is the list of the bytes.
--   Decimal           src/main.rs: parse_u64_ascii.
--   Format            src/main.rs: FormatAge, FormatMem, Truncate.
--   Display           src/main.rs: parse_stat, the noise tests, and the text of a row's command.
--   Proc              src/main.rs: ProcInfo, Packed, build_pid_to_idx, the counting of compute_cpu.
--   Coalesce          src/main.rs: coalesce_root, coalesce_helpers.
--   Filter            src/main.rs: build_children, filter_with_children.
--   Tree              src/main.rs: tree_layout, tree_walk, Indent.
--   Label             src/label.rs: the text of a label and the start time; Label/Apply is apply.
--   Dir               src/platform.rs: PidDir, an iterator over a directory, and has_arg.
--   Args              src/main.rs: parse_args and the flag word; src/label.rs: open_dir.
--   Collect           src/main.rs: collect_procs for Linux, with both passes; compute_cpu.
--   Tick              src/main.rs: run, one tick from collect_procs to the bytes of the table.
--   Render            src/main.rs: render_tree; plan is the rows that it writes, then their bytes.
--   Sandbox           src/sandbox.rs: build_prog with a machine that runs its programs, and install
--                     over a kernel. Each kernel call and its answer is a value.
--   Agx               src/gpu/agx.rs: populate and the readers of the registry's blobs.
--   OsBinary          src/osbinary.rs: the reader of registry blobs; Tags has read_tag and the sizes,
--                     Checkpoints is Ckpts, and Query the lookups.
-- A file's children hold its theorems and its tests; Base has what all share. Filter uses Coalesce,
-- Proc, Nest, Map and Arena as filter_with_children calls them; Map uses Sort; Coalesce uses Map and Bytes;
-- Render uses Tree, Format and Pad as render_tree does; Agx uses OsBinary and Map as populate does, and
-- Label uses Dir as apply does. Collect uses Dir, Display, Proc and Map as collect_procs does. Tick
-- composes Collect, Filter, Sort, Label, Tree and Render in the order of run.
--
-- State and errors: the code that changes a slice or an object in place returns the new one. `none`
-- stands for the code's None and for a panic, and the file says which. Numbers are written with the
-- wrap-around of their width where the code can reach it.
--
-- Loops: a counted loop recurs on the rounds left. The `while` loops have fuel: sift_down the length
-- of the heap, since a child's index is greater than its parent's; binary search the length of the
-- slice, since the size shrinks; write_u32 and its kin one for each digit that the type holds; walk
-- and nth_object the length of the blob, since each round moves on by four bytes or more; the search
-- of filter_with_children one for each row and one more, since each row is queued once;
-- tree_walk one for each row, since each round emits one; and PidDir one for each record and one
-- more for the end of the directory.
--
-- Parameters: f32 stands for the operations that the filter uses of it (Proc.Float32). The closures
-- of sort_raw, dedup_in_place and freeze_map are arguments, and so is what a row prints of its f32
-- (Render.CpuCell). Arguments too are the answers of getdents64, the files of /proc and of the
-- labels, what open returns, the entries of the GPU's driver, and what the kernel answers to the calls of install and
-- the registry to those of populate; the theorems name what they assume of them. The build is the
-- one for Linux, but the sandbox has its four builds and Agx is the one for macOS.
--
-- Panics: overflow is not checked in any profile of the build, so sums and products wrap around. The
-- assertions that only a dev build has are modelled as panics in pack, in filter_with_children, and in
-- the Map::new of a tick (map_new); those of the arena's moves and of populate are left out. The room
-- of the arena is modelled in Arena and in the scope of filter_with_children (reserve_room and
-- nest_room); in Collect, Label, Dir, Tree, Agx and the rest of Tick it is left out, so that their
-- theorems say nothing of the panic that a full arena gives.
--
-- Not modelled: system calls, signals and start-up; the terminal; the GPU back ends for NVIDIA, which
-- talk to drivers; collect_procs for macOS; destructors, brands and lifetimes; floats; and the
-- developer tools. They are input and output, or have no result that the rows depend on.
pub mod Base
pub mod Bytes
pub mod Sort
pub mod Map
pub mod Twrite
pub mod Decimal
pub mod Pad
pub mod Format
pub mod OsBinary
pub mod Nest
pub mod Proc
pub mod Coalesce
pub mod Filter
pub mod Display
pub mod Tree
pub mod Arena
pub mod Label
pub mod Sandbox
pub mod Render
pub mod Agx
pub mod Dir
pub mod Collect
pub mod Tick
pub mod Args
