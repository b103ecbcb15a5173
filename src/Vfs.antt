-- ===== src/Vfs.antt =====
-- src/fs/vfs.c and src/include/sipaa/fs/vfs.h: nodes with optional callbacks, and path lookup.
-- `W` is what the callbacks act on. Node and string pointers are addresses, and `NULL` is 0.
-- The walk over the parts of a path, which `Vfs_Open` enters for a path with a separator, is the
-- action `walk` and is not followed further.
pub mod Open
pub mod Walk
use sipaa_kernel.Prelude.{
  ℕ, ◌+◌, ◌-◌, ◌^◌, Bool, true, false, Option, none, some, ◌&&◌, ◌||◌, not, ltb, ◌==◌,
  if◌then◌else◌, ℤ, pos, negsuc, zero, suc, bit_and,
}
use sipaa_kernel.Prelude.Run.{Run, done, out_of_fuel, ◌>>=◌}
use sipaa_kernel.Mem.{Mem}
use sipaa_kernel.Strings.{string_length, compare_strings_n}

-- `VfsStatusT`; `int` results of the callbacks are of the same type
pub data VfsStatus : Type 0 where
  success null_node slots_full slot_already_taken cannot_unmount_root : VfsStatus
  not_mounted not_allowed not_supported : VfsStatus

unfoldable pub status_code : VfsStatus → ℤ
status_code success = pos 0
status_code null_node = negsuc 3
status_code slots_full = negsuc 2
status_code slot_already_taken = negsuc 1
status_code cannot_unmount_root = negsuc 4
status_code not_mounted = negsuc 0
status_code not_allowed = negsuc 5
status_code not_supported = negsuc 6

-- `FS_TYPE_DIRECTORY` and `FS_PERM_DESTROY`
abbrev pub type_directory : ℕ
type_directory = 1

abbrev pub perm_destroy : ℕ
perm_destroy = 1

pub record FilesystemNode (W : Type 0) : Type 0 where
  pub name : ℕ
  pub parent : ℕ
  pub open_flag : Bool
  pub permissions : ℕ
  pub kind : ℕ
  pub size : ℕ
  pub inode : ℕ
  pub read : Option (ℕ → ℕ → ℕ → W → ℤ × W)
  pub write : Option (ℕ → ℕ → ℕ → W → ℤ × W)
  pub read_directory : Option (ℕ → ℕ → W → ℕ × W)
  pub find_directory : Option (ℕ → ℕ → W → ℕ × W)

-- `Vfs_SetRootNode` over the root that is set
unfoldable pub set_root_node : ℕ → ℕ → VfsStatus × ℕ
set_root_node node root = if not (node == 0) then (success, node) else (null_node, root)

module _ {W : Type 0} (nodes : ℕ → FilesystemNode W) where
  call : Option (ℕ → ℕ → ℕ → W → ℤ × W) → ℕ → ℕ → ℕ → W → ℤ × W
  call (some f) node buffer count w = f node buffer count w
  call none node buffer count w = (status_code not_supported, w)

  unfoldable pub vfs_write : ℕ → ℕ → ℕ → W → ℤ × W
  unfolding call
  vfs_write node buffer count w =
      if node == 0 then (status_code null_node, w) else call (nodes node).write node buffer count w

  unfoldable pub vfs_read : ℕ → ℕ → ℕ → W → ℤ × W
  unfolding call
  vfs_read node buffer count w =
      if node == 0 then (status_code null_node, w) else call (nodes node).read node buffer count w

  -- the callback of a directory, and `NULL` for any other node
  ask : Option (ℕ → ℕ → W → ℕ × W) → ℕ → ℕ → W → ℕ × W
  ask (some f) node arg w = if (nodes node).kind == type_directory then f node arg w else (0, w)
  ask none node arg w = (0, w)

  unfoldable pub vfs_read_directory : ℕ → ℕ → W → ℕ × W
  unfolding ask
  vfs_read_directory node index w =
      if node == 0 then (0, w) else ask (nodes node).read_directory node index w

  unfoldable pub vfs_find_directory : ℕ → ℕ → W → ℕ × W
  unfolding ask
  vfs_find_directory node path w =
      if node == 0 then (0, w) else ask (nodes node).find_directory node path w

  -- `free` is `KHeap_Free`.
  unfoldable pub destroy : (ℕ → W → W) → ℕ → W → W
  destroy free vnode w =
      if (bit_and (nodes vnode).permissions perm_destroy == 0) || (nodes vnode).open_flag
      then w
      else free vnode (free (nodes vnode).name w)

-- what `Vfs_Open` does once it has looked at the path
pub data Action : Type 0 where
  answer : ℕ → Action
  find : ℕ → ℕ → Action
  walk : ℕ → ℕ → Action

is_zero : ℤ → Bool
is_zero (pos zero) = true
is_zero _ = false

-- A `char` in a comparison with a pointer is sign-extended.
abbrev pub char_word : ℕ → ℕ
char_word c = if ltb c 128 then c else 2 ^ 64 - 256 + c

-- the loop that looks for a separator; `k` rounds are left
has_subdir : ℕ → ℕ → ℕ → ℕ → Mem → Bool
has_subdir zero i path sep m = false
has_subdir (suc k) i path sep m =
    (char_word (m (path + i)) == sep) || has_subdir k (i + 1) path sep m

-- `Vfs_Open`; `cur`, `up` and `sep` are the addresses of the literals "." , ".." and "/". The local
-- `vfs_root` is a flag that hides the root node, so that it is 1 where the node is meant.
unfoldable pub vfs_open :
    {W : Type 0}
    → ℕ
    → (ℕ → FilesystemNode W)
    → (cur up sep : ℕ) → (node path : ℕ) → Mem
    → Run Action
unfolding is_zero has_subdir
vfs_open f nodes cur up sep node path m =
    if not (is_zero (compare_strings_n 1 path cur m))
    then done (answer node)
    else if not (is_zero (compare_strings_n 2 path up m))
    then done (answer (nodes node).parent)
    else (let vfs_root : Bool = char_word (m path) == sep in
        let from : ℕ = if vfs_root then 1 else 0 in
        let start : ℕ = if vfs_root then 1 else node in
        do
          plen ← string_length f path m
          done (
              if has_subdir (plen - from) from path sep m
              then walk start (path + from)
              else find start (path + from)))
