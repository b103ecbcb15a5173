-- ===== src/Vfs/Walk.antt =====
-- What `Vfs_Open` does for a path with a separator: the walk over the parts of a copy of the path.
use sipaa_kernel.Prelude.{ℕ, zero, suc, ◌==◌, if◌then◌else◌}
use sipaa_kernel.Prelude.Run.{Run, done, out_of_fuel, ◌>>=◌}
use sipaa_kernel.Mem.{Mem, memcpy}
use sipaa_kernel.Tokenizer.{Heap, Statics, tokenize_string}
use sipaa_kernel.Vfs.{FilesystemNode, vfs_find_directory}

module _ {W : Type 0} (heap : Heap W) (nodes : ℕ → FilesystemNode W) where
  -- the loop over the tokens; `sep` is the address of "/" and `copy` that of the copy of the path
  walk_tokens : (fuel strings sep copy token current : ℕ) → Statics → Mem → W → Run (ℕ × W)
  unfolding tokenize_string vfs_find_directory
  walk_tokens zero strings sep copy token current st m w = out_of_fuel
  walk_tokens (suc fuel) strings sep copy token current st m w =
      let (found, w1) = vfs_find_directory nodes current token w in
      let rest = (do
        (token', st', m', w2) ← tokenize_string heap strings 0 sep st m w1
        walk_tokens fuel strings sep copy token' found st' m' w2) in
      if token == 0
      then done (current, heap.free copy w)
      else if found == 0
      then done (0, heap.free copy w1)
      else rest

  -- from the allocation of the copy on; `from` is where the copied part starts
  unfoldable pub walk_path :
      (fuel strings sep from plen start : ℕ) → Statics → Mem → W → Run (ℕ × W)
  unfolding tokenize_string memcpy walk_tokens
  walk_path fuel strings sep from plen start st m w =
      let (copy, w1) = heap.allocate plen w in
      do
        (token, st', m', w2) ← tokenize_string heap strings copy sep st (memcpy copy from plen m) w1
        walk_tokens fuel strings sep copy token start st' m' w2
