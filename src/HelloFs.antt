-- ===== src/HelloFs.antt =====
-- src/fs/hellofs.c: the file with the six bytes of a string. `offset` and `count`
-- are 32-bit words; `hello` is the address of the bytes and `size` is `hello_size`.
pub mod Read
use sipaa_kernel.Prelude.{
  ℕ, zero, suc, ◌+◌, ◌-◌, ◌%◌, ◌^◌, ◌==◌, ltb, Bool, Option, some, ◌||◌, not, ℤ, if◌then◌else◌,
}
use sipaa_kernel.Prelude.Run.{Run, done, ◌>>=◌}
use sipaa_kernel.Pmm.{Pmm}
use sipaa_kernel.Vfs.{FilesystemNode}
use sipaa_kernel.Mem.{Mem, store}

-- the address of an element whose index is a 32-bit `int`
abbrev pub element : (base i : ℕ) → ℕ
element base i = if ltb i (2 ^ 31) then base + i else (base + i + (2 ^ 64 - 2 ^ 32)) % 2 ^ 64

-- the loop from `i` on, for the `rounds` that are left until `count`
read_loop : (rounds i hello buffer : ℕ) → Mem → Mem
read_loop zero i hello buffer m = m
read_loop (suc rounds) i hello buffer m =
    read_loop rounds (i + 1) hello buffer (store m (element buffer i) (m (element hello i)))

-- `HelloFS_Read`; the difference of the test is taken modulo 2 ^ 64
unfoldable pub hello_read : (hello size offset buffer count : ℕ) → Mem → Mem
unfolding read_loop store
hello_read hello size offset buffer count m =
    let buffer1 : ℕ = if ltb ((size + (2 ^ 64 - offset)) % 2 ^ 64) count then 0 else buffer in
    if buffer1 == 0 then m else read_loop (count - offset) offset hello buffer1 m

-- `hellofs_node`, `created`, `hello`, and the nodes by address
pub record HelloFs (W : Type 0) : Type 0 where
  pub hellofs_node : ℕ
  pub created : Bool
  pub hello : ℕ
  pub nodes : ℕ → FilesystemNode W
  pub pmm : Pmm

-- `hello_size` and `sizeof(FilesystemNodeT)`
abbrev pub hello_size : ℕ
hello_size = 6

abbrev pub node_size : ℕ
node_size = 72

-- `HelloFS_Create`: `literal` is the address of "Hello", whose low byte is stored, and `reader` is
-- `HelloFS_Read` as what calls it through the node takes it for
unfoldable pub hello_create :
    {W : Type 0}
    → (fuel literal : ℕ) → (reader : ℕ → ℕ → ℕ → W → ℤ × W) → HelloFs W
    → Run (ℕ × HelloFs W)
unfolding sipaa_kernel.Pmm.allocate
hello_create fuel literal reader s =
    if not (s.hellofs_node == 0) || s.created then done (0, s) else (do
      (text, p1) ← sipaa_kernel.Pmm.allocate fuel hello_size s.pmm
      (node, p2) ←
          sipaa_kernel.Pmm.allocate fuel node_size
            (record p1 { bytes = store p1.bytes text (literal % 2 ^ 8) })
      done (
        node,
        record s {
          hellofs_node = node;
          hello = text;
          nodes = λ a.
              if a == node
              then record (s.nodes node) { read = some reader; size = hello_size }
              else s.nodes a;
          pmm = p2;
        },
      ))
