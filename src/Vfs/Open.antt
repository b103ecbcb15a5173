-- ===== src/Vfs/Open.antt =====
-- `Vfs_Open`, by the first characters of the path.
use sipaa_kernel.Prelude.{
  ℕ, zero, suc, ◌+◌, ◌-◌, ◌^◌, ◌<◌, ◌≡◌, refl, false, List, [], ◌∷◌, arith, length, ◌==◌,
  if◌then◌else◌, Bool-cases, ==_iff, inl, inr, subst,
}
use sipaa_kernel.Prelude.Run.{done}
use sipaa_kernel.Mem.{Mem}
use sipaa_kernel.Strings.{compare_strings_n}
use sipaa_kernel.Strings.Holds.{HoldsString, string_length_lem}
use sipaa_kernel.Vfs.{FilesystemNode, Action, answer, find, char_word, has_subdir, vfs_open}

abbrev pub dot : ℕ
dot = b'.'

-- what the tests of `Vfs_Open` select: the node itself unless the path starts with a dot, its
-- parent unless it starts with two, and otherwise a search of the node for the whole path
unfoldable pub selected : (node parent path : ℕ) → List ℕ → Action
selected node parent path [] = answer node
selected node parent path (x ∷ []) = if x == dot then answer parent else answer node
selected node parent path (x ∷ y ∷ xs) =
    if x == dot then (if y == dot then find node path else answer parent) else answer node

-- `sep` is not the value of a sign-extended character
abbrev pub IsFar : ℕ → Type 0
IsFar sep = (127 < sep) × (sep < 2 ^ 64 - 128)

char_word-far : (c sep : ℕ) → IsFar sep → c < 256 → (char_word c == sep) ≡ false
char_word-far c sep far byte = ground arith

has_subdir-far :
    (k i path sep : ℕ) (m : Mem)
    → IsFar sep
    → ((a : ℕ) → m a < 256)
    → has_subdir k i path sep m ≡ false
unfolding has_subdir
has_subdir-far zero i path sep m far byte = refl
has_subdir-far (suc k) i path sep m far byte =
    rw (char_word-far (m (path + i)) sep far (byte (path + i)))
      (has_subdir-far k (i + 1) path sep m far byte)

module _ {W : Type 0} (f cur up sep node path : ℕ) (nodes : ℕ → FilesystemNode W) (m : Mem) where
  open_dots :
      (xs : List ℕ)
      → HoldsString m path (dot ∷ dot ∷ xs)
      → HoldsString m cur (dot ∷ [])
      → HoldsString m up (dot ∷ dot ∷ [])
      → IsFar sep
      → ((a : ℕ) → m a < 256)
      → length xs + 2 < f
      → vfs_open f nodes cur up sep node path m ≡ done (find node path)
  unfolding vfs_open compare_strings_n
  open_dots xs h hc hu far byte fuel =
      let none_at : (k i : ℕ) → has_subdir k i path sep m ≡ false =
        λ k i. has_subdir-far k i path sep m far byte in
      let root : (char_word (m path) == sep) ≡ false = char_word-far (m path) sep far (byte path) in
      let plain : path + 0 ≡ path = omega arith in
      ground (
        arith,
        none_at (length xs + 2) 0,
        root,
        plain,
        string_length_lem f path m (dot ∷ dot ∷ xs) h,
      )

  open_one :
      (y : ℕ)
      → (xs : List ℕ) → HoldsString m path (dot ∷ y ∷ xs)
      → HoldsString m cur (dot ∷ [])
      → HoldsString m up (dot ∷ dot ∷ [])
      → (y == dot) ≡ false
      → vfs_open f nodes cur up sep node path m ≡ done (answer (nodes node).parent)
  unfolding vfs_open compare_strings_n
  open_one y xs h hc hu e = ground (arith, e)

  -- A call of `Vfs_Open` on a string ends, without changing memory, in the choice `selected` makes:
  -- a path that does not start with a dot, the empty one included, gives the node itself and is
  -- never searched for; a single leading dot gives the parent; and only a path that starts with two
  -- dots is searched for, whole, in the node. The literals "." and ".." are in memory, memory
  -- holds bytes, and the separator's address is not the value of a character.
  pub vfs_open-selected :
      (xs : List ℕ)
      → HoldsString m path xs
      → HoldsString m cur (dot ∷ [])
      → HoldsString m up (dot ∷ dot ∷ [])
      → IsFar sep
      → ((a : ℕ) → m a < 256)
      → length xs < f
      → vfs_open f nodes cur up sep node path m ≡ done (selected node (nodes node).parent path xs)
  unfolding vfs_open selected compare_strings_n
  vfs_open-selected [] h hc hu far byte fuel = ground arith
  vfs_open-selected (x ∷ []) h hc hu far byte fuel = ground arith
  vfs_open-selected (x ∷ y ∷ xs) h hc hu far byte fuel = elim (Bool-cases (x == dot)) [
    | inr ne ↦ ground (arith, ne)
    | inl e ↦ elim (Bool-cases (y == dot)) [
      | inl e' ↦ rw e (
          rw e' (
            open_dots xs
              (subst (λ c. HoldsString m path (c ∷ dot ∷ xs)) ((==_iff x dot).0 e)
                (subst (λ c. HoldsString m path (x ∷ c ∷ xs)) ((==_iff y dot).0 e') h))
              hc hu far byte (omega arith)))
      | inr ne ↦ rw e (
          rw ne (
            open_one y xs (subst (λ c. HoldsString m path (c ∷ y ∷ xs)) ((==_iff x dot).0 e) h) hc
              hu ne))
    ]
  ]
