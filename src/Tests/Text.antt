-- ===== src/Tests/Text.antt =====
-- Memory and strings.
use sipaa_kernel.Prelude.{ℕ, ◌-◌, ◌≡◌, List, [], ◌∷◌, ◌==◌, if◌then◌else◌, arith, length}
use sipaa_kernel.Prelude.Run.{done}
use sipaa_kernel.Mem.{Mem}
use sipaa_kernel.Strings.{string_from_string, string_remove}
use sipaa_kernel.Strings.Holds.{HoldsString}
use sipaa_kernel.Strings.Find.{at, find_sub, string_from_string-find_sub}
use sipaa_kernel.Strings.Remove.{without, string_remove-HoldsString}

abbrev read : List ℕ → Mem
read [] a = 0
read (x ∷ xs) a = if a == 0 then x else read xs (a - 1)

-- "abcab", "ca" at 8 and "abd" at 12
abbrev text : Mem
text = read (97 ∷ 98 ∷ 99 ∷ 97 ∷ 98 ∷ 0 ∷ 7 ∷ 7 ∷ 99 ∷ 97 ∷ 0 ∷ 7 ∷ 97 ∷ 98 ∷ 100 ∷ 0 ∷ [])

abbrev abcab : List ℕ
abcab = 97 ∷ 98 ∷ 99 ∷ 97 ∷ 98 ∷ []

abbrev ca : List ℕ
ca = 99 ∷ 97 ∷ []

abbrev abd : List ℕ
abd = 97 ∷ 98 ∷ 100 ∷ []

text-abcab : HoldsString text 0 abcab
text-abcab = ground arith

text-ca : HoldsString text 8 ca
text-ca = ground arith

text-abd : HoldsString text 12 abd
text-abd = ground arith

string_from_string-find_sub_example :
    string_from_string 6 0 8 text ≡ done (at 0 (find_sub ca abcab))
string_from_string-find_sub_example =
    string_from_string-find_sub 6 0 8 text abcab ca text-abcab text-ca (omega arith) (omega arith)

string_remove-HoldsString_example :
    (m' : Mem) × (string_remove 6 0 8 text ≡ done m')
    × HoldsString m' 0 (without (length ca) (find_sub ca abcab) abcab)
string_remove-HoldsString_example =
    string_remove-HoldsString 6 0 8 text abcab ca text-abcab text-ca (omega arith) (omega arith)
