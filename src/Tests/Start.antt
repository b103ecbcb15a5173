-- ===== src/Tests/Start.antt =====
-- The root table of ACPI, the options of the command line and the example file.
use sipaa_kernel.Prelude.{
  ℕ, ◌+◌, ◌≡◌, ◌-◌, ◌&&◌, refl, arith, List, [], ◌∷◌, ◌++◌, ◌==◌, inl, inr, leb, ltb, false,
  if◌then◌else◌,
}
use sipaa_kernel.Prelude.Run.{done}
use sipaa_kernel.Mem.{Mem}
use sipaa_kernel.Strings.Holds.{HoldsString}
use sipaa_kernel.Acpi.{Acpi, acpi_initialize}
use sipaa_kernel.Acpi.Found.{StartsWith, found, acpi_initialize-found}
use sipaa_kernel.HelloFs.{hello_read}
use sipaa_kernel.HelloFs.Read.{hello_read_lem}
use sipaa_kernel.Mem.Copy.{within}
use sipaa_kernel.CmdLine.{get_option}
use sipaa_kernel.CmdLine.Value.{OptionValue, get_option-OptionValue}

-- eight characters at 64 with the checksum 5 behind them, and the string of these eight at 96
abbrev tables : Mem
tables a =
    if a == 72
    then 5
    else if leb 64 a
    then (if ltb a 72 then 82 else if leb 96 a then (if ltb a 104 then 82 else 0) else 0)
    else 0

abbrev signature : List ℕ
signature = 82 ∷ 82 ∷ 82 ∷ 82 ∷ 82 ∷ 82 ∷ 82 ∷ 82 ∷ []

abbrev no_tables : Acpi
no_tables = record { here = false; use_xsdp = false; rsdp_address = 0 }

signature-string : HoldsString tables 96 signature
signature-string = ground arith

signature-start : StartsWith tables 64 signature
signature-start = ground arith

acpi_initialize-found_example :
    acpi_initialize 9 0x1000 64 96 tables no_tables ≡ done (found 0x1000 64 tables no_tables)
acpi_initialize-found_example =
    acpi_initialize-found 9 0x1000 64 96 tables no_tables signature signature-start signature-string
      refl (omega arith)

-- the key "a" at 16 and the option "a=b" at 32
abbrev options : Mem
options a =
    if a == 16
    then 97
    else if a == 32
    then 97
    else if a == 33
    then 61
    else if a == 34
    then 98
    else 0

key-string : HoldsString options 16 (97 ∷ [])
key-string = ground arith

option-string : HoldsString options 32 ((97 ∷ []) ++ 61 ∷ 98 ∷ [])
option-string = ground arith

get_option-OptionValue_example :
    OptionValue 64 32 (97 ∷ []) (97 ∷ []) (98 ∷ []) options (get_option 2 16 64 32 options)
get_option-OptionValue_example =
    get_option-OptionValue 2 16 64 32 options (97 ∷ []) (97 ∷ []) (98 ∷ []) key-string option-string
      refl (inl (omega arith)) (inr (omega arith)) (omega arith) (omega arith)

-- an offset behind the end of the file
hello_read_lem_example : hello_read 16 6 7 64 9 options 71 ≡ (
    if leb 7 6 && ltb (6 - 7) 9
    then options 71
    else if within (64 + 7) (9 - 7) 71
    then options (16 + (71 - 64))
    else options 71)
hello_read_lem_example =
    hello_read_lem 16 6 7 64 9 options 71 (omega arith) (omega arith) (omega arith)
      (λ e. omega (arith, e)) (inr (omega arith))
