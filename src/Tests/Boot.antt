-- ===== src/Tests/Boot.antt =====
-- tools/run_dex2oat_no_image.py: a boot.oat with a CFG table, and one with an unwind table.
use Prim.Native.Nat.{◌%◌, ◌/◌}
use dalvikvm_multiplatform.Common.{ℕ, zero, suc, List, [], ◌∷◌, ◌++◌, Text, codes, Ends}
use dalvikvm_multiplatform.Probe.Bytes.{Bytes}
use dalvikvm_multiplatform.Probe.Elf.Segments.{IsRefusal}
use dalvikvm_multiplatform.Probe.Windows.Tables.{HasFunctions}
use dalvikvm_multiplatform.Probe.Windows.Targets.{HasTargets}
use dalvikvm_multiplatform.Probe.Boot.{validate_windows_oat_unwind, validate_windows_oat_cfg}
use dalvikvm_multiplatform.Probe.Boot.Whole.{
  Holds, validate_windows_oat_unwind-InOrder, validate_windows_oat_cfg-Rises,
}

-- So many bytes of a number.
unfoldable number : ℕ → ℕ → Bytes
number zero n = []
number (suc width) n = n % 256 ∷ number width (n / 256)

unfoldable words : List ℕ → Bytes
words [] = []
words (n ∷ ns) = number 4 n ++ words ns

abbrev terminated : Text → Bytes
terminated name = name ++ (0 ∷ [])

-- The ELF header, and one read-only segment that holds the file.
abbrev boot_header : ℕ → ℕ → Bytes
boot_header section_offset total =
    127 ∷ codes "ELF"
    ++ (2 ∷ 1 ∷ 1 ∷ 3 ∷ number 8 0
        ++ (3 ∷ 0 ∷ 62 ∷ 0 ∷ words (1 ∷ 0 ∷ 0 ∷ 64 ∷ 0 ∷ section_offset ∷ 0 ∷ 0 ∷ [])
            ++ (64
                ∷ 0
                ∷ 56
                ∷ 0
                ∷ 1
                ∷ 0
                ∷ 64
                ∷ 0
                ∷ 6
                ∷ 0
                ∷ 0
                ∷ 0
                ∷ words (1 ∷ 4 ∷ 0 ∷ 0 ∷ 0 ∷ 0 ∷ 0 ∷ 0 ∷ total ∷ 0 ∷ total ∷ 0 ∷ 65536 ∷ 0 ∷ []))))

abbrev symbol : ℕ → ℕ → ℕ → Bytes
symbol name value size = number 4 name ++ (0 ∷ 0 ∷ 3 ∷ 0 ∷ number 8 value ++ number 8 size)

abbrev section : ℕ → ℕ → ℕ → ℕ → ℕ → ℕ → ℕ → ℕ → ℕ → Bytes
section name kind flags address offset size link alignment entry_size = words (
    name ∷ kind ∷ flags ∷ 0 ∷ address ∷ 0 ∷ offset ∷ 0 ∷ size ∷ 0 ∷ link ∷ 0 ∷ alignment ∷ 0
    ∷ entry_size ∷ 0 ∷ [])

abbrev cfg_payload : Bytes
cfg_payload =
    codes "ocfg"
    ++ (words (1 ∷ 48 ∷ 34404 ∷ 1 ∷ 8 ∷ 7 ∷ 48 ∷ 0 ∷ 128 ∷ 1863910743 ∷ 0 ∷ [])
        ++ words (16 ∷ 4 ∷ 32 ∷ 4 ∷ 48 ∷ 4 ∷ 64 ∷ 4 ∷ 80 ∷ 4 ∷ 96 ∷ 4 ∷ 112 ∷ 4 ∷ []))

abbrev cfg_headers : Bytes
cfg_headers =
    section 0 3 0 0 120 48 0 1 0
    ++ (section 1 1 2 0 0 0 0 1 0
        ++ (section 9 1 6 0 0 128 0 1 0
            ++ (section 15 1 2 168 168 104 0 4 0
                ++ (section 32 11 2 309 309 48 5 8 24 ++ section 40 3 2 272 272 37 0 1 0))))

abbrev cfg_names : Bytes
cfg_names =
    0 ∷ []
    ++ (terminated (codes ".rodata")
        ++ (terminated (codes ".text")
            ++ (terminated (codes ".oat_cfg.windows")
                ++ (terminated (codes ".dynsym") ++ terminated (codes ".dynstr")))))

abbrev cfg_strings : Bytes
cfg_strings = 0 ∷ (terminated (codes "oatcfgwindows") ++ terminated (codes "oatcfgwindowslastword"))

abbrev cfg_file : Bytes
cfg_file =
    boot_header 357 741
    ++ (cfg_names
        ++ (cfg_payload ++ (cfg_strings ++ (symbol 1 168 104 ++ (symbol 15 268 4 ++ cfg_headers)))))

abbrev unwind_payload : Bytes
unwind_payload =
    codes "ouw\n"
    ++ (words (1 ∷ 48 ∷ 34404 ∷ 12 ∷ 7 ∷ 48 ∷ 132 ∷ 4 ∷ 0 ∷ 128 ∷ 1810892796 ∷ [])
        ++ words (
            0 ∷ 8 ∷ 304 ∷ 16 ∷ 24 ∷ 304 ∷ 32 ∷ 40 ∷ 304 ∷ 48 ∷ 56 ∷ 304 ∷ 64 ∷ 72 ∷ 304 ∷ 80 ∷ 88
            ∷ 304 ∷ 96 ∷ 104 ∷ 304 ∷ 1 ∷ []))

abbrev unwind_headers : Bytes
unwind_headers =
    section 0 3 0 0 120 52 0 1 0
    ++ (section 1 1 2 0 0 0 0 1 0
        ++ (section 9 1 6 0 0 128 0 1 0
            ++ (section 15 1 2 172 172 136 0 65536 0
                ++ (section 35 11 2 351 351 48 5 8 24 ++ section 43 3 2 308 308 43 0 1 0))))

abbrev unwind_names : Bytes
unwind_names =
    0 ∷ []
    ++ (terminated (codes ".rodata")
        ++ (terminated (codes ".text")
            ++ (terminated (codes ".oat_unwind.windows")
                ++ (terminated (codes ".dynsym") ++ (terminated (codes ".dynstr") ++ 0 ∷ [])))))

abbrev unwind_strings : Bytes
unwind_strings =
    0 ∷ (terminated (codes "oatunwindwindows") ++ terminated (codes "oatunwindwindowslastword"))

abbrev unwind_file : Bytes
unwind_file =
    boot_header 399 783
    ++ (unwind_names
        ++ (unwind_payload
            ++ (unwind_strings ++ (symbol 1 172 136 ++ (symbol 18 304 4 ++ unwind_headers)))))

validate_windows_oat_cfg-Rises_example :
    Ends IsRefusal
      (Holds HasTargets (codes ".oat_cfg.windows") cfg_file)
      (validate_windows_oat_cfg cfg_file)
validate_windows_oat_cfg-Rises_example = validate_windows_oat_cfg-Rises cfg_file

validate_windows_oat_unwind-InOrder_example :
    Ends IsRefusal
      (Holds HasFunctions (codes ".oat_unwind.windows") unwind_file)
      (validate_windows_oat_unwind unwind_file)
validate_windows_oat_unwind-InOrder_example = validate_windows_oat_unwind-InOrder unwind_file
