-- ===== src/Tests/Flags.antt =====
-- A package of flags for tools/bp2cmake/bp2cmake/aconfig.py.
use dalvikvm_multiplatform.Common.{
  to_front, split_on, joined, ◌≡◌, refl, true, false, List, [], ◌∷◌, Text, codes, join, has_char,
  All, leb, ◌&&◌, if◌then◌else◌, ◌-◌, map,
}
use dalvikvm_multiplatform.Aconfig.{
  AconfigPackage, namespace, c_prefix, render_java, java_lines, camel, camel_parts, capitalized,
  default_text,
}
use dalvikvm_multiplatform.Aconfig.Names.{c_prefix-namespace}

abbrev art_flags : AconfigPackage
art_flags = record {
  package_name = codes "com.android.art";
  flags = record { name = codes "virtual_thread_v1"; read_only = true; enabled = false } ∷ [];
}

c_prefix-namespace_example :
    (parts : List Text) × All (λ p. has_char b'.' p ≡ false) parts
    × (art_flags.package_name ≡ join (codes ".") parts)
    × (namespace art_flags ≡ join (codes "::") parts)
    × (c_prefix art_flags ≡ join (codes "_") parts)
c_prefix-namespace_example = c_prefix-namespace art_flags

-- `str.upper` on ASCII.
abbrev upper : Text → Text
upper = map λ c. if leb b'a' c && leb c b'z' then c - 32 else c

sample_java :
    render_java upper art_flags
    ≡ codes
        "package com.android.art;\n\n// Generated by bp2cmake.aconfig (host aconfig stand-in). Do not edit.\n/** @hide */\npublic final class Flags {\n    public static final String FLAG_VIRTUAL_THREAD_V1 = \"com.android.art.virtual_thread_v1\";\n\n    public static boolean virtualThreadV1() { return false; }\n}\n"
unfolding render_java java_lines camel camel_parts capitalized joined split_on to_front default_text
    join
sample_java = refl
