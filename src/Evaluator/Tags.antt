-- ===== src/Evaluator/Tags.antt =====
-- tools/bp2cmake/bp2cmake/evaluator.py: what `_to_module` puts into the dependency lists.
use dalvikvm_multiplatform.Common.{
  ◌≡◌, ◌⊎◌, refl, text_beq, sym, ◌∙◌, ap, Bool, true, false, List, [], ◌∷◌, ◌++◌, map,
  if◌then◌else◌, if_ind, ◌==◌, ◌||◌, text_eq, contains, has_char, has_char-before_char, Text, codes,
  All, All-append, Bool-cases, inl, inr,
}
use dalvikvm_multiplatform.Values.{Value, Dict, str, list, empty, bind, get, to_list}
use dalvikvm_multiplatform.Model.{Module, new_module}
use dalvikvm_multiplatform.Evaluator.Mapping.{
  list_props, dep_list_props, export_props, ignored_props, strip_dep_tag, as_list, extend_field,
  set_standard, exported_libs, Mapped, map_prop, map_props, value_in, add_missing, is_disabled,
  to_module,
}

-- A text without the mark of a variant, or no text.
abbrev pub IsUntagged : Value → Type 0
IsUntagged (str s) = has_char b'#' s ≡ false
IsUntagged _ = Unit

-- The lists that name other modules.
pub record Untagged (m : Module Value) : Type 0 where
  pub shared : All IsUntagged m.shared_libs
  pub static : All IsUntagged m.static_libs
  pub whole_static : All IsUntagged m.whole_static_libs
  pub header : All IsUntagged m.header_libs

strip_dep_tag-IsUntagged : (v : Value) → IsUntagged (strip_dep_tag v)
unfolding strip_dep_tag
strip_dep_tag-IsUntagged (str s) = elim (Bool-cases (has_char b'#' s)) [
  | inl tagged ↦ rw tagged (has_char-before_char b'#' s)
  | inr bare ↦ rw bare bare
]
strip_dep_tag-IsUntagged _ = tt

stripped : (vs : List Value) → All IsUntagged (map strip_dep_tag vs)
stripped [] = tt
stripped (v ∷ vs) = (strip_dep_tag-IsUntagged v, stripped vs)

from :
    {m : Module Value}
    → All IsUntagged m.shared_libs
    → All IsUntagged m.static_libs
    → All IsUntagged m.whole_static_libs
    → All IsUntagged m.header_libs
    → Untagged m
from a b c d = record { shared = a; static = b; whole_static = c; header = d }

false-true : {A : Type 0} → false ≡ true → A
false-true e = cc

-- A property that names modules has untagged values.
dep_values :
    (key : Text) (vs : List Value)
    → All IsUntagged vs ⊎ (contains key dep_list_props ≡ false)
    → (k : Text) → (key == k) ≡ true
    → contains k dep_list_props ≡ true
    → All IsUntagged vs
dep_values key vs (inl h) k e d = h
dep_values key vs (inr n) k e d =
    false-true (sym n ∙ ap (λ x. contains x dep_list_props) ((text_eq.beq_iff key k).0 e) ∙ d)

extend_field-Untagged :
    (key : Text) (vs : List Value) (m : Module Value)
    → Untagged m
    → All IsUntagged vs ⊎ (contains key dep_list_props ≡ false)
    → Untagged (extend_field key vs m)
unfolding extend_field contains text_beq
extend_field-Untagged key vs m u h =
    if_ind Untagged (key == codes "srcs") (λ _. from u.shared u.static u.whole_static u.header)
      λ _.
        if_ind Untagged (key == codes "exclude_srcs")
          (λ _. from u.shared u.static u.whole_static u.header)
          λ _.
            if_ind Untagged (key == codes "cflags")
              (λ _. from u.shared u.static u.whole_static u.header)
              λ _.
                if_ind Untagged (key == codes "cppflags")
                  (λ _. from u.shared u.static u.whole_static u.header)
                  λ _.
                    if_ind Untagged (key == codes "conlyflags")
                      (λ _. from u.shared u.static u.whole_static u.header)
                      λ _.
                        if_ind Untagged (key == codes "ldflags")
                          (λ _. from u.shared u.static u.whole_static u.header)
                          λ _.
                            if_ind Untagged (key == codes "include_dirs")
                              (λ _. from u.shared u.static u.whole_static u.header)
                              λ _.
                                if_ind Untagged (key == codes "local_include_dirs")
                                  (λ _. from u.shared u.static u.whole_static u.header)
                                  λ _.
                                    if_ind Untagged (key == codes "export_include_dirs")
                                      (λ _. from u.shared u.static u.whole_static u.header)
                                      λ _.
                                        if_ind Untagged (key == codes "shared_libs")
                                          (λ e.
                                            from
                                              (All-append IsUntagged m.shared_libs vs u.shared
                                                (dep_values key vs h (codes "shared_libs") e refl))
                                              u.static u.whole_static u.header)
                                          λ _.
                                            if_ind Untagged (key == codes "static_libs")
                                              (λ e.
                                                from u.shared
                                                  (All-append IsUntagged m.static_libs vs u.static (
                                                    dep_values key vs h (codes "static_libs") e
                                                      refl))
                                                  u.whole_static u.header)
                                              λ _.
                                                if_ind Untagged (key == codes "whole_static_libs")
                                                  (λ e.
                                                    from u.shared u.static
                                                      (All-append IsUntagged m.whole_static_libs vs
                                                        u.whole_static
                                                        (dep_values key vs h
                                                          (codes "whole_static_libs") e refl))
                                                      u.header)
                                                  λ _.
                                                    if_ind Untagged (key == codes "header_libs")
                                                      (λ e. from u.shared u.static u.whole_static (
                                                        All-append IsUntagged m.header_libs vs
                                                          u.header
                                                          (dep_values key vs h (codes "header_libs")
                                                            e refl)))
                                                      λ _.
                                                        if_ind Untagged
                                                          (key == codes "generated_sources")
                                                          (λ _.
                                                            from u.shared u.static u.whole_static
                                                            u.header)
                                                          λ _.
                                                            if_ind Untagged
                                                            (key == codes "generated_headers")
                                                            (λ _.
                                                            from u.shared u.static u.whole_static
                                                            u.header)
                                                            λ _. u

-- The invariant of the loop over the properties.
abbrev Good : Mapped → Type 0
Good (m, libs) = Untagged m × All IsUntagged libs

exported_libs-IsUntagged : (v : Value) → All IsUntagged (exported_libs v)
unfolding exported_libs
exported_libs-IsUntagged (list vs) = stripped (to_list vs)
exported_libs-IsUntagged _ = tt

set_standard-Untagged :
    (key : Text) (v : Value) (m : Module Value) → Untagged m → Untagged (set_standard key v m)
unfolding set_standard
set_standard-Untagged key (str s) m u =
    if_ind Untagged (key == codes "cpp_std") (λ _. from u.shared u.static u.whole_static u.header)
      λ _. from u.shared u.static u.whole_static u.header
set_standard-Untagged key _ m u = u

map_prop-Good : (key : Text) (v : Value) (r : Mapped) → Good r → Good (map_prop key v r)
unfolding map_prop
map_prop-Good key v (m, libs) (u, l) =
    if_ind Good (key == codes "enabled" || contains key ignored_props) (λ _. (u, l))
      λ _.
        if_ind Good (key == codes "cpp_std" || key == codes "c_std")
          (λ _. (set_standard-Untagged key v m u, l))
          λ _.
            if_ind Good (contains key export_props)
              (λ _.
                (u, All-append IsUntagged libs (exported_libs v) l (exported_libs-IsUntagged v)))
              λ _.
                if_ind Good (contains key dep_list_props)
                  (λ _. (
                    extend_field-Untagged key (map strip_dep_tag (as_list v)) m u
                        (inl (stripped (as_list v))),
                    l,
                  ))
                  λ plain.
                    if_ind Good (contains key list_props)
                      (λ _. (extend_field-Untagged key (as_list v) m u (inr plain), l))
                      λ _. (from u.shared u.static u.whole_static u.header, l)

map_props-Good : (d : Dict) (r : Mapped) → Good r → Good (map_props d r)
unfolding map_props
map_props-Good empty r g = g
map_props-Good (bind k v d) r g = map_props-Good d (map_prop k v r) (map_prop-Good k v r g)

add_missing-IsUntagged :
    (libs vs : List Value)
    → All IsUntagged libs
    → All IsUntagged vs
    → All IsUntagged (add_missing libs vs)
unfolding add_missing
add_missing-IsUntagged libs [] l h = l
add_missing-IsUntagged libs (v ∷ vs) l h =
    add_missing-IsUntagged (if value_in v libs then libs else libs ++ (v ∷ [])) vs
      (if_ind (All IsUntagged) (value_in v libs) (λ _. l)
        (λ _. All-append IsUntagged libs (v ∷ []) l (h.0, tt)))
      h.1

-- Whatever the properties are, no text in the shared, static, whole static and header libraries of
-- the module has the mark `#` of a variant: the exported header libraries are without it as well.
pub to_module-Untagged :
    (name type_ bp_dir : Text) (props : Dict) (root_var : Text)
    → Untagged (to_module name type_ bp_dir props root_var)
unfolding to_module new_module
to_module-Untagged name type_ bp_dir props root_var =
    finish (map_props props (begun (is_disabled (get (codes "enabled") props)), [])) (
      map_props-Good props (begun (is_disabled (get (codes "enabled") props)), [])
        (
          if_ind Untagged (is_disabled (get (codes "enabled") props)) (λ _. from tt tt tt tt)
              (λ _. from tt tt tt tt),
          tt,
        ))
  where
    begun : Bool → Module Value
    begun b =
        let m₀ = new_module {A = Value} name type_ bp_dir root_var in
        if b then record m₀ { enabled = false } else m₀

    finish :
        (r : Mapped)
        → Good r
        → Untagged (record (r.0) { header_libs = add_missing r.0.header_libs r.1 })
    finish (m, libs) (u, l) =
        from u.shared u.static u.whole_static (add_missing-IsUntagged m.header_libs libs u.header l)
