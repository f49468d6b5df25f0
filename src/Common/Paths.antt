-- ===== src/Common/Paths.antt =====
-- The functions of Python's `posixpath` and the text methods that the tools call on paths and lines.
use Prim.Native.Nat.{ℕ}
use mathlib.Core.Bool.{Bool, true, false, not, ◌&&◌, ◌||◌}
use mathlib.Core.List.{List, [], ◌∷◌, ◌++◌}
use dalvikvm_multiplatform.Common.Lists.{if◌then◌else◌, ◌==◌, nat_eq, leb}
use dalvikvm_multiplatform.Common.Texts.{Text, codes, text_eq, starts_with, split_on, join}

-- Whether a text is empty.
unfoldable pub is_blank : Text → Bool
is_blank [] = true
is_blank (c ∷ s) = false

-- `s.endswith(t)`
unfoldable pub ends_with : Text → Text → Bool
ends_with [] t = is_blank t
ends_with (c ∷ s) t = if (c ∷ s) == t then true else ends_with s t

-- The character `c` is the last one.
unfoldable pub ends_in : ℕ → Text → Bool
ends_in c [] = false
ends_in c (d ∷ []) = d == c
ends_in c (d ∷ e ∷ s) = ends_in c (e ∷ s)

-- `posixpath.join(a, b)`
unfoldable pub path_join : Text → Text → Text
path_join a b =
    if starts_with b (codes "/")
    then b
    else if is_blank a || ends_in b'/' a
    then a ++ b
    else a ++ (b'/' ∷ b)

-- The loop of `normpath` over the components, on the stack `new_comps` with its last one in front.
unfoldable pub norm_step : Bool → Text → List Text → List Text
norm_step rooted comp [] =
    if is_blank comp || comp == codes "."
    then []
    else if not (comp == codes "..") || not rooted
    then comp ∷ []
    else []
norm_step rooted comp (top ∷ stack) =
    if is_blank comp || comp == codes "."
    then top ∷ stack
    else if not (comp == codes "..") || top == codes ".."
    then comp ∷ top ∷ stack
    else stack

unfoldable pub norm_loop : Bool → List Text → List Text → List Text
norm_loop rooted [] stack = stack
norm_loop rooted (comp ∷ comps) stack = norm_loop rooted comps (norm_step rooted comp stack)

-- The list in its reverse order, in front of another.
unfoldable pub reverse_onto : List Text → List Text → List Text
reverse_onto [] ys = ys
reverse_onto (x ∷ xs) ys = reverse_onto xs (x ∷ ys)

-- The slashes that `normpath` keeps in front: two stay two.
unfoldable pub root_slashes : Text → Text
root_slashes path =
    if starts_with path (codes "///")
    then codes "/"
    else if starts_with path (codes "//")
    then codes "//"
    else if starts_with path (codes "/")
    then codes "/"
    else []

-- `path or "."`
unfoldable pub or_dot : Text → Text
or_dot [] = codes "."
or_dot (c ∷ s) = c ∷ s

-- `posixpath.normpath`
unfoldable pub normpath : Text → Text
normpath path = or_dot (
    root_slashes path
    ++ join (codes "/")
        (reverse_onto (norm_loop (starts_with path (codes "/")) (split_on b'/' path) []) []))

-- The last of the parts, or the empty text.
unfoldable pub last_part : List Text → Text
last_part [] = []
last_part (p ∷ []) = p
last_part (p ∷ q ∷ ps) = last_part (q ∷ ps)

-- `posixpath.basename`
unfoldable pub basename : Text → Text
basename path = last_part (split_on b'/' path)

-- `str.isspace` of a text of one character.
unfoldable pub is_white : ℕ → Bool
is_white c =
    leb 9 c && leb c 13
    || leb 28 c && leb c 32
    || c == 133
    || c == 160
    || c == 5760
    || leb 8192 c && leb c 8202
    || c == 8232
    || c == 8233
    || c == 8239
    || c == 8287
    || c == 12288

-- `c` in front of a text from which the white space at the end is taken.
unfoldable pub kept_before : ℕ → Text → Text
kept_before c [] = if is_white c then [] else c ∷ []
kept_before c (d ∷ s) = c ∷ d ∷ s

-- `s.rstrip()`
unfoldable pub rstrip : Text → Text
rstrip [] = []
rstrip (c ∷ s) = kept_before c (rstrip s)
