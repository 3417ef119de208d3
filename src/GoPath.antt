-- ===== src/GoPath.antt =====
-- What the uploads use of Go's packages `path`, `path/filepath` (on Unix) and `strings`.
pub mod Joining
use golang_videoencoder_api.Prelude.{
  ℕ, Bytes, bytes_eq, is_empty, ◌==◌, if◌then◌else◌, List, [], ◌∷◌, ◌++◌, Bool, false, ◌||◌, Option,
  none, some,
}

abbrev pub slash : ℕ
slash = b'/'

abbrev pub dot : Bytes
dot = b'.' ∷ []

abbrev pub dot_dot : Bytes
dot_dot = b'.' ∷ b'.' ∷ []

-- A byte in front of a list of segments.
unfoldable pub in_front : ℕ → List Bytes → List Bytes
in_front c [] = (c ∷ []) ∷ []
in_front c (s ∷ ss) = (c ∷ s) ∷ ss

-- The segments between the slashes; there is always one more of them than slashes.
unfoldable pub segments : Bytes → List Bytes
segments [] = [] ∷ []
segments (c ∷ s) = let rest = segments s in if c == slash then [] ∷ rest else in_front c rest

-- The segments with slashes between them.
unfoldable pub join : List Bytes → Bytes
join [] = []
join (s ∷ []) = s
join (s ∷ t ∷ ss) = s ++ (slash ∷ join (t ∷ ss))

-- `..` takes the last segment away; at the root it has no effect, and above a relative path it stays.
unfoldable pub up : Bool → List Bytes → List Bytes
up rooted [] = if rooted then [] else dot_dot ∷ []
up rooted (s ∷ ss) = if bytes_eq s dot_dot then dot_dot ∷ s ∷ ss else ss

-- One segment; the segments before it stand in `stack`, the last one first.
unfoldable pub enter : Bool → List Bytes → Bytes → List Bytes
unfolding up
enter rooted stack s =
    if is_empty s || bytes_eq s dot
    then stack
    else if bytes_eq s dot_dot
    then up rooted stack
    else s ∷ stack

unfoldable pub resolve : Bool → List Bytes → List Bytes → List Bytes
resolve rooted stack [] = stack
resolve rooted stack (s ∷ ss) = resolve rooted (enter rooted stack s) ss

unfoldable pub reverse_onto : List Bytes → List Bytes → List Bytes
reverse_onto [] acc = acc
reverse_onto (s ∷ ss) acc = reverse_onto ss (s ∷ acc)

unfoldable pub is_rooted : Bytes → Bool
is_rooted [] = false
is_rooted (c ∷ _) = c == slash

abbrev pub or_dot : Bytes → Bytes
or_dot [] = dot
or_dot (c ∷ s) = c ∷ s

-- `path.Clean`, and `filepath.Clean` on Unix
unfoldable pub clean : Bytes → Bytes
unfolding segments join resolve enter reverse_onto is_rooted
clean p =
    let rooted = is_rooted p in
    let body = join (reverse_onto (resolve rooted [] (segments p)) []) in
    if rooted then slash ∷ body else or_dot body

-- `path.Join` of two elements
unfoldable pub path_join : Bytes → Bytes → Bytes
path_join [] [] = []
path_join [] (c ∷ t) = clean (c ∷ t)
path_join (c ∷ s) t = clean ((c ∷ s) ++ (slash ∷ t))

-- `strings.HasPrefix`, and what stands behind the prefix
unfoldable pub strip_prefix : Bytes → Bytes → Option Bytes
strip_prefix s [] = some s
strip_prefix [] (_ ∷ _) = none
strip_prefix (c ∷ s) (d ∷ t) = let rest = strip_prefix s t in if c == d then rest else none

-- `strings.TrimPrefix`
unfoldable pub trim_prefix : Bytes → Bytes → Bytes
unfolding strip_prefix
trim_prefix s prefix = elim (strip_prefix s prefix) [ none ↦ s | some rest ↦ rest ]

-- The last segment that is not empty, of the reversed segments.
unfoldable pub last_segment : List Bytes → Bytes
last_segment [] = slash ∷ []
last_segment (s ∷ ss) = if is_empty s then last_segment ss else s

-- `filepath.Base` on Unix
unfoldable pub base : Bytes → Bytes
unfolding segments last_segment reverse_onto
base [] = dot
base (c ∷ p) = last_segment (reverse_onto (segments (c ∷ p)) [])
