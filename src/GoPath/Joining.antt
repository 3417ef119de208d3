-- ===== src/GoPath/Joining.antt =====
-- `path.Join` of a prefix and a path of plain names.
use golang_videoencoder_api.Prelude.{
  ℕ, Bytes, bytes_eq, is_empty, ◌==◌, if◌then◌else◌, List, [], ◌∷◌, ◌++◌, append-nil, append_assoc,
  All, Bool, true, false, some, ◌≡◌, refl, sym, ap, ◌∙◌, arith, Bool-cases, inl, inr,
}
use golang_videoencoder_api.GoPath.{
  slash, dot, dot_dot, in_front, segments, join, enter, resolve, reverse_onto, is_rooted, or_dot,
  clean, path_join, strip_prefix, trim_prefix,
}

-- A byte string without a slash.
abbrev HasNoSlash : Bytes → Type 0
HasNoSlash = All (λ (c : ℕ). (c == slash) ≡ false)

-- The name of a file or directory.
pub record IsName (s : Bytes) : Type 0 where
  pub given : is_empty s ≡ false
  pub not_dot : bytes_eq s dot ≡ false
  pub not_dot_dot : bytes_eq s dot_dot ≡ false
  pub one : HasNoSlash s

strip_prefix-append : (p rest : Bytes) → strip_prefix (p ++ rest) p ≡ some rest
unfolding strip_prefix
strip_prefix-append [] [] = refl
strip_prefix-append [] (c ∷ rest) = refl
strip_prefix-append (c ∷ p) rest = ground (arith, strip_prefix-append p rest)

pub trim_prefix-append : (p rest : Bytes) → trim_prefix (p ++ rest) p ≡ rest
unfolding trim_prefix
trim_prefix-append p rest = rw (strip_prefix-append p rest, trim_prefix) refl

-- There is a first segment.
segments_some : (s : Bytes) → (x : Bytes) × (xs : List Bytes) × (segments s ≡ x ∷ xs)
unfolding segments in_front
segments_some [] = ([], [], refl)
segments_some (c ∷ s) =
    let (x, xs, e) = segments_some s in
    elim (Bool-cases (c == slash)) [
      | inl is ↦ ([], segments s, rw is refl)
      | inr is ↦ (c ∷ x, xs, rw (is, e) refl)
    ]

in_front-append :
    (c : ℕ) (s : Bytes) (ys : List Bytes)
    → in_front c (segments s ++ ys) ≡ in_front c (segments s) ++ ys
unfolding in_front
in_front-append c s ys = let (x, xs, e) = segments_some s in rw e refl

segments-append : (a b : Bytes) → segments (a ++ (slash ∷ b)) ≡ segments a ++ segments b
unfolding segments
segments-append [] b = refl
segments-append (c ∷ a) b = elim (Bool-cases (c == slash)) [
  | inl is ↦ rw is (ap (λ (l : List Bytes). [] ∷ l) (segments-append a b))
  | inr is ↦ rw is (ap (in_front c) (segments-append a b) ∙ in_front-append c a (segments b))
]

segments_plain : (s : Bytes) → HasNoSlash s → segments s ≡ s ∷ []
unfolding segments in_front
segments_plain [] none_here = refl
segments_plain (c ∷ s) (first, rest) = rw (first, segments_plain s rest) refl

segments-join :
    (r : Bytes) (rs : List Bytes) → All IsName (r ∷ rs) → segments (join (r ∷ rs)) ≡ r ∷ rs
unfolding join
segments-join r [] (name, _) = segments_plain r name.one
segments-join r (t ∷ rs) (name, names) =
    segments-append r (join (t ∷ rs))
    ∙ rw (segments_plain r name.one, segments-join t rs names) refl

resolve-append :
    (b : Bool) (stack xs ys : List Bytes)
    → resolve b stack (xs ++ ys) ≡ resolve b (resolve b stack xs) ys
unfolding resolve
resolve-append b stack [] ys = refl
resolve-append b stack (x ∷ xs) ys = resolve-append b (enter b stack x) xs ys

resolve_names :
    (b : Bool) (stack rs : List Bytes) → All IsName rs → resolve b stack rs ≡ reverse_onto rs stack
unfolding resolve enter reverse_onto
resolve_names b stack [] all = refl
resolve_names b stack (r ∷ rs) (name, names) =
    rw (name.given, name.not_dot, name.not_dot_dot) (resolve_names b (r ∷ stack) rs names)

reverse_onto-reverse_onto :
    (xs ys acc : List Bytes) → reverse_onto (reverse_onto xs ys) acc ≡ reverse_onto ys (xs ++ acc)
unfolding reverse_onto
reverse_onto-reverse_onto [] ys acc = refl
reverse_onto-reverse_onto (x ∷ xs) ys acc = reverse_onto-reverse_onto xs (x ∷ ys) acc

reverse_onto-append : (ys acc : List Bytes) → reverse_onto ys acc ≡ reverse_onto ys [] ++ acc
unfolding reverse_onto
reverse_onto-append [] acc = refl
reverse_onto-append (y ∷ ys) acc =
    reverse_onto-append ys (y ∷ acc)
    ∙ sym (append_assoc (reverse_onto ys []) (y ∷ []) acc)
    ∙ ap (λ (l : List Bytes). l ++ acc) (sym (reverse_onto-append ys (y ∷ [])))

-- The segments with a slash behind each.
abbrev lead : List Bytes → Bytes
lead [] = []
lead (s ∷ ss) = s ++ (slash ∷ lead ss)

join-append :
    (ss : List Bytes) (r : Bytes) (rs : List Bytes)
    → join (ss ++ (r ∷ rs)) ≡ lead ss ++ join (r ∷ rs)
unfolding join
join-append [] r rs = refl
join-append (s ∷ []) r rs = sym (append_assoc s (slash ∷ []) (join (r ∷ rs)))
join-append (s ∷ t ∷ ss) r rs =
    ap (λ (l : Bytes). s ++ (slash ∷ l)) (join-append (t ∷ ss) r rs)
    ∙ sym (append_assoc s (slash ∷ lead (t ∷ ss)) (join (r ∷ rs)))

-- The root of the paths behind a prefix.
abbrev pub root_of : Bytes → Bytes
root_of prefix =
    let front = lead (reverse_onto (resolve (is_rooted prefix) [] (segments prefix)) []) in
    if is_rooted prefix then slash ∷ front else front

or_dot_given :
    (front r : Bytes) (rest : Bytes)
    → is_empty r ≡ false
    → or_dot (front ++ (r ++ rest)) ≡ front ++ (r ++ rest)
or_dot_given [] [] rest h = cc
or_dot_given [] (c ∷ r) rest h = refl
or_dot_given (c ∷ front) r rest h = refl

-- The names are given, so what they join to is.
join_given : (r : Bytes) (rs : List Bytes) → (rest : Bytes) × (join (r ∷ rs) ≡ r ++ rest)
unfolding join
join_given r [] = ([], sym (append-nil r))
join_given r (t ∷ rs) = (slash ∷ join (t ∷ rs), refl)

resolved :
    (b : Bool) (prefix : Bytes) (r : Bytes) (rs : List Bytes)
    → All IsName (r ∷ rs)
    → join (reverse_onto (resolve b [] (segments (prefix ++ (slash ∷ join (r ∷ rs))))) [])
      ≡ lead (reverse_onto (resolve b [] (segments prefix)) []) ++ join (r ∷ rs)
resolved b prefix r rs names =
    let before = resolve b [] (segments prefix) in
    let split : segments (prefix ++ (slash ∷ join (r ∷ rs))) ≡ segments prefix ++ (r ∷ rs) =
      segments-append prefix (join (r ∷ rs))
      ∙ ap (λ (l : List Bytes). segments prefix ++ l) (segments-join r rs names) in
    let stacked : resolve b [] (segments (prefix ++ (slash ∷ join (r ∷ rs))))
        ≡ reverse_onto (r ∷ rs) before =
      ap (resolve b []) split
      ∙ resolve-append b [] (segments prefix) (r ∷ rs)
      ∙ resolve_names b before (r ∷ rs) names in
    let straight : reverse_onto (reverse_onto (r ∷ rs) before) []
        ≡ reverse_onto before [] ++ (r ∷ rs) =
      reverse_onto-reverse_onto (r ∷ rs) before []
      ∙ ap (reverse_onto before) (append-nil (r ∷ rs))
      ∙ reverse_onto-append before (r ∷ rs) in
    ap (λ (l : List Bytes). join (reverse_onto l [])) stacked
    ∙ ap join straight
    ∙ join-append (reverse_onto before []) r rs

cleaned :
    (b : Bool) (body front r rest : Bytes)
    → is_empty r ≡ false
    → body ≡ front ++ (r ++ rest)
    → (if b then slash ∷ body else or_dot body)
      ≡ (if b then slash ∷ front else front) ++ (r ++ rest)
cleaned true body front r rest given e = ap (λ (l : Bytes). slash ∷ l) e
cleaned false body front r rest given e = ap or_dot e ∙ or_dot_given front r rest given

clean-join :
    (c : ℕ) (s r : Bytes) (rs : List Bytes)
    → All IsName (r ∷ rs)
    → clean ((c ∷ s) ++ (slash ∷ join (r ∷ rs))) ≡ root_of (c ∷ s) ++ join (r ∷ rs)
unfolding clean is_rooted
clean-join c s r rs names =
    let rooted = is_rooted (c ∷ s) in
    let front = lead (reverse_onto (resolve rooted [] (segments (c ∷ s))) []) in
    let (rest, e) = join_given r rs in
    cleaned rooted _ front r rest names.0.given
      (resolved rooted (c ∷ s) r rs names ∙ ap (λ (l : Bytes). front ++ l) e)
    ∙ ap (λ (l : Bytes). root_of (c ∷ s) ++ l) (sym e)

-- The names behind a prefix stay as they are.
pub path_join-join :
    (prefix r : Bytes) (rs : List Bytes)
    → is_empty prefix ≡ false
    → All IsName (r ∷ rs)
    → path_join prefix (join (r ∷ rs)) ≡ root_of prefix ++ join (r ∷ rs)
unfolding path_join
path_join-join [] r rs given names = cc
path_join-join (c ∷ s) r rs given names = clean-join c s r rs names
