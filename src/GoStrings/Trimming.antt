-- ===== src/GoStrings/Trimming.antt =====
-- The front of a text in valid UTF-8, trimmed by `strings.TrimSpace`.
use golang_videoencoder_api.Prelude.{
  ℕ, zero, suc, Bytes, if◌then◌else◌, [], ◌∷◌, Bool, ltb, true, false, ◌≡◌, refl, arith,
}
use golang_videoencoder_api.Json.Utf8.{is_tail, starts_two, starts_three, starts_four}
use golang_videoencoder_api.Json.Runes.{one, two, three, four, IsUtf8, end, rune}
use golang_videoencoder_api.GoStrings.{is_space1, is_space2, is_space3, trim_left}

pub if_lem :
    (P : Bytes → Type 0) (b : Bool) (x y : Bytes)
    → (b ≡ true → P x)
    → (b ≡ false → P y)
    → P (if b then x else y)
if_lem P true x y hx hy = hx refl
if_lem P false x y hx hy = hy refl

trim_one :
    (n c : ℕ) (s : Bytes)
    → ltb c 0x80 ≡ true
    → IsUtf8 s
    → IsUtf8 (trim_left n s)
    → IsUtf8 (trim_left (suc n) (c ∷ s))
unfolding trim_left
trim_one n c [] small u h = if_lem IsUtf8 (is_space1 c) _ _ (λ _. end) (λ _. rune (one c small) end)
trim_one n c (d ∷ []) small u h =
    if_lem IsUtf8 (is_space1 c) _ _ (λ _. h)
      (λ _.
        if_lem IsUtf8 (is_space2 c d) _ _ (λ e. absurd (ground arith)) (λ _. rune (one c small) u))
trim_one n c (d ∷ e ∷ s) small u h =
    if_lem IsUtf8 (is_space1 c) _ _ (λ _. h)
      (λ _.
        if_lem IsUtf8 (is_space2 c d) _ _ (λ is. absurd (ground arith))
          (λ _.
            if_lem IsUtf8 (is_space3 c d e) _ _ (λ is. absurd (ground arith))
              (λ _. rune (one c small) u)))

trim_two :
    (n c d : ℕ) (s : Bytes)
    → starts_two c d ≡ true
    → IsUtf8 s
    → IsUtf8 (trim_left n s)
    → IsUtf8 (trim_left (suc n) (c ∷ d ∷ s))
unfolding trim_left
trim_two n c d [] pair u h =
    if_lem IsUtf8 (is_space1 c) _ _ (λ is. absurd (ground arith))
      (λ _. if_lem IsUtf8 (is_space2 c d) _ _ (λ _. end) (λ _. rune (two c d pair) u))
trim_two n c d (e ∷ s) pair u h =
    if_lem IsUtf8 (is_space1 c) _ _ (λ is. absurd (ground arith))
      (λ _.
        if_lem IsUtf8 (is_space2 c d) _ _ (λ _. h)
          (λ _.
            if_lem IsUtf8 (is_space3 c d e) _ _ (λ is. absurd (ground arith))
              (λ _. rune (two c d pair) u)))

trim_three :
    (n c d e : ℕ) (s : Bytes)
    → starts_three c d ≡ true
    → is_tail e ≡ true
    → IsUtf8 s
    → IsUtf8 (trim_left n s)
    → IsUtf8 (trim_left (suc n) (c ∷ d ∷ e ∷ s))
unfolding trim_left
trim_three n c d e s first last u h =
    if_lem IsUtf8 (is_space1 c) _ _ (λ is. absurd (ground arith))
      (λ _.
        if_lem IsUtf8 (is_space2 c d) _ _ (λ is. absurd (ground arith))
          (λ _.
            if_lem IsUtf8 (is_space3 c d e) _ _ (λ _. h) (λ _. rune (three c d e first last) u)))

trim_four :
    (n c d e f : ℕ) (s : Bytes)
    → starts_four c d ≡ true
    → IsUtf8 (c ∷ d ∷ e ∷ f ∷ s)
    → IsUtf8 (trim_left (suc n) (c ∷ d ∷ e ∷ f ∷ s))
unfolding trim_left
trim_four n c d e f s first u =
    if_lem IsUtf8 (is_space1 c) _ _ (λ is. absurd (ground arith))
      (λ _.
        if_lem IsUtf8 (is_space2 c d) _ _ (λ is. absurd (ground arith))
          (λ _. if_lem IsUtf8 (is_space3 c d e) _ _ (λ is. absurd (ground arith)) (λ _. u)))

pub trim_left-IsUtf8 : (n : ℕ) {s : Bytes} → IsUtf8 s → IsUtf8 (trim_left n s)
trim_left-IsUtf8 zero u = unfold trim_left in u
trim_left-IsUtf8 (suc n) end = unfold trim_left in end
trim_left-IsUtf8 (suc n) (rune {s = s} (one c small) u) =
    trim_one n c s small u (trim_left-IsUtf8 n u)
trim_left-IsUtf8 (suc n) (rune {s = s} (two c d pair) u) =
    trim_two n c d s pair u (trim_left-IsUtf8 n u)
trim_left-IsUtf8 (suc n) (rune {s = s} (three c d e first last) u) =
    trim_three n c d e s first last u (trim_left-IsUtf8 n u)
trim_left-IsUtf8 (suc n) (rune {s = s} (four c d e f first second third) u) =
    trim_four n c d e f s first (rune (four c d e f first second third) u)
