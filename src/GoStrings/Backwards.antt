-- ===== src/GoStrings/Backwards.antt =====
-- The end of a text in valid UTF-8, trimmed by `strings.TrimSpace`.
use golang_videoencoder_api.Prelude.{
  ℕ, zero, suc, Bytes, ltb, [], ◌∷◌, ◌++◌, length, true, ◌≡◌, refl, arith, subst, sym,
}
use golang_videoencoder_api.Json.Utf8.{is_tail, starts_two, starts_three, starts_four}
use golang_videoencoder_api.Json.Runes.{IsRune, one, two, three, four, IsUtf8, end, rune}
use golang_videoencoder_api.GoStrings.{
  is_space1, is_space2, is_space3, trim_left, trim_left_reversed, reversed, trim_space,
}
use golang_videoencoder_api.GoStrings.Trimming.{if_lem, trim_left-IsUtf8}

-- Valid UTF-8, with the bytes in reverse.
data IsBackwards : Bytes → Type 0 where
  first : IsBackwards []
  last : {r s : Bytes} → IsRune r → IsBackwards s → IsBackwards (reversed r s)

reversed-append : (r s done : Bytes) → reversed (r ++ s) done ≡ reversed s (reversed r done)
unfolding reversed
reversed-append [] s done = refl
reversed-append (c ∷ r) s done = reversed-append r s (c ∷ done)

reversed-reversed : (r s done : Bytes) → reversed (reversed r s) done ≡ reversed s (r ++ done)
unfolding reversed
reversed-reversed [] s done = refl
reversed-reversed (c ∷ r) s done = reversed-reversed r (c ∷ s) done

reversed-IsBackwards :
    {s done : Bytes} → IsUtf8 s → IsBackwards done → IsBackwards (reversed s done)
unfolding reversed
reversed-IsBackwards end b = b
reversed-IsBackwards {done = done} (rune {r} {s} c u) b =
    subst IsBackwards (sym (reversed-append r s done)) (reversed-IsBackwards u (last c b))

reversed-IsUtf8 : {s done : Bytes} → IsBackwards s → IsUtf8 done → IsUtf8 (reversed s done)
unfolding reversed
reversed-IsUtf8 first u = u
reversed-IsUtf8 {done = done} (last {r} {s} c b) u =
    subst IsUtf8 (sym (reversed-reversed r s done)) (reversed-IsUtf8 b (rune c u))

trim_one :
    (n c : ℕ) (s : Bytes)
    → ltb c 0x80 ≡ true
    → IsBackwards (c ∷ s)
    → IsBackwards (trim_left_reversed n s)
    → IsBackwards (trim_left_reversed (suc n) (c ∷ s))
unfolding trim_left_reversed
trim_one n c [] small b h = if_lem IsBackwards (is_space1 c) _ _ (λ _. first) (λ _. b)
trim_one n c (d ∷ []) small b h =
    if_lem IsBackwards (is_space1 c) _ _ (λ _. h)
      (λ _. if_lem IsBackwards (is_space2 d c) _ _ (λ is. absurd (ground arith)) (λ _. b))
trim_one n c (d ∷ e ∷ s) small b h =
    if_lem IsBackwards (is_space1 c) _ _ (λ _. h)
      (λ _.
        if_lem IsBackwards (is_space2 d c) _ _ (λ is. absurd (ground arith))
          (λ _. if_lem IsBackwards (is_space3 e d c) _ _ (λ is. absurd (ground arith)) (λ _. b)))

trim_two :
    (n c d : ℕ) (s : Bytes)
    → starts_two c d ≡ true
    → IsBackwards (d ∷ c ∷ s)
    → IsBackwards (trim_left_reversed n s)
    → IsBackwards (trim_left_reversed (suc n) (d ∷ c ∷ s))
unfolding trim_left_reversed
trim_two n c d [] pair b h =
    if_lem IsBackwards (is_space1 d) _ _ (λ is. absurd (ground arith))
      (λ _. if_lem IsBackwards (is_space2 c d) _ _ (λ _. first) (λ _. b))
trim_two n c d (e ∷ s) pair b h =
    if_lem IsBackwards (is_space1 d) _ _ (λ is. absurd (ground arith))
      (λ _.
        if_lem IsBackwards (is_space2 c d) _ _ (λ _. h)
          (λ _. if_lem IsBackwards (is_space3 e c d) _ _ (λ is. absurd (ground arith)) (λ _. b)))

trim_three :
    (n c d e : ℕ) (s : Bytes)
    → starts_three c d ≡ true
    → is_tail e ≡ true
    → IsBackwards (e ∷ d ∷ c ∷ s)
    → IsBackwards (trim_left_reversed n s)
    → IsBackwards (trim_left_reversed (suc n) (e ∷ d ∷ c ∷ s))
unfolding trim_left_reversed
trim_three n c d e s head tail b h =
    if_lem IsBackwards (is_space1 e) _ _ (λ is. absurd (ground arith))
      (λ _.
        if_lem IsBackwards (is_space2 d e) _ _ (λ is. absurd (ground arith))
          (λ _. if_lem IsBackwards (is_space3 c d e) _ _ (λ _. h) (λ _. b)))

trim_four :
    (n c d e f : ℕ) (s : Bytes)
    → starts_four c d ≡ true
    → is_tail e ≡ true
    → is_tail f ≡ true
    → IsBackwards (f ∷ e ∷ d ∷ c ∷ s)
    → IsBackwards (trim_left_reversed (suc n) (f ∷ e ∷ d ∷ c ∷ s))
unfolding trim_left_reversed
trim_four n c d e f s head tail1 tail2 b =
    if_lem IsBackwards (is_space1 f) _ _ (λ is. absurd (ground arith))
      (λ _.
        if_lem IsBackwards (is_space2 e f) _ _ (λ is. absurd (ground arith))
          (λ _. if_lem IsBackwards (is_space3 d e f) _ _ (λ is. absurd (ground arith)) (λ _. b)))

trim_left_reversed-IsBackwards :
    (n : ℕ) {s : Bytes} → IsBackwards s → IsBackwards (trim_left_reversed n s)
unfolding reversed
trim_left_reversed-IsBackwards zero b = unfold trim_left_reversed in b
trim_left_reversed-IsBackwards (suc n) first = unfold trim_left_reversed in first
trim_left_reversed-IsBackwards (suc n) (last {s = s} (one c small) b) =
    trim_one n c s small (last (one c small) b) (trim_left_reversed-IsBackwards n b)
trim_left_reversed-IsBackwards (suc n) (last {s = s} (two c d pair) b) =
    trim_two n c d s pair (last (two c d pair) b) (trim_left_reversed-IsBackwards n b)
trim_left_reversed-IsBackwards (suc n) (last {s = s} (three c d e head tail) b) =
    trim_three n c d e s head tail (last (three c d e head tail) b)
      (trim_left_reversed-IsBackwards n b)
trim_left_reversed-IsBackwards (suc n) (last {s = s} (four c d e f head tail1 tail2) b) =
    trim_four n c d e f s head tail1 tail2 (last (four c d e f head tail1 tail2) b)

pub trim_space-IsUtf8 : (s : Bytes) → IsUtf8 s → IsUtf8 (trim_space s)
unfolding trim_space
trim_space-IsUtf8 s u =
    let front = trim_left (length s) s in
    reversed-IsUtf8
      (trim_left_reversed-IsBackwards (length front)
        (reversed-IsBackwards (trim_left-IsUtf8 (length s) u) first))
      end
