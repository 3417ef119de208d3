-- ===== src/GoStrings/Rounds.antt =====
-- The rounds of `strings.TrimSpace`.
use golang_videoencoder_api.Prelude.{
  ℕ, zero, suc, ◌≤◌, Bytes, if◌then◌else◌, [], ◌∷◌, length, Bool, ◌≡◌, refl, arith,
}
use golang_videoencoder_api.GoStrings.{
  is_space1, is_space2, is_space3, trim_left, trim_left_reversed,
}

if_both : (b : Bool) (x y z u : Bytes) → x ≡ y → z ≡ u → (if b then x else z) ≡ (if b then y else u)
if_both b x y z u e f = rw (e, f) refl

-- A round more than there are bytes changes nothing, so the number of the bytes is fuel enough.
pub trim_left_enough : (n : ℕ) (s : Bytes) → length s ≤ n → trim_left (suc n) s ≡ trim_left n s
unfolding trim_left
trim_left_enough zero [] h = refl
trim_left_enough zero (c ∷ s) h = absurd (omega arith)
trim_left_enough (suc n) [] h = refl
trim_left_enough (suc n) (c ∷ []) h = refl
trim_left_enough (suc n) (c ∷ d ∷ []) h =
    if_both (is_space1 c) _ _ _ _ (trim_left_enough n (d ∷ []) (omega arith)) refl
trim_left_enough (suc n) (c ∷ d ∷ e ∷ s) h =
    if_both (is_space1 c) _ _ _ _ (trim_left_enough n (d ∷ e ∷ s) (omega arith)) (
      if_both (is_space2 c d) _ _ _ _ (trim_left_enough n (e ∷ s) (omega arith))
        (if_both (is_space3 c d e) _ _ _ _ (trim_left_enough n s (omega arith)) refl))

pub trim_left_reversed_enough :
    (n : ℕ) (s : Bytes) → length s ≤ n → trim_left_reversed (suc n) s ≡ trim_left_reversed n s
unfolding trim_left_reversed
trim_left_reversed_enough zero [] h = refl
trim_left_reversed_enough zero (c ∷ s) h = absurd (omega arith)
trim_left_reversed_enough (suc n) [] h = refl
trim_left_reversed_enough (suc n) (c ∷ []) h = refl
trim_left_reversed_enough (suc n) (d ∷ c ∷ []) h =
    if_both (is_space1 d) _ _ _ _ (trim_left_reversed_enough n (c ∷ []) (omega arith)) refl
trim_left_reversed_enough (suc n) (e ∷ d ∷ c ∷ s) h =
    if_both (is_space1 e) _ _ _ _ (trim_left_reversed_enough n (d ∷ c ∷ s) (omega arith)) (
      if_both (is_space2 d e) _ _ _ _ (trim_left_reversed_enough n (c ∷ s) (omega arith))
        (if_both (is_space3 c d e) _ _ _ _ (trim_left_reversed_enough n s (omega arith)) refl))
