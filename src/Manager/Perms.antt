-- ===== src/Manager/Perms.antt =====
-- Permutations of the messages that the goroutines of internal/job/manager.go hold.
use mathlib.Core.List.{Perm, perm_middle}
use mathlib.Core.List.Perm
use golang_videoencoder_api.Prelude.{List, [], ◌∷◌, ◌++◌, append-nil, append_assoc, ◌≡◌, subst}

module _ {A : Type 0} where
  -- An element moves from the front of the second list to the front of the first.
  pub perm_taken :
      (xs ys rest buffer : List A) (x : A)
      → buffer ≡ x ∷ rest
      → Perm (xs ++ ((x ∷ ys) ++ rest)) (xs ++ (ys ++ buffer))
  perm_taken xs ys rest buffer x e = rw e (Perm.append_left xs (Perm.symm (perm_middle ys rest)))

  -- An element moves from inside a list to the end of the list in front of it.
  pub perm_done :
      (xs ys before after rest : List A) (x : A)
      → ys ≡ before ++ (x ∷ after)
      → Perm ((xs ++ (x ∷ [])) ++ ((before ++ after) ++ rest)) (xs ++ (ys ++ rest))
  perm_done xs ys before after rest x e =
      rw (e, append_assoc xs (x ∷ []) ((before ++ after) ++ rest))
        (Perm.append_left xs (Perm.append_right rest (Perm.symm (perm_middle before after))))

  pub perm_new :
      (xs ys results : List A) (x : A)
      → Perm (xs ++ ys) results
      → Perm (xs ++ (x ∷ ys)) (results ++ (x ∷ []))
  perm_new xs ys results x p = Perm.trans (perm_middle xs ys) (
      Perm.trans (Perm.cons x p) (
        Perm.symm (
          subst (λ (l : List A). Perm (results ++ (x ∷ [])) (x ∷ l)) (append-nil results)
            (perm_middle results []))))
