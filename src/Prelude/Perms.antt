-- ===== src/Prelude/Perms.antt =====
-- Rearrangements of lists that are taken from and appended to.
use Prim.Native.Nat.{ℕ, suc}
use mathlib.Core.Nat
use mathlib.Core.Path.{◌≡◌, refl, sym, ap, ◌∙◌}
use mathlib.Core.List
use mathlib.Core.List.{List, [], ◌∷◌, ◌++◌, append_assoc, Perm, perm_middle}
use mathlib.Core.List.Perm
use log_foundry.Prelude.Lists.{length}

-- The library's numbers as native ones.
native : Nat.ℕ → ℕ
native Nat.zero = 0
native (Nat.suc n) = suc (native n)

module _ {ℓ} {A : Type ℓ} where
  -- An element moves to the end of the first list.
  pub Perm-move :
      (x before after : List A) (e : A) {t : List A}
      → Perm (x ++ (before ++ e ∷ after)) t
      → Perm ((x ++ e ∷ []) ++ (before ++ after)) t
  Perm-move x before after e p =
      Perm.trans (rw append_assoc (Perm.append_left x (Perm.symm (perm_middle before after)))) p

  -- The first element of the last list moves into the one before.
  pub Perm-take :
      (x before after queue : List A) (e : A) {t : List A}
      → Perm (x ++ ((before ++ after) ++ e ∷ queue)) t
      → Perm (x ++ ((before ++ e ∷ after) ++ queue)) t
  Perm-take x before after queue e p =
      Perm.trans
        (Perm.append_left x (
          Perm.trans
            (rw (append_assoc before (e ∷ after) queue, append_assoc before after queue)
              (perm_middle before (after ++ queue)))
            (Perm.symm (perm_middle (before ++ after) queue))))
        p

  pub Perm-answer :
      (x before after queue : List A) (e : A) {t : List A}
      → Perm (x ++ ((before ++ e ∷ after) ++ queue)) t
      → Perm ((x ++ e ∷ []) ++ ((before ++ after) ++ queue)) t
  Perm-answer x before after queue e p =
      rw (append_assoc before after queue)
        (Perm-move x before (after ++ queue) e (rw (append_assoc before (e ∷ after) queue) at p))

  length-native : (xs : List A) → length xs ≡ native (List.length xs)
  unfolding native
  length-native [] = refl
  length-native (x ∷ xs) = ap suc (length-native xs)

  pub length-perm : {xs ys : List A} → Perm xs ys → length xs ≡ length ys
  length-perm {xs} {ys} p = length-native xs ∙ ap native (Perm.length-eq p) ∙ sym (length-native ys)
