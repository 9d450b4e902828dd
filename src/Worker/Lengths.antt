-- ===== src/Worker/Lengths.antt =====
-- A rearrangement is as long as the list. The library counts in another type of numbers.
use mathlib.Core.Nat as Unary
use mathlib.Core.List as Lists
use mathlib.Core.List.{Perm}
use mathlib.Core.List.Perm
use free_token_rs.Prelude.{ℕ, zero, suc, ◌+◌, ◌≡◌, refl, sym, ap, ◌∙◌, List, [], ◌∷◌, length}
use free_token_rs.Worker.{upto}

native : Unary.ℕ → ℕ
native Unary.zero = 0
native (Unary.suc n) = suc (native n)

length-native {ℓ} : {A : Type ℓ} (xs : List A) → length xs ≡ native (Lists.length xs)
unfolding native
length-native [] = refl
length-native (x ∷ xs) = ap suc (length-native xs)

pub length-Perm {ℓ} : {A : Type ℓ} {xs ys : List A} → Perm xs ys → length xs ≡ length ys
length-Perm {xs = xs} {ys = ys} p =
    length-native xs ∙ ap native (Perm.length-eq p) ∙ sym (length-native ys)

pub length-upto : (k n : ℕ) → length (upto k n) ≡ n
unfolding upto
length-upto k zero = refl
length-upto k (suc n) = ap suc (length-upto (k + 1) n)
