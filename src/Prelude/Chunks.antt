-- ===== src/Prelude/Chunks.antt =====
-- `chunks` of a slice, and `concat`.
use Prim.Native.Nat.{ℕ, zero, suc, ◌-◌, ◌≤◌, ◌<◌}
use mathlib.Core.Path.{◌≡◌, refl, ap, sym, ◌∙◌}
use mathlib.Core.List.{List, [], ◌∷◌, ◌++◌}
use native.Mathlib.Omega.{arith}
use jellyfin_recents.Prelude.Lists.{
  length, take, drop, take-append-drop, take_append_self, drop_append_self,
}

module _ {ℓ} {A : Type ℓ} where
  pub length-drop : (n : ℕ) (xs : List A) → length (drop n xs) ≡ length xs - n
  length-drop zero xs = omega arith
  length-drop (suc n) [] = omega arith
  length-drop (suc n) (x ∷ xs) = omega (arith, length-drop n xs)

  abbrev pub concat : List (List A) → List A
  concat [] = []
  concat (xs ∷ xss) = xs ++ concat xss

  -- With fuel for one chunk more than there are.
  unfoldable pub chunks_on : ℕ → ℕ → List A → List (List A)
  chunks_on fuel size [] = []
  chunks_on zero size (x ∷ xs) = []
  chunks_on (suc fuel) size (x ∷ xs) = take size (x ∷ xs) ∷ chunks_on fuel size (drop size (x ∷ xs))

  -- Every chunk has at least one element, so that the length is enough.
  unfoldable pub chunks : ℕ → List A → List (List A)
  chunks size xs = chunks_on (length xs) size xs

  -- More fuel than the length does not change the chunks.
  chunks_on-enough :
      (fuel more size : ℕ) (xs : List A)
      → 0 < size
      → length xs ≤ fuel
      → fuel ≤ more
      → chunks_on fuel size xs ≡ chunks_on more size xs
  unfolding chunks_on
  chunks_on-enough fuel more size [] s h m = refl
  chunks_on-enough zero more size (x ∷ xs) s h m = absurd (omega arith)
  chunks_on-enough (suc fuel) zero size (x ∷ xs) s h m = absurd (omega arith)
  chunks_on-enough (suc fuel) (suc more) size (x ∷ xs) s h m = ap (◌∷◌ (take size (x ∷ xs))) (
      chunks_on-enough fuel more size (drop size (x ∷ xs)) s
        (omega (arith, length-drop size (x ∷ xs))) (omega arith))

  pub chunks-first :
      (size : ℕ) (x : A) (xs : List A)
      → 0 < size
      → chunks size (x ∷ xs) ≡ take size (x ∷ xs) ∷ chunks size (drop size (x ∷ xs))
  unfolding chunks chunks_on
  chunks-first size x xs s = ap (◌∷◌ (take size (x ∷ xs))) (
      sym (
        chunks_on-enough (length (drop size (x ∷ xs))) (length xs) size (drop size (x ∷ xs)) s
          (omega arith) (omega (arith, length-drop size (x ∷ xs)))))

  pub chunks_nil : (size : ℕ) → chunks size [] ≡ []
  unfolding chunks chunks_on
  chunks_nil size = refl

  take_prefix : (n : ℕ) (xs ys : List A) → length xs ≡ n → take n (xs ++ ys) ≡ xs
  take_prefix n xs ys h = rw (sym h) (take_append_self xs ys)

  drop_prefix : (n : ℕ) (xs ys : List A) → length xs ≡ n → drop n (xs ++ ys) ≡ ys
  drop_prefix n xs ys h = rw (sym h) (drop_append_self xs ys)

  pub chunks_full :
      (size : ℕ) (c xs : List A)
      → 0 < size
      → length c ≡ size
      → chunks size (c ++ xs) ≡ c ∷ chunks size xs
  chunks_full size [] xs s h = absurd (omega arith)
  chunks_full size (x ∷ c) xs s h =
      chunks-first size x (c ++ xs) s
      ∙ (rw (take_prefix size (x ∷ c) xs h, drop_prefix size (x ∷ c) xs h))

  pub take_all : (n : ℕ) (xs : List A) → length xs ≤ n → take n xs ≡ xs
  take_all zero [] h = refl
  take_all (suc n) [] h = refl
  take_all zero (x ∷ xs) h = absurd (omega arith)
  take_all (suc n) (x ∷ xs) h = ap (◌∷◌ x) (take_all n xs (omega arith))

  drop_all : (n : ℕ) (xs : List A) → length xs ≤ n → drop n xs ≡ []
  drop_all zero [] h = refl
  drop_all (suc n) [] h = refl
  drop_all zero (x ∷ xs) h = absurd (omega arith)
  drop_all (suc n) (x ∷ xs) h = drop_all n xs (omega arith)

  pub chunks_last :
      (size : ℕ) (x : A) (c : List A) → length (x ∷ c) ≤ size → chunks size (x ∷ c) ≡ (x ∷ c) ∷ []
  unfolding chunks chunks_on
  chunks_last size x c h =
      chunks-first size x c (omega arith) ∙ (rw (take_all size (x ∷ c) h, drop_all size (x ∷ c) h))

  -- The chunks, one after the other, are the list.
  concat-chunks_on :
      (fuel size : ℕ) (xs : List A)
      → 0 < size
      → length xs ≤ fuel
      → concat (chunks_on fuel size xs) ≡ xs
  unfolding chunks_on
  concat-chunks_on fuel size [] s h = refl
  concat-chunks_on zero size (x ∷ xs) s h = absurd (omega arith)
  concat-chunks_on (suc fuel) size (x ∷ xs) s h =
      ap (◌++◌ (take size (x ∷ xs))) (
        concat-chunks_on fuel size (drop size (x ∷ xs)) s
          (omega (arith, length-drop size (x ∷ xs))))
      ∙ take-append-drop size (x ∷ xs)

  pub concat-chunks : (size : ℕ) (xs : List A) → 0 < size → concat (chunks size xs) ≡ xs
  unfolding chunks
  concat-chunks size xs s = concat-chunks_on (length xs) size xs s (omega arith)

  pub take-append-within : (n : ℕ) (xs ys : List A) → n ≤ length xs → take n (xs ++ ys) ≡ take n xs
  take-append-within zero xs ys h = refl
  take-append-within (suc n) [] ys h = absurd (omega arith)
  take-append-within (suc n) (x ∷ xs) ys h = ap (◌∷◌ x) (take-append-within n xs ys (omega arith))
