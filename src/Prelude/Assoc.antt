-- ===== src/Prelude/Assoc.antt =====
-- `HashMap` as an association list with an equality test on its keys. The program never depends on
-- the order in which a map is walked, except where a caller sorts the keys first.
use jellyfin_recents.Prelude.Lists.{keep}
use jellyfin_recents.Prelude.Tests.{if◌then◌else◌, Bool-cases}
use jellyfin_recents.Prelude.Classes.{Eq, ◌==◌, beq_refl}
use Prim.Native.Nat.{ℕ, ◌+◌}
use mathlib.Core.Path.{◌≡◌, refl}
use mathlib.Core.Logic.{inl, inr}
use mathlib.Core.Bool.{Bool, true, false}
use mathlib.Core.Option.{Option, none, some}
use mathlib.Core.List.{List, [], ◌∷◌}
use native.Mathlib.Omega.{arith}

abbrev pub Assoc {ℓ} : Type ℓ → Type ℓ → Type ℓ
Assoc K V = List (K × V)

module _ {ℓ} {K V : Type ℓ} ⦃e : Eq K⦄ where
  unfoldable pub lookup : K → Assoc K V → Option V
  lookup k [] = none
  lookup k ((key, value) ∷ rest) = if key == k then some value else lookup k rest

  unfoldable pub remove : K → Assoc K V → Assoc K V
  remove k [] = []
  remove k ((j, v) ∷ m) = let rest = remove k m in if j == k then rest else (j, v) ∷ rest

  unfoldable pub insert : K → V → Assoc K V → Assoc K V
  insert k v m = (k, v) ∷ remove k m

  unfoldable pub contains : K → Assoc K V → Bool
  contains k [] = false
  contains k ((j, v) ∷ m) = if j == k then true else contains k m

  pub lookup-remove :
      (k j : K) (m : Assoc K V) → lookup j (remove k m) ≡ (if k == j then none else lookup j m)
  unfolding lookup remove
  lookup-remove k j [] = ground arith
  lookup-remove k j ((i, v) ∷ m) =
      ground (arith, lookup-remove k j m, e.beq_iff i k, e.beq_iff i j, e.beq_iff k j)

  pub lookup-insert :
      (k j : K) (v : V) (m : Assoc K V)
      → lookup j (insert k v m) ≡ (if k == j then some v else lookup j m)
  unfolding lookup insert
  lookup-insert k j v m = ground (arith, lookup-remove k j m)

  pub contains-remove :
      (k j : K) (m : Assoc K V) → contains k m ≡ false → contains k (remove j m) ≡ false
  unfolding contains remove
  contains-remove k j [] h = h
  contains-remove k j ((i, v) ∷ m) h = ground (arith, contains-remove k j m)

  pub contains_of_lookup :
      (k : K) (v : V) (m : Assoc K V) → lookup k m ≡ some v → contains k m ≡ true
  unfolding contains lookup
  contains_of_lookup k v [] h = ground arith
  contains_of_lookup k v ((i, w) ∷ m) h = ground (arith, contains_of_lookup k v m)

  -- No key stands twice.
  abbrev pub IsMap : Assoc K V → Type ℓ
  IsMap [] = Unit
  IsMap ((k, v) ∷ m) = (lookup k m ≡ none) × IsMap m

  pub remove-absent : (k : K) (m : Assoc K V) → lookup k m ≡ none → remove k m ≡ m
  unfolding lookup remove
  remove-absent k [] h = refl
  remove-absent k ((j, v) ∷ m) h = ground (arith, remove-absent k m)

  pub remove-IsMap : (k : K) (m : Assoc K V) → IsMap m → IsMap (remove k m)
  unfolding remove
  remove-IsMap k [] h = tt
  remove-IsMap k ((j, v) ∷ m) h = elim (Bool-cases (j == k)) [
    | inl same ↦ rw same (remove-IsMap k m h.1)
    | inr other ↦ rw other (ground (arith, lookup-remove k j m), remove-IsMap k m h.1)
  ]

  pub insert-IsMap : (k : K) (v : V) (m : Assoc K V) → IsMap m → IsMap (insert k v m)
  unfolding insert
  insert-IsMap k v m h = (rw (lookup-remove k k m, beq_refl k), remove-IsMap k m h)

  pub remove-lookup-none : (k : K) (m : Assoc K V) → lookup k (remove k m) ≡ none
  remove-lookup-none k m = rw (lookup-remove k k m, beq_refl k)

  -- What a part of a map finds, the map finds.
  abbrev pub IsPart : Assoc K V → Assoc K V → Type ℓ
  IsPart p m = (k : K) (v : V) → lookup k p ≡ some v → lookup k m ≡ some v

  pub remove-IsPart : (k : K) (m : Assoc K V) → IsPart (remove k m) m
  remove-IsPart k m j v found = elim (Bool-cases (k == j)) [
    | inl same ↦ (let wrong : none ≡ some v = rw (lookup-remove k j m, same) at found in absurd cc)
    | inr other ↦ rw (lookup-remove k j m, other) at found
  ]

  pub keep-IsPart : (f : K × V → Bool) (m : Assoc K V) → IsMap m → IsPart (keep f m) m
  unfolding lookup
  keep-IsPart f [] h k v found = found
  keep-IsPart f ((j, w) ∷ m) h k v found =
      ground (arith, keep-IsPart f m h.1 k v, e.beq_iff j k, h.0)

  pub keep-lookup-none :
      (f : K × V → Bool) (m : Assoc K V) (k : K) → lookup k m ≡ none → lookup k (keep f m) ≡ none
  unfolding lookup
  keep-lookup-none f [] k h = h
  keep-lookup-none f ((j, w) ∷ m) k h = ground (arith, keep-lookup-none f m k)

  pub keep-IsMap : (f : K × V → Bool) (m : Assoc K V) → IsMap m → IsMap (keep f m)
  keep-IsMap f [] h = tt
  keep-IsMap f ((j, w) ∷ m) h = elim (Bool-cases (f (j, w))) [
    | inl kept ↦ rw (kept, IsMap) (keep-lookup-none f m j h.0, keep-IsMap f m h.1)
    | inr left ↦ rw left (keep-IsMap f m h.1)
  ]

  -- The rest of a part is a part of the map without the first key.
  pub tail-IsPart :
      (k : K) (v : V) (p m : Assoc K V)
      → IsMap ((k, v) ∷ p)
      → IsPart ((k, v) ∷ p) m
      → (lookup k m ≡ some v) × IsPart p (remove k m)
  unfolding lookup
  tail-IsPart k v p m h part = (
    part k v (rw (beq_refl k)),
    λ j w found. rw (lookup-remove k j m) (ground (arith, part j w, e.beq_iff k j, h.0)),
  )

  module _ (size : V → ℕ) where
    unfoldable pub sum_of : Assoc K V → ℕ
    sum_of [] = 0
    sum_of ((k, v) ∷ m) = size v + sum_of m

    pub sum_of-remove :
        (k : K) (v : V) (m : Assoc K V)
        → IsMap m
        → lookup k m ≡ some v
        → sum_of (remove k m) + size v ≡ sum_of m
    unfolding sum_of lookup remove
    sum_of-remove k v [] h found = absurd (ground arith)
    sum_of-remove k v ((j, w) ∷ m) h found = elim (Bool-cases (j == k)) [
      | inl same ↦
          rw same
            (ground (arith, e.beq_iff j k, remove-absent k m (rw ((e.beq_iff j k).0 same) at h.0)))
      | inr other ↦ rw other (ground (arith, sum_of-remove k v m h.1))
    ]
