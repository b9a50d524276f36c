-- ===== src/DiskCache/Trim/Age.antt =====
-- The order in which the cleanup takes the entries.
use jellyfin_recents.Prelude.{
  ℕ, ◌≤◌, ◌≡◌, refl, ◌∙◌, subst, none, some, [], ◌∷◌, arith, leb, ◌==◌, Bool-cases, inl, inr, All,
  leb→le,
}
use jellyfin_recents.Prelude.Assoc.{Assoc, lookup, IsMap}
use jellyfin_recents.DiskCache.State.{Key, Entry, key_eq, path_eq, key_beq_iff}
use jellyfin_recents.DiskCache.Cleanup.{insert_by_age, by_age}

lookup-insert_by_age :
    (x : Key × Entry) (xs : Assoc Key Entry) (k : Key)
    → lookup x.0 xs ≡ none
    → lookup k (insert_by_age x xs) ≡ lookup k (x ∷ xs)
unfolding insert_by_age lookup
lookup-insert_by_age (j, e) [] k h = refl
lookup-insert_by_age (j, e) ((i, f) ∷ xs) k h =
    ground
      (arith, lookup-insert_by_age (j, e) xs k, key_beq_iff i j, key_beq_iff i k, key_beq_iff j k)

-- Sorting the entries loses none and changes none.
pub lookup-by_age : (m : Assoc Key Entry) (k : Key) → IsMap m → lookup k (by_age m) ≡ lookup k m
unfolding by_age lookup
lookup-by_age [] k h = refl
lookup-by_age ((j, e) ∷ m) k h =
    lookup-insert_by_age (j, e) (by_age m) k (lookup-by_age m j h.1 ∙ h.0)
    ∙ ground (arith, lookup-by_age m k h.1)

-- Each entry is at most as young as those behind it.
abbrev pub IsByAge : Assoc Key Entry → Type 0
IsByAge [] = Unit
IsByAge (x ∷ xs) = All (λ y. (x.1).written_at ≤ (y.1).written_at) xs × IsByAge xs

insert_by_age-All :
    (P : Key × Entry → Type 0) (x : Key × Entry) (xs : Assoc Key Entry)
    → P x
    → All P xs
    → All P (insert_by_age x xs)
unfolding insert_by_age
insert_by_age-All P x [] px h = (px, tt)
insert_by_age-All P x (y ∷ ys) px h = elim (Bool-cases (leb (x.1).written_at (y.1).written_at)) [
  | inl older ↦ rw (older, All) (px, h)
  | inr younger ↦ rw (younger, All) (h.0, insert_by_age-All P x ys px h.1)
]

All_le :
    (a b : ℕ) (xs : Assoc Key Entry)
    → a ≤ b
    → All (λ y. b ≤ (y.1).written_at) xs
    → All (λ y. a ≤ (y.1).written_at) xs
All_le a b [] le h = tt
All_le a b (y ∷ ys) le h = (omega (arith, h.0), All_le a b ys le h.1)

insert_by_age-IsByAge :
    (x : Key × Entry) (xs : Assoc Key Entry) → IsByAge xs → IsByAge (insert_by_age x xs)
unfolding insert_by_age
insert_by_age-IsByAge x [] h = (tt, tt)
insert_by_age-IsByAge x (y ∷ ys) h = elim (Bool-cases (leb (x.1).written_at (y.1).written_at)) [
  | inl older ↦ rw (older, IsByAge) ((leb→le _ _ older, All_le _ _ ys (leb→le _ _ older) h.0), h)
  | inr younger ↦
      rw (younger, IsByAge)
        (
          insert_by_age-All (λ z. (y.1).written_at ≤ (z.1).written_at) x ys (ground arith) h.0,
          insert_by_age-IsByAge x ys h.1,
        )
]

pub by_age-IsByAge : (m : Assoc Key Entry) → IsByAge (by_age m)
unfolding by_age
by_age-IsByAge [] = tt
by_age-IsByAge (x ∷ m) = insert_by_age-IsByAge x (by_age m) (by_age-IsByAge m)

pub All_lookup :
    (a : ℕ) (k : Key) (e : Entry) (xs : Assoc Key Entry)
    → All (λ y. a ≤ (y.1).written_at) xs
    → lookup k xs ≡ some e
    → a ≤ e.written_at
unfolding lookup
All_lookup a k e [] h found = absurd (ground arith)
All_lookup a k e ((j, f) ∷ xs) h found = elim (Bool-cases (j == k)) [
  | inl same ↦
      (let eq : some f ≡ some e = rw (lookup, same) at found in
        let same_entry : f ≡ e = cc in subst (λ (x : Entry). a ≤ x.written_at) same_entry h.0)
  | inr other ↦ All_lookup a k e xs h.1 (rw (lookup, other) at found)
]
