-- ===== src/Forge/Tiles.antt =====
-- The tiles of crates/frame-forge/src/upscale.rs: `tile_origins` along one axis, and the pixels
-- that `extract_tile` reads. The lengths of a picture are far from the end of u32, so that sums do
-- not wrap.
use jellyfin_recents.Prelude.{
  ℕ, zero, suc, ◌+◌, ◌-◌, ◌*◌, ◌≤◌, ◌<◌, ◌≡◌, true, false, List, [], ◌∷◌, arith, min, leb, ltb,
  ltb→lt, if◌then◌else◌, Bool-cases, inl, inr, ◌⊎◌, All, Option, some, none,
}

-- The loop, on fuel; none where it runs out.
unfoldable pub origins_on : ℕ → ℕ → ℕ → ℕ → ℕ → Option (List ℕ)
origins_on zero len tile step x = none
origins_on (suc fuel) len tile step x = elim (leb len (x + tile)) [
  | true ↦ some (x ∷ [])
  | false ↦ elim (origins_on fuel len tile step (min (x + step) (len - tile))) [
    | none ↦ none
    | some rest ↦ some (x ∷ rest)
  ]
]

-- Each round moves on by at least one, so that the length is fuel enough.
unfoldable pub tile_origins : ℕ → ℕ → ℕ → Option (List ℕ)
tile_origins len tile step = if leb len tile then some (0 ∷ []) else origins_on len len tile step 0

-- The source pixel of a tile's pixel, along one axis.
unfoldable pub source_pixel : ℕ → ℕ → ℕ → ℕ
source_pixel src origin d = min (origin + d) (src - 1)

-- The origins from one on: they go up by at least one and at most the step, and the last tile ends
-- at the end.
pub data IsTiling (len tile step : ℕ) : ℕ → List ℕ → Type 0 where
  last : (x : ℕ) → x + tile ≡ len → IsTiling len tile step x (x ∷ [])
  more :
      (x y : ℕ) (xs : List ℕ)
      → x < y
      → y ≤ x + step
      → y + tile ≤ len
      → IsTiling len tile step y xs
      → IsTiling len tile step x (x ∷ xs)

origins_on-IsTiling :
    (fuel len tile step x : ℕ)
    → 0 < step
    → x + tile ≤ len
    → len - x ≤ fuel
    → 0 < tile
    → (xs : List ℕ) × (origins_on fuel len tile step x ≡ some xs) × IsTiling len tile step x xs
unfolding origins_on
origins_on-IsTiling zero len tile step x s inside f p = absurd (omega (arith, f, p))
origins_on-IsTiling (suc fuel) len tile step x s inside f p =
    elim (Bool-cases (leb len (x + tile))) [
      | inl at_end ↦ (x ∷ [], rw (at_end, origins_on), last x (ground (arith, at_end, inside)))
      | inr before ↦
          (let y = min (x + step) (len - tile) in
            let less : x + tile < len = ground (arith, before) in
            let (xs, e, tiling) =
              origins_on-IsTiling fuel len tile step y s (omega (arith, less))
                (omega (arith, less, f, s)) (omega (arith, less)) in
            (
              x ∷ xs,
              rw (before, origins_on, e),
              more x y xs (omega (arith, less, s)) (omega arith) (omega (arith, less)) tiling,
            ))
    ]

-- One of the tiles covers a place.
abbrev pub Covers : ℕ → ℕ → List ℕ → Type 0
Covers tile p [] = ⊥
Covers tile p (x ∷ xs) = ((x ≤ p) × (p < x + tile)) ⊎ Covers tile p xs

tiling-Covers :
    (len tile step x p : ℕ) (xs : List ℕ)
    → IsTiling len tile step x xs
    → step ≤ tile
    → x ≤ p
    → p < len
    → Covers tile p xs
tiling-Covers len tile step _ p _ (last x e) s a b = inl (a, omega (arith, e, b))
tiling-Covers len tile step _ p _ (more x y xs less near inside rest) s a b =
    elim (Bool-cases (ltb p (x + tile))) [
      | inl here ↦ inl (a, ltb→lt _ _ here)
      | inr later ↦
          (let behind : x + tile ≤ p = ground (arith, later) in
            inr (tiling-Covers len tile step y p xs rest s (omega (arith, near, s, behind)) b))
    ]

tiling-All :
    (len tile step x : ℕ) (xs : List ℕ)
    → IsTiling len tile step x xs
    → x + tile ≤ len
    → All (λ (y : ℕ). y + tile ≤ len) xs
tiling-All len tile step _ _ (last x e) i = (i, tt)
tiling-All len tile step _ _ (more x y xs less near inside rest) i =
    (i, tiling-All len tile step y xs rest inside)

-- For a length greater than the tile, and a tile longer than twice the overlap: the loop ends, the
-- origins begin at 0, go up by at most the tile less the overlap, and every tile lies inside, the
-- last one up to the end; any place of the length is covered.
pub tile_origins_lem :
    (len tile overlap p : ℕ)
    → overlap * 2 < tile
    → tile < len
    → p < len
    → (xs : List ℕ) × (tile_origins len tile (tile - overlap) ≡ some xs)
      × IsTiling len tile (tile - overlap) 0 xs
      × All (λ (x : ℕ). x + tile ≤ len) xs
      × Covers tile p xs
unfolding tile_origins
tile_origins_lem len tile overlap p o l b =
    let long : leb len tile ≡ false = ground (arith, l) in
    let (xs, e, tiling) =
      origins_on-IsTiling len len tile (tile - overlap) 0 (omega (arith, o)) (omega (arith, l))
        (omega arith) (omega (arith, o)) in
    (
      xs,
      rw (long, e),
      tiling,
      tiling-All len tile (tile - overlap) 0 xs tiling (omega (arith, l)),
      tiling-Covers len tile (tile - overlap) 0 p xs tiling (omega arith) (omega arith) b,
    )
