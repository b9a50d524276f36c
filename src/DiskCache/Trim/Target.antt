-- ===== src/DiskCache/Trim/Target.antt =====
-- What the cleanup reaches, and in which order.
use jellyfin_recents.Prelude.{
  ◌≤◌, ◌<◌, ◌≡◌, refl, ap, sym, ◌∙◌, true, false, ◌⊎◌, none, some, [], ◌∷◌, arith, leb, ◌==◌,
  Bool-cases, inl, inr, leb→le,
}
use jellyfin_recents.Prelude.Assoc.{Assoc, lookup, contains, contains_of_lookup, IsMap}
use jellyfin_recents.DiskCache.State.{Key, Entry, Cache, System, key_eq, path_eq}
use jellyfin_recents.DiskCache.Files.{remove_file, save_index, remove_empty_folders}
use jellyfin_recents.DiskCache.Cleanup.{trim_target, by_age, evict, evict_all, flush, cleanup}
use jellyfin_recents.DiskCache.Trim.Stuck.{
  IsStuck, evict_all-IsPart, same_turn, evict_all_lem, evict_other,
}
use jellyfin_recents.DiskCache.Trim.Age.{lookup-by_age, IsByAge, by_age-IsByAge, All_lookup}

-- What cleanup does after the loop touches no entry, no count and no frame's file.
cleanup_high :
    (os : System) (c : Cache)
    → leb c.index.total_bytes trim_target ≡ false
    → ((cleanup os c).index ≡ (evict_all os (by_age c.index.entries) c).index)
      × ((k : Key) (e : Entry)
          → IsStuck os (evict_all os (by_age c.index.entries) c) k e
          → IsStuck os (cleanup os c) k e)
unfolding cleanup flush save_index remove_empty_folders remove_file
cleanup_high os c high = rw high (refl, λ k e h. ground arith)

due_lem :
    (os : System) (c : Cache) (k : Key) (e : Entry)
    → IsMap c.index.entries
    → lookup k (evict_all os (by_age c.index.entries) c).index.entries ≡ some e
    → contains k (by_age c.index.entries) ≡ true
due_lem os c k e hm there =
    contains_of_lookup k e (by_age c.index.entries) (
      lookup-by_age c.index.entries k hm ∙ evict_all-IsPart os (by_age c.index.entries) c k e there)

-- The count is at three quarters of the cap or below, or no entry's file can be removed.
unfoldable pub IsTrimmed : System → Cache → Type 0
IsTrimmed os c =
    (c.index.total_bytes ≤ trim_target)
    ⊎ ((k : Key) (e : Entry) → lookup k c.index.entries ≡ some e → IsStuck os c k e)

cleanup_target_high :
    (os : System) (c : Cache)
    → IsMap c.index.entries
    → leb c.index.total_bytes trim_target ≡ false
    → IsTrimmed os (cleanup os c)
unfolding IsTrimmed
cleanup_target_high os c hm high =
    let (same, stuck) = cleanup_high os c high in
    elim (evict_all_lem os (by_age c.index.entries) c) [
      | inl reached ↦ inl (rw same reached)
      | inr due ↦ inr (λ k e there.
          let there' : lookup k (evict_all os (by_age c.index.entries) c).index.entries ≡ some e =
            rw same at there in
          stuck k e (due k e (due_lem os c k e hm there') there'))
    ]

-- After a cleanup of an index with distinct keys the count is at three quarters of the cap or
-- below, or else the file of every entry that is left cannot be removed.
pub cleanup_target : (os : System) (c : Cache) → IsMap c.index.entries → IsTrimmed os (cleanup os c)
unfolding IsTrimmed cleanup
cleanup_target os c hm = elim (Bool-cases (leb c.index.total_bytes trim_target)) [
  | inl low ↦ rw (cleanup, low) (inl (leb→le _ _ low))
  | inr high ↦ cleanup_target_high os c hm high
]

evicted_is_oldest :
    (os : System) (xs : Assoc Key Entry) (c : Cache) (k j : Key) (e f : Entry)
    → IsByAge xs
    → lookup k xs ≡ some e
    → lookup j xs ≡ some f
    → lookup k c.index.entries ≡ some e
    → lookup k (evict_all os xs c).index.entries ≡ none
    → lookup j (evict_all os xs c).index.entries ≡ some f
    → f.written_at < e.written_at
    → IsStuck os (evict_all os xs c) j f
unfolding evict_all lookup
evicted_is_oldest os [] c k j e f sorted hk hj there gone left older = absurd cc
evicted_is_oldest os ((i, g) ∷ xs) c k j e f sorted hk hj there gone left older =
    elim (Bool-cases (leb c.index.total_bytes trim_target)) [
      | inl low ↦
          (let kept : lookup k c.index.entries ≡ none = rw (evict_all, low) at gone in
            let wrong : none ≡ some e = sym kept ∙ there in absurd cc)
      | inr high ↦ elim (Bool-cases (i == j)) [
        | inl same ↦
            rw (evict_all, high) (same_turn os i j xs c f same (rw (evict_all, high) at left))
        | inr other ↦ elim (Bool-cases (i == k)) [
          | inl first ↦
              (let eq : some g ≡ some e = rw (lookup, first) at hk in
                let same_entry : g ≡ e = cc in
                let later : g.written_at ≤ f.written_at =
                  All_lookup g.written_at j f xs sorted.0 (rw (lookup, other) at hj) in
                absurd (omega (arith, later, older, ap (λ (x : Entry). x.written_at) same_entry)))
          | inr later ↦
              rw (evict_all, high)
                (evicted_is_oldest os xs (evict os i c) k j e f sorted.1 (rw (lookup, later) at hk)
                  (rw (lookup, other) at hj) (evict_other os i k c later ∙ there)
                  (rw (evict_all, high) at gone) (rw (evict_all, high) at left) older)
        ]
      ]
    ]

-- The cleanup of an index with distinct keys evicts the oldest first: where it evicted an entry
-- and left an older one, the file of the older one cannot be removed.
pub cleanup_oldest_first :
    (os : System) (c : Cache) (k j : Key) (e f : Entry)
    → IsMap c.index.entries
    → lookup k c.index.entries ≡ some e
    → lookup j c.index.entries ≡ some f
    → lookup k (cleanup os c).index.entries ≡ none
    → lookup j (cleanup os c).index.entries ≡ some f
    → f.written_at < e.written_at
    → IsStuck os (cleanup os c) j f
unfolding cleanup
cleanup_oldest_first os c k j e f hm hk hj gone left older =
    elim (Bool-cases (leb c.index.total_bytes trim_target)) [
      | inl low ↦
          (let kept : lookup k c.index.entries ≡ none = rw (cleanup, low) at gone in
            let wrong : none ≡ some e = sym kept ∙ hk in absurd cc)
      | inr high ↦
          (let m = c.index.entries in
            let (same, stuck) = cleanup_high os c high in
            stuck j f (
              evicted_is_oldest os (by_age m) c k j e f (by_age-IsByAge m)
                (lookup-by_age m k hm ∙ hk) (lookup-by_age m j hm ∙ hj) hk (rw same at gone)
                (rw same at left) older))
    ]
