-- ===== src/Seek/Active.antt =====
-- The frames in memory are those of the item that is being watched: while no request of the item
-- before is pending. One that is pending puts its frame into memory after the switch.
use jellyfin_recents.Prelude.{
  ◌≡◌, refl, ap, sym, ◌∙◌, subst, true, false, Option, none, some, List, ◌∷◌, ◌++◌, ◌==◌, nat_eq,
  list_eq, list_beq_iff, Bool-cases, Option-cases, inl, inr, All, All-append, All-split,
}
use jellyfin_recents.Wire.Bytes.{Text}
use jellyfin_recents.DiskCache.State.{Key, Cache, System, key_eq, key_beq_iff}
use jellyfin_recents.DiskCache.Access.{read}
use jellyfin_recents.Server.Lru.{Lru}
use jellyfin_recents.Seek.Protocol.{Request}
use jellyfin_recents.Seek.Session.{
  CacheEntry, Decoded, cache_key, is_fetch, State, evict_on_switch, remember, from_disk,
  from_decoder,
}
use jellyfin_recents.Seek.Steps.{
  Phase, switched, missed, decoding, on_disk, decoded, Next, answered, going, Decoder, Pending,
  after_disk, ask_disk, save_decoded, advance, Serving, still, begin, begun, advanced, Run, stop,
  next, IsCalmRun,
}

module _ (L : Lru Key CacheEntry) where
  -- Every frame in memory is of the item `id`.
  pub record IsOf (id : Text) (s : State L) : Type 0 where
    pub active : s.active_item_id ≡ some id
    pub only : (k : Key) (e : CacheEntry) → L.peek k s.cache ≡ some e → k.item_id ≡ id

  -- With no active item there is no frame in memory; otherwise all are of that item.
  unfoldable pub IsClean : State L → Type 0
  IsClean s =
      ((k : Key) (e : CacheEntry) → L.peek k s.cache ≡ some e → s.active_item_id ≡ some k.item_id)

  switch-IsOf : (id : Text) (s : State L) → IsClean s → IsOf id (evict_on_switch L id s)
  unfolding evict_on_switch IsClean
  switch-IsOf id s h = elim (Option-cases s.active_item_id) [
    | inl idle ↦
        rw (idle, evict_on_switch)
          (record {
            active = refl;
            only = λ k e found.
                (let wrong : none ≡ some k.item_id = sym idle ∙ h k e found in absurd cc);
          })
    | inr (a, active) ↦ elim (Bool-cases (a == id)) [
      | inl same ↦
          rw (active, evict_on_switch, same)
            (record {
              active = active ∙ ap (λ (t : Text). some t) ((list_beq_iff a id).0 same);
              only = λ k e found.
                  (let eq : some a ≡ some k.item_id = sym active ∙ h k e found in
                    let item : a ≡ k.item_id = cc in sym item ∙ (list_beq_iff a id).0 same);
            })
      | inr other ↦
          rw (active, evict_on_switch, other)
            (record {
              active = refl;
              only = λ k e found.
                  (let wrong : none ≡ some e = sym (L.peek-empty k) ∙ found in absurd cc);
            })
    ]
  ]

  remember-IsOf :
      (id : Text) (k : Key) (e : CacheEntry) (s : State L)
      → k.item_id ≡ id
      → IsOf id s
      → IsOf id (remember L k e s)
  unfolding remember
  remember-IsOf id k e s same h = record {
    active = h.active;
    only = λ j f found. elim (Bool-cases (j == k)) [
      | inl eq ↦ ap (λ (x : Key). x.item_id) ((key_beq_iff j k).0 eq) ∙ same
      | inr ne ↦ h.only j f (
          L.peek-put_other j k e f s.cache
            (λ p. (let wrong : true ≡ false = sym ((key_beq_iff j k).1 p) ∙ ne in cc)) found)
    ];
  }

  touched-IsOf :
      (id : Text) (k : Key) (s : State L)
      → IsOf id s
      → IsOf id (record s { cache = L.touch k s.cache })
  touched-IsOf id k s h = record {
    active = h.active;
    only = λ j f found. h.only j f (sym (L.peek-touch j k s.cache) ∙ found);
  }

  after_disk-IsOf :
      (id : Text) (p : Option Text × Cache) (s : State L) → IsOf id s → IsOf id (after_disk L p s).1
  after_disk-IsOf id (none, c) s h = record { active = h.active; only = h.only }
  after_disk-IsOf id (some webp, c) s h = record { active = h.active; only = h.only }

  ask_disk-IsOf :
      (id : Text) (os : System) (r : Request) (s : State L)
      → IsOf id s
      → IsOf id (ask_disk L os r s).1
  ask_disk-IsOf id os r s h = elim (Bool-cases (is_fetch r)) [
    | inl fetch ↦
        rw (fetch, ask_disk) (after_disk-IsOf id (read os r.path (cache_key r) s.disk) s h)
    | inr prefetch ↦ rw (prefetch, ask_disk) h
  ]

  save_decoded-IsOf :
      (id : Text) (os : System) (r : Request) (d : Option Decoded) (s : State L)
      → IsOf id s
      → IsOf id (save_decoded L os r d s).1
  save_decoded-IsOf id os r none s h = h
  save_decoded-IsOf id os r (some d) s h = record { active = h.active; only = h.only }

  advance-IsOf :
      (os : System) (decode : Decoder) (r : Request) (phase : Phase) (s : State L)
      → IsOf r.item_id s
      → IsOf r.item_id (advance L os decode r phase s).1
  unfolding advance
  advance-IsOf os decode r switched s h = touched-IsOf r.item_id (cache_key r) s h
  advance-IsOf os decode r missed s h = ask_disk-IsOf r.item_id os r s h
  advance-IsOf os decode r (on_disk webp) s h =
      remember-IsOf r.item_id (cache_key r) (from_disk L webp) s refl h
  advance-IsOf os decode r decoding s h =
      save_decoded-IsOf r.item_id os r (decode r.path r.pos_ms r.width) s h
  advance-IsOf os decode r (decoded d) s h =
      remember-IsOf r.item_id (cache_key r) (from_decoder L d) s refl h

  -- Every frame in memory and every pending request is of the item `id`, which is the active one.
  pub record IsSteady (id : Text) (s : Serving L) : Type 0 where
    pub memory : IsOf id s.state
    pub requests : All (λ (p : Pending). p.0.item_id ≡ id) s.pending

  still-All :
      (id : Text) (r : Request) (n : Next)
      → r.item_id ≡ id
      → All (λ (p : Pending). p.0.item_id ≡ id) (still L r n)
  still-All id r (answered reply) e = tt
  still-All id r (going phase) e = (e, tt)

  advanced-IsSteady :
      (id : Text) (os : System) (decode : Decoder) (before after : List Pending) (r : Request)
      (phase : Phase) (s : Serving L)
      → s.pending ≡ before ++ (r, phase) ∷ after
      → IsSteady id s
      → IsSteady id (record {
        state = (advance L os decode r phase s.state).1;
        pending = before ++ (still L r (advance L os decode r phase s.state).0 ++ after);
      })
  advanced-IsSteady id os decode before after r phase s e h =
      let P : Pending → Type 0 = λ (p : Pending). p.0.item_id ≡ id in
      let (in_front, (here, behind)) =
        All-split P before ((r, phase) ∷ after) (subst (All P) e h.requests) in
      let memory : IsOf r.item_id s.state =
        subst (λ (x : Text). IsOf x s.state) (sym here) h.memory in
      record {
        memory =
            subst (λ (x : Text). IsOf x (advance L os decode r phase s.state).1) here
              (advance-IsOf os decode r phase s.state memory);
        requests = All-append P before _ in_front (
            All-append P (still L r (advance L os decode r phase s.state).0) after
              (still-All id r _ here) behind);
      }

  IsSteady-IsClean : (id : Text) (s : Serving L) → IsSteady id s → IsClean s.state
  unfolding IsClean
  IsSteady-IsClean id s h k e found =
      h.memory.active ∙ ap (λ (t : Text). some t) (sym (h.memory.only k e found))

  begin-IsSteady :
      (id : Text) (r : Request) (s : Serving L)
      → All (λ (p : Pending). p.0.item_id ≡ r.item_id) s.pending
      → IsSteady id s
      → IsSteady r.item_id (begin L r s)
  unfolding begin
  begin-IsSteady id r s calm h = record {
    memory = switch-IsOf r.item_id s.state (IsSteady-IsClean id s h);
    requests = (refl, calm);
  }

  -- However the steps of requests interleave, as long as a request begins only while all that are
  -- pending are of its own item: from a state where every frame in memory and every pending request
  -- is of one item, the active one, this stays true, of the item that is then active. So the frames
  -- of an item that was watched before are gone.
  pub run-IsSteady :
      (a b : Serving L) (r : Run L a b) (id : Text)
      → IsCalmRun L a b r
      → IsSteady id a
      → (now : Text) × IsSteady now b
  unfolding IsCalmRun
  run-IsSteady _ _ (stop s) id u h = (id, h)
  run-IsSteady _ _ (next _ _ c (begun r s) rest) id u h =
      run-IsSteady _ c rest r.item_id u.1 (begin-IsSteady id r s u.0 h)
  run-IsSteady _ _ (next _ _ c (advanced os decode before after r phase s e) rest) id u h =
      run-IsSteady _ c rest id u.1 (advanced-IsSteady id os decode before after r phase s e h)

  evict-active : (id : Text) (s : State L) → (evict_on_switch L id s).active_item_id ≡ some id
  unfolding evict_on_switch
  evict-active id s = elim (Option-cases s.active_item_id) [
    | inl idle ↦ rw (idle, evict_on_switch) refl
    | inr (a, active) ↦ elim (Bool-cases (a == id)) [
      | inl same ↦
          rw (active, evict_on_switch, same)
            (active ∙ ap (λ (t : Text). some t) ((list_beq_iff a id).0 same))
      | inr other ↦ rw (active, evict_on_switch, other) refl
    ]
  ]

  -- A request that has been decoded while another connection switched to another item puts its frame
  -- into memory all the same: the frame is there although its item is no longer the active one.
  pub late_frame :
      (os : System) (decode : Decoder) (r : Request) (d : Decoded) (id : Text) (s : State L)
      → ¬ (r.item_id ≡ id)
      → let late = (advance L os decode r (decoded d) (evict_on_switch L id s)).1 in
        (late.active_item_id ≡ some id)
        × (L.peek (cache_key r) late.cache ≡ some (from_decoder L d))
        × ¬ IsClean late
  unfolding advance remember IsClean
  late_frame os decode r d id s other =
      let there = L.peek-put (cache_key r) (from_decoder L d) (evict_on_switch L id s).cache in
      (
        evict-active id s,
        there,
        λ clean.
            (let same : some id ≡ some r.item_id =
                sym (evict-active id s) ∙ clean (cache_key r) (from_decoder L d) there in
              other cc),
      )
