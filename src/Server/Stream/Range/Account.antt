-- ===== src/Server/Stream/Range/Account.antt =====
-- Every frame of a prefetch range is reported once.
use jellyfin_recents.Prelude.{
  ℕ, suc, ◌+◌, ◌≡◌, refl, ap, ◌∙◌, Bool, true, false, Bool-cases, inl, inr, Option, none, some,
  List, [], ◌∷◌, ◌++◌, arith, if◌then◌else◌, length, map, length-append,
}
use mathlib.Core.List.{append_assoc, append-nil, Perm, perm_middle}
use mathlib.Core.List.Perm
use jellyfin_recents.Prelude.Int.{ℤ}
use jellyfin_recents.Wire.Bytes.{Text}
use jellyfin_recents.Wire.Requests.Types.{PrefetchRangeStreamReq}
use jellyfin_recents.DiskCache.State.{System}
use jellyfin_recents.Server.Lru.{Lru}
use jellyfin_recents.Server.FrameIndex.{FrameIndex}
use jellyfin_recents.Server.Daemon.{RamKey, Decoded}
use jellyfin_recents.Server.Stream.Range.{
  Event, frame_ready, frame_failed, all_done, Decoders, Target, nearer, pick, take_nearest, Work,
  is_cached, scan_frame, scan, report_failed, report_ready, ready_event, anchor_result, do_anchor,
  frame_result,
}

-- The numbers of the frames that events report.
unfoldable pub numbers : List Event → List ℤ
numbers [] = []
numbers (frame_ready fi thumb orig ∷ es) = fi ∷ numbers es
numbers (frame_failed fi ∷ es) = fi ∷ numbers es
numbers (all_done hits decoded failed ∷ es) = numbers es

pub numbers-append : (xs ys : List Event) → numbers (xs ++ ys) ≡ numbers xs ++ numbers ys
unfolding numbers
numbers-append [] ys = refl
numbers-append (frame_ready fi thumb orig ∷ es) ys = ap (◌∷◌ fi) (numbers-append es ys)
numbers-append (frame_failed fi ∷ es) ys = ap (◌∷◌ fi) (numbers-append es ys)
numbers-append (all_done hits decoded failed ∷ es) ys = numbers-append es ys

abbrev pub frame_numbers : List Target → List ℤ
frame_numbers fs = map (λ (f : Target). f.0) fs

frame_numbers-append :
    (xs ys : List Target) → frame_numbers (xs ++ ys) ≡ frame_numbers xs ++ frame_numbers ys
frame_numbers-append [] ys = refl
frame_numbers-append (x ∷ xs) ys = ap (◌∷◌ x.0) (frame_numbers-append xs ys)

-- Taking the nearest frame out loses none.
abbrev pub IsPick : List Target → Option (Target × List Target) → Type 0
IsPick xs none = xs ≡ []
IsPick xs (some (y, rest)) =
    Perm (frame_numbers xs) (y.0 ∷ frame_numbers rest)
    × (length (frame_numbers xs) ≡ suc (length (frame_numbers rest)))

pick-IsPick :
    (anchor : ℤ) (x : Target) (xs : List Target) (t : Option (Target × List Target))
    → IsPick xs t
    → IsPick (x ∷ xs) (some (pick anchor x xs t))
pick-IsPick anchor x xs none h = (Perm.rfl, refl)
pick-IsPick anchor x xs (some (y, rest)) h = elim (Bool-cases (nearer anchor x (y, rest))) [
  | inl near ↦
      rw near (
        Perm.trans (Perm.cons x.0 h.0) (Perm.swap y.0 x.0 (frame_numbers rest)),
        omega (arith, h.1),
      )
  | inr far ↦ rw far (Perm.rfl, refl)
]

pub take_nearest-IsPick : (anchor : ℤ) (xs : List Target) → IsPick xs (take_nearest anchor xs)
unfolding take_nearest
take_nearest-IsPick anchor [] = refl
take_nearest-IsPick anchor (x ∷ xs) =
    pick-IsPick anchor x xs (take_nearest anchor xs) (take_nearest-IsPick anchor xs)

module _ (R : Lru RamKey Text) (L : Lru Text FrameIndex) (os : System) (d : Decoders)
    (req : PrefetchRangeStreamReq) where
  abbrev pub total : Work R L os d req → ℕ
  total w = w.cache_hits + w.decoded + w.failed

  -- The frames of `all` are those reported and those pending, and the counts are of the former.
  pub record IsAccount (all : List ℤ) (pending : List ℤ) (w : Work R L os d req) : Type 0 where
    pub frames : Perm (numbers w.events ++ pending) all
    pub counts : total w + length pending ≡ length all

  reported :
      (all a b : List ℤ) (fi : ℤ) (e : Event) (w w' : Work R L os d req)
      → numbers (e ∷ []) ≡ fi ∷ []
      → w'.events ≡ w.events ++ e ∷ []
      → total w' ≡ suc (total w)
      → IsAccount all (a ++ fi ∷ b) w
      → IsAccount all (a ++ b) w'
  reported all a b fi e w w' ne ee te h =
      let ns = numbers w.events in
      let ns' : numbers w'.events ≡ ns ++ fi ∷ [] =
        ap numbers ee ∙ numbers-append w.events (e ∷ []) ∙ ap (◌++◌ ns) ne in
      record {
        frames =
            rw (ns', append_assoc ns (fi ∷ []) (a ++ b))
              (Perm.trans (Perm.append_left ns (Perm.symm (perm_middle a b))) h.frames);
        counts = omega (arith, te, h.counts, length-append a (fi ∷ b), length-append a b);
      }

  failed-IsAccount :
      (all a b : List ℤ) (fi : ℤ) (w : Work R L os d req)
      → IsAccount all (a ++ fi ∷ b) w
      → IsAccount all (a ++ b) (report_failed R L os d req fi w)
  unfolding numbers
  failed-IsAccount all a b fi w h =
      reported all a b fi (frame_failed fi) w (report_failed R L os d req fi w) refl refl
        (omega arith) h

  ready-IsAccount :
      (all a b : List ℤ) (fi pos_ms : ℤ) (ram : R.Store) (w : Work R L os d req)
      → IsAccount all (a ++ fi ∷ b) w
      → IsAccount all (a ++ b) (report_ready R L os d req fi pos_ms ram w)
  unfolding numbers
  ready-IsAccount all a b fi pos_ms ram w h =
      reported all a b fi (ready_event R L os d req fi pos_ms) w
        (report_ready R L os d req fi pos_ms ram w) refl refl (omega arith) h

  -- A write that says whether it succeeded decides between the two reports.
  either-IsAccount :
      (ok : Bool) (all a b : List ℤ) (fi pos_ms : ℤ) (ram : R.Store) (w : Work R L os d req)
      → IsAccount all (a ++ fi ∷ b) w
      → IsAccount all (a ++ b) (
          if ok then report_ready R L os d req fi pos_ms ram w else report_failed R L os d req fi w)
  either-IsAccount true all a b fi pos_ms ram w h = ready-IsAccount all a b fi pos_ms ram w h
  either-IsAccount false all a b fi pos_ms ram w h = failed-IsAccount all a b fi w h

  scan_frame-IsAccount :
      (all : List ℤ) (f : Target) (fs misses : List Target) (w : Work R L os d req)
      → IsAccount all (frame_numbers (misses ++ f ∷ fs)) w
      → let (misses', w') = scan_frame R L os d req f (misses, w) in
        IsAccount all (frame_numbers (misses' ++ fs)) w'
  unfolding scan_frame numbers
  scan_frame-IsAccount all f fs misses w h =
      elim (Bool-cases (is_cached R L os d req f.1 w.daemon)) [
        | inl hit ↦
            rw (hit, frame_numbers-append misses fs)
              (reported all (frame_numbers misses) (frame_numbers fs) f.0
                (ready_event R L os d req f.0 f.1) w _ refl refl (omega arith)
                (rw (frame_numbers-append misses (f ∷ fs)) at h))
        | inr miss ↦ rw (miss, append_assoc misses (f ∷ []) fs) h
      ]

  pub scan-IsAccount :
      (all : List ℤ) (fs misses : List Target) (w : Work R L os d req)
      → IsAccount all (frame_numbers (misses ++ fs)) w
      → let (misses', w') = scan R L os d req fs (misses, w) in
        IsAccount all (frame_numbers misses') w'
  unfolding scan
  scan-IsAccount all [] misses w h = rw (append-nil misses) at h
  scan-IsAccount all (f ∷ fs) misses w h =
      let (misses', w') = scan_frame R L os d req f (misses, w) in
      scan-IsAccount all fs misses' w' (scan_frame-IsAccount all f fs misses w h)

  -- Pending frames may be put in another order.
  reordered :
      (all xs ys : List ℤ) (w : Work R L os d req)
      → Perm xs ys
      → length xs ≡ length ys
      → IsAccount all xs w
      → IsAccount all ys w
  reordered all xs ys w p e h = record {
    frames = Perm.trans (Perm.append_left (numbers w.events) (Perm.symm p)) h.frames;
    counts = omega (arith, e, h.counts);
  }

  anchor_result-IsAccount :
      (all b : List ℤ) (f : Target) (r : Option Decoded) (w : Work R L os d req)
      → IsAccount all (f.0 ∷ b) w
      → IsAccount all b (anchor_result R L os d req f r w)
  anchor_result-IsAccount all b f none w h = failed-IsAccount all [] b f.0 w h
  anchor_result-IsAccount all b f (some r) w h =
      either-IsAccount _ all [] b f.0 f.1 _ _ (record { frames = h.frames; counts = h.counts })

  pub do_anchor-IsAccount :
      (all : List ℤ) (misses : List Target) (t : Option (Target × List Target))
      (w : Work R L os d req)
      → IsPick misses t
      → IsAccount all (frame_numbers misses) w
      → let (rest, w') = do_anchor R L os d req t w in IsAccount all (frame_numbers rest) w'
  do_anchor-IsAccount all misses none w p h = rw p at h
  do_anchor-IsAccount all misses (some (f, rest)) w p h =
      anchor_result-IsAccount all (frame_numbers rest) f _ w
        (reordered all (frame_numbers misses) (f.0 ∷ frame_numbers rest) w p.0 p.1 h)

  pub frame_result-IsAccount :
      (all b : List ℤ) (f : Target) (r : Option (Text × Text)) (w : Work R L os d req)
      → IsAccount all (f.0 ∷ b) w
      → IsAccount all b (frame_result R L os d req f r w)
  frame_result-IsAccount all b f none w h = failed-IsAccount all [] b f.0 w h
  frame_result-IsAccount all b f (some (webp, orig)) w h =
      either-IsAccount _ all [] b f.0 f.1 _ _ (record { frames = h.frames; counts = h.counts })
