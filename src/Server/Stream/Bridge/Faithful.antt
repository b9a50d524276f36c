-- ===== src/Server/Stream/Bridge/Faithful.antt =====
-- Clients of an `IndexProgress` are sent its events in order, each once.
use jellyfin_recents.Prelude.{
  subst, ◌+◌, ◌≤◌, ◌≡◌, refl, ap, sym, ◌∙◌, Bool, true, false, List, [], ◌∷◌, ◌++◌, map, arith,
  if◌then◌else◌, length, take, drop, length-append, take-append-drop,
}
use mathlib.Core.List.{append-nil}
use jellyfin_recents.Prelude.Chunks.{length-drop, take_all, take-append-within}
use jellyfin_recents.Prelude.Int.{ℤ}
use jellyfin_recents.Wire.Bytes.{Text}
use jellyfin_recents.Server.FrameIndex.{IndexProgress, push, finish}
use jellyfin_recents.Server.Stream.Bridge.{
  Phase, copying, testing, idle, waiting, draining, ended, Bridge, texts, new_bridge, copy_new,
  bridge_at, bridge_step, woken, notify_waiters, Stream, pushed, finished, bridged, Run, stop, next,
}

-- What has been delivered is the beginning of what has been published; at the end, all of it.
abbrev pub IsAt : Phase → IndexProgress → Bridge → Type 0
IsAt copying p b = Unit
IsAt testing p b = Unit
IsAt idle p b = Unit
IsAt waiting p b = Unit
IsAt draining p b = p.done ≡ true
IsAt ended p b = (p.done ≡ true) × (b.delivered ≡ texts p)

pub record IsFaithful (s : Stream) : Type 0 where
  pub part : s.bridge.delivered ≡ take s.bridge.next (texts s.progress)
  pub within : s.bridge.next ≤ length (texts s.progress)
  pub at : IsAt s.bridge.phase s.progress s.bridge

map-append :
    (f : Text × ℤ → Text) (xs ys : List (Text × ℤ)) → map f (xs ++ ys) ≡ map f xs ++ map f ys
map-append f [] ys = refl
map-append f (x ∷ xs) ys = ap (◌∷◌ (f x)) (map-append f xs ys)

pub texts-push :
    (batch : Text) (max_ms : ℤ) (p : IndexProgress)
    → texts (push batch max_ms p) ≡ texts p ++ batch ∷ []
unfolding push
texts-push batch max_ms p = map-append (λ (b : Text × ℤ). b.0) p.batches ((batch, max_ms) ∷ [])

pub start-IsFaithful :
    (p : IndexProgress) → IsFaithful (record { progress = p; bridge = new_bridge })
start-IsFaithful p = record { part = refl; within = omega arith; at = tt }

-- After a copy, everything that has been published is delivered.
copy_all :
    (p : IndexProgress) (b : Bridge)
    → b.delivered ≡ take b.next (texts p)
    → b.next ≤ length (texts p)
    → (b.delivered ++ drop b.next (texts p) ≡ texts p)
      × (b.next + length (drop b.next (texts p)) ≡ length (texts p))
copy_all p b part within =
    (rw part (take-append-drop b.next (texts p)), omega (arith, length-drop b.next (texts p)))

-- The same bridge, at another place.
abbrev pub moved : Bridge → Phase → Bridge
moved b phase = record { next = b.next; delivered = b.delivered; phase = phase }

moved-IsFaithful :
    (p : IndexProgress) (b : Bridge) (phase : Phase)
    → IsFaithful (record { progress = p; bridge = b })
    → IsAt phase p b
    → IsFaithful (record { progress = p; bridge = moved b phase })
moved-IsFaithful p b copying h at = record { part = h.part; within = h.within; at = tt }
moved-IsFaithful p b testing h at = record { part = h.part; within = h.within; at = tt }
moved-IsFaithful p b idle h at = record { part = h.part; within = h.within; at = tt }
moved-IsFaithful p b waiting h at = record { part = h.part; within = h.within; at = tt }
moved-IsFaithful p b draining h at = record { part = h.part; within = h.within; at = at }
moved-IsFaithful p b ended h at = record { part = h.part; within = h.within; at = at }

copied-IsFaithful :
    (p : IndexProgress) (b : Bridge) (phase : Phase)
    → IsFaithful (record { progress = p; bridge = b })
    → IsAt phase p (copy_new phase p b)
    → IsFaithful (record { progress = p; bridge = copy_new phase p b })
copied-IsFaithful p b phase h at =
    let (all, size) = copy_all p b h.part h.within in
    record {
      part = rw (all, size) (sym (take_all (length (texts p)) (texts p) (omega arith)));
      within = omega (arith, size);
      at = at;
    }

tested :
    (done : Bool) (p : IndexProgress) (b : Bridge)
    → IsFaithful (record { progress = p; bridge = b })
    → p.done ≡ done
    → IsFaithful (record { progress = p; bridge = if done then moved b draining else moved b idle })
tested true p b h e = moved-IsFaithful p b draining h e
tested false p b h e = moved-IsFaithful p b idle h tt

pub bridge_at-IsFaithful :
    (phase : Phase) (p : IndexProgress) (b : Bridge)
    → IsFaithful (record { progress = p; bridge = b })
    → IsAt phase p b
    → IsFaithful (record { progress = p; bridge = bridge_at phase p b })
bridge_at-IsFaithful copying p b h at = copied-IsFaithful p b testing h tt
bridge_at-IsFaithful testing p b h at = tested p.done p b h refl
bridge_at-IsFaithful idle p b h at = moved-IsFaithful p b waiting h tt
bridge_at-IsFaithful waiting p b h at = moved-IsFaithful p b waiting h tt
bridge_at-IsFaithful draining p b h at =
    copied-IsFaithful p b ended h (at, (copy_all p b h.part h.within).0)
bridge_at-IsFaithful ended p b h at = moved-IsFaithful p b ended h at

woken-IsAt :
    (phase : Phase) (p : IndexProgress) (b : Bridge) → IsAt phase p b → IsAt (woken phase) p b
woken-IsAt copying p b at = at
woken-IsAt testing p b at = at
woken-IsAt idle p b at = at
woken-IsAt waiting p b at = tt
woken-IsAt draining p b at = at
woken-IsAt ended p b at = at

-- A publisher that is not done has no client at the end.
unfinished-IsAt :
    (phase : Phase) (p q : IndexProgress) (b : Bridge)
    → p.done ≡ false
    → IsAt phase p b
    → IsAt phase q b
unfinished-IsAt copying p q b open_ at = tt
unfinished-IsAt testing p q b open_ at = tt
unfinished-IsAt idle p q b open_ at = tt
unfinished-IsAt waiting p q b open_ at = tt
unfinished-IsAt draining p q b open_ at = (let wrong : true ≡ false = sym at ∙ open_ in absurd cc)
unfinished-IsAt ended p q b open_ at = (let wrong : true ≡ false = sym at.0 ∙ open_ in absurd cc)

pub published-IsFaithful :
    (s : Stream) (q : IndexProgress) (new : List Text)
    → s.progress.done ≡ false
    → texts q ≡ texts s.progress ++ new
    → IsFaithful s
    → IsFaithful (record { progress = q; bridge = notify_waiters s.bridge })
unfolding notify_waiters
published-IsFaithful s q new open_ more h =
    moved-IsFaithful q s.bridge (woken s.bridge.phase)
      (record {
        part =
            rw more
              (h.part ∙ sym (take-append-within s.bridge.next (texts s.progress) new h.within));
        within = rw more (omega (arith, h.within, length-append (texts s.progress) new));
        at = unfinished-IsAt s.bridge.phase s.progress q s.bridge open_ h.at;
      })
      (woken-IsAt s.bridge.phase q s.bridge
        (unfinished-IsAt s.bridge.phase s.progress q s.bridge open_ h.at))

-- However the publisher and the client interleave, from a state where what has been delivered is
-- the beginning of what has been published, and all of it where the client has ended, this stays
-- true.
pub run-IsFaithful : (a b : Stream) → Run a b → IsFaithful a → IsFaithful b
unfolding bridge_step finish
run-IsFaithful _ _ (stop s) h = h
run-IsFaithful _ _ (next _ _ c (pushed batch max_ms s open_) r) h = run-IsFaithful _ c r (
    published-IsFaithful s (push batch max_ms s.progress) (batch ∷ []) open_
      (texts-push batch max_ms s.progress) h)
run-IsFaithful _ _ (next _ _ c (finished s open_) r) h =
    run-IsFaithful _ c r
      (published-IsFaithful s (finish s.progress) [] open_ (sym (append-nil (texts s.progress))) h)
run-IsFaithful _ _ (next _ _ c (bridged s) r) h =
    run-IsFaithful _ c r (bridge_at-IsFaithful s.bridge.phase s.progress s.bridge h h.at)

-- A client that ends has been sent all events of the publisher, in order, each once.
pub ended_complete :
    (p : IndexProgress) (s : Stream)
    → Run (record { progress = p; bridge = new_bridge }) s
    → s.bridge.phase ≡ ended
    → (s.progress.done ≡ true) × (s.bridge.delivered ≡ texts s.progress)
ended_complete p s r e =
    let h = run-IsFaithful _ s r (start-IsFaithful p) in
    subst (λ (phase : Phase). IsAt phase s.progress s.bridge) e h.at
