-- ===== src/Server/Stream/Bridge.antt =====
-- The task in `handle_index_frames_stream` that passes the batches of an `IndexProgress` on to one
-- client, beside the task that publishes them. `notify_waiters` wakes who is waiting at that moment
-- and is forgotten otherwise.
pub mod Faithful
pub mod Ending
use jellyfin_recents.Prelude.{
  ℕ, subst, ◌+◌, ◌-◌, ◌≤◌, ◌≡◌, refl, ap, sym, ◌∙◌, Bool, true, false, Bool-cases, inl, inr, Option,
  List, [], ◌∷◌, ◌++◌, map, arith, if◌then◌else◌, length, take, drop, length-append,
  take-append-drop,
}
use mathlib.Core.List.{append_assoc, append-nil}
use jellyfin_recents.Prelude.Chunks.{length-drop, take_all, take-append-within}
use jellyfin_recents.Prelude.Int.{ℤ}
use jellyfin_recents.Wire.Bytes.{Text}
use jellyfin_recents.Server.FrameIndex.{IndexProgress, push, finish}

-- Where the loop stands: before it copies the new batches, before it looks whether the publisher
-- is done, before it begins to wait, waiting, before the last copy, and at its end.
pub data Phase : Type 0 where
  copying testing idle waiting draining ended : Phase

pub record Bridge : Type 0 where
  pub next : ℕ
  pub delivered : List Text
  pub phase : Phase

abbrev pub texts : IndexProgress → List Text
texts p = map (λ (b : Text × ℤ). b.0) p.batches

abbrev pub new_bridge : Bridge
new_bridge = record { next = 0; delivered = []; phase = copying }

abbrev pub copy_new : Phase → IndexProgress → Bridge → Bridge
copy_new phase p b = record {
  next = b.next + length (drop b.next (texts p));
  delivered = b.delivered ++ drop b.next (texts p);
  phase = phase;
}

abbrev pub bridge_at : Phase → IndexProgress → Bridge → Bridge
bridge_at copying p b = copy_new testing p b
bridge_at testing p b = if p.done then record b { phase = draining } else record b { phase = idle }
bridge_at idle p b = record b { phase = waiting }
bridge_at waiting p b = record b { phase = waiting }
bridge_at draining p b = copy_new ended p b
bridge_at ended p b = record b { phase = ended }

-- The loop's next step. Waiting lasts until a notification.
unfoldable pub bridge_step : IndexProgress → Bridge → Bridge
bridge_step p b = bridge_at b.phase p b

abbrev pub woken : Phase → Phase
woken copying = copying
woken testing = testing
woken idle = idle
woken waiting = copying
woken draining = draining
woken ended = ended

unfoldable pub notify_waiters : Bridge → Bridge
notify_waiters b = record b { phase = woken b.phase }

pub record Stream : Type 0 where
  pub progress : IndexProgress
  pub bridge : Bridge

-- The publisher calls `finish` once, and pushes nothing after it.
pub data Step : Stream → Stream → Type 0 where
  pushed :
      (batch : Text) (max_ms : ℤ) (s : Stream)
      → s.progress.done ≡ false
      → Step s
          (record { progress = push batch max_ms s.progress; bridge = notify_waiters s.bridge })
  finished :
      (s : Stream)
      → s.progress.done ≡ false
      → Step s (record { progress = finish s.progress; bridge = notify_waiters s.bridge })
  bridged :
      (s : Stream)
      → Step s (record { progress = s.progress; bridge = bridge_step s.progress s.bridge })

pub data Run : Stream → Stream → Type 0 where
  stop : (s : Stream) → Run s s
  next : (a b c : Stream) → Step a b → Run b c → Run a c
