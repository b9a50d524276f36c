-- ===== src/Server/Stream/Bridge/Ending.antt =====
-- When a client of an `IndexProgress` comes to its end.
use jellyfin_recents.Prelude.{subst, ◌≡◌, refl, sym, ◌∙◌, Bool, true, false, []}
use mathlib.Core.List.{append-nil}
use jellyfin_recents.Server.FrameIndex.{IndexProgress, finish}
use jellyfin_recents.Server.Stream.Bridge.{
  Phase, copying, testing, idle, waiting, draining, ended, Bridge, texts, bridge_at, bridge_step,
  woken, notify_waiters, Stream, Step, pushed, finished, bridged, Run, stop, next,
}
use jellyfin_recents.Server.Stream.Bridge.Faithful.{
  IsAt, IsFaithful, moved, bridge_at-IsFaithful, published-IsFaithful,
}

abbrev pub is_idle : Phase → Bool
is_idle idle = true
is_idle _ = false

abbrev pub three_steps : IndexProgress → Bridge → Bridge
three_steps p b = bridge_step p (bridge_step p (bridge_step p b))

bridge_step-IsFaithful :
    (p : IndexProgress) (b : Bridge)
    → IsFaithful (record { progress = p; bridge = b })
    → IsFaithful (record { progress = p; bridge = bridge_step p b })
unfolding bridge_step
bridge_step-IsFaithful p b h = bridge_at-IsFaithful b.phase p b h h.at

-- A woken client of a publisher that is done reaches its end.
three_steps_end :
    (phase : Phase) (p : IndexProgress) (b : Bridge)
    → is_idle phase ≡ false
    → (three_steps (finish p) (moved b (woken phase))).phase ≡ ended
unfolding bridge_step finish
three_steps_end copying p b i = refl
three_steps_end testing p b i = refl
three_steps_end idle p b i = absurd cc
three_steps_end waiting p b i = refl
three_steps_end draining p b i = refl
three_steps_end ended p b i = refl

-- When the publisher finishes while a client that has been served faithfully is not about to wait,
-- the client ends after at most three steps more, and has been sent all events.
pub finish_ends :
    (s : Stream)
    → IsFaithful s
    → s.progress.done ≡ false
    → is_idle s.bridge.phase ≡ false
    → let b = three_steps (finish s.progress) (notify_waiters s.bridge) in
      (b.phase ≡ ended) × (b.delivered ≡ texts s.progress)
unfolding finish notify_waiters
finish_ends s h open_ i =
    let p = finish s.progress in
    let b = notify_waiters s.bridge in
    let reached : (three_steps p b).phase ≡ ended =
      three_steps_end s.bridge.phase s.progress s.bridge i in
    let start : IsFaithful (record { progress = p; bridge = b }) =
      published-IsFaithful s p [] open_ (sym (append-nil (texts s.progress))) h in
    let last =
      bridge_step-IsFaithful p (bridge_step p (bridge_step p b))
        (bridge_step-IsFaithful p (bridge_step p b) (bridge_step-IsFaithful p b start)) in
    (reached, (subst (λ (phase : Phase). IsAt phase p (three_steps p b)) reached last.at).1)

abbrev pub IsLost : Phase → Type 0
IsLost idle = Unit
IsLost waiting = Unit
IsLost _ = ⊥

IsLost-at :
    (phase : Phase) (p : IndexProgress) (b : Bridge)
    → IsLost phase
    → IsLost (bridge_at phase p b).phase
IsLost-at idle p b l = tt
IsLost-at waiting p b l = tt
IsLost-at copying p b l = absurd l
IsLost-at testing p b l = absurd l
IsLost-at draining p b l = absurd l
IsLost-at ended p b l = absurd l

Step-IsLost :
    (a b : Stream)
    → Step a b
    → a.progress.done ≡ true
    → IsLost a.bridge.phase
    → (b.progress.done ≡ true) × IsLost b.bridge.phase
unfolding bridge_step
Step-IsLost _ _ (pushed batch max_ms s open_) d l =
    (let wrong : true ≡ false = sym d ∙ open_ in absurd cc)
Step-IsLost _ _ (finished s open_) d l = (let wrong : true ≡ false = sym d ∙ open_ in absurd cc)
Step-IsLost _ _ (bridged s) d l = (d, IsLost-at s.bridge.phase s.progress s.bridge l)

run-IsLost :
    (a b : Stream)
    → Run a b
    → a.progress.done ≡ true
    → IsLost a.bridge.phase
    → IsLost b.bridge.phase
run-IsLost _ _ (stop s) d l = l
run-IsLost _ _ (next a b c s r) d l =
    (let (d', l') = Step-IsLost a b s d l in run-IsLost b c r d' l')

-- The notification is lost on a client that has just seen that the publisher is not done and is
-- about to wait: when the publisher finishes at this moment, the client never ends.
pub finish_lost :
    (s t : Stream)
    → s.bridge.phase ≡ idle
    → Run (record { progress = finish s.progress; bridge = notify_waiters s.bridge }) t
    → ¬ (t.bridge.phase ≡ ended)
unfolding finish notify_waiters
finish_lost s t i r e =
    subst IsLost e
      (run-IsLost _ t r refl (subst (λ (phase : Phase). IsLost (woken phase)) (sym i) tt))
