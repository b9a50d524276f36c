-- ===== src/Server/Stream/Sessions.antt =====
-- Which prefetch range runs, in `handle_prefetch_range_stream`: `current_session_id`, `cancel_flag`
-- and the one permit of `decode_sem`, which is given in the order of the requests. A request looks at
-- the session under one lock, then raises the flag and asks for the permit: other requests may come
-- in between, so `look` and `ask` are functions of their own.
use jellyfin_recents.Prelude.{
  ◌≡◌, refl, Bool, true, false, not, ◌||◌, Option, none, some, List, [], ◌∷◌, ◌++◌, ◌==◌, nat_eq,
  list_eq, beq_refl, beq-eq-false, if◌then◌else◌,
}
use jellyfin_recents.Wire.Bytes.{Text}

-- A request that waits for the permit: its session, and whether it found another one.
abbrev pub Waiting : Type 0
Waiting = Text × Bool

pub record Sessions : Type 0 where
  pub current_session_id : Option Text
  pub cancel_flag : Bool
  pub waiting : List Waiting
  pub running : Option Text

abbrev pub is_other : Option Text → Text → Bool
is_other none session_id = true
is_other (some current) session_id = not (current == session_id)

-- What a request finds, and what it then does: it raises the flag where the session is another one,
-- and waits for the permit.
abbrev pub look : Text → Sessions → Waiting
look session_id s = (session_id, is_other s.current_session_id session_id)

unfoldable pub ask : Waiting → Sessions → Sessions
ask (session_id, changed) s = record s {
  cancel_flag = changed || s.cancel_flag;
  waiting = s.waiting ++ (session_id, changed) ∷ [];
}

-- A request that no other one interrupts before the permit is asked for.
unfoldable pub arrive : Text → Sessions → Sessions
arrive session_id s = ask (look session_id s) s

-- The permit is given to the first that waits.
abbrev pub run_next : List Waiting → Sessions → Sessions
run_next [] s = s
run_next ((session_id, changed) ∷ rest) s = record {
  current_session_id = if changed then some session_id else s.current_session_id;
  cancel_flag = false;
  waiting = rest;
  running = some session_id;
}

unfoldable pub start : Sessions → Sessions
start s = elim s.running [ none ↦ run_next s.waiting s | some session_id ↦ s ]

-- The running request gives its permit back, at its end or after the frame at which it saw the flag.
unfoldable pub release : Sessions → Sessions
release s = record s { running = none }

-- Where a request of the current session `a` runs and none waits: when another of `a` and then one of
-- a different session `b` arrive, the flag goes up; but when the permit is released, the waiting one
-- of `a` starts and takes the flag down again, with the request of `b` still waiting.
pub cancel_lost :
    (a b : Text) (s : Sessions)
    → ¬ (a ≡ b)
    → s.current_session_id ≡ some a
    → s.running ≡ some a
    → s.waiting ≡ []
    → let raised = arrive b (arrive a s) in
      let later = start (release raised) in
      (raised.cancel_flag ≡ true)
      × (later.cancel_flag ≡ false)
      × (later.running ≡ some a)
      × (later.waiting ≡ (b, true) ∷ [])
unfolding arrive ask start release
cancel_lost a b s ne current running waiting =
    rw (current, waiting, beq_refl a, beq-eq-false a b ne) (refl, refl, refl, refl)

-- Where nothing runs or waits, and two requests of one session `b` arrive that both look before the
-- first of them starts, while another session, or none, is the current one: the first starts, and then
-- the second, which still takes its own session for another one, raises the flag that cancels it.
pub cancels_itself :
    (b : Text) (s : Sessions)
    → is_other s.current_session_id b ≡ true
    → s.running ≡ none
    → s.waiting ≡ []
    → let first = look b s in
      let second = look b s in
      let started = start (ask first s) in
      let later = ask second started in
      (started.running ≡ some b)
      × (started.current_session_id ≡ some b)
      × (started.cancel_flag ≡ false)
      × (later.running ≡ some b)
      × (later.cancel_flag ≡ true)
unfolding ask start
cancels_itself b s other idle waiting = rw (other, idle, waiting) (refl, refl, refl, refl, refl)
