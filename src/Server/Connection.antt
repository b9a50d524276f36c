-- ===== src/Server/Connection.antt =====
-- The loop over the messages of a connection: handle_conn in server.rs. A handler reads the
-- message's body; what it does then is a parameter, of which this module asks whether it fails, and
-- whether it returns at all. The state here is the cancel flags.
use jellyfin_recents.Prelude.{
  ℕ, zero, suc, ◌<◌, ◌≡◌, ◌⊎◌, refl, Bool, true, false, not, ◌&&◌, ◌||◌, Option, none, some, List,
  [], ◌∷◌, ◌++◌, arith, leb, ◌==◌, nat_eq, list_eq, if◌then◌else◌, inl, inr, length, any,
}
use jellyfin_recents.Prelude.Assoc.{Assoc, insert, contains}
use jellyfin_recents.Wire.Bytes.{Text}
use jellyfin_recents.Wire.Reader.{Result, ok, err, read_exact, read_u8, pure, ◌>>=◌}
use jellyfin_recents.Wire.Requests.Types.{CancelUpscaleReq}
use jellyfin_recents.Wire.Requests.Read.{read_msg_type, read_cancel_upscale_req}
use jellyfin_recents.Server.Bodies.{read_body, read_body_le}

abbrev pub msg_upscale : ℕ
msg_upscale = 27

abbrev pub msg_cancel_upscale : ℕ
msg_cancel_upscale = 28

-- Single frame, animate, stitch and prefetch frame: an error is logged, and the loop goes on.
abbrev pub lenient : List ℕ
lenient = 16 ∷ 17 ∷ 18 ∷ 19 ∷ []

-- List, index, the ranges and streams, the dump and the capabilities: an error ends the loop.
abbrev pub strict : List ℕ
strict = 20 ∷ 21 ∷ 22 ∷ 23 ∷ 24 ∷ 25 ∷ 26 ∷ 29 ∷ []

abbrev pub is_in : ℕ → List ℕ → Bool
is_in t ts = any (λ u. t == u) ts

-- What was done with a message: `error_event` is the error event after a failed upscale.
pub data Event : Type 0 where
  handled error_event cancelled unknown : ℕ → Event

-- Whether the loop goes on.
unfoldable pub goes_on : ℕ → Bool → Bool
goes_on t succeeded = is_in t lenient || t == msg_upscale || is_in t strict && succeeded

abbrev pub events_of : ℕ → Bool → List Event
events_of t succeeded =
    if t == msg_upscale && not succeeded then handled t ∷ error_event t ∷ [] else handled t ∷ []

-- The upscale job's flag is set if the job is there.
unfoldable pub cancel : Result CancelUpscaleReq → Assoc Text Bool → Assoc Text Bool
cancel (ok req) flags = if contains req.job_id flags then insert req.job_id true flags else flags
cancel (err e) flags = flags

-- What a handler does once the body has been read, by the type and the bytes from the body on: whether
-- it succeeds, and none where it waits for ever.
abbrev pub Action : Type 0
Action = ℕ → Text → Option Bool

abbrev pub after_body : Result (Unit {0}) × Text → Option Bool → Option (Bool × Text)
after_body (err e, s) acted = some (false, s)
after_body (ok u, s) none = none
after_body (ok u, s) (some succeeded) = some (succeeded, s)

-- Whether it succeeded, and what it leaves of the stream.
unfoldable pub handle : Action → ℕ → Text → Option (Bool × Text)
handle act t s = after_body (read_body t s) (act t s)

-- How the loop is when the model leaves it: ended, or with a handler that waits for ever, or without
-- fuel.
pub data Ending : Type 0 where
  closed waiting no_fuel : Ending

pub record Outcome : Type 0 where
  pub events : List Event
  pub flags : Assoc Text Bool
  pub ending : Ending

abbrev pub stopped : List Event → Assoc Text Bool → Outcome
stopped events flags = record { events = events; flags = flags; ending = closed }

abbrev pub after : List Event → Outcome → Outcome
after events o = record o { events = events ++ o.events }

abbrev pub after_handler : (Text → Outcome) → ℕ → Option (Bool × Text) → Assoc Text Bool → Outcome
after_handler rest t none flags = record { events = []; flags = flags; ending = waiting }
after_handler rest t (some (succeeded, s)) flags =
    if goes_on t succeeded
    then after (events_of t succeeded) (rest s)
    else stopped (events_of t succeeded) flags

-- One message of the type `t` in front of `s`; `rest` handles what it leaves.
unfoldable pub dispatch : Action → (Text → Outcome) → ℕ → Text → Assoc Text Bool → Outcome
dispatch act rest t s flags =
    if is_in t lenient || is_in t strict || t == msg_upscale
    then after_handler rest t (handle act t s) flags
    else if t == msg_cancel_upscale
    then stopped (cancelled t ∷ []) (cancel (read_cancel_upscale_req s).0 flags)
    else stopped (unknown t ∷ []) flags

abbrev pub after_type : Action → (Text → Outcome) → Result ℕ × Text → Assoc Text Bool → Outcome
after_type act rest (ok t, s) flags = dispatch act rest t s flags
after_type act rest (err e, s) flags = stopped [] flags

-- On fuel.
unfoldable pub handle_conn : ℕ → Action → Text → Assoc Text Bool → Outcome
handle_conn zero act s flags = record { events = []; flags = flags; ending = no_fuel }
handle_conn (suc f) act s flags =
    after_type act (λ s'. handle_conn f act s' flags) (read_msg_type s) flags

-- A message type is one byte.
msg_type_lem :
    (s : Text) (t : ℕ) → (read_msg_type s).0 ≡ ok t → length (read_msg_type s).1 < length s
unfolding read_msg_type read_u8 read_exact ◌>>=◌ pure
msg_type_lem [] t h = absurd cc
msg_type_lem (b ∷ s) t h =
    let one : leb 1 (suc (length s)) ≡ true = ground arith in rw one (omega arith)

-- The loop is left in one of the two ways that are not for want of fuel; where every handler returns,
-- it has ended.
record IsDone (act : Action) (o : Outcome) : Type 0 where
  not_for_fuel : (o.ending ≡ closed) ⊎ (o.ending ≡ waiting)
  ended : ((t : ℕ) (s : Text) → ¬ (act t s ≡ none)) → o.ending ≡ closed

stopped-IsDone :
    (act : Action) (events : List Event) (flags : Assoc Text Bool)
    → IsDone act (stopped events flags)
stopped-IsDone act events flags = record { not_for_fuel = inl refl; ended = λ returns. refl }

IsDone-if :
    (act : Action) (b : Bool) (o p : Outcome)
    → IsDone act o
    → IsDone act p
    → IsDone act (if b then o else p)
IsDone-if act true o p ho hp = ho
IsDone-if act false o p ho hp = hp

after-IsDone :
    (act : Action) (events : List Event) (o : Outcome) → IsDone act o → IsDone act (after events o)
after-IsDone act events o h = record { not_for_fuel = h.not_for_fuel; ended = h.ended }

returned-IsDone :
    (act : Action) (rest : Text → Outcome) (t : ℕ) (succeeded : Bool) (s : Text)
    (flags : Assoc Text Bool)
    → IsDone act (rest s)
    → IsDone act (after_handler rest t (some (succeeded, s)) flags)
returned-IsDone act rest t succeeded s flags done =
    IsDone-if act (goes_on t succeeded) (after (events_of t succeeded) (rest s))
      (stopped (events_of t succeeded) flags)
      (after-IsDone act (events_of t succeeded) (rest s) done)
      (stopped-IsDone act (events_of t succeeded) flags)

acted-IsDone :
    (act : Action) (rest : Text → Outcome) (t : ℕ) (s : Text) (b : Result (Unit {0}) × Text)
    (a : Option Bool) (flags : Assoc Text Bool)
    → act t s ≡ a
    → IsDone act (rest b.1)
    → IsDone act (after_handler rest t (after_body b a) flags)
acted-IsDone act rest t s (err e, s') a flags acted done =
    returned-IsDone act rest t false s' flags done
acted-IsDone act rest t s (ok u, s') none flags acted done = record {
  not_for_fuel = inr refl;
  ended = λ returns. absurd (returns t s acted);
}
acted-IsDone act rest t s (ok u, s') (some succeeded) flags acted done =
    returned-IsDone act rest t succeeded s' flags done

dispatch-IsDone :
    (act : Action) (rest : Text → Outcome) (t : ℕ) (s : Text) (flags : Assoc Text Bool)
    → IsDone act (rest (read_body t s).1)
    → IsDone act (dispatch act rest t s flags)
unfolding dispatch handle
dispatch-IsDone act rest t s flags done =
    IsDone-if act (is_in t lenient || is_in t strict || t == msg_upscale) _ _
      (acted-IsDone act rest t s (read_body t s) (act t s) flags refl done)
      (IsDone-if act (t == msg_cancel_upscale) _ _
        (stopped-IsDone act (cancelled t ∷ []) (cancel (read_cancel_upscale_req s).0 flags))
        (stopped-IsDone act (unknown t ∷ []) flags))

after_type-IsDone :
    (act : Action) (rest : Text → Outcome) (r : Result ℕ × Text) (flags : Assoc Text Bool)
    → ((t : ℕ) → r.0 ≡ ok t → IsDone act (rest (read_body t r.1).1))
    → IsDone act (after_type act rest r flags)
after_type-IsDone act rest (ok t, s) flags done = dispatch-IsDone act rest t s flags (done t refl)
after_type-IsDone act rest (err e, s) flags done = stopped-IsDone act [] flags

handle_conn-IsDone :
    (act : Action) (f : ℕ) (s : Text) (flags : Assoc Text Bool)
    → length s < f
    → IsDone act (handle_conn f act s flags)
unfolding handle_conn
handle_conn-IsDone act zero s flags fuel = absurd (omega arith)
handle_conn-IsDone act (suc f) s flags fuel =
    after_type-IsDone act _ (read_msg_type s) flags λ t read.
      handle_conn-IsDone act f (read_body t (read_msg_type s).1).1 flags
        (omega (arith, msg_type_lem s t read, read_body_le t (read_msg_type s).1))

-- With more fuel than there are bytes, whatever arrives on the connection and whatever the handlers
-- do, the loop handles messages until it ends by itself or a handler waits for ever. The bytes are
-- followed by the connection's end here.
pub handle_conn_has_fuel :
    (act : Action) (f : ℕ) (s : Text) (flags : Assoc Text Bool)
    → length s < f
    → ((handle_conn f act s flags).ending ≡ closed) ⊎ ((handle_conn f act s flags).ending ≡ waiting)
handle_conn_has_fuel act f s flags fuel = (handle_conn-IsDone act f s flags fuel).not_for_fuel
