-- ===== src/Wire/Requests/Framing.antt =====
-- What a reader takes is the front of the stream, on success and on error.
use mathlib.Core.List.{append-nil, append_assoc}
use jellyfin_recents.Prelude.{
  ℕ, zero, suc, ◌≡◌, refl, sym, ap, ◌∙◌, Bool, true, false, [], ◌++◌, length, take,
  take-append-drop, leb, Bool-cases, inl, inr, if◌then◌else◌, nat_eq,
}
use jellyfin_recents.Wire.Bytes.{Text}
use jellyfin_recents.Wire.Reader.{
  Reader, WireError, Result, ok, err, pure, raise, continue, ◌>>=◌, ◌>>◌, read_exact, read_u8,
  read_u16, read_u32, read_u64, read_i64, read_flag, utf8, guard_len,
}
use jellyfin_recents.Wire.Requests.Read.{
  read_hw_decode_flags, read_capped_string, read_item_id, read_len_prefixed_string,
  read_single_frame_req, read_paths, read_preset, read_animate_req, read_stitch_req,
  read_prefetch_range_req, read_session_id, read_prefetch_range_stream_req,
  read_index_frames_stream_req, read_upscale_req, read_cancel_upscale_req,
}

-- The bytes that `m` takes stand in front of those that it leaves.
pub record Takes {A : Type 0} (m : Reader A) : Type 0 where
  pub at : (s : Text) → (u : Text) × (s ≡ u ++ (m s).1)

module _ {A : Type 0} where
  pub Takes-pure : (a : A) → Takes (pure a)
  unfolding pure
  Takes-pure a = record { at = λ s. ([], refl) }

  Takes-raise : (e : WireError) → Takes (raise {A = A} e)
  unfolding raise
  Takes-raise e = record { at = λ s. ([], refl) }

  pub Takes-if : (b : Bool) (m n : Reader A) → Takes m → Takes n → Takes (if b then m else n)
  Takes-if true m n tm tn = tm
  Takes-if false m n tm tn = tn

module _ {A B : Type 0} where
  Takes-continue :
      (r : Result A) (f : A → Reader B) → ((a : A) → Takes (f a)) → Takes (continue r f)
  Takes-continue (ok a) f tf = tf a
  Takes-continue (err e) f tf = record { at = λ s. ([], refl) }

  pub Takes-bind :
      (m : Reader A) (f : A → Reader B) → Takes m → ((a : A) → Takes (f a)) → Takes (m >>= f)
  unfolding ◌>>=◌
  Takes-bind m f tm tf = record {
    at = λ s.
        let (u, first) = tm.at s in
        let (v, second) = (Takes-continue (m s).0 f tf).at (m s).1 in
        (u ++ v, first ∙ ap (λ t. u ++ t) second ∙ sym (append_assoc u v _));
  }

  pub Takes-then : (m : Reader A) (n : Reader B) → Takes m → Takes n → Takes (m >> n)
  unfolding ◌>>◌
  Takes-then m n tm tn = Takes-bind m (λ _. n) tm (λ _. tn)

pub Takes-read_exact : (n : ℕ) → Takes (read_exact n)
unfolding read_exact
Takes-read_exact n = record {
  at = λ s. elim (Bool-cases (leb n (length s))) [
    | inl enough ↦ rw enough (take n s, sym (take-append-drop n s))
    | inr short ↦ rw short (s, sym (append-nil s))
  ];
}

Takes-read_u8 : Takes read_u8
unfolding read_u8
Takes-read_u8 = Takes-bind (read_exact 1) _ (Takes-read_exact 1) (λ a. Takes-pure _)

Takes-read_u16 : Takes read_u16
unfolding read_u16
Takes-read_u16 = Takes-bind (read_exact 2) _ (Takes-read_exact 2) (λ a. Takes-pure _)

pub Takes-read_u32 : Takes read_u32
unfolding read_u32
Takes-read_u32 = Takes-bind (read_exact 4) _ (Takes-read_exact 4) (λ a. Takes-pure _)

Takes-read_u64 : Takes read_u64
unfolding read_u64
Takes-read_u64 = Takes-bind (read_exact 8) _ (Takes-read_exact 8) (λ a. Takes-pure _)

pub Takes-read_i64 : Takes read_i64
unfolding read_i64
Takes-read_i64 = Takes-bind read_u64 _ Takes-read_u64 (λ a. Takes-pure _)

Takes-read_flag : Takes read_flag
unfolding read_flag
Takes-read_flag = Takes-bind read_u8 _ Takes-read_u8 (λ a. Takes-pure _)

pub Takes-utf8 : (bs : Text) → Takes (utf8 bs)
unfolding utf8
Takes-utf8 bs = Takes-if _ (pure bs) (raise _) (Takes-pure bs) (Takes-raise _)

Takes-guard_len : (cap n : ℕ) → Takes (guard_len cap n)
unfolding guard_len
Takes-guard_len cap n = Takes-if _ (raise _) (pure tt) (Takes-raise _) (Takes-pure tt)

ruleset takes_rules = (
  Takes-pure, Takes-raise, Takes-if, Takes-bind, Takes-then, Takes-read_exact, Takes-read_u8,
  Takes-read_u16, Takes-read_u32, Takes-read_u64, Takes-read_i64, Takes-read_flag, Takes-utf8,
  Takes-guard_len,
)

pub Takes-read_hw : Takes read_hw_decode_flags
unfolding read_hw_decode_flags
Takes-read_hw = search takes_rules depth 9

Takes-read_capped_string : Takes read_capped_string
unfolding read_capped_string
Takes-read_capped_string = search takes_rules depth 9

pub Takes-read_item_id : Takes read_item_id
unfolding read_item_id
Takes-read_item_id = search takes_rules depth 9

Takes-read_len_prefixed_string : Takes read_len_prefixed_string
unfolding read_len_prefixed_string
Takes-read_len_prefixed_string = search takes_rules depth 9

Takes-read_preset : Takes read_preset
unfolding read_preset
Takes-read_preset = search takes_rules depth 9

Takes-read_session_id : Takes read_session_id
unfolding read_session_id
Takes-read_session_id = search takes_rules depth 9

Takes-read_paths : (n : ℕ) → Takes (read_paths n)
unfolding read_paths
Takes-read_paths zero = Takes-pure []
Takes-read_paths (suc n) = Takes-bind read_i64 _ Takes-read_i64 λ idx.
    Takes-bind read_capped_string _ Takes-read_capped_string
      λ path. Takes-bind (read_paths n) _ (Takes-read_paths n) (λ rest. Takes-pure _)

ruleset field_rules = (
  takes_rules, Takes-read_hw, Takes-read_capped_string, Takes-read_item_id,
  Takes-read_len_prefixed_string, Takes-read_preset, Takes-read_session_id, Takes-read_paths,
)

Takes-read_single_frame_req : Takes read_single_frame_req
unfolding read_single_frame_req
Takes-read_single_frame_req = search field_rules depth 30

Takes-read_animate_req : Takes read_animate_req
unfolding read_animate_req
Takes-read_animate_req = search field_rules depth 40

Takes-read_stitch_req : Takes read_stitch_req
unfolding read_stitch_req
Takes-read_stitch_req = search (field_rules, Takes-read_animate_req) depth 30

Takes-read_prefetch_range_req : Takes read_prefetch_range_req
unfolding read_prefetch_range_req
Takes-read_prefetch_range_req = search field_rules depth 30

Takes-read_prefetch_range_stream_req : Takes read_prefetch_range_stream_req
unfolding read_prefetch_range_stream_req
Takes-read_prefetch_range_stream_req = search field_rules depth 30

Takes-read_index_frames_stream_req : Takes read_index_frames_stream_req
unfolding read_index_frames_stream_req
Takes-read_index_frames_stream_req = search field_rules depth 30

Takes-read_upscale_req : Takes read_upscale_req
unfolding read_upscale_req
Takes-read_upscale_req = search field_rules depth 30

Takes-read_cancel_upscale_req : Takes read_cancel_upscale_req
unfolding read_cancel_upscale_req
Takes-read_cancel_upscale_req = search field_rules depth 9

-- Every request reader, on success and on error alike, takes bytes off the front of the stream and
-- leaves the others as they were.
pub requests_framed :
    Takes read_single_frame_req
    × Takes read_animate_req
    × Takes read_stitch_req
    × Takes read_prefetch_range_req
    × Takes read_prefetch_range_stream_req
    × Takes read_index_frames_stream_req
    × Takes read_upscale_req
    × Takes read_cancel_upscale_req
requests_framed = (
  Takes-read_single_frame_req, Takes-read_animate_req, Takes-read_stitch_req,
  Takes-read_prefetch_range_req, Takes-read_prefetch_range_stream_req,
  Takes-read_index_frames_stream_req, Takes-read_upscale_req, Takes-read_cancel_upscale_req,
)
