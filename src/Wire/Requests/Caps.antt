-- ===== src/Wire/Requests/Caps.antt =====
-- The caps on what a length prefix may ask for.
use jellyfin_recents.Prelude.{
  ℕ, zero, suc, ◌<◌, ◌≤◌, ◌^◌, ◌≡◌, refl, true, false, [], arith, length, length-take, subst, All,
  nat_beq,
}
use jellyfin_recents.Wire.Bytes.{Text}
use jellyfin_recents.Wire.Utf8.{is_utf8}
use jellyfin_recents.Wire.Reader.{
  Reader, Result, ok, err, too_long, pure, continue, ◌>>=◌, ◌>>◌, read_exact, read_u32, read_i64,
  guard_len, utf8,
}
use jellyfin_recents.Wire.Writer.{write_u32}
use jellyfin_recents.Wire.Requests.Types.{max_str_field_len, max_frame_count, AnimateReq}
use jellyfin_recents.Wire.Requests.Read.{
  read_capped_string, read_len_prefixed_string, read_preset, read_session_id, read_animate_req,
  read_paths,
}
use jellyfin_recents.Wire.Requests.Fields.{read_u32-write_u32, IsString}

guard_len-refuses : (cap n : ℕ) (s : Text) → cap < n → guard_len cap n s ≡ (err too_long, s)
unfolding guard_len
guard_len-refuses cap n s h = ground arith

nonzero : (n : ℕ) → max_str_field_len < n → (nat_beq n 0 ≡ false)
nonzero n h = ground arith

-- A length above the cap of 1 MiB is refused with `too_long`, by each of the four readers of
-- strings, before a byte of the string is read.
pub oversize_refused :
    (n : ℕ) (rest : Text)
    → n < 2 ^ 32
    → max_str_field_len < n
    → (read_capped_string (write_u32 n rest) ≡ (err too_long, rest))
      × (read_len_prefixed_string (write_u32 n rest) ≡ (err too_long, rest))
      × (read_preset (write_u32 n rest) ≡ (err too_long, rest))
      × (read_session_id (write_u32 n rest) ≡ (err too_long, rest))
unfolding read_capped_string read_len_prefixed_string read_preset read_session_id ◌>>=◌ ◌>>◌
oversize_refused n rest fits big =
    let header = read_u32-write_u32 n rest fits in
    let refused = guard_len-refuses max_str_field_len n rest big in
    (
      rw (header, refused),
      rw (header, nonzero n big, refused),
      rw (header, refused),
      rw (header, refused),
    )

-- What a successful read returns has the property.
pub record Ensures {A : Type 0} (P : A → Type 0) (m : Reader A) : Type 0 where
  pub at : (s : Text) (a : A) (t : Text) → m s ≡ (ok a, t) → P a

module _ {A B : Type 0} {P : B → Type 0} where
  Ensures-continue :
      (r : Result A) (f : A → Reader B)
      → ((a : A) → r ≡ ok a → Ensures P (f a))
      → Ensures P (continue r f)
  Ensures-continue (ok a) f ef = ef a refl
  Ensures-continue (err e) f ef = record { at = λ s a t h. absurd (cc) }

  -- The rest of the block may use what the first read ensures.
  Ensures-bind :
      (Q : A → Type 0) (m : Reader A) (f : A → Reader B)
      → Ensures Q m
      → ((a : A) → Q a → Ensures P (f a))
      → Ensures P (m >>= f)
  unfolding ◌>>=◌
  Ensures-bind Q m f em ef = record {
    at = λ s b t h.
        (Ensures-continue (m s).0 f (λ a e. ef a (em.at s a (m s).1 (cc)))).at (m s).1 b t h;
  }

  Ensures-skip :
      (m : Reader A) (f : A → Reader B) → ((a : A) → Ensures P (f a)) → Ensures P (m >>= f)
  Ensures-skip m f ef = Ensures-bind (λ _. Unit) m f (record { at = λ s a t h. tt }) (λ a _. ef a)

module _ {A B : Type 0} {P : B → Type 0} where
  Ensures-then :
      (Q : A → Type 0) (m : Reader A) (n : Reader B)
      → Ensures Q m
      → ((a : A) → Q a → Ensures P n)
      → Ensures P (m >> n)
  unfolding ◌>>◌
  Ensures-then Q m n em en = Ensures-bind Q m (λ _. n) em en

Ensures-pure : {A : Type 0} {P : A → Type 0} (a : A) → P a → Ensures P (pure a)
unfolding pure
Ensures-pure {P} a p = record { at = λ s b t h. let e : a ≡ b = cc in subst P e p }

Ensures-guard_len : (cap n : ℕ) → Ensures (λ _. n ≤ cap) (guard_len cap n)
unfolding guard_len
Ensures-guard_len cap n = record { at = λ s a t h. ground arith }

Ensures-read_exact : (n : ℕ) → Ensures (λ bs. length bs ≡ n) (read_exact n)
unfolding read_exact
Ensures-read_exact n = record { at = λ s a t h. ground (arith, length-take n s) }

Ensures-utf8 : (bs : Text) → Ensures (λ t. (is_utf8 t ≡ true) × (t ≡ bs)) (utf8 bs)
unfolding utf8
Ensures-utf8 bs = record { at = λ s a t h. ground arith }

-- A path or id that is read under the cap is valid UTF-8 of at most 1 MiB.
pub Ensures-read_capped_string : Ensures IsString read_capped_string
unfolding read_capped_string
Ensures-read_capped_string = Ensures-skip read_u32 _ λ len.
    Ensures-then (λ _. len ≤ max_str_field_len) _ _ (Ensures-guard_len max_str_field_len len)
      λ _ short.
        Ensures-bind (λ bs. length bs ≡ len) _ _ (Ensures-read_exact len)
          λ bs size. record {
            at = λ s a t h.
                let (valid, same) = (Ensures-utf8 bs).at s a t h in
                record { valid = valid; short = rw same (omega arith) };
          }

Ensures-read_paths :
    (n : ℕ) → Ensures (λ ps. (length ps ≡ n) × All (λ p. IsString p.0) ps) (read_paths n)
unfolding read_paths
Ensures-read_paths zero = Ensures-pure [] (refl, tt)
Ensures-read_paths (suc n) = Ensures-skip read_i64 _ λ idx.
    Ensures-bind IsString read_capped_string _ Ensures-read_capped_string λ path ok_path.
      Ensures-bind _ (read_paths n) _ (Ensures-read_paths n)
        λ rest ok_rest. Ensures-pure _ (omega arith, (ok_path, ok_rest.1))

-- What the caps leave of an animate request.
pub record IsCapped (r : AnimateReq) : Type 0 where
  pub task_id : IsString r.task_id
  pub count : length r.paths ≤ max_frame_count
  pub paths : All (λ p. IsString p.0) r.paths

-- Whatever bytes arrive, an animate request that is accepted names at most 4096 frames, and its
-- task id and each of its paths is valid UTF-8 of at most 1 MiB.
pub read_animate_req-IsCapped : Ensures IsCapped read_animate_req
unfolding read_animate_req
read_animate_req-IsCapped = Ensures-skip _ _ λ item_id.
    Ensures-bind IsString _ _ Ensures-read_capped_string λ task_id ok_task.
      Ensures-skip _ _ λ count.
        Ensures-then (λ _. count ≤ max_frame_count) _ _ (Ensures-guard_len max_frame_count count)
          λ _ few. Ensures-bind _ (read_paths count) _ (Ensures-read_paths count) λ paths ok_paths.
            Ensures-skip _ _ λ _. Ensures-skip _ _ λ _. Ensures-skip _ _ λ _. Ensures-skip _ _ λ _.
              Ensures-skip _ _ λ _. Ensures-skip _ _ λ _. Ensures-skip _ _ λ _.
                Ensures-skip _ _ λ _. Ensures-skip _ _ λ _. Ensures-skip _ _ λ _.
                  Ensures-skip _ _ λ _. Ensures-skip _ _ λ _. Ensures-pure _ (record {
                    task_id = ok_task;
                    count = omega (arith, ok_paths.0);
                    paths = ok_paths.1;
                  })
