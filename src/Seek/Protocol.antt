-- ===== src/Seek/Protocol.antt =====
-- The messages of crates/seek-preview/src/protocol.rs, and the client's side of a request.
use jellyfin_recents.Prelude.{ℕ, ◌%◌, ◌^◌, ◌<◌, ◌≡◌, refl, true, ◌++◌, arith, length}
use jellyfin_recents.Prelude.Int.{ℤ, IsI64}
use jellyfin_recents.Wire.Bytes.{Text}
use jellyfin_recents.Wire.Utf8.{is_utf8}
use jellyfin_recents.Wire.Reader.{
  Reader, ok, pure, ◌>>=◌, ◌>>◌, read_exact, read_u8, read_u32, read_i64, utf8, utf8_or_default,
}
use jellyfin_recents.Wire.Writer.{write_u8, write_u32, write_i64, write_bytes, write_string}
use jellyfin_recents.Wire.Requests.Fields.{
  IsItemId, read_u8-write_u8, read_u32-write_u32, read_i64-write_i64, read_exact-append, utf8-valid,
}

pub record Request : Type 0 where
  pub priority : ℕ
  pub request_id : ℕ
  pub pos_ms : ℤ
  pub width : ℕ
  pub path : Text
  pub item_id : Text

unfoldable pub read_priority : Reader ℕ
read_priority = read_u8

unfoldable pub read_req_body : ℕ → Reader Request
read_req_body priority = do
  request_id ← read_u32
  pos_ms ← read_i64
  width ← read_u32
  path_len ← read_u32
  path_bytes ← read_exact path_len
  path ← utf8 path_bytes
  id_bytes ← read_exact 32
  item_id ← utf8 id_bytes
  pure (record {
    priority = priority;
    request_id = request_id;
    pos_ms = pos_ms;
    width = width;
    path = path;
    item_id = item_id;
  })

unfoldable pub write_response : ℕ → Text → Text → Text
write_response id bytes rest = write_u32 id (write_string bytes rest)

unfoldable pub write_ack : ℕ → Text → Text
write_ack id rest = write_u32 id (write_u32 0 rest)

-- What `handle_list_cached` reads: the request's id, the item's id and the width.
unfoldable pub read_list_req : Reader (ℕ × Text × ℕ)
read_list_req = do
  request_id ← read_u32
  id_bytes ← read_exact 32
  width ← read_u32
  pure (request_id, utf8_or_default id_bytes, width)

-- The client's request.
unfoldable pub write_request : Request → Text → Text
write_request r rest = write_u8 r.priority (
    write_u32 r.request_id
      (write_i64 r.pos_ms (write_u32 r.width (write_string r.path (write_bytes r.item_id rest)))))

pub record RequestFits (r : Request) : Type 0 where
  pub priority : r.priority < 256
  pub request_id : r.request_id < 2 ^ 32
  pub pos_ms : IsI64 r.pos_ms
  pub width : r.width < 2 ^ 32
  pub path : is_utf8 r.path ≡ true
  pub path_len : length r.path < 2 ^ 32
  pub item_id : IsItemId r.item_id

read_len :
    (bs rest : Text)
    → length bs < 2 ^ 32
    → read_u32 (write_string bs rest) ≡ (ok (length bs), bs ++ rest)
unfolding write_string write_bytes
read_len bs rest h =
    let fits : length bs % 2 ^ 32 ≡ length bs = omega arith in
    rw fits (read_u32-write_u32 (length bs) (bs ++ rest) h)

-- A request as the client writes it is read as it was, and what follows it stays on the stream:
-- its numbers fit their fields, its path is UTF-8 and shorter than 4 GiB, and its item id is 32
-- bytes of UTF-8.
pub read-write_request :
    (r : Request) (rest : Text)
    → RequestFits r
    → (read_priority >>= read_req_body) (write_request r rest) ≡ (ok r, rest)
unfolding read_priority read_req_body write_request ◌>>=◌ ◌>>◌ pure write_bytes
read-write_request r rest h = rw (
  read_u8-write_u8 r.priority _ h.priority,
  read_u32-write_u32 r.request_id _ h.request_id,
  read_i64-write_i64 r.pos_ms _ h.pos_ms,
  read_u32-write_u32 r.width _ h.width,
  read_len r.path _ h.path_len,
  read_exact-append (length r.path) r.path _ refl,
  utf8-valid r.path _ h.path,
  read_exact-append 32 r.item_id rest h.item_id.size,
  utf8-valid r.item_id rest h.item_id.valid,
)
