-- ===== src/DiskCache/State.antt =====
-- The state of the disk cache: its index in memory, and the part of the file system it works on.
-- A frame's file is known by its folder, the item's id, and its name.
use jellyfin_recents.Prelude.{
  ℕ, ◌≡◌, Bool, true, ◌&&◌, Option, List, arith, ◌==◌, Eq, nat_eq, list_eq, int_eq, list_beq_iff,
  int_beq_iff, nat_beq_iff, ◌↔◌,
}
use jellyfin_recents.Prelude.Options.{unwrap_or}
use jellyfin_recents.Prelude.Int.{ℤ}
use jellyfin_recents.Prelude.Assoc.{Assoc}
use jellyfin_recents.DiskCache.Text.Strings.{Chars}
use jellyfin_recents.DiskCache.Text.Names.{file_name}

pub record Key : Type 0 where
  pub item_id : Chars
  pub pos_ms : ℤ
  pub width : ℕ

abbrev pub key_beq : Key → Key → Bool
key_beq a b = a.item_id == b.item_id && a.pos_ms == b.pos_ms && a.width == b.width

pub key_beq_iff : (a b : Key) → (key_beq a b ≡ true) ↔ (a ≡ b)
key_beq_iff a b = ground (
  arith,
  list_beq_iff a.item_id b.item_id,
  int_beq_iff a.pos_ms b.pos_ms,
  nat_beq_iff a.width b.width,
)

instance abbrev pub key_eq : Eq Key
key_eq = record { beq = key_beq; beq_iff = key_beq_iff }

pub record Entry : Type 0 where
  pub frame_idx : ℤ
  pub size : ℕ
  pub written_at : ℕ
  pub video_mtime : ℕ

pub record Index : Type 0 where
  pub entries : Assoc Key Entry
  pub total_bytes : ℕ

-- A file below the cache's folder: the item's folder and the file's name.
pub record FramePath : Type 0 where
  pub folder : Chars
  pub name : Chars

abbrev pub path_beq : FramePath → FramePath → Bool
path_beq a b = a.folder == b.folder && a.name == b.name

pub path_beq_iff : (a b : FramePath) → (path_beq a b ≡ true) ↔ (a ≡ b)
path_beq_iff a b = ground (arith, list_beq_iff a.folder b.folder, list_beq_iff a.name b.name)

instance abbrev pub path_eq : Eq FramePath
path_eq = record { beq = path_beq; beq_iff = path_beq_iff }

-- The bytes, and the time of the last change in seconds, 0 where it cannot be read.
pub record File : Type 0 where
  pub bytes : List ℕ
  pub modified : ℕ

-- `index_text` is none where index.txt cannot be read as text.
pub record Disk : Type 0 where
  pub files : Assoc FramePath File
  pub folders : List Chars
  pub index_text : Option Chars

pub record Cache : Type 0 where
  pub index : Index
  pub disk : Disk

-- What the operating system answers during one operation. `leftover` is what a failed write leaves.
pub record System : Type 0 where
  pub video_modified : Chars → Option ℕ
  pub now : Option ℕ
  pub can_create : Chars → Bool
  pub can_read : FramePath → Bool
  pub can_write : FramePath → Bool
  pub can_remove : FramePath → Bool
  pub can_remove_folder : Chars → Bool
  pub leftover : FramePath → Option File
  pub can_save : Bool
  pub index_leftover : Option Chars

-- `frame_path`.
unfoldable pub frame_path : Key → ℤ → FramePath
frame_path k frame_idx = record { folder = k.item_id; name = file_name frame_idx k.pos_ms k.width }

-- `video_mtime` and `now_secs`: 0 where the time cannot be read.
abbrev pub video_mtime : System → Chars → ℕ
video_mtime os video = unwrap_or 0 (os.video_modified video)

abbrev pub now_secs : System → ℕ
now_secs os = unwrap_or 0 os.now
