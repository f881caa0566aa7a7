-- ===== src/Storage/Spiffs.antt =====
-- The SPIFFS partition, core/storage/src/spiffs.rs. The instance's directory on the host is a field:
-- its entries, if it is there, and whether a symlink stands on the way to it. What mounting,
-- formatting, a write or a removal does on the host is an argument. The hash of a name, `DefaultHasher`, is a parameter.
pub mod Valid
pub mod Refines
pub mod ReadBack
pub mod Files
use Prim.Native.Char.{Char, code}
use project_mycelium.Common.{
  ℕ, zero, suc, ◌+◌, ◌-◌, ◌*◌, ◌/◌, ◌%◌, min, max, Bool, true, false, not, ◌&&◌, ◌||◌, ◌==◌, ltb,
  leb, List, [], ◌∷◌, length, get_or, set, take, replicate, Option, none, some, String,
  if◌then◌else◌,
}
use project_mycelium.Common.Word.{u64_max, sat_add64}
use project_mycelium.Common.Result.{Result, ok, err, Done}
use project_mycelium.Common.Store.{lookup, insert, remove}

abbrev pub default_spiffs_partition_size : ℕ
default_spiffs_partition_size = 0x360000

abbrev pub default_spiffs_block_size : ℕ
default_spiffs_block_size = 4096

abbrev pub spiffs_max_filename_chars : ℕ
spiffs_max_filename_chars = 32

-- The kinds of `io::Error`; `host` is any error of the file system itself.
pub data IoError : Type 0 where
  invalid_input storage_full not_connected would_block not_found host : IoError

-- A file with its bytes, a directory with the size that the host reports for it, or a symlink.
pub data Entry : Type 0 where
  file : List ℕ → Entry
  directory : ℕ → Entry
  symlink : Entry

pub record HostDirectory : Type 0 where
  pub is_safe : Bool
  pub entries : Option (List (String × Entry))

-- `fs::write`: it writes all, it cannot open the file, or it stops after some bytes.
pub data HostWrite : Type 0 where
  completes not_opened : HostWrite
  stops_after : ℕ → HostWrite

-- Emptying and creating the directory again: all is done, the removal fails and leaves the entries
-- with these names, or the directory is gone and is not created again.
pub data HostFormat : Type 0 where
  formats not_created : HostFormat
  not_removed : (String → Bool) → HostFormat

pub record VirtualSpiffs : Type 0 where
  pub base : HostDirectory
  pub mounted : Bool
  pub partition_size : ℕ
  pub block_size : ℕ
  pub write_cycles : List ℕ

pub record SpiffsInfo : Type 0 where
  pub total_bytes : ℕ
  pub used_bytes : ℕ
  pub free_bytes : ℕ

-- `u64::div_ceil`, for a divisor above 0.
unfoldable pub div_ceil : ℕ → ℕ → ℕ
div_ceil a b = if a % b == 0 then a / b else a / b + 1

unfoldable pub with_path_and_capacity : HostDirectory → ℕ → ℕ → VirtualSpiffs
with_path_and_capacity base partition_size block_size = record {
  base = base;
  mounted = false;
  partition_size = partition_size;
  block_size = block_size;
  write_cycles = replicate (if block_size == 0 then 0 else div_ceil partition_size block_size) 0;
}

-- `fs::create_dir_all`.
unfoldable pub create_dir : HostDirectory → HostDirectory
create_dir base = record base {
  entries = elim base.entries [ none ↦ some [] | some entries ↦ some entries ];
}

-- `Path::exists`.
unfoldable pub is_there : HostDirectory → Bool
is_there base = elim base.entries [ none ↦ false | some entries ↦ true ]

-- `creatable` is the host's answer to `create_dir_all` where the directory is not there yet; it
-- succeeds where it is.
unfoldable pub mount : VirtualSpiffs → Bool → VirtualSpiffs × Result IoError Bool
mount s creatable =
    if s.partition_size == 0 || s.block_size == 0
    then (s, err invalid_input)
    else if not s.base.is_safe
    then (s, err invalid_input)
    else if is_there s.base || creatable
    then (record s { base = create_dir s.base; mounted = true }, ok true)
    else (s, err host)

unfoldable pub unmount : VirtualSpiffs → VirtualSpiffs
unmount s = record s { mounted = false }

-- `strip_prefix('/')`.
unfoldable pub strip_slash : String → String
strip_slash String.[] = String.[]
strip_slash (String.◌∷◌ c s) = if code c == 47 then s else String.◌∷◌ c s

-- `chars().count()`.
unfoldable pub char_count : String → ℕ
char_count String.[] = 0
char_count (String.◌∷◌ c s) = suc (char_count s)

-- A slash or a backslash occurs.
unfoldable pub has_separator : String → Bool
has_separator String.[] = false
has_separator (String.◌∷◌ c s) = code c == 47 || code c == 92 || has_separator s

unfoldable pub is_dots : String → Bool
is_dots (String.◌∷◌ c String.[]) = code c == 46
is_dots (String.◌∷◌ c (String.◌∷◌ d String.[])) = code c == 46 && code d == 46
is_dots _ = false

unfoldable pub ensure_mounted : VirtualSpiffs → Done IoError
ensure_mounted s = if s.mounted then ok tt else err not_connected

unfoldable pub entry_of : HostDirectory → String → Option Entry
entry_of base name = elim base.entries [ none ↦ none | some entries ↦ lookup name entries ]

unfoldable pub resolve_filename : VirtualSpiffs → String → Result IoError String
resolve_filename s path = elim (ensure_mounted s) [
  | err e ↦ err e
  | ok _ ↦
      let filename = strip_slash path in
      if char_count filename == 0 || has_separator filename || is_dots filename
      then err invalid_input
      else if ltb spiffs_max_filename_chars (char_count filename)
      then err invalid_input
      else if not s.base.is_safe
      then err invalid_input
      else elim (entry_of s.base filename) [ some symlink ↦ err invalid_input | _ ↦ ok filename ]
]

-- The fold over the entries.
unfoldable pub sum_entries : ℕ → List (String × Entry) → Result IoError ℕ
sum_entries used [] = ok used
sum_entries used ((name, file bytes) ∷ rest) = sum_entries (sat_add64 used (length bytes)) rest
sum_entries used ((name, directory size) ∷ rest) = sum_entries used rest
sum_entries used ((name, symlink) ∷ rest) = err invalid_input

unfoldable pub used_bytes_of : VirtualSpiffs → Result IoError ℕ
used_bytes_of s = elim (ensure_mounted s) [
  | err e ↦ err e
  | ok _ ↦ elim s.base.entries [ none ↦ err not_found | some entries ↦ sum_entries 0 entries ]
]

unfoldable pub info : VirtualSpiffs → SpiffsInfo
info s =
    let used = min (elim (used_bytes_of s) [ ok used ↦ used | err _ ↦ 0 ]) s.partition_size in
    record {
      total_bytes = s.partition_size;
      used_bytes = used;
      free_bytes = s.partition_size - used;
    }
