-- ===== src/Bridge/Tests.antt =====
-- The C interface at concrete inputs.
use project_mycelium.Common.{ℕ, ◌≡◌, refl, true, false, [], ◌∷◌, Option, none, some, String, length}
use project_mycelium.Board.Nvs.{VirtualNvs, PersistedNvs, string, byte_len}
use project_mycelium.Board.Partition.{standalone}
use project_mycelium.Bridge.Flash.{Flash, utf8, nvs_args, nvs_exists, nvs_get_bool, nvs_get_string}
use project_mycelium.Bridge.Flash.Stored.{stored}
use project_mycelium.Bridge.Flash.Reads.{visible, is_some, bool_or, string_or, filled, reads_lem}

abbrev entries : PersistedNvs → Option ℕ
entries persisted = some (length persisted)

abbrev handle : VirtualNvs
handle = record {
  partition_size = 20480;
  backing = none;
  persisted = ("touch", ("label", string "Wadamesh") ∷ []) ∷ [];
  open_namespace = none;
}

abbrev flash : Flash
flash = record {
  nvs = ("a", handle) ∷ [];
  partitions = record { tables = []; active = standalone };
}

args_valid : nvs_args (utf8 "a") (utf8 "touch") (utf8 "label") ≡ some ("a", "touch", "label")
unfolding nvs_args byte_len
args_valid = refl

reads_lem_example :
    let value = visible flash (some ("a", "touch", "label")) in
    let there = nvs_exists entries flash (utf8 "a") (utf8 "touch") (utf8 "label") in
    let boolean = nvs_get_bool entries flash (utf8 "a") (utf8 "touch") (utf8 "label") true in
    let text =
      nvs_get_string entries flash (utf8 "a") (utf8 "touch") (utf8 "label") (utf8 "none") false 5 in
    (there.1 ≡ is_some value)
    × (boolean.1 ≡ bool_or true value)
    × (text.1 ≡ filled entries false 5 (string_or "none" value))
    × (text.2 ≡ byte_len (string_or "none" value))
    × ((i n k : String)
        → (stored there.0 i n k ≡ stored flash i n k)
          × (stored boolean.0 i n k ≡ stored flash i n k)
          × (stored text.0 i n k ≡ stored flash i n k))
reads_lem_example =
    reads_lem entries flash (utf8 "a") (utf8 "touch") (utf8 "label") "a" "touch" "label" "none" true
      false 5 args_valid refl
