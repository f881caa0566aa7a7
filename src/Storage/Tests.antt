-- ===== src/Storage/Tests.antt =====
-- Storage at concrete inputs.
use project_mycelium.Common.{
  ℕ, ◌≡◌, ◌≢◌, refl, true, false, List, [], ◌∷◌, none, some, String, arith, if◌then◌else◌,
}
use text.Mathlib.Text.{◌==◌ as str_eq}
use project_mycelium.Common.Result.{ok, err}
use project_mycelium.Common.Store.{lookup, insert}
use project_mycelium.Storage.Spiffs
use project_mycelium.Storage.Spiffs.{
  VirtualSpiffs, HostDirectory, completes, formats, not_created, not_removed, stops_after,
  resolve_filename, strip_slash, char_count, has_separator, is_dots, ensure_mounted, entry_of,
  sum_entries, used_bytes_of, div_ceil,
}
use project_mycelium.Storage.Spiffs.Files.{
  write_file, read_file, size_of, fits, host_write, put_entry, record_write, write_fitting,
  touch_blocks,
}
use project_mycelium.Storage.Spiffs.Valid
use project_mycelium.Storage.Spiffs.Valid.Calls
use project_mycelium.Storage.Spiffs.Valid.{blocks, bytes_in, file_bytes}
use project_mycelium.Storage.Spiffs.Valid.Calls.{Call, mount_it, write, delete, format_it}
use project_mycelium.Storage.Spiffs.Refines
use project_mycelium.Storage.Spiffs.Refines.{contents, replay, log}
use project_mycelium.Storage.Spiffs.ReadBack.{read_file-contents, read_file-write_file}
use project_mycelium.Storage.SdCard
use project_mycelium.Storage.SdCard.{VirtualSdCard, mount_with_retry_ladder}
use project_mycelium.Storage.SdCard.Ladder.{mount_with_retry_ladder_lem}
use project_mycelium.Storage.InstanceDirectory.{instance_directory_injective}

abbrev hash : String → ℕ
hash name = 5

abbrev fresh : VirtualSpiffs
fresh = record {
  base = record { is_safe = true; entries = some [] };
  mounted = true;
  partition_size = 8;
  block_size = 4;
  write_cycles = 0 ∷ 0 ∷ [];
}

abbrev calls : List Call
calls =
    mount_it true
    ∷ write "/a" (1 ∷ 2 ∷ []) completes
    ∷ write "b" (3 ∷ []) completes
    ∷ delete "a" true
    ∷ format_it formats
    ∷ []

abbrev short_calls : List Call
short_calls =
    write "/a" (1 ∷ 2 ∷ []) (stops_after 1)
    ∷ write "b" (3 ∷ []) completes
    ∷ format_it (not_removed (str_eq "b"))
    ∷ format_it not_created
    ∷ mount_it false
    ∷ []

fresh-IsValid : Valid.IsValid fresh
unfolding bytes_in file_bytes blocks div_ceil
fresh-IsValid = (omega arith, omega arith, refl)

run-IsFitting_example : Valid.IsValid (Calls.run hash fresh short_calls)
run-IsFitting_example = Calls.run-IsFitting hash short_calls fresh fresh-IsValid

run-replay_example :
    contents ((Calls.run hash fresh calls).base)
    ≡ replay (contents fresh.base) (log hash fresh calls)
run-replay_example = Refines.run-replay hash calls fresh (refl, (refl, (refl, (refl, (refl, tt)))))

resolved : resolve_filename fresh "/a" ≡ ok "a"
unfolding resolve_filename ensure_mounted strip_slash char_count has_separator is_dots entry_of
    lookup
resolved = refl

read_file-contents_example :
    elim (read_file fresh "/a") [ ok bytes ↦ some bytes | err e ↦ none ] ≡ contents fresh.base "a"
read_file-contents_example = read_file-contents fresh "/a" "a" resolved

abbrev after : VirtualSpiffs
after = record {
  base = record { is_safe = true; entries = some (("a", Spiffs.file (1 ∷ 2 ∷ [])) ∷ []) };
  mounted = true;
  partition_size = 8;
  block_size = 4;
  write_cycles = 0 ∷ 1 ∷ [];
}

written : write_file hash fresh "/a" (1 ∷ 2 ∷ []) completes ≡ (after, ok tt)
unfolding resolve_filename ensure_mounted strip_slash char_count has_separator is_dots entry_of
    lookup write_file used_bytes_of sum_entries size_of fits write_fitting host_write put_entry
    insert record_write touch_blocks div_ceil
written = refl

read_file-write_file_example :
    read_file after "b"
    ≡ (if str_eq (strip_slash "/a") (strip_slash "b") then ok (1 ∷ 2 ∷ []) else read_file fresh "b")
read_file-write_file_example =
    read_file-write_file hash fresh after "/a" "b" "a" (1 ∷ 2 ∷ []) completes resolved written

abbrev slow_card : VirtualSdCard
slow_card = record {
  mounted = false;
  capacity = 1000;
  lora_cs_high = true;
  requires_slow_init = true;
  wake_delay_ms = 2000;
  last_init_elapsed_ms = 0;
  last_init_frequency_hz = none;
}

mount_with_retry_ladder_lem_example : mount_with_retry_ladder slow_card (ok tt) ≡ (
  record slow_card {
    mounted = true;
    last_init_elapsed_ms = 2660;
    last_init_frequency_hz = some 400000;
  },
  ok true,
)
mount_with_retry_ladder_lem_example =
    mount_with_retry_ladder_lem slow_card (refl, omega arith, omega arith)

abbrev mounted_card : VirtualSdCard
mounted_card = record slow_card { mounted = true }

abbrev answers : SdCard.HostWrite
answers = record { path = ok tt; old_size = 10; used = ok 900; outcome = ok tt }

asked : (SdCard.write_file mounted_card 100 answers).1 ≡ true
unfolding SdCard.write_file SdCard.resolve SdCard.ensure_ready SdCard.ensure_bus_available
    SdCard.validate_file_size
asked = refl

abbrev node_id : List ℕ
node_id = 97 ∷ []

some_id : node_id ≢ []
some_id e = ground (arith, e)

instance_directory_injective_example : node_id ≡ node_id
instance_directory_injective_example =
    instance_directory_injective node_id node_id (omega arith, tt) (omega arith, tt) some_id some_id
      refl
