-- ===== src/Board/Partition.antt =====
-- The flash partition tables, core/board/src/partition.rs. The tables of the instances are an
-- association list, and the table that the calling thread sees stands beside it.
pub mod Modes
use project_mycelium.Common.{
  ℕ, ◌+◌, ◌≤◌, ◌≡◌, refl, sym, subst, Bool, true, false, ◌&&◌, ◌==◌, String, List, [], ◌∷◌, Option,
  Option-cases, inl, inr, none, some, if◌then◌else◌, arith,
}
use mathlib.Core.Option
use project_mycelium.Common.Store.{lookup, insert, remove, lookup-insert_self}
use project_mycelium.Board.Nvs.{standalone_nvs_size, launcher_nvs_size}

pub record VirtualPartition : Type 0 where
  pub name : String
  pub partition_type : ℕ
  pub subtype : ℕ
  pub address : ℕ
  pub size : ℕ

pub record VirtualPartitionTable : Type 0 where
  pub partitions : List VirtualPartition

abbrev esp_partition_type_app : ℕ
esp_partition_type_app = 0x00

abbrev esp_partition_type_data : ℕ
esp_partition_type_data = 0x01

abbrev esp_partition_subtype_data_ota : ℕ
esp_partition_subtype_data_ota = 0x00

abbrev esp_partition_subtype_data_phy : ℕ
esp_partition_subtype_data_phy = 0x01

abbrev esp_partition_subtype_data_nvs : ℕ
esp_partition_subtype_data_nvs = 0x02

abbrev esp_partition_subtype_data_coredump : ℕ
esp_partition_subtype_data_coredump = 0x03

abbrev esp_partition_subtype_data_spiffs : ℕ
esp_partition_subtype_data_spiffs = 0x82

abbrev esp_partition_subtype_app_ota_0 : ℕ
esp_partition_subtype_app_ota_0 = 0x10

abbrev esp_partition_subtype_app_ota_1 : ℕ
esp_partition_subtype_app_ota_1 = 0x11

abbrev esp_partition_subtype_app_test : ℕ
esp_partition_subtype_app_test = 0x20

abbrev standalone_otadata_address : ℕ
standalone_otadata_address = 0xe000

abbrev launcher_otadata_address : ℕ
launcher_otadata_address = 0xd000

abbrev partition : String → ℕ → ℕ → ℕ → ℕ → VirtualPartition
partition name partition_type subtype address size = record {
  name = name;
  partition_type = partition_type;
  subtype = subtype;
  address = address;
  size = size;
}

unfoldable pub standalone : VirtualPartitionTable
standalone = record {
  partitions =
      partition "nvs" esp_partition_type_data esp_partition_subtype_data_nvs 0x9000
        standalone_nvs_size
      ∷ partition "otadata" esp_partition_type_data esp_partition_subtype_data_ota
          standalone_otadata_address 0x2000
      ∷ partition "app0" esp_partition_type_app esp_partition_subtype_app_ota_0 0x10000 0x640000
      ∷ partition "app1" esp_partition_type_app esp_partition_subtype_app_ota_1 0x650000 0x640000
      ∷ partition "spiffs" esp_partition_type_data esp_partition_subtype_data_spiffs 0xc90000
          0x360000
      ∷ partition "coredump" esp_partition_type_data esp_partition_subtype_data_coredump 0xff0000
          0x10000
      ∷ [];
}

unfoldable pub launcher : VirtualPartitionTable
launcher = record {
  partitions =
      partition "nvs" esp_partition_type_data esp_partition_subtype_data_nvs 0x9000
        launcher_nvs_size
      ∷ partition "otadata" esp_partition_type_data esp_partition_subtype_data_ota
          launcher_otadata_address 0x2000
      ∷ partition "phy_init" esp_partition_type_data esp_partition_subtype_data_phy 0xf000 0x1000
      ∷ partition "app0" esp_partition_type_app esp_partition_subtype_app_test 0x10000 0x180000
      ∷ partition "coredump" esp_partition_type_data esp_partition_subtype_data_coredump 0x190000
          0x10000
      ∷ [];
}

unfoldable pub find_in : ℕ → ℕ → List VirtualPartition → Option VirtualPartition
find_in partition_type subtype [] = none
find_in partition_type subtype (p ∷ ps) =
    if p.partition_type == partition_type && p.subtype == subtype
    then some p
    else find_in partition_type subtype ps

unfoldable pub find_first : VirtualPartitionTable → ℕ → ℕ → Option VirtualPartition
unfolding find_in
find_first table partition_type subtype = find_in partition_type subtype table.partitions

unfoldable pub otadata_address : VirtualPartitionTable → Option ℕ
unfolding find_first
otadata_address table =
    Option.map (λ p. p.address)
      (find_first table esp_partition_type_data esp_partition_subtype_data_ota)

-- A test application, and the OTA data at the Launcher's address.
unfoldable pub is_under_launcher : VirtualPartitionTable → Bool
unfolding find_first otadata_address
is_under_launcher table =
    elim (find_first table esp_partition_type_app esp_partition_subtype_app_test) [
      | none ↦ false
      | some _ ↦ true
    ]
    && elim (otadata_address table) [
      | none ↦ false
      | some address ↦ address == launcher_otadata_address
    ]

unfoldable pub set_launcher_mode : VirtualPartitionTable → Bool → VirtualPartitionTable
unfolding launcher standalone
set_launcher_mode table enabled = if enabled then launcher else standalone

-- `PARTITION_TABLES`, and the thread's `ACTIVE_PARTITION_TABLE`.
pub record Registry : Type 0 where
  pub tables : List (String × VirtualPartitionTable)
  pub active : VirtualPartitionTable

unfoldable pub register_partition_table : Registry → String → Bool → Registry
register_partition_table r id launcher_mode = elim (lookup id r.tables) [
  | some table ↦
      let table' = set_launcher_mode table launcher_mode in
      record { tables = insert id table' r.tables; active = table' }
  | none ↦
      let table = if launcher_mode then launcher else standalone in
      record { tables = insert id table r.tables; active = table }
]

unfoldable pub get_partition_table : Registry → String → Option VirtualPartitionTable
get_partition_table r id = lookup id r.tables

unfoldable pub activate_partition_table : Registry → String → Registry × Bool
activate_partition_table r id = elim (lookup id r.tables) [
  | none ↦ (r, false)
  | some table ↦ (record r { active = table }, true)
]

unfoldable pub remove_partition_table : Registry → String → Registry × Option VirtualPartitionTable
remove_partition_table r id = (record r { tables = remove id r.tables }, lookup id r.tables)

-- Each partition ends before the next one of the table starts, inside the 16 MB of flash.
abbrev pub AreApart : List VirtualPartition → Type 0
AreApart [] = Unit
AreApart (p ∷ []) = p.address + p.size ≤ 0x1000000
AreApart (p ∷ q ∷ ps) = (p.address + p.size ≤ q.address) × AreApart (q ∷ ps)

abbrev pub table_of : Bool → VirtualPartitionTable
table_of mode = if mode then launcher else standalone

pub table_of-AreApart : (mode : Bool) → AreApart (table_of mode).partitions
unfolding launcher standalone
table_of-AreApart true = (omega arith, (omega arith, (omega arith, (omega arith, omega arith))))
table_of-AreApart false =
    (omega arith, (omega arith, (omega arith, (omega arith, (omega arith, omega arith)))))

pub registered :
    (r : Registry) (id : String) (mode : Bool)
    → register_partition_table r id mode
      ≡ record { tables = insert id (table_of mode) r.tables; active = table_of mode }
unfolding set_launcher_mode register_partition_table
registered r id mode = elim (Option-cases (lookup id r.tables)) [
  | inl fresh ↦ rw (fresh, register_partition_table) refl
  | inr (old, known) ↦ rw (known, register_partition_table) refl
]
