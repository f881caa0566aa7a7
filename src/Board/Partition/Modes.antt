-- ===== src/Board/Partition/Modes.antt =====
-- The tables of all instances as their modes: sequences of the calls on the registry of
-- core/board/src/partition.rs.
use project_mycelium.Common.{
  ◌≡◌, refl, sym, subst, Bool, true, false, String, List, [], ◌∷◌, Option, Option-cases, inl, inr,
  none, some, if◌then◌else◌, arith,
}
use mathlib.Core.Option
use text.Mathlib.Text.{◌==◌ as str_eq}
use project_mycelium.Common.Store.{lookup, lookup-insert, lookup-remove}
use project_mycelium.Board.Nvs.{standalone_nvs_size, launcher_nvs_size}
use project_mycelium.Board.Partition.{
  VirtualPartitionTable, Registry, standalone, launcher, find_first, otadata_address,
  is_under_launcher, register_partition_table, get_partition_table, activate_partition_table,
  remove_partition_table, esp_partition_type_data, esp_partition_subtype_data_nvs,
  standalone_otadata_address, launcher_otadata_address, AreApart, table_of, table_of-AreApart,
  registered,
}

pub data PartitionCall : Type 0 where
  registers : String → Bool → PartitionCall
  activates removes : String → PartitionCall

unfoldable pub call : Registry → PartitionCall → Registry
call r (registers id launcher_mode) = register_partition_table r id launcher_mode
call r (activates id) = (activate_partition_table r id).0
call r (removes id) = (remove_partition_table r id).0

unfoldable pub run_calls : Registry → List PartitionCall → Registry
run_calls r [] = r
run_calls r (c ∷ cs) = run_calls (call r c) cs

-- At the start of the process.
abbrev pub no_tables : Registry
no_tables = record { tables = []; active = standalone }

-- Whether each instance that has a table is in Launcher mode, and the mode of the active table.
pub record Modes : Type 0 where
  pub of_instance : String → Option Bool
  pub active : Bool

unfoldable pub change_modes : Modes → PartitionCall → Modes
change_modes m (registers id launcher_mode) = record {
  of_instance = λ at. if str_eq id at then some launcher_mode else m.of_instance at;
  active = launcher_mode;
}
change_modes m (activates id) = record m {
  active = elim (m.of_instance id) [ none ↦ m.active | some launcher_mode ↦ launcher_mode ];
}
change_modes m (removes id) = record m {
  of_instance = λ at. if str_eq id at then none else m.of_instance at;
}

unfoldable pub modes_after : Modes → List PartitionCall → Modes
modes_after m [] = m
modes_after m (c ∷ cs) = modes_after (change_modes m c) cs

abbrev pub no_modes : Modes
no_modes = record { of_instance = λ at. none; active = false }

-- What a firmware sees of a table in a mode: whether the Launcher is recognised, where the OTA data
-- are, how large the NVS partition is, and partitions one after the other in the flash.
abbrev pub IsTable : Bool → VirtualPartitionTable → Type 0
IsTable launcher_mode table =
    (is_under_launcher table ≡ launcher_mode)
    × (otadata_address table
        ≡ some (if launcher_mode then launcher_otadata_address else standalone_otadata_address))
    × (Option.map (λ p. p.size)
          (find_first table esp_partition_type_data esp_partition_subtype_data_nvs)
        ≡ some (if launcher_mode then launcher_nvs_size else standalone_nvs_size))
    × AreApart table.partitions

-- There is a table exactly where there is a mode, and it is one of that mode.
abbrev pub Shows : Option Bool → Option VirtualPartitionTable → Type 0
Shows none none = Unit
Shows (some launcher_mode) (some table) = IsTable launcher_mode table
Shows _ _ = ⊥

table_of-IsTable : (launcher_mode : Bool) → IsTable launcher_mode (table_of launcher_mode)
unfolding is_under_launcher standalone launcher
table_of-IsTable true = (refl, refl, refl, table_of-AreApart true)
table_of-IsTable false = (refl, refl, refl, table_of-AreApart false)

-- The registry holds the tables of the modes.
abbrev Follows : Registry → Modes → Type 0
Follows r m =
    ((id : String) → get_partition_table r id ≡ Option.map table_of (m.of_instance id))
    × (r.active ≡ table_of m.active)

register-Follows :
    (r : Registry) (m : Modes) (id : String) (launcher_mode : Bool)
    → Follows r m
    → Follows
        (register_partition_table r id launcher_mode)
        (change_modes m (registers id launcher_mode))
unfolding get_partition_table change_modes
register-Follows r m id launcher_mode (tables, active) =
    subst (λ r'. Follows r' (change_modes m (registers id launcher_mode)))
      (sym (registered r id launcher_mode))
      (λ at. ground (arith, lookup-insert id at (table_of launcher_mode) r.tables, tables at), refl)

call-Follows :
    (r : Registry) (m : Modes) (c : PartitionCall)
    → Follows r m
    → Follows (call r c) (change_modes m c)
unfolding call get_partition_table change_modes activate_partition_table remove_partition_table
call-Follows r m (registers id launcher_mode) h = register-Follows r m id launcher_mode h
call-Follows r m (activates id) (tables, active) = elim (Option-cases (m.of_instance id)) [
  | inl unknown ↦ (
    λ at. ground (arith, tables id, tables at, unknown),
    ground (arith, tables id, unknown, active),
  )
  | inr (launcher_mode, known) ↦
      (λ at. ground (arith, tables id, tables at, known), ground (arith, tables id, known))
]
call-Follows r m (removes id) (tables, active) =
    (λ at. ground (arith, lookup-remove id at r.tables, tables at), active)

run_calls-Follows :
    (cs : List PartitionCall) (r : Registry) (m : Modes)
    → Follows r m
    → Follows (run_calls r cs) (modes_after m cs)
unfolding run_calls modes_after
run_calls-Follows [] r m h = h
run_calls-Follows (c ∷ cs) r m h =
    run_calls-Follows cs (call r c) (change_modes m c) (call-Follows r m c h)

map-Shows : (mode : Option Bool) → Shows mode (Option.map table_of mode)
map-Shows none = tt
map-Shows (some launcher_mode) = table_of-IsTable launcher_mode

-- After any registrations, activations and removals since the start of the process, an instance has
-- a table exactly if it was registered and not removed since, and the table is one of the mode that
-- it was registered in last; the active table is one of the mode of the last registration or
-- activation of a known instance, standalone before the first, and keeps that mode when its
-- instance is removed. In each mode the Launcher is recognised exactly in Launcher mode, the OTA data
-- have the mode's address, the NVS partition has the mode's size, and the partitions lie one after
-- the other in the flash.
pub run_calls-Shows :
    (cs : List PartitionCall)
    → let m = modes_after no_modes cs in
      let r = run_calls no_tables cs in
      ((id : String) → Shows (m.of_instance id) (get_partition_table r id))
      × IsTable m.active r.active
unfolding get_partition_table lookup
run_calls-Shows cs =
    let m = modes_after no_modes cs in
    let (tables, active) = run_calls-Follows cs no_tables no_modes (λ id. refl, refl) in
    (
      λ id. subst (Shows (m.of_instance id)) (sym (tables id)) (map-Shows (m.of_instance id)),
      subst (IsTable m.active) (sym active) (table_of-IsTable m.active),
    )
