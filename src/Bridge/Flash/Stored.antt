-- ===== src/Bridge/Flash/Stored.antt =====
-- The flash of all instances as one map from instance, namespace and key: what the writing calls of
-- core/bridge/src/flash_ffi.rs do to it.
use project_mycelium.Common.{
  ℕ, ◌≡◌, Bool, true, false, ◌&&◌, String, Option, none, some, if◌then◌else◌, arith,
}
use text.Mathlib.Text.{◌==◌ as str_eq}
use text.Mathlib.TextEquality.{eq_iff}
use project_mycelium.Common.Store.{lookup, insert, lookup-insert}
use project_mycelium.Board.Nvs.{VirtualNvs, NvsValue, bool, string, PersistedNvs, HostWrite}
use project_mycelium.Bridge.Flash.{CString, utf8, Flash, nvs_put_bool, nvs_put_string, nvs_remove}
use project_mycelium.Bridge.Flash.Opened.{Writes}
use project_mycelium.Bridge.Flash.Writes.{read_at, read_file, MayHold}

-- The value of a key in memory, if the instance has a live handle; this is what is read.
unfoldable pub stored : Flash → String → String → String → Option NvsValue
stored f instance_id namespace key = elim (lookup instance_id f.nvs) [
  | none ↦ none
  | some handle ↦ read_at handle.persisted namespace key
]

-- The value of a key in the backing file of the instance's live handle.
unfoldable pub saved : Flash → String → String → String → Option NvsValue
saved f instance_id namespace key = elim (lookup instance_id f.nvs) [
  | none ↦ none
  | some handle ↦ read_file handle.backing namespace key
]

-- A write of one key through the C interface.
pub data Change : Type 0 where
  put_bool : Bool → Change
  put_string : CString → Change
  remove_one : Change

-- What the key holds after the write.
abbrev pub new_value : Change → Option NvsValue
new_value (put_bool b) = some (bool b)
new_value (put_string (utf8 s)) = some (string s)
new_value (put_string c) = none
new_value remove_one = none

-- The arguments name this key.
abbrev pub names : Option (String × String × String) → String → String → String → Bool
names none instance_id namespace key = false
names (some (i, n, k)) instance_id namespace key =
    str_eq i instance_id && (str_eq n namespace && str_eq k key)

-- The arguments name this instance.
abbrev pub names_instance : Option (String × String × String) → String → Bool
names_instance none instance_id = false
names_instance (some (i, n, k)) instance_id = str_eq i instance_id

pub stored-insert :
    (f : Flash) (i : String) (handle : VirtualNvs) (instance_id n k : String)
    → stored (record f { nvs = insert i handle f.nvs }) instance_id n k
      ≡ (if str_eq i instance_id then read_at handle.persisted n k else stored f instance_id n k)
unfolding stored
stored-insert f i handle instance_id n k =
    ground (arith, lookup-insert {0} i instance_id handle f.nvs)

pub stored-found :
    (f : Flash) (i : String) (handle : VirtualNvs) (instance_id n k : String)
    → lookup i f.nvs ≡ some handle
    → str_eq i instance_id ≡ true
    → stored f instance_id n k ≡ read_at handle.persisted n k
unfolding stored
stored-found f i handle instance_id n k found same =
    ground (arith, found, same, eq_iff i instance_id)

module _ (encoded_len : PersistedNvs → Option ℕ) where
  unfoldable pub change :
      HostWrite → HostWrite → Flash → CString → CString → CString → Change → Option (Flash × Bool)
  change host host' f i n k (put_bool b) = nvs_put_bool encoded_len host host' f i n k b
  change host host' f i n k (put_string s) = nvs_put_string encoded_len host host' f i n k s
  change host host' f i n k remove_one = nvs_remove encoded_len host host' f i n k

  -- A call that returns, and what memory and the backing files hold after it.
  abbrev pub Changes :
      Flash → Option (String × String × String) → Option NvsValue → Option (Flash × Bool) → Type 0
  Changes f args value result =
      (r : Flash × Bool) × (result ≡ some r)
      × (r.0.partitions ≡ f.partitions)
      × ((i n k : String)
          → (stored r.0 i n k ≡ (if r.1 && names args i n k then value else stored f i n k))
            × MayHold (names args i n k) value (saved f i n k) (stored f i n k) (saved r.0 i n k)
            × ((if r.1 && names_instance args i then saved r.0 i n k else stored r.0 i n k)
                ≡ stored r.0 i n k))
