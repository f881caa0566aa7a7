-- ===== src/Bridge/Flash/Reads.antt =====
-- What the reading calls of core/bridge/src/flash_ffi.rs answer, by the map of what is stored.
use project_mycelium.Common.{
  ℕ, ◌-◌, min, ◌≡◌, refl, sym, ◌∙◌, ap, inl, inr, Bool, true, false, not, ◌&&◌, ◌==◌, Bool-cases,
  Option-cases, String, [], ◌∷◌, Option, none, some, if◌then◌else◌, arith,
}
use text.Mathlib.Text.{◌==◌ as str_eq}
use project_mycelium.Common.Store.{lookup, has, insert, has-lookup}
use project_mycelium.Board.Nvs
use project_mycelium.Board.Nvs.{
  VirtualNvs, OpenNamespace, NvsValue, bool, string, Values, PersistedNvs, HostWrite, valid_name,
  begin, end, open_value, open_values, byte_len,
}
use project_mycelium.Bridge.Flash.{
  CString, utf8, Flash, nvs_args, reading, on_reading, nvs_exists, nvs_get_bool, nvs_get_string,
  get_string_of,
}
use project_mycelium.Bridge.Flash.Writes.{read_at, begin-read_at}
use project_mycelium.Bridge.Flash.Stored.{stored, stored-insert, stored-found}

abbrev pub is_some {ℓ} : {A : Type ℓ} → Option A → Bool
is_some none = false
is_some (some a) = true

abbrev pub bool_or : Bool → Option NvsValue → Bool
bool_or default (some (bool value)) = value
bool_or default (some (string value)) = default
bool_or default none = default

abbrev pub string_or : String → Option NvsValue → String
string_or default (some (string value)) = value
string_or default (some (bool value)) = default
string_or default none = default

-- The value of the key that the arguments name, if both names are valid.
abbrev pub visible : Flash → Option (String × String × String) → Option NvsValue
visible f none = none
visible f (some (i, n, k)) = if valid_name n && valid_name k then stored f i n k else none

has-is_some : (k : String) (values : Values) → has k values ≡ is_some (lookup k values)
unfolding has lookup
has-is_some k [] = refl
has-is_some k ((at, value) ∷ values) = ground (arith, has-is_some k values)

exists-open_value : (h : VirtualNvs) (k : String) → Nvs.exists h k ≡ is_some (open_value h k)
unfolding Nvs.exists open_value
exists-open_value h k = elim (Option-cases (open_values h)) [
  | inl missing ↦ ground (arith, missing)
  | inr (values, found) ↦ ground (arith, found, has-is_some k values)
]

get_bool-open_value :
    (b : Bool) (h : VirtualNvs) (k : String) → Nvs.get_bool h k b ≡ bool_or b (open_value h k)
unfolding Nvs.get_bool
get_bool-open_value b h k = by_value (open_value h k)
  where
    by_value : (v : Option NvsValue) → elim v [ some (bool value) ↦ value | _ ↦ b ] ≡ bool_or b v
    by_value none = refl
    by_value (some (bool value)) = refl
    by_value (some (string value)) = refl

get_string-open_value :
    (s : String) (h : VirtualNvs) (k : String) → Nvs.get_string h k s ≡ string_or s (open_value h k)
unfolding Nvs.get_string
get_string-open_value s h k = by_value (open_value h k)
  where
    by_value :
        (v : Option NvsValue) → elim v [ some (string value) ↦ value | _ ↦ s ] ≡ string_or s v
    by_value none = refl
    by_value (some (bool value)) = refl
    by_value (some (string value)) = refl

visible-missing :
    (f : Flash) (i n k : String) → lookup i f.nvs ≡ none → visible f (some (i, n, k)) ≡ none
unfolding stored
visible-missing f i n k missing = ground (arith, missing)

visible-found :
    (f : Flash) (i n k : String) (h : VirtualNvs)
    → lookup i f.nvs ≡ some h
    → (if valid_name n && valid_name k then read_at h.persisted n k else none)
      ≡ visible f (some (i, n, k))
unfolding stored
visible-found f i n k h found = ground (arith, found)

-- A handle with the same values written back.
stored_back :
    (f : Flash) (i : String) (h h' : VirtualNvs)
    → lookup i f.nvs ≡ some h
    → ((n k : String) → read_at h'.persisted n k ≡ read_at h.persisted n k)
    → (i' n k : String) → stored (record f { nvs = insert i h' f.nvs }) i' n k ≡ stored f i' n k
stored_back f i h h' found same i' n k = elim (Bool-cases (str_eq i i')) [
  | inl here ↦
      ground
        (arith, stored-insert f i h' i' n k, here, same n k, stored-found f i h i' n k found here)
  | inr there ↦ ground (arith, stored-insert f i h' i' n k, there)
]

module _ (encoded_len : PersistedNvs → Option ℕ) where
  -- What a handle that is opened for reading shows.
  opened_value :
      (host : HostWrite) (h : VirtualNvs) (n k : String)
      → (begin encoded_len host h n true).1 ≡ true
      → open_value (begin encoded_len host h n true).0 k
        ≡ (if valid_name n && valid_name k then read_at h.persisted n k else none)
  unfolding begin open_value open_values read_at
  opened_value host h n k done = ground (arith, done)

  closed_value :
      (host : HostWrite) (h : VirtualNvs) (n k : String)
      → (begin encoded_len host h n true).1 ≡ false
      → (if valid_name n && valid_name k then read_at h.persisted n k else none) ≡ none
  unfolding begin read_at
  closed_value host h n k failed = elim (Option-cases (lookup n h.persisted)) [
    | inl missing ↦ ground (arith, missing)
    | inr (values, found) ↦ ground (arith, found, failed, has-lookup n h.persisted values found)
  ]

  reading_lem {ℓ} :
      {A : Type ℓ} (h : VirtualNvs) (n k : String) (read : VirtualNvs → String → A)
      (g : Option NvsValue → A)
      → ((h : VirtualNvs) (k : String) → read h k ≡ g (open_value h k))
      → (reading encoded_len h n (g none) (λ opened. read opened k)).1
        ≡ g (if valid_name n && valid_name k then read_at h.persisted n k else none)
  unfolding reading
  reading_lem h n k read g same =
      let b = begin encoded_len HostWrite.succeeds h n true in
      elim (Bool-cases b.1) [
        | inl done ↦ rw done (same b.0 k ∙ ap g (opened_value HostWrite.succeeds h n k done))
        | inr failed ↦ rw failed (sym (ap g (closed_value HostWrite.succeeds h n k failed)))
      ]

  read_at-reading {ℓ} :
      {A : Type ℓ} (h : VirtualNvs) (namespace : String) (default : A) (read : VirtualNvs → A)
      (n k : String)
      → read_at (reading encoded_len h namespace default read).0.persisted n k
        ≡ read_at h.persisted n k
  unfolding reading end
  read_at-reading h namespace default read n k =
      begin-read_at encoded_len HostWrite.succeeds h namespace true n k

  on_reading_lem {ℓ} :
      {A : Type ℓ} (f : Flash) (instance_id namespace key : CString)
      (read : VirtualNvs → String → A) (g : Option NvsValue → A)
      → ((h : VirtualNvs) (k : String) → read h k ≡ g (open_value h k))
      → ((on_reading encoded_len f instance_id namespace key (g none) read).1
          ≡ g (visible f (nvs_args instance_id namespace key)))
        × ((i n k : String)
            → stored (on_reading encoded_len f instance_id namespace key (g none) read).0 i n k
              ≡ stored f i n k)
  unfolding on_reading
  on_reading_lem f instance_id namespace key read g same =
      elim (Option-cases (nvs_args instance_id namespace key)) [
        | inl bad ↦ rw (bad, on_reading) (refl, λ i n k. refl)
        | inr ((i, n, k), args) ↦ elim (Option-cases (lookup i f.nvs)) [
          | inl missing ↦
              rw (args, on_reading, missing)
                (sym (ap g (visible-missing f i n k missing)), λ i n k. refl)
          | inr (handle, found) ↦
              rw (args, on_reading, found)
                (
                  reading_lem handle n k read g same ∙ ap g (visible-found f i n k handle found),
                  stored_back f i handle (reading encoded_len handle n (g none) (λ h. read h k)).0
                      found (read_at-reading handle n (g none) (λ h. read h k)),
                )
        ]
      ]

  -- What a string call leaves in the buffer.
  abbrev pub filled : Bool → ℕ → String → Option (String × ℕ)
  filled buffer_null buffer_len value =
      if not buffer_null && not (buffer_len == 0)
      then some (value, min (byte_len value) (buffer_len - 1))
      else none

  get_string_lem :
      (f : Flash) (instance_id namespace key : CString) (i n k default : String)
      (buffer_null : Bool) (buffer_len : ℕ)
      → nvs_args instance_id namespace key ≡ some (i, n, k)
      → (buffer_null && not (buffer_len == 0)) ≡ false
      → let s =
          on_reading encoded_len f instance_id namespace key default
            (λ h q. Nvs.get_string h q default) in
        nvs_get_string encoded_len f instance_id namespace key (utf8 default) buffer_null buffer_len
        ≡ (s.0, filled buffer_null buffer_len s.1, byte_len s.1)
  unfolding nvs_get_string get_string_of
  get_string_lem f instance_id namespace key i n k default buffer_null buffer_len args buffer =
      ground (arith, args, buffer)

  -- The reading calls with valid arguments answer by the value of the key, if the names of the
  -- namespace and of the key are valid: whether there is one; the value, or the default if there is
  -- none or it is of the other type. A string is copied as far as the buffer has room beside the
  -- terminator, and its full length is returned. Nothing that is stored changes.
  pub reads_lem :
      (f : Flash) (instance_id namespace key : CString) (i n k default : String)
      (b buffer_null : Bool) (buffer_len : ℕ)
      → nvs_args instance_id namespace key ≡ some (i, n, k)
      → (buffer_null && not (buffer_len == 0)) ≡ false
      → let value = visible f (some (i, n, k)) in
        let there = nvs_exists encoded_len f instance_id namespace key in
        let boolean = nvs_get_bool encoded_len f instance_id namespace key b in
        let string =
          nvs_get_string encoded_len f instance_id namespace key
            (utf8 default)
            buffer_null
            buffer_len in
        (there.1 ≡ is_some value)
        × (boolean.1 ≡ bool_or b value)
        × (string.1 ≡ filled buffer_null buffer_len (string_or default value))
        × (string.2 ≡ byte_len (string_or default value))
        × ((i n k : String)
            → (stored there.0 i n k ≡ stored f i n k)
              × (stored boolean.0 i n k ≡ stored f i n k)
              × (stored string.0 i n k ≡ stored f i n k))
  unfolding nvs_exists nvs_get_bool
  reads_lem f instance_id namespace key i n k default b buffer_null buffer_len args buffer =
      let e =
        on_reading_lem f instance_id namespace key (λ h q. Nvs.exists h q) is_some
          exists-open_value in
      let g =
        on_reading_lem f instance_id namespace key (λ h q. Nvs.get_bool h q b) (bool_or b)
          (get_bool-open_value b) in
      let s =
        on_reading_lem f instance_id namespace key (λ h q. Nvs.get_string h q default)
          (string_or default) (get_string-open_value default) in
      let r =
        get_string_lem f instance_id namespace key i n k default buffer_null buffer_len args
          buffer in
      let at = ap (visible f) args in
      let text = s.0 ∙ ap (string_or default) at in
      (
        e.0 ∙ ap is_some at,
        g.0 ∙ ap (bool_or b) at,
        ap (λ q. q.1) r ∙ ap (filled buffer_null buffer_len) text,
        ap (λ q. q.2) r ∙ ap byte_len text,
        λ i' n' k'. (e.1 i' n' k', g.1 i' n' k', ap (λ q. stored q.0 i' n' k') r ∙ s.1 i' n' k'),
      )
