-- ===== src/Board/Nvs/Put.antt =====
-- What `put` stores, and what it leaves alone.
use project_mycelium.Common.{
  ℕ, ◌≡◌, sym, ◌∙◌, ap, ◌⊎◌, inl, inr, Bool, true, false, not, Bool-cases, Option-cases, ◌||◌,
  String, List, Option, none, some, arith, if◌then◌else◌,
}
use text.Mathlib.Text.{◌==◌ as str_eq}
use text.Mathlib.TextEquality.{eq_iff}
use project_mycelium.Common.Store.{lookup, has, insert, lookup-insert, lookup-insert_self}
use project_mycelium.Board.Nvs.{
  NvsValue, PersistedNvs, OpenNamespace, VirtualNvs, HostWrite, fails_after_rename, valid_name,
  can_write, open_values, open_value, fits_partition, persist, commit, put,
}

-- An open namespace is one of those that are stored.
abbrev pub OpensIn : Option OpenNamespace → PersistedNvs → Type 0
OpensIn none persisted = Unit
OpensIn (some namespace) persisted = has namespace.name persisted ≡ true

abbrev pub IsConsistent : VirtualNvs → Type 0
IsConsistent nvs = OpensIn nvs.open_namespace nvs.persisted

module _ (encoded_len : PersistedNvs → Option ℕ) where
  pub commit-saved :
      (host : HostWrite) (previous : PersistedNvs) (nvs after : VirtualNvs)
      → commit encoded_len host previous nvs ≡ (after, true)
      → (after.persisted ≡ nvs.persisted)
        × (after.open_namespace ≡ nvs.open_namespace)
        × (after.backing ≡ some nvs.persisted)
        × (fits_partition encoded_len nvs ≡ true)
        × (after.partition_size ≡ nvs.partition_size)
  unfolding commit persist
  commit-saved host previous nvs after e =
      (ground arith, ground arith, ground arith, ground arith, ground arith)

  pub commit-undone :
      (host : HostWrite) (previous : PersistedNvs) (nvs after : VirtualNvs)
      → commit encoded_len host previous nvs ≡ (after, false)
      → (after.persisted ≡ previous) × (after.open_namespace ≡ nvs.open_namespace)
  unfolding commit persist
  commit-undone host previous nvs after e = (ground arith, ground arith)

  -- A call of `put` that returned: it was refused at once, or it wrote to a stored namespace.
  pub put-cases :
      (host : HostWrite) (nvs after : VirtualNvs) (key : String) (value : NvsValue) (b : Bool)
      → put encoded_len host nvs key value ≡ some (after, b)
      → ((after ≡ nvs) × (b ≡ false))
        ⊎ ((namespace : OpenNamespace) × (values : List (String × NvsValue)) × (nvs.open_namespace
              ≡ some namespace)
            × (lookup namespace.name nvs.persisted ≡ some values)
            × (valid_name key ≡ true)
            × (commit encoded_len host nvs.persisted (record nvs {
              persisted = insert namespace.name (insert key value values) nvs.persisted;
            })
                ≡ (after, b)))
  unfolding put
  put-cases host nvs after key value b e =
      elim (Bool-cases (not (valid_name key) || not (can_write nvs))) [
        | inl refused ↦ inl (ground (arith, refused, e), ground (arith, refused, e))
        | inr allowed ↦ elim (Option-cases nvs.open_namespace) [
          | inl closed ↦ absurd (ground (arith, allowed, closed, e))
          | inr (namespace, opened) ↦ elim (Option-cases (lookup namespace.name nvs.persisted)) [
            | inl missing ↦ absurd (ground (arith, allowed, opened, missing, e))
            | inr (values, found) ↦ inr (
              namespace,
              values,
              opened,
              found,
              ground (arith, allowed),
              ground (arith, allowed, opened, found, e),
            )
          ]
        ]
      ]

  -- A `put` that reports success: the key now has the value in the open namespace, every other key
  -- reads as before, the data fit the partition, and the backing file holds them.
  pub put_stored :
      (host : HostWrite) (nvs after : VirtualNvs) (key other : String) (value : NvsValue)
      → put encoded_len host nvs key value ≡ some (after, true)
      → (open_value after other ≡ (if str_eq key other then some value else open_value nvs other))
        × (after.backing ≡ some after.persisted)
        × (fits_partition encoded_len after ≡ true)
  unfolding put open_value open_values fits_partition
  put_stored host nvs after key other value e = elim (put-cases host nvs after key value true e) [
    | inl (_, never) ↦ cc never
    | inr (namespace, values, opened, found, valid, written) ↦
        let (p, o, k, f, z) = commit-saved host nvs.persisted _ after written in
        let here = lookup-insert_self namespace.name (insert key value values) nvs.persisted in
        (
          ground (
            arith,
            p,
            o,
            opened,
            found,
            valid,
            here,
            eq_iff key other,
            lookup-insert key other value values,
          ),
          k ∙ ap some (sym p),
          ground (arith, p, f, z),
        )
  ]

  -- A `put` that reports a failure leaves every stored value and the open namespace as they were.
  pub put_refused :
      (host : HostWrite) (nvs after : VirtualNvs) (key : String) (value : NvsValue)
      → put encoded_len host nvs key value ≡ some (after, false)
      → (after.persisted ≡ nvs.persisted) × (after.open_namespace ≡ nvs.open_namespace)
  unfolding put
  put_refused host nvs after key value e = elim (put-cases host nvs after key value false e) [
    | inl (same, _) ↦ (ap (λ n. n.persisted) same, ap (λ n. n.open_namespace) same)
    | inr (namespace, values, opened, found, valid, written) ↦
        commit-undone host nvs.persisted _ after written
  ]

  -- If securing the backing file fails after it was replaced, a permitted `put` of data that fit
  -- reports a failure and takes the value back in memory, but the file keeps it.
  pub put_failed_on_disk :
      (nvs : VirtualNvs) (key : String) (value : NvsValue) (namespace : OpenNamespace)
      (values : List (String × NvsValue))
      → valid_name key ≡ true
      → can_write nvs ≡ true
      → nvs.open_namespace ≡ some namespace
      → lookup namespace.name nvs.persisted ≡ some values
      → fits_partition encoded_len
          (record nvs { persisted = insert namespace.name (insert key value values) nvs.persisted })
        ≡ true
      → put encoded_len fails_after_rename nvs key value
        ≡ some (
          record nvs {
            backing = some (insert namespace.name (insert key value values) nvs.persisted);
          },
          false,
        )
  unfolding put commit persist
  put_failed_on_disk nvs key value namespace values valid writable opened found fits =
      ground (arith, opened, found)
