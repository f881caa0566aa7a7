-- ===== src/Bridge/Flash/Removes.antt =====
-- What the removal of one key does to the stored values and to the backing file, below
-- core/bridge/src/flash_ffi.rs.
use project_mycelium.Common.{
  ℕ, ◌≡◌, refl, if_both, sym, ◌∙◌, ap, ◌⊎◌, inl, inr, Bool, true, false, not, ◌&&◌, ◌||◌,
  Bool-cases, Option-cases, String, Option, none, some, if◌then◌else◌, arith,
}
use text.Mathlib.Text.{◌==◌ as str_eq}
use project_mycelium.Common.Store.{lookup, has, insert, remove, lookup-remove}
use project_mycelium.Board.Nvs.{
  VirtualNvs, PersistedNvs, Values, HostWrite, fails_before_rename, fails_after_rename, succeeds,
  fits_partition, valid_name, persist, remove_key, removed, can_write,
}
use project_mycelium.Bridge.Flash.Writes.{
  read_at, read_file, MayHold, MayHold-either, read_at-update,
}

module _ (encoded_len : PersistedNvs → Option ℕ) where
  persisted-persist :
      (host : HostWrite) (nvs : VirtualNvs)
      → (persist encoded_len host nvs).0.persisted ≡ nvs.persisted
  unfolding persist
  persisted-persist host nvs = ground arith

  persist-backing :
      (host : HostWrite) (nvs : VirtualNvs)
      → ((persist encoded_len host nvs).0.backing ≡ nvs.backing)
        ⊎ ((persist encoded_len host nvs).0.backing ≡ some nvs.persisted)
  unfolding persist
  persist-backing host nvs =
      let Either : VirtualNvs × Bool → Type 0 =
        λ r. (r.0.backing ≡ nvs.backing) ⊎ (r.0.backing ≡ some nvs.persisted) in
      if_both Either (fits_partition encoded_len nvs) (ended host) (inl refl)
    where
      ended :
          (host : HostWrite)
          → let r : VirtualNvs × Bool = elim host [
            | fails_before_rename ↦ (nvs, false)
            | fails_after_rename ↦ (record nvs { backing = some nvs.persisted }, false)
            | succeeds ↦ (record nvs { backing = some nvs.persisted }, true)
          ] in
            (r.0.backing ≡ nvs.backing) ⊎ (r.0.backing ≡ some nvs.persisted)
      ended fails_before_rename = inl refl
      ended fails_after_rename = inr refl
      ended succeeds = inr refl

  persist-saved :
      (host : HostWrite) (nvs : VirtualNvs)
      → (persist encoded_len host nvs).1 ≡ true
      → (persist encoded_len host nvs).0.backing ≡ some nvs.persisted
  unfolding persist
  persist-saved host nvs saved = ground (arith, saved)

  removed-cases :
      (host : HostWrite) (nvs : VirtualNvs) (namespace : String) (values : Values)
      → (((removed encoded_len host nvs namespace values).0.persisted ≡ nvs.persisted)
          × ((removed encoded_len host nvs namespace values).1 ≡ false)
          × (((removed encoded_len host nvs namespace values).0.backing ≡ nvs.backing)
              ⊎ ((removed encoded_len host nvs namespace values).0.backing
                  ≡ some (insert namespace values nvs.persisted))))
        ⊎ (((removed encoded_len host nvs namespace values).0.persisted
              ≡ insert namespace values nvs.persisted)
            × ((removed encoded_len host nvs namespace values).1 ≡ true)
            × ((removed encoded_len host nvs namespace values).0.backing
                ≡ some (insert namespace values nvs.persisted)))
  unfolding removed
  removed-cases host nvs namespace values =
      let r =
        persist encoded_len host
          (record nvs { persisted = insert namespace values nvs.persisted }) in
      elim (Bool-cases r.1) [
        | inr failed ↦ inl (
          ground (arith, failed),
          ground (arith, failed),
          elim (persist-backing host
              (record nvs { persisted = insert namespace values nvs.persisted })) [
                | inl same ↦ inl (ground (arith, failed, same))
                | inr new ↦ inr (ground (arith, failed, new))
              ],
        )
        | inl saved ↦ inr (
          ground (
            arith,
            saved,
            persisted-persist host
                (record nvs { persisted = insert namespace values nvs.persisted }),
          ),
          ground (arith, saved),
          ground (
            arith,
            saved,
            persist-saved host (record nvs { persisted = insert namespace values nvs.persisted })
                saved,
          ),
        )
      ]

  remove-cases :
      (host : HostWrite) (nvs after : VirtualNvs) (namespace key : String) (b : Bool)
      → nvs.open_namespace ≡ some (record { name = namespace; read_only = false })
      → remove_key encoded_len host nvs key ≡ some (after, b)
      → ((after.persisted ≡ nvs.persisted)
          × (b ≡ false)
          × ((after.backing ≡ nvs.backing)
              ⊎ ((values : Values) × (lookup namespace nvs.persisted ≡ some values)
                  × (after.backing ≡ some (insert namespace (remove key values) nvs.persisted)))))
        ⊎ ((values : Values) × (lookup namespace nvs.persisted ≡ some values)
            × (after.persisted ≡ insert namespace (remove key values) nvs.persisted)
            × (b ≡ true)
            × (after.backing ≡ some after.persisted))
  unfolding remove_key
  remove-cases host nvs after namespace key b opened e =
      elim (Bool-cases (not (valid_name key) || not (can_write nvs))) [
        | inl refused ↦ inl (
          ground (arith, refused, e),
          ground (arith, refused, e),
          inl (ground (arith, refused, e)),
        )
        | inr allowed ↦ elim (Option-cases (lookup namespace nvs.persisted)) [
          | inl missing ↦ inl (
            ground (arith, allowed, opened, missing, e),
            ground (arith, allowed, opened, missing, e),
            inl (ground (arith, allowed, opened, missing, e)),
          )
          | inr (values, found) ↦ elim (Bool-cases (has key values)) [
            | inr absent ↦ inl (
              ground (arith, allowed, opened, found, absent, e),
              ground (arith, allowed, opened, found, absent, e),
              inl (ground (arith, allowed, opened, found, absent, e)),
            )
            | inl there ↦
                let done : removed encoded_len host nvs namespace (remove key values) ≡ (after, b) =
                  ground (arith, allowed, opened, found, there, e) in
                elim (removed-cases host nvs namespace (remove key values)) [
                  | inl (same, failed, file) ↦
                      let left = sym (ap (λ r. r.0.backing) done) in
                      inl (
                        sym (ap (λ r. r.0.persisted) done) ∙ same,
                        sym (ap (λ r. r.1) done) ∙ failed,
                        elim file [
                          | inl kept ↦ inl (left ∙ kept)
                          | inr new ↦ inr (values, found, left ∙ new)
                        ],
                      )
                  | inr (written, saved, file) ↦
                      let now = sym (ap (λ r. r.0.persisted) done) ∙ written in
                      inr (
                        values,
                        found,
                        now,
                        sym (ap (λ r. r.1) done) ∙ saved,
                        sym (ap (λ r. r.0.backing) done) ∙ file ∙ ap some (sym now),
                      )
                ]
          ]
        ]
      ]

  pub remove-read_at :
      (host : HostWrite) (nvs after : VirtualNvs) (namespace key : String) (b : Bool) (n k : String)
      → nvs.open_namespace ≡ some (record { name = namespace; read_only = false })
      → remove_key encoded_len host nvs key ≡ some (after, b)
      → read_at after.persisted n k
        ≡ (if b && (str_eq namespace n && str_eq key k) then none else read_at nvs.persisted n k)
  remove-read_at host nvs after namespace key b n k opened e =
      elim (remove-cases host nvs after namespace key b opened e) [
        | inl (same, failed, _) ↦ rw failed (ap (λ p. read_at p n k) same)
        | inr (values, found, written, done, _) ↦ rw done (
            ap (λ p. read_at p n k) written
            ∙ read_at-update nvs.persisted namespace key values (remove key values) none n k found
                (lookup-remove key k values))
      ]

  pub remove-read_file :
      (host : HostWrite) (nvs after : VirtualNvs) (namespace key : String) (b : Bool) (n k : String)
      → nvs.open_namespace ≡ some (record { name = namespace; read_only = false })
      → remove_key encoded_len host nvs key ≡ some (after, b)
      → MayHold
          (str_eq namespace n && str_eq key k)
          none
          (read_file nvs.backing n k)
          (read_at nvs.persisted n k)
          (read_file after.backing n k)
  unfolding read_file
  remove-read_file host nvs after namespace key b n k opened e =
      let taken = λ (values : Values). λ (found : lookup namespace nvs.persisted ≡ some values).
        read_at-update nvs.persisted namespace key values (remove key values) none n k found
          (lookup-remove key k values) in
      elim (remove-cases host nvs after namespace key b opened e) [
        | inl (_, _, inl same) ↦ inl (ap (λ o. read_file o n k) same)
        | inl (_, _, inr (values, found, new)) ↦
            MayHold-either (str_eq namespace n && str_eq key k) none _ _ _
              (ap (λ o. read_file o n k) new ∙ taken values found)
        | inr (values, found, written, _, file) ↦
            MayHold-either (str_eq namespace n && str_eq key k) none _ _ _ (
              ap (λ o. read_file o n k) file ∙ ap (λ p. read_at p n k) written ∙ taken values found)
      ]

  pub remove-backing :
      (host : HostWrite) (nvs after : VirtualNvs) (namespace key : String)
      → nvs.open_namespace ≡ some (record { name = namespace; read_only = false })
      → remove_key encoded_len host nvs key ≡ some (after, true)
      → after.backing ≡ some after.persisted
  remove-backing host nvs after namespace key opened e =
      elim (remove-cases host nvs after namespace key true opened e) [
        | inl (_, never, _) ↦ cc never
        | inr (_, _, _, _, file) ↦ file
      ]
