-- ===== src/Bridge/Flash/Writes.antt =====
-- What the write of one key does to all stored values, below core/bridge/src/flash_ffi.rs.
use project_mycelium.Common.{
  ℕ, ◌≡◌, refl, if_both, if_known, sym, ◌∙◌, ap, ◌⊎◌, inl, inr, Bool, true, false, not, ◌&&◌,
  Bool-cases, Option-cases, String, [], Option, none, some, if◌then◌else◌, arith,
}
use text.Mathlib.Text.{◌==◌ as str_eq}
use text.Mathlib.TextEquality.{eq_iff}
use project_mycelium.Common.Store.{lookup, has, insert, lookup-insert, has-lookup}
use project_mycelium.Board.Nvs.{
  VirtualNvs, NvsValue, PersistedNvs, Values, HostWrite, fails_before_rename, fails_after_rename,
  succeeds, fits_partition, valid_name, begin, end, commit, put, persist,
}
use project_mycelium.Board.Nvs.Put.{commit-saved, commit-undone, put-cases, put_refused, put_stored}

-- The value of a key of a namespace.
unfoldable pub read_at : PersistedNvs → String → String → Option NvsValue
read_at persisted namespace key = elim (lookup namespace persisted) [
  | none ↦ none
  | some values ↦ lookup key values
]

-- The same of a backing file, if there is one.
unfoldable pub read_file : Option PersistedNvs → String → String → Option NvsValue
read_file none namespace key = none
read_file (some saved) namespace key = read_at saved namespace key

-- What a file may hold for a key after a write: what it held, what memory held, or, for the key
-- that is written, the new value.
abbrev pub MayHold :
    Bool → Option NvsValue → Option NvsValue → Option NvsValue → Option NvsValue → Type 0
MayHold written value in_file in_memory after =
    (after ≡ in_file) ⊎ ((after ≡ in_memory) ⊎ ((written ≡ true) × (after ≡ value)))

pub MayHold-either :
    (written : Bool) (value in_file in_memory after : Option NvsValue)
    → after ≡ (if written then value else in_memory)
    → MayHold written value in_file in_memory after
MayHold-either true value in_file in_memory after e = inr (inr (refl, e))
MayHold-either false value in_file in_memory after e = inr (inl e)

read_at-insert :
    (persisted : PersistedNvs) (namespace : String) (values : Values) (n k : String)
    → read_at (insert namespace values persisted) n k
      ≡ (if str_eq namespace n then lookup k values else read_at persisted n k)
unfolding read_at
read_at-insert persisted namespace values n k =
    ground (arith, lookup-insert {0} namespace n values persisted)

read_at-found :
    (persisted : PersistedNvs) (namespace : String) (values : Values) (k : String)
    → lookup namespace persisted ≡ some values
    → read_at persisted namespace k ≡ lookup k values
unfolding read_at
read_at-found persisted namespace values k found = ground (arith, found)

-- A new namespace has no values.
read_at-fresh :
    (persisted : PersistedNvs) (namespace n k : String)
    → has namespace persisted ≡ false
    → read_at (insert namespace [] persisted) n k ≡ read_at persisted n k
unfolding read_at lookup
read_at-fresh persisted namespace n k missing = elim (Option-cases (lookup n persisted)) [
  | inl no_values ↦ ground (arith, lookup-insert {0} namespace n [] persisted, no_values)
  | inr (values, found) ↦ ground (
    arith,
    lookup-insert {0} namespace n [] persisted,
    found,
    missing,
    has-lookup n persisted values found,
    eq_iff namespace n,
  )
]

-- Another value of a namespace.
pub read_at-update :
    (persisted : PersistedNvs) (namespace key : String) (values values' : Values)
    (value : Option NvsValue) (n k : String)
    → lookup namespace persisted ≡ some values
    → lookup k values' ≡ (if str_eq key k then value else lookup k values)
    → read_at (insert namespace values' persisted) n k
      ≡ (if str_eq namespace n && str_eq key k then value else read_at persisted n k)
unfolding read_at
read_at-update persisted namespace key values values' value n k found e =
    ground (arith, lookup-insert {0} namespace n values' persisted, found, e, eq_iff namespace n)

module _ (encoded_len : PersistedNvs → Option ℕ) where
  pub begin-read_at :
      (host : HostWrite) (nvs : VirtualNvs) (namespace : String) (read_only : Bool) (n k : String)
      → read_at (begin encoded_len host nvs namespace read_only).0.persisted n k
        ≡ read_at nvs.persisted n k
  unfolding begin end
  begin-read_at host nvs namespace read_only n k =
      let fresh : VirtualNvs = record nvs { persisted = insert namespace [] nvs.persisted } in
      let c = commit encoded_len host nvs.persisted fresh in
      let Same : VirtualNvs × Bool → Type 0 =
        λ r. read_at r.0.persisted n k ≡ read_at nvs.persisted n k in
      if_both Same (not (valid_name namespace)) refl (
        if_known Same (has namespace nvs.persisted) (λ known. refl)
          (λ missing. if_both Same read_only refl (
            if_known Same c.1
              (λ saved.
                ap (λ p. read_at p n k)
                  (commit-saved encoded_len host nvs.persisted fresh c.0
                    (ap (λ b. (c.0, b)) saved)).0
                ∙ read_at-fresh nvs.persisted namespace n k missing)
              (λ failed.
                ap (λ p. read_at p n k)
                  (commit-undone encoded_len host nvs.persisted fresh c.0
                    (ap (λ b. (c.0, b)) failed)).0))))

  -- The file after a commit: as it was, or with the new data.
  commit-backing :
      (host : HostWrite) (previous : PersistedNvs) (nvs : VirtualNvs)
      → ((commit encoded_len host previous nvs).0.backing ≡ nvs.backing)
        ⊎ ((commit encoded_len host previous nvs).0.backing ≡ some nvs.persisted)
  unfolding commit persist
  commit-backing fails_before_rename previous nvs = inl (ground arith)
  commit-backing fails_after_rename previous nvs =
      elim (Bool-cases (fits_partition encoded_len nvs)) [
        | inl fits ↦ inr (ground (arith, fits))
        | inr full ↦ inl (ground (arith, full))
      ]
  commit-backing succeeds previous nvs = elim (Bool-cases (fits_partition encoded_len nvs)) [
    | inl fits ↦ inr (ground (arith, fits))
    | inr full ↦ inl (ground (arith, full))
  ]

  pub begin-read_file :
      (host : HostWrite) (nvs : VirtualNvs) (namespace : String) (read_only : Bool) (n k : String)
      → let after = read_file (begin encoded_len host nvs namespace read_only).0.backing n k in
        (after ≡ read_file nvs.backing n k) ⊎ (after ≡ read_at nvs.persisted n k)
  unfolding begin end read_file
  begin-read_file host nvs namespace read_only n k =
      let fresh : VirtualNvs = record nvs { persisted = insert namespace [] nvs.persisted } in
      let c = commit encoded_len host nvs.persisted fresh in
      let Same : VirtualNvs × Bool → Type 0 = λ r.
        (read_file r.0.backing n k ≡ read_file nvs.backing n k)
        ⊎ (read_file r.0.backing n k ≡ read_at nvs.persisted n k) in
      if_both Same (not (valid_name namespace)) (inl refl) (
        if_known Same (has namespace nvs.persisted) (λ known. inl refl)
          (λ missing.
            let fresh_file : (read_file c.0.backing n k ≡ read_file nvs.backing n k)
                ⊎ (read_file c.0.backing n k ≡ read_at nvs.persisted n k) =
              elim (commit-backing host nvs.persisted fresh) [
                | inl same ↦ inl (ap (λ o. read_file o n k) same)
                | inr new ↦ inr (
                    ap (λ o. read_file o n k) new
                    ∙ read_at-fresh nvs.persisted namespace n k missing)
              ] in
            if_both Same read_only (inl refl) (if_both Same c.1 fresh_file fresh_file)))

  pub put-read_file :
      (host : HostWrite) (nvs after : VirtualNvs) (namespace key : String) (value : NvsValue)
      (b : Bool) (n k : String)
      → nvs.open_namespace ≡ some (record { name = namespace; read_only = false })
      → put encoded_len host nvs key value ≡ some (after, b)
      → MayHold
          (str_eq namespace n && str_eq key k)
          (some value)
          (read_file nvs.backing n k)
          (read_at nvs.persisted n k)
          (read_file after.backing n k)
  unfolding read_file
  put-read_file host nvs after namespace key value b n k opened e =
      elim (put-cases encoded_len host nvs after key value b e) [
        | inl (same, _) ↦ inl (ap (λ (h : VirtualNvs). read_file h.backing n k) same)
        | inr (space, values, at, found, valid, written) ↦
            let named : space.name ≡ namespace = ground (arith, at, opened) in
            let fresh : VirtualNvs = record nvs {
              persisted = insert space.name (insert key value values) nvs.persisted;
            } in
            let left = ap (λ (r : VirtualNvs × Bool). read_file r.0.backing n k) (sym written) in
            elim (commit-backing host nvs.persisted fresh) [
              | inl same ↦ inl (left ∙ ap (λ o. read_file o n k) same)
              | inr new ↦ MayHold-either (str_eq namespace n && str_eq key k) (some value) _ _ _ (
                  left
                  ∙ ap (λ o. read_file o n k) new
                  ∙ read_at-update nvs.persisted space.name key values (insert key value values)
                      (some value) n k found (lookup-insert key k value values)
                  ∙ ap
                      (λ s.
                        if str_eq s n && str_eq key k
                        then some value
                        else read_at nvs.persisted n k)
                      named)
            ]
      ]

  -- A write that reports success is in the file.
  pub put-backing :
      (host : HostWrite) (nvs after : VirtualNvs) (key : String) (value : NvsValue)
      → put encoded_len host nvs key value ≡ some (after, true)
      → after.backing ≡ some after.persisted
  put-backing host nvs after key value e = (put_stored encoded_len host nvs after key key value e).1

  pub put-read_at :
      (host : HostWrite) (nvs after : VirtualNvs) (namespace key : String) (value : NvsValue)
      (b : Bool) (n k : String)
      → nvs.open_namespace ≡ some (record { name = namespace; read_only = false })
      → put encoded_len host nvs key value ≡ some (after, b)
      → read_at after.persisted n k ≡ (
          if b && (str_eq namespace n && str_eq key k)
          then some value
          else read_at nvs.persisted n k)
  put-read_at host nvs after namespace key value false n k opened e =
      ap (λ p. read_at p n k) (put_refused encoded_len host nvs after key value e).0
  put-read_at host nvs after namespace key value true n k opened e =
      elim (put-cases encoded_len host nvs after key value true e) [
        | inl (_, never) ↦ cc never
        | inr (space, values, at, found, valid, written) ↦
            let named : space.name ≡ namespace = ground (arith, at, opened) in
            ap (λ p. read_at p n k) (commit-saved encoded_len host nvs.persisted _ after written).0
            ∙ read_at-update nvs.persisted space.name key values (insert key value values)
                (some value) n k found (lookup-insert key k value values)
            ∙ ap (λ s. if str_eq s n && str_eq key k then some value else read_at nvs.persisted n k)
                named
      ]
