-- ===== src/Board/Nvs/Consistent.antt =====
-- Every call on an NVS handle keeps the open namespace among those stored, and none panics.
use project_mycelium.Common.{
  ℕ, ◌≡◌, sym, ◌∙◌, ap, subst, ◌⊎◌, inl, inr, Bool, true, false, not, Bool-cases, Option-cases,
  ◌||◌, String, List, [], Option, none, some, arith,
}
use project_mycelium.Common.Store.{has, insert, remove, lookup-insert_self, lookup-has, has-lookup}
use project_mycelium.Board.Nvs.{
  NvsValue, PersistedNvs, Values, OpenNamespace, VirtualNvs, HostWrite, valid_name, can_write,
  persist, commit, put, begin, end, remove_key, removed,
}
use project_mycelium.Board.Nvs.Put.{IsConsistent, OpensIn, commit-saved, commit-undone}

module _ (encoded_len : PersistedNvs → Option ℕ) where
  has-insert_self :
      {V : Type 0} (k : String) (v : V) (m : List (String × V)) → has k (insert k v m) ≡ true
  has-insert_self k v m = has-lookup k (insert k v m) v (lookup-insert_self k v m)

  -- What makes a handle consistent.
  abbrev pub Shape : VirtualNvs → Type 0
  Shape nvs =
      (nvs.open_namespace ≡ none)
      ⊎ ((namespace : OpenNamespace) × (nvs.open_namespace ≡ some namespace)
          × (has namespace.name nvs.persisted ≡ true))

  pub Shape-IsConsistent : (nvs : VirtualNvs) → Shape nvs → IsConsistent nvs
  Shape-IsConsistent nvs (inl closed) = subst (λ o. OpensIn o nvs.persisted) (sym closed) tt
  Shape-IsConsistent nvs (inr (namespace, opened, stored)) =
      subst (λ o. OpensIn o nvs.persisted) (sym opened) stored

  IsConsistent-Shape : (nvs : VirtualNvs) → IsConsistent nvs → Shape nvs
  IsConsistent-Shape nvs h = elim (Option-cases nvs.open_namespace) [
    | inl closed ↦ inl closed
    | inr (namespace, opened) ↦
        inr (namespace, opened, subst (λ o. OpensIn o nvs.persisted) opened h)
  ]

  pub begin-Shape :
      (host : HostWrite) (nvs : VirtualNvs) (namespace : String) (read_only : Bool)
      → Shape (begin encoded_len host nvs namespace read_only).0
  unfolding begin end
  begin-Shape host nvs namespace read_only =
      let opened : OpenNamespace = record { name = namespace; read_only = read_only } in
      let fresh = record nvs { persisted = insert namespace [] nvs.persisted } in
      let c = commit encoded_len host nvs.persisted fresh in
      elim (Bool-cases (valid_name namespace)) [
        | inr bad ↦ inl (ground (arith, bad))
        | inl good ↦ elim (Bool-cases (has namespace nvs.persisted)) [
          | inl known ↦ inr (opened, ground (arith, good, known), ground (arith, good, known))
          | inr unknown ↦ elim (Bool-cases read_only) [
            | inl ro ↦ inl (ground (arith, good, unknown, ro))
            | inr rw_mode ↦ elim (Bool-cases c.1) [
              | inl saved ↦
                  let (p, o, _, _, _) =
                    commit-saved encoded_len host nvs.persisted fresh c.0
                      (ap (λ b. (c.0, b)) saved) in
                  let here = has-insert_self namespace [] nvs.persisted in
                  inr (
                    opened,
                    ground (arith, good, unknown, rw_mode, saved),
                    ground (arith, good, unknown, rw_mode, saved, p, here),
                  )
              | inr failed ↦ inl (ground (arith, good, unknown, rw_mode, failed))
            ]
          ]
        ]
      ]

  pub same-IsConsistent :
      (nvs after : VirtualNvs)
      → after.persisted ≡ nvs.persisted
      → after.open_namespace ≡ nvs.open_namespace
      → IsConsistent nvs
      → IsConsistent after
  same-IsConsistent nvs after p o h =
      subst (λ k. OpensIn k after.persisted) (sym o)
        (subst (λ m. OpensIn nvs.open_namespace m) (sym p) h)

  -- A handle that only had its open namespace written to.
  written-IsConsistent :
      (nvs after : VirtualNvs) (namespace : OpenNamespace) (values : Values)
      → nvs.open_namespace ≡ some namespace
      → after.open_namespace ≡ nvs.open_namespace
      → after.persisted ≡ insert namespace.name values nvs.persisted
      → IsConsistent after
  written-IsConsistent nvs after namespace values opened same p = Shape-IsConsistent after (
      inr (
        namespace,
        same ∙ opened,
        ap (has namespace.name) p ∙ has-insert_self namespace.name values nvs.persisted,
      ))

  commit-IsConsistent :
      (host : HostWrite) (nvs : VirtualNvs) (namespace : OpenNamespace) (values : Values)
      → IsConsistent nvs
      → nvs.open_namespace ≡ some namespace
      → IsConsistent
          (commit encoded_len host nvs.persisted
            (record nvs { persisted = insert namespace.name values nvs.persisted })).0
  commit-IsConsistent host nvs namespace values h opened =
      let fresh = record nvs { persisted = insert namespace.name values nvs.persisted } in
      let c = commit encoded_len host nvs.persisted fresh in
      elim (Bool-cases c.1) [
        | inl saved ↦
            let (p, o, _, _, _) =
              commit-saved encoded_len host nvs.persisted fresh c.0 (ap (λ b. (c.0, b)) saved) in
            written-IsConsistent nvs c.0 namespace values opened o p
        | inr failed ↦
            let (p, o) =
              commit-undone encoded_len host nvs.persisted fresh c.0 (ap (λ b. (c.0, b)) failed) in
            same-IsConsistent nvs c.0 p o h
      ]

  removed-IsConsistent :
      (host : HostWrite) (nvs : VirtualNvs) (namespace : OpenNamespace) (values : Values)
      → IsConsistent nvs
      → nvs.open_namespace ≡ some namespace
      → IsConsistent (removed encoded_len host nvs namespace.name values).0
  unfolding removed persist
  removed-IsConsistent host nvs namespace values h opened =
      let fresh = record nvs { persisted = insert namespace.name values nvs.persisted } in
      let r = removed encoded_len host nvs namespace.name values in
      elim (Bool-cases (persist encoded_len host fresh).1) [
        | inl saved ↦
            written-IsConsistent nvs r.0 namespace values opened (ground (arith, saved))
              (ground (arith, saved))
        | inr failed ↦ same-IsConsistent nvs r.0 (ground (arith, failed)) (ground (arith, failed)) h
      ]

  -- The handle that a consistent one becomes.
  abbrev pub Goes : VirtualNvs → Option (VirtualNvs × Bool) → Type 0
  Goes nvs r = (a : VirtualNvs × Bool) × (r ≡ some a) × IsConsistent a.0

  pub put-some :
      (host : HostWrite) (nvs : VirtualNvs) (key : String) (value : NvsValue)
      → IsConsistent nvs
      → Goes nvs (put encoded_len host nvs key value)
  unfolding put can_write
  put-some host nvs key value h = elim (IsConsistent-Shape nvs h) [
    | inl closed ↦ ((nvs, false), ground (arith, closed), h)
    | inr (namespace, opened, stored) ↦
        let (values, found) = lookup-has namespace.name nvs.persisted stored in
        elim (Bool-cases (not (valid_name key) || not (can_write nvs))) [
          | inl refused ↦ ((nvs, false), ground (arith, refused), h)
          | inr allowed ↦ (
            commit encoded_len host nvs.persisted (record nvs {
              persisted = insert namespace.name (insert key value values) nvs.persisted;
            }),
            ground (arith, allowed, opened, found),
            commit-IsConsistent host nvs namespace (insert key value values) h opened,
          )
        ]
  ]

  pub remove-some :
      (host : HostWrite) (nvs : VirtualNvs) (key : String)
      → IsConsistent nvs
      → Goes nvs (remove_key encoded_len host nvs key)
  unfolding remove_key can_write
  remove-some host nvs key h = elim (IsConsistent-Shape nvs h) [
    | inl closed ↦ ((nvs, false), ground (arith, closed), h)
    | inr (namespace, opened, stored) ↦
        let (values, found) = lookup-has namespace.name nvs.persisted stored in
        elim (Bool-cases (not (valid_name key) || not (can_write nvs))) [
          | inl refused ↦ ((nvs, false), ground (arith, refused), h)
          | inr allowed ↦ elim (Bool-cases (has key values)) [
            | inl there ↦ (
              removed encoded_len host nvs namespace.name (remove key values),
              ground (arith, allowed, opened, found, there),
              removed-IsConsistent host nvs namespace (remove key values) h opened,
            )
            | inr absent ↦ ((nvs, false), ground (arith, allowed, opened, found, absent), h)
          ]
        ]
  ]
