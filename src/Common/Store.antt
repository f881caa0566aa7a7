-- ===== src/Common/Store.antt =====
-- `HashMap<String, V>` and `BTreeMap<String, V>` as association lists. What the code reads of a
-- map by key is `lookup`; the laws say what each write does to every key.
use Prim.Native.String.{String}
use mathlib.Core.Path.{◌≡◌, refl, subst₂}
use mathlib.Core.Logic.{inl, inr}
use mathlib.Core.Bool.{Bool, true, false}
use mathlib.Core.List.{List, [], ◌∷◌}
use mathlib.Core.Option
use mathlib.Core.Option.{Option, none, some}
use native.Mathlib.Omega.{arith}
use text.Mathlib.Text.{◌==◌ as str_eq}
use text.Mathlib.TextEquality.{eq_iff}
use project_mycelium.Common.Tests.{if◌then◌else◌, Bool-cases, if_both}

module _ {ℓ} {V : Type ℓ} where
  -- `get`.
  unfoldable pub lookup : String → List (String × V) → Option V
  lookup key [] = none
  lookup key ((at, value) ∷ rest) = if str_eq at key then some value else lookup key rest

  -- `contains_key`.
  unfoldable pub has : String → List (String × V) → Bool
  has key [] = false
  has key ((at, value) ∷ rest) = if str_eq at key then true else has key rest

  -- `insert`: the new value replaces an old one.
  unfoldable pub insert : String → V → List (String × V) → List (String × V)
  insert key value [] = (key, value) ∷ []
  insert key value ((at, old) ∷ rest) =
      if str_eq at key then (key, value) ∷ rest else (at, old) ∷ insert key value rest

  -- `remove`.
  unfoldable pub remove : String → List (String × V) → List (String × V)
  remove key [] = []
  remove key ((at, old) ∷ rest) =
      if str_eq at key then remove key rest else (at, old) ∷ remove key rest

  -- `get_mut`, with a write through the reference.
  unfoldable pub modify : String → (V → V) → List (String × V) → List (String × V)
  modify key f [] = []
  modify key f ((at, old) ∷ rest) =
      if str_eq at key then (at, f old) ∷ rest else (at, old) ∷ modify key f rest

  -- A loop over `&mut map` that writes to each value.
  unfoldable pub map_values : (String → V → V) → List (String × V) → List (String × V)
  map_values f [] = []
  map_values f ((at, old) ∷ rest) = (at, f at old) ∷ map_values f rest

  -- `P` holds of each entry.
  abbrev pub Each {κ} : (String → V → Type κ) → List (String × V) → Type κ
  Each P [] = Unit
  Each P ((at, old) ∷ rest) = P at old × Each P rest

  pub lookup-insert :
      (key at : String) (value : V) (rest : List (String × V))
      → lookup at (insert key value rest) ≡ (if str_eq key at then some value else lookup at rest)
  unfolding lookup insert
  lookup-insert key at value [] = refl
  lookup-insert key at value ((i, old) ∷ rest) =
      ground (arith, eq_iff key at, eq_iff i key, eq_iff i at, lookup-insert key at value rest)

  pub lookup-insert_self :
      (key : String) (value : V) (rest : List (String × V))
      → lookup key (insert key value rest) ≡ some value
  lookup-insert_self key value rest =
      ground (arith, lookup-insert key key value rest, eq_iff key key)

  pub lookup-remove :
      (key at : String) (rest : List (String × V))
      → lookup at (remove key rest) ≡ (if str_eq key at then none else lookup at rest)
  unfolding lookup remove
  lookup-remove key at [] = ground arith
  lookup-remove key at ((i, old) ∷ rest) =
      ground (arith, eq_iff key at, eq_iff i key, eq_iff i at, lookup-remove key at rest)

  pub lookup-modify :
      (key at : String) (f : V → V) (rest : List (String × V))
      → lookup at (modify key f rest)
        ≡ (if str_eq key at then Option.map f (lookup at rest) else lookup at rest)
  unfolding lookup modify
  lookup-modify key at f [] = ground arith
  lookup-modify key at f ((i, old) ∷ rest) =
      ground (arith, eq_iff key at, eq_iff i key, eq_iff i at, lookup-modify key at f rest)

  -- A loop over the whole map reaches each key once, on its own.
  pub lookup-map_values :
      (at : String) (f : String → V → V) (rest : List (String × V))
      → lookup at (map_values f rest) ≡ Option.map (f at) (lookup at rest)
  unfolding lookup map_values
  lookup-map_values at f [] = refl
  lookup-map_values at f ((i, old) ∷ rest) =
      ground (arith, eq_iff i at, lookup-map_values at f rest)

  pub has-lookup :
      (key : String) (rest : List (String × V)) (value : V)
      → lookup key rest ≡ some value
      → has key rest ≡ true
  unfolding lookup has
  has-lookup key [] value e = cc
  has-lookup key ((i, old) ∷ rest) value e = ground (arith, has-lookup key rest value)

  pub lookup-has :
      (key : String) (rest : List (String × V))
      → has key rest ≡ true
      → (value : V) × (lookup key rest ≡ some value)
  unfolding lookup has
  lookup-has key [] e = cc
  lookup-has key ((i, old) ∷ rest) e = go (str_eq i key) (lookup-has key rest) e
    where
      go :
          (b : Bool)
          → (has key rest ≡ true → (value : V) × (lookup key rest ≡ some value))
          → (if b then true else has key rest) ≡ true
          → (value : V) × ((if b then some old else lookup key rest) ≡ some value)
      go true ih h = (old, refl)
      go false ih h = ih h

  pub modify-Each {κ} :
      (P : String → V → Type κ) (key : String) (f : V → V) (rest : List (String × V))
      → ((at : String) (old : V) → P at old → P at (f old))
      → Each P rest
      → Each P (modify key f rest)
  unfolding modify
  modify-Each P key f [] keep h = h
  modify-Each P key f ((i, old) ∷ rest) keep h =
      let tail = modify-Each P key f rest keep h.1 in
      if_both (Each P) (str_eq i key) (keep i old h.0, h.1) (h.0, tail)

  pub insert-Each {κ} :
      (P : String → V → Type κ) (key : String) (value : V) (rest : List (String × V))
      → P key value
      → Each P rest
      → Each P (insert key value rest)
  unfolding insert
  insert-Each P key value [] p h = (p, tt)
  insert-Each P key value ((i, old) ∷ rest) p h =
      let tail = insert-Each P key value rest p h.1 in
      if_both (Each P) (str_eq i key) (p, h.1) (h.0, tail)

  pub remove-Each {κ} :
      (P : String → V → Type κ) (key : String) (rest : List (String × V))
      → Each P rest
      → Each P (remove key rest)
  unfolding remove
  remove-Each P key [] h = h
  remove-Each P key ((i, old) ∷ rest) h =
      let tail = remove-Each P key rest h.1 in if_both (Each P) (str_eq i key) tail (h.0, tail)

  pub map_values-Each {κ} :
      (P : String → V → Type κ) (f : String → V → V) (rest : List (String × V))
      → ((at : String) (old : V) → P at old → P at (f at old))
      → Each P rest
      → Each P (map_values f rest)
  unfolding map_values
  map_values-Each P f [] keep h = h
  map_values-Each P f ((i, old) ∷ rest) keep h = (keep i old h.0, map_values-Each P f rest keep h.1)

  pub lookup-Each {κ} :
      (P : String → V → Type κ) (key : String) (rest : List (String × V)) {value : V}
      → Each P rest
      → lookup key rest ≡ some value
      → P key value
  unfolding lookup
  lookup-Each P key [] h e = cc
  lookup-Each P key ((i, old) ∷ rest) {value} h e = elim (Bool-cases (str_eq i key)) [
    | inl hit ↦ subst₂ P ((eq_iff i key).0 hit) (ground arith) h.0
    | inr miss ↦ lookup-Each P key rest h.1 (ground arith)
  ]
