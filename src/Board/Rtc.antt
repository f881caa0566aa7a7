-- ===== src/Board/Rtc.antt =====
-- The RTC memory that survives a restart, core/board/src/lib.rs, and the checkpoints of a boot.
use project_mycelium.Common.{
  ℕ, ◌+◌, ◌≤◌, ◌≡◌, ◌∙◌, ap, subst, Bool, true, false, not, leb, List, length, length-replicate,
  take, drop, replicate, Option, none, some, String, arith, if◌then◌else◌, Option-cases, inl, inr,
  sym,
}
use text.Mathlib.Text.{◌==◌ as str_eq}
use project_mycelium.Common.Bytes.{
  slice, copy_from_slice, overwrite, length-overwrite, copy_from_slice-some, slice-take,
  take-drop-overwrite,
}
use project_mycelium.Common.Store.{
  lookup, insert, remove, Each, lookup-insert, lookup-insert_self, insert-Each, lookup-Each,
}
use project_mycelium.Board.State.{Shared, or_else}

abbrev pub rtc_noinit_size_bytes : ℕ
rtc_noinit_size_bytes = 8192

-- `vec![0; RTC_NOINIT_SIZE_BYTES]`.
unfoldable pub zero_region : List ℕ
zero_region = replicate rtc_noinit_size_bytes 0

-- The region of an instance, of zeros before it is written.
unfoldable pub region_of : Shared → String → List ℕ
region_of g instance_id = or_else (lookup instance_id g.rtc_noinit) zero_region

-- `offset.checked_add(data.len())`, and the end of the region.
unfoldable pub in_range : ℕ → ℕ → Bool
in_range offset len = leb (offset + len) rtc_noinit_size_bytes

-- The state and the answer; a slice out of range panics, which is `none`.
unfoldable pub set_rtc_noinit : Shared → String → ℕ → List ℕ → Option (Shared × Bool)
set_rtc_noinit g instance_id offset bytes =
    if not (in_range offset (length bytes))
    then some (g, false)
    else elim (copy_from_slice (region_of g instance_id) offset bytes) [
      | none ↦ none
      | some region ↦ some (record g { rtc_noinit = insert instance_id region g.rtc_noinit }, true)
    ]

-- The bytes that `data` is filled with, if it is; `none` on the outside is a panic.
unfoldable pub get_rtc_noinit : Shared → String → ℕ → ℕ → Option (Option (List ℕ))
get_rtc_noinit g instance_id offset len =
    if not (in_range offset len) then some none else elim (lookup instance_id g.rtc_noinit) [
      | none ↦ some (some (replicate len 0))
      | some region ↦ elim (slice region offset len) [
        | none ↦ none
        | some bytes ↦ some (some bytes)
      ]
    ]

unfoldable pub clear_rtc_noinit : Shared → String → Shared
clear_rtc_noinit g instance_id = record g { rtc_noinit = remove instance_id g.rtc_noinit }

-- Each region has the size of the RTC memory.
abbrev pub IsSized : Shared → Type 0
IsSized g = Each (λ at region. length region ≡ rtc_noinit_size_bytes) g.rtc_noinit

length-region_of :
    (g : Shared) (instance_id : String)
    → IsSized g
    → length (region_of g instance_id) ≡ rtc_noinit_size_bytes
unfolding region_of zero_region
length-region_of g instance_id sized = elim (Option-cases (lookup instance_id g.rtc_noinit)) [
  | inl missing ↦
      subst (λ o. length (or_else o zero_region) ≡ rtc_noinit_size_bytes) (sym missing)
        (length-replicate {A = ℕ} rtc_noinit_size_bytes 0)
  | inr (region, found) ↦
      subst (λ o. length (or_else o zero_region) ≡ rtc_noinit_size_bytes) (sym found)
        (lookup-Each (λ at r. length r ≡ rtc_noinit_size_bytes) instance_id g.rtc_noinit sized
          found)
]

get_rtc_noinit-slice :
    (g : Shared) (instance_id : String) (offset len : ℕ) (region : List ℕ)
    → lookup instance_id g.rtc_noinit ≡ some region
    → length region ≡ rtc_noinit_size_bytes
    → offset + len ≤ rtc_noinit_size_bytes
    → get_rtc_noinit g instance_id offset len ≡ some (some (take len (drop offset region)))
unfolding get_rtc_noinit in_range
get_rtc_noinit-slice g instance_id offset len region found size h =
    let part = slice-take region offset len (omega (arith, size)) in ground (arith, found, part)

set_rtc_noinit-some :
    (g : Shared) (instance_id : String) (offset : ℕ) (bytes after : List ℕ)
    → copy_from_slice (region_of g instance_id) offset bytes ≡ some after
    → offset + length bytes ≤ rtc_noinit_size_bytes
    → set_rtc_noinit g instance_id offset bytes
      ≡ some (record g { rtc_noinit = insert instance_id after g.rtc_noinit }, true)
unfolding set_rtc_noinit in_range
set_rtc_noinit-some g instance_id offset bytes after copied h = ground (arith, copied)

get_rtc_noinit-eq :
    (g h : Shared) (instance_id : String) (offset len : ℕ)
    → lookup instance_id g.rtc_noinit ≡ lookup instance_id h.rtc_noinit
    → get_rtc_noinit g instance_id offset len ≡ get_rtc_noinit h instance_id offset len
unfolding get_rtc_noinit
get_rtc_noinit-eq g h instance_id offset len same = ground (arith, same)

region_of-some :
    (g : Shared) (instance_id : String) (region : List ℕ)
    → lookup instance_id g.rtc_noinit ≡ some region
    → region_of g instance_id ≡ region
unfolding region_of
region_of-some g instance_id region found = ap (λ r. or_else r zero_region) found

-- A write inside the RTC memory succeeds. It is read back, the rest of the instance's
-- memory stays as it was (zeros where it was never written), and what another instance reads at any
-- place is unchanged.
pub get_rtc_noinit-set_rtc_noinit :
    (g : Shared) (instance_id other : String) (offset o l : ℕ) (bytes : List ℕ)
    → IsSized g
    → offset + length bytes ≤ rtc_noinit_size_bytes
    → str_eq instance_id other ≡ false
    → (g' : Shared) × (set_rtc_noinit g instance_id offset bytes ≡ some (g', true))
      × IsSized g'
      × (get_rtc_noinit g' instance_id offset (length bytes) ≡ some (some bytes))
      × (region_of g' instance_id ≡ overwrite (region_of g instance_id) offset bytes)
      × (get_rtc_noinit g' other o l ≡ get_rtc_noinit g other o l)
get_rtc_noinit-set_rtc_noinit g instance_id other offset o l bytes sized h apart =
    let before = region_of g instance_id in
    let size : length before ≡ rtc_noinit_size_bytes = length-region_of g instance_id sized in
    let after = overwrite before offset bytes in
    let g' : Shared = record g { rtc_noinit = insert instance_id after g.rtc_noinit } in
    let size' : length after ≡ rtc_noinit_size_bytes =
      length-overwrite before offset bytes ∙ size in
    let found = lookup-insert_self instance_id after g.rtc_noinit in
    let elsewhere = lookup-insert instance_id other after g.rtc_noinit in
    let copied = copy_from_slice-some before offset bytes (omega (arith, size)) in
    (
      g',
      set_rtc_noinit-some g instance_id offset bytes after copied h,
      insert-Each (λ at r. length r ≡ rtc_noinit_size_bytes) instance_id after g.rtc_noinit size'
          sized,
      get_rtc_noinit-slice g' instance_id offset (length bytes) after found size' h
          ∙ ap (λ d. some (some d)) (take-drop-overwrite before offset bytes (omega (arith, size))),
      region_of-some g' instance_id after found,
      get_rtc_noinit-eq g' g other o l (ground (arith, elsewhere, apart)),
    )
