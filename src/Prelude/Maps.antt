-- ===== src/Prelude/Maps.antt =====
-- Go maps with string keys and with uuids as keys, as association lists: reading and writing a key.
use Prim.Native.String.{String}
use mathlib.Core.Path.{◌≡◌, refl}
use mathlib.Core.Option.{Option, none, some}
use mathlib.Core.List.{List, [], ◌∷◌}
use native.Mathlib.Omega.{arith}
use text.Mathlib.Text.{◌==◌ as str_eq}
use text.Mathlib.TextEquality.{eq_iff}
use open_machine_core.Prelude.Tests.{if◌then◌else◌, ◌==◌, ==_iff, if_rule}
use open_machine_core.Prelude.Lists.{All}
use open_machine_core.Prelude.Uuids.{Uuid}

abbrev pub StringMap {ℓ} : Type ℓ → Type ℓ
StringMap V = List (String × V)

module _ {ℓ} {V : Type ℓ} where
  -- v, ok := m[key]
  unfoldable pub lookup : String → StringMap V → Option V
  lookup key [] = none
  lookup key ((at, here) ∷ entries) = if str_eq at key then some here else lookup key entries

  -- m[key] = value
  unfoldable pub insert : String → V → StringMap V → StringMap V
  insert key value [] = (key, value) ∷ []
  insert key value ((at, here) ∷ entries) =
      if str_eq at key then (key, value) ∷ entries else (at, here) ∷ insert key value entries

  -- An assignment is seen by the reads of its key, and by no other read.
  pub lookup-insert :
      (key read : String) (value : V) (entries : StringMap V)
      → lookup read (insert key value entries)
        ≡ (if str_eq key read then some value else lookup read entries)
  unfolding insert lookup
  lookup-insert key read value [] = refl
  lookup-insert key read value ((at, here) ∷ entries) =
      let later = lookup-insert key read value entries in
      ground (arith, later, eq_iff key read, eq_iff at key, eq_iff at read)

abbrev pub UuidMap {ℓ} : Type ℓ → Type ℓ
UuidMap V = List (Uuid × V)

module _ {ℓ} {V : Type ℓ} where
  unfoldable pub lookup_id : Uuid → UuidMap V → Option V
  lookup_id id [] = none
  lookup_id id ((at, here) ∷ entries) = if at == id then some here else lookup_id id entries

  unfoldable pub insert_id : Uuid → V → UuidMap V → UuidMap V
  insert_id id value [] = (id, value) ∷ []
  insert_id id value ((at, here) ∷ entries) =
      if at == id then (id, value) ∷ entries else (at, here) ∷ insert_id id value entries

  unfoldable pub delete_id : Uuid → UuidMap V → UuidMap V
  delete_id id [] = []
  delete_id id ((at, here) ∷ entries) =
      if at == id then delete_id id entries else (at, here) ∷ delete_id id entries

  pub lookup_id-insert_id :
      (id read : Uuid) (value : V) (entries : UuidMap V)
      → lookup_id read (insert_id id value entries)
        ≡ (if id == read then some value else lookup_id read entries)
  unfolding insert_id lookup_id
  lookup_id-insert_id id read value [] = refl
  lookup_id-insert_id id read value ((at, here) ∷ entries) = ground (
    arith,
    lookup_id-insert_id id read value entries,
    ==_iff id read,
    ==_iff at id,
    ==_iff at read,
  )

  pub lookup_id-delete_id :
      (id read : Uuid) (entries : UuidMap V)
      → lookup_id read (delete_id id entries)
        ≡ (if id == read then none else lookup_id read entries)
  unfolding delete_id lookup_id
  lookup_id-delete_id id read [] = ground arith
  lookup_id-delete_id id read ((at, here) ∷ entries) =
      ground
        (arith, lookup_id-delete_id id read entries, ==_iff id read, ==_iff at id, ==_iff at read)

  -- Every value of the map has the property.
  abbrev pub EachEntry {κ} : (V → Type κ) → UuidMap V → Type κ
  EachEntry P entries = All (λ (e : Uuid × V). P e.1) entries

  abbrev pub OfSome {κ} : (V → Type κ) → Option V → Type κ
  OfSome P none = Unit
  OfSome P (some v) = P v

  pub EachEntry-insert_id {κ} :
      (P : V → Type κ) (id : Uuid) (v : V) (entries : UuidMap V)
      → P v
      → EachEntry P entries
      → EachEntry P (insert_id id v entries)
  unfolding insert_id
  EachEntry-insert_id P id v [] p h = (p, tt)
  EachEntry-insert_id P id v ((at, here) ∷ entries) p h =
      if_rule (EachEntry P) (at == id) _ _ (λ _. (p, h.1))
        (λ _. (h.0, EachEntry-insert_id P id v entries p h.1))

  pub EachEntry-lookup_id {κ} :
      (P : V → Type κ) (id : Uuid) (entries : UuidMap V)
      → EachEntry P entries
      → OfSome P (lookup_id id entries)
  unfolding lookup_id
  EachEntry-lookup_id P id [] h = tt
  EachEntry-lookup_id P id ((at, here) ∷ entries) h =
      if_rule (OfSome P) (at == id) _ _ (λ _. h.0) (λ _. EachEntry-lookup_id P id entries h.1)
