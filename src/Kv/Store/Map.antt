-- ===== src/Kv/Store/Map.antt =====
-- The `HashMap<String, Vec<u8>>` of store.rs, as an association list.
use Prim.Native.String.{String}
use text.Mathlib.Text.{◌==◌}
use text.Mathlib.TextEquality.{eq_iff}
use macro_service.Prelude.{ℕ, ◌≡◌, refl, Option, none, some, List, [], ◌∷◌, arith, if◌then◌else◌}

abbrev pub KvMap : Type 0
KvMap = List (String × List ℕ)

unfoldable pub lookup : String → KvMap → Option (List ℕ)
lookup key [] = none
lookup key ((other, bytes) ∷ entries) =
    let later = lookup key entries in if other == key then some bytes else later

-- `HashMap::insert`
unfoldable pub insert : String → List ℕ → KvMap → KvMap
insert key value [] = (key, value) ∷ []
insert key value ((other, bytes) ∷ entries) =
    let later = insert key value entries in
    if other == key then (other, value) ∷ entries else (other, bytes) ∷ later

-- `HashMap::remove`
unfoldable pub remove : String → KvMap → KvMap
remove key [] = []
remove key ((other, bytes) ∷ entries) =
    let later = remove key entries in if other == key then later else (other, bytes) ∷ later

pub lookup-remove :
    (removed key : String) (entries : KvMap)
    → lookup key (remove removed entries) ≡ (if removed == key then none else lookup key entries)
unfolding lookup remove
lookup-remove removed key [] = ground arith
lookup-remove removed key ((other, bytes) ∷ entries) = ground (
  arith,
  lookup-remove removed key entries,
  eq_iff other removed,
  eq_iff other key,
  eq_iff removed key,
)

pub lookup-insert :
    (new key : String) (value : List ℕ) (entries : KvMap)
    → lookup key (insert new value entries)
      ≡ (if new == key then some value else lookup key entries)
unfolding lookup insert
lookup-insert new key value [] = refl
lookup-insert new key value ((other, bytes) ∷ entries) =
    ground (
      arith,
      lookup-insert new key value entries,
      eq_iff other new,
      eq_iff other key,
      eq_iff new key,
    )
