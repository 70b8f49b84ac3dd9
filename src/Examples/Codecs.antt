-- ===== src/Examples/Codecs.antt =====
-- A codec for the commands and the small maps of the key-value store, in the place of serde_json.
use macro_service.Prelude.{
  ℕ, zero, suc, ◌≡◌, refl, sym, ap, ◌∙◌, Option, none, some, List, [], ◌∷◌, String,
}
use Prim.Native.Nat.{Ordering, compare}
use Prim.Native.Char.{Char, char, code, nul, IsLt, IsScalar}
use Prim.Native.String.{String}
use text.Mathlib.TextEquality.{Char-path}
use macro_service.Kv.Store.{KvCommand, put_command, delete_command, KvCodec}
use macro_service.Kv.Store.Map.{KvMap, lookup}

abbrev Both : Ordering → Ordering → Type 0
Both Ordering.lt o = IsLt o
Both Ordering.eq _ = ⊥
Both Ordering.gt _ = ⊥

abbrev Scalar : Ordering → Ordering → Ordering → Type 0
Scalar Ordering.lt _ _ = Unit
Scalar Ordering.eq o p = Both o p
Scalar Ordering.gt o p = Both o p

abbrev is_lt : (o : Ordering) → Option (IsLt o)
is_lt Ordering.lt = some tt
is_lt Ordering.eq = none
is_lt Ordering.gt = none

abbrev both : (o p : Ordering) → Option (Both o p)
both Ordering.lt p = is_lt p
both Ordering.eq p = none
both Ordering.gt p = none

abbrev scalar : (o p q : Ordering) → Option (Scalar o p q)
scalar Ordering.lt p q = some tt
scalar Ordering.eq p q = both p q
scalar Ordering.gt p q = both p q

is_lt-some : (o : Ordering) → IsLt o → (y : IsLt o) × (is_lt o ≡ some y)
is_lt-some Ordering.lt x = (tt, refl)
is_lt-some Ordering.eq x = absurd x
is_lt-some Ordering.gt x = absurd x

both-some : (o p : Ordering) → Both o p → (y : Both o p) × (both o p ≡ some y)
both-some Ordering.lt p x = is_lt-some p x
both-some Ordering.eq p x = absurd x
both-some Ordering.gt p x = absurd x

scalar-some : (o p q : Ordering) → Scalar o p q → (y : Scalar o p q) × (scalar o p q ≡ some y)
scalar-some Ordering.lt p q x = (tt, refl)
scalar-some Ordering.eq p q x = both-some p q x
scalar-some Ordering.gt p q x = both-some p q x

abbrev char_or_nul : (n : ℕ) → Option (IsScalar n) → Char
char_or_nul n none = nul
char_or_nul n (some p) = char n p

abbrev char_of : ℕ → Char
char_of n = char_or_nul n (scalar (compare n 55296) (compare 57343 n) (compare n 1114112))

char_of-code : (c : Char) → char_of (code c) ≡ c
char_of-code (char n p) =
    let (y, e) = scalar-some (compare n 55296) (compare 57343 n) (compare n 1114112) p in
    ap (char_or_nul n) e ∙ Char-path (char n y) (char n p) refl

-- A key, ended by a 0, and what follows.
abbrev print : String → List ℕ → List ℕ
print String.[] rest = 0 ∷ rest
print (String.◌∷◌ c s) rest = suc (code c) ∷ print s rest

abbrev push : Char → Option (String × List ℕ) → Option (String × List ℕ)
push c none = none
push c (some (s, rest)) = some (String.◌∷◌ c s, rest)

abbrev parse : List ℕ → Option (String × List ℕ)
parse [] = none
parse (zero ∷ rest) = some (String.[], rest)
parse (suc n ∷ rest) = push (char_of n) (parse rest)

parse-print : (s : String) (rest : List ℕ) → parse (print s rest) ≡ some (s, rest)
parse-print String.[] rest = refl
parse-print (String.◌∷◌ c s) rest =
    ap (push (char_of (code c))) (parse-print s rest)
    ∙ ap (λ d. some (String.◌∷◌ d s, rest)) (char_of-code c)

abbrev print_command : KvCommand → List ℕ
print_command (put_command key value) = 0 ∷ print key value
print_command (delete_command key) = 1 ∷ print key []

abbrev as_put : Option (String × List ℕ) → Option KvCommand
as_put none = none
as_put (some (key, value)) = some (put_command key value)

abbrev as_delete : Option (String × List ℕ) → Option KvCommand
as_delete none = none
as_delete (some (key, value)) = some (delete_command key)

abbrev parse_command : List ℕ → Option KvCommand
parse_command [] = none
parse_command (zero ∷ rest) = as_put (parse rest)
parse_command (suc n ∷ rest) = as_delete (parse rest)

pub command_round_trip : (c : KvCommand) → parse_command (print_command c) ≡ some c
command_round_trip (put_command key value) = ap as_put (parse-print key value)
command_round_trip (delete_command key) = ap as_delete (parse-print key [])

-- Maps of one entry at most.
abbrev print_map : KvMap → Option (List ℕ)
print_map [] = some []
print_map ((key, value) ∷ []) = some (print key value)
print_map (e ∷ f ∷ m) = none

abbrev as_map : Option (String × List ℕ) → Option KvMap
as_map none = none
as_map (some e) = some (e ∷ [])

abbrev parse_map : List ℕ → Option KvMap
parse_map [] = some []
parse_map (b ∷ bytes) = as_map (parse (b ∷ bytes))

as_map-parse :
    (key : String) (value : List ℕ) (bytes : List ℕ)
    → print key value ≡ bytes
    → parse_map bytes ≡ some ((key, value) ∷ [])
as_map-parse String.[] value [] e = cc
as_map-parse (String.◌∷◌ c s) value [] e = cc
as_map-parse key value (b ∷ bytes) e = ap as_map (ap parse (sym e) ∙ parse-print key value)

pub map_round_trip :
    (m : KvMap) (bytes : List ℕ)
    → print_map m ≡ some bytes
    → (n : KvMap) × (parse_map bytes ≡ some n) × ((k : String) → lookup k n ≡ lookup k m)
map_round_trip [] [] e = ([], refl, λ k. refl)
map_round_trip [] (b ∷ bytes) e = cc
map_round_trip ((key, value) ∷ []) bytes e =
    ((key, value) ∷ [], as_map-parse key value bytes cc, λ k. refl)
map_round_trip (e ∷ f ∷ m) bytes e' = cc

abbrev pub small_codec : KvCodec
small_codec = record {
  command_to_vec = print_command;
  command_from_slice = parse_command;
  command_round_trip = command_round_trip;
  command_from_empty = refl;
  map_to_vec = print_map;
  map_from_slice = parse_map;
  map_round_trip = map_round_trip;
}
