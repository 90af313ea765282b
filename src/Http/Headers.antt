-- ===== src/Http/Headers.antt =====
-- Go's `http.Header`: a map from a header's canonical name to its values.
use consensus_proxy.Base.{
  String, List, [], ◌∷◌, if◌then◌else◌, arith, ◌≡◌, refl, str_eq, eq_iff, Option, none, some,
}

abbrev pub Header : Type 0
Header = List (String × List String)

unfoldable pub lookup : String → Header → Option (List String)
lookup k [] = none
lookup k ((j, v) ∷ h) = if str_eq j k then some v else lookup k h

-- `h[k] = v`
unfoldable pub insert : String → List String → Header → Header
insert k v [] = (k, v) ∷ []
insert k v ((j, u) ∷ h) = if str_eq j k then (k, v) ∷ h else (j, u) ∷ insert k v h

unfoldable pub header_set : String → String → Header → Header
unfolding insert
header_set k v h = insert k (v ∷ []) h

unfoldable pub header_del : String → Header → Header
header_del k [] = []
header_del k ((j, u) ∷ h) = let rest = header_del k h in if str_eq j k then rest else (j, u) ∷ rest

abbrev pub first_value : Option (List String) → String
first_value none = ""
first_value (some []) = ""
first_value (some (v ∷ vs)) = v

-- `Get`: the first value, or "".
unfoldable pub header_get : String → Header → String
unfolding lookup
header_get k h = first_value (lookup k h)

pub lookup-insert :
    (j k : String) (v : List String) (h : Header)
    → lookup j (insert k v h) ≡ (if str_eq k j then some v else lookup j h)
unfolding lookup insert
lookup-insert j k v [] = refl
lookup-insert j k v ((i, u) ∷ h) =
    ground (arith, eq_iff k j, eq_iff i k, eq_iff i j, lookup-insert j k v h)

pub lookup-header_del :
    (j k : String) (h : Header)
    → lookup j (header_del k h) ≡ (if str_eq k j then none else lookup j h)
unfolding lookup header_del
lookup-header_del j k [] = ground arith
lookup-header_del j k ((i, u) ∷ h) =
    ground (arith, eq_iff k j, eq_iff i k, eq_iff i j, lookup-header_del j k h)

-- A map: no key stands twice.
abbrev pub IsMap : Header → Type 0
IsMap [] = Unit
IsMap ((k, v) ∷ h) = (lookup k h ≡ none) × IsMap h

pub insert-IsMap : (k : String) (v : List String) (h : Header) → IsMap h → IsMap (insert k v h)
unfolding insert lookup
insert-IsMap k v [] m = (refl, tt)
insert-IsMap k v ((j, u) ∷ h) m =
    ground (arith, eq_iff j k, eq_iff k j, insert-IsMap k v h m.1, lookup-insert j k v h)
