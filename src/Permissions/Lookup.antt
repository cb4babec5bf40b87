-- ===== src/Permissions/Lookup.antt =====
-- What `permission_for_generator` of src/elke27_lib/permissions.py finds.
use text.Mathlib.Text.{starts_with}
use Prim.Native.String.{len, slice}
use mathlib.Core.List.{flatten}
use elke.Base.{
  ◌≡◌, refl, sym, ap, ◌∙◌, Bool, true, false, not, ◌&&◌, some, List, [], ◌∷◌, ◌++◌, String,
  if◌then◌else◌, ◌⊎◌, inl, inr,
}
use elke.Base.Result.{ok}
use elke.Base.Dict.{Dict, string_key, lookup, insert, contains, lookup-insert}
use elke.Permissions.Level.{PermissionLevel}
use elke.Permissions.Table.{
  generator_groups, add_group, add_groups, generator_permission, canonical_generator_key,
  found_level, permission_in, permission_for_generator,
}

-- The pair stands in the list.
abbrev pub Listed : String → PermissionLevel → List (String × PermissionLevel) → Type 0
Listed k l [] = ⊥
Listed k l ((j, m) ∷ g) = ((k ≡ j) × (l ≡ m)) ⊎ Listed k l g

abbrev distinct_keys : List (String × PermissionLevel) → Bool
distinct_keys [] = true
distinct_keys ((k, _) ∷ g) = not (contains k g) && distinct_keys g

abbrev none_prefixed : List (String × PermissionLevel) → Bool
none_prefixed [] = true
none_prefixed ((k, _) ∷ g) = not (starts_with k "generator_") && none_prefixed g

add_group-append :
    (d : Dict String PermissionLevel) (g h : List (String × PermissionLevel))
    → add_group d (g ++ h) ≡ add_group (add_group d g) h
add_group-append d [] h = refl
add_group-append d ((k, l) ∷ g) h = add_group-append (insert k l d) g h

add_groups-flatten :
    (d : Dict String PermissionLevel) (gs : List (List (String × PermissionLevel)))
    → add_groups d gs ≡ add_group d (flatten gs)
unfolding flatten
add_groups-flatten d [] = refl
add_groups-flatten d (g ∷ gs) =
    add_groups-flatten (add_group d g) gs ∙ sym (add_group-append d g (flatten gs))

-- A key that the group does not hold keeps its level.
lookup-add_group_other :
    (k : String) (d : Dict String PermissionLevel) (g : List (String × PermissionLevel))
    → contains k g ≡ false
    → lookup k (add_group d g) ≡ lookup k d
unfolding contains
lookup-add_group_other k d [] h = refl
lookup-add_group_other k d ((j, l) ∷ g) h =
    let (other, rest) = apart (string_key.same k j) (contains k g) h in
    lookup-add_group_other k (insert j l d) g rest ∙ lookup-insert k j l d ∙ rw other refl
  where
    apart : (a b : Bool) → (if a then true else b) ≡ false → (a ≡ false) × (b ≡ false)
    apart true b h = cc
    apart false b h = (refl, h)

lookup-add_group :
    (k : String) (l : PermissionLevel) (d : Dict String PermissionLevel)
    (g : List (String × PermissionLevel))
    → distinct_keys g ≡ true
    → Listed k l g
    → lookup k (add_group d g) ≡ some l
lookup-add_group k l d [] u h = elim h [ ]
lookup-add_group k l d ((j, m) ∷ g) u h =
    let (fresh, rest) = both (contains j g) (distinct_keys g) u in
    elim h [
      | inl (e, f) ↦
          lookup-add_group_other k (insert j m d) g (ap (λ x. contains x g) e ∙ fresh)
          ∙ lookup-insert k j m d
          ∙ rw ((string_key.same_iff k j).1 e) (ap some (sym f))
      | inr later ↦ lookup-add_group k l (insert j m d) g rest later
    ]
  where
    both : (a b : Bool) → (not a && b) ≡ true → (a ≡ false) × (b ≡ true)
    both true b h = cc
    both false b h = (refl, h)

abbrev pub all_pairs : List (String × PermissionLevel)
all_pairs = flatten generator_groups

all_pairs-distinct : distinct_keys all_pairs ≡ true
unfolding contains flatten
all_pairs-distinct = refl

all_pairs-plain : none_prefixed all_pairs ≡ true
unfolding flatten
all_pairs-plain = refl

Listed-plain :
    (k : String) (l : PermissionLevel) (g : List (String × PermissionLevel))
    → none_prefixed g ≡ true
    → Listed k l g
    → starts_with k "generator_" ≡ false
Listed-plain k l [] u h = elim h [ ]
Listed-plain k l ((j, m) ∷ g) u h =
    let (plain, rest) = both (starts_with j "generator_") (none_prefixed g) u in
    elim h [
      | inl (e, _) ↦ ap (λ x. starts_with x "generator_") e ∙ plain
      | inr later ↦ Listed-plain k l g rest later
    ]
  where
    both : (a b : Bool) → (not a && b) ≡ true → (a ≡ false) × (b ≡ true)
    both true b h = cc
    both false b h = (refl, h)

canonical_generator_key-plain :
    (key : String) → starts_with key "generator_" ≡ false → canonical_generator_key key ≡ key
unfolding canonical_generator_key
canonical_generator_key-plain key plain = ap (λ b. if b then slice key 10 (len key) else key) plain

permission_in-plain :
    (permissions : Dict String PermissionLevel) (key : String) (level : PermissionLevel)
    → starts_with key "generator_" ≡ false
    → lookup key permissions ≡ some level
    → permission_in permissions key ≡ ok level
unfolding permission_in
permission_in-plain permissions key level plain found =
    ap (λ k. found_level k (lookup k permissions)) (canonical_generator_key-plain key plain)
    ∙ ap (found_level key) found

generator_permission-lookup :
    (key : String) (level : PermissionLevel)
    → Listed key level all_pairs
    → lookup key generator_permission ≡ some level
unfolding generator_permission
generator_permission-lookup key level h =
    ap (lookup key) (add_groups-flatten [] generator_groups)
    ∙ lookup-add_group key level [] all_pairs all_pairs-distinct h

-- Each key of the 30 groups gets the level that its group gives it, since no key is listed twice
-- and none begins with "generator_".
pub permission_for_generator-Listed :
    (key : String) (level : PermissionLevel)
    → Listed key level all_pairs
    → permission_for_generator key ≡ ok level
unfolding permission_for_generator
permission_for_generator-Listed key level h =
    permission_in-plain generator_permission key level
      (Listed-plain key level all_pairs all_pairs-plain h) (generator_permission-lookup key level h)
