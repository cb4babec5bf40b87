-- ===== src/Dispatch/Routing.antt =====
-- What `_extract_route` of src/elke27_lib/dispatcher_loop.py makes of a message.
use text.Mathlib.Text.{◌==◌ as str_eq}
use elke.Base.{
  ◌≡◌, ◌≢◌, refl, sym, ap, ◌∙◌, Bool, true, false, List, [], ◌∷◌, String, Bool-cases, inl, inr,
  if◌then◌else◌, ◌⊎◌, ◌↔◌,
}
use elke.Base.Dict.{string_key, same_ne}
use elke.Dispatch.Json.{Json, null, object, Members, empty, member, keys, get}
use elke.Dispatch.Route.{
  is_meta, root_non_meta, is_root_error_envelope, is_domain_root_error, extract_route, root_route,
  domain_route, object_route,
}

abbrev pub Among : String → List String → Type 0
Among k [] = ⊥
Among k (j ∷ js) = (k ≡ j) ⊎ Among k js

-- A key that is neither a meta key nor among the others is not there.
get_missing :
    (k : String) (msg : Members)
    → is_meta k ≡ false
    → (Among k (root_non_meta msg) → ⊥)
    → get k msg ≡ null
get_missing k empty plain absent = refl
get_missing k (member j v m) plain absent = elim (Bool-cases (str_eq k j)) [
  | inl same ↦ absurd (found ((string_key.same_iff k j).0 same) absent)
  | inr other ↦ rw other (get_missing k m plain (rest (is_meta j) refl absent))
]
  where
    found : k ≡ j → (Among k (root_non_meta (member j v m)) → ⊥) → ⊥
    found e absent =
        let meta : is_meta j ≡ false = ap is_meta (sym e) ∙ plain in rw meta at absent (inl e)

    rest :
        (b : Bool)
        → is_meta j ≡ b
        → (Among k (root_non_meta (member j v m)) → ⊥)
        → Among k (root_non_meta m)
        → ⊥
    rest true e absent = rw e at absent
    rest false e absent = λ h. (rw e at absent) (inr h)

pub no_error_code :
    (msg : Members)
    → (Among "error_code" (root_non_meta msg) → ⊥)
    → is_root_error_envelope msg ≡ false
unfolding is_root_error_envelope
no_error_code msg absent = rw (get_missing "error_code" msg refl absent) refl

-- A message with one key besides the meta keys, wherever those stand, whose value is an object
-- with one key, goes to that domain and name with no error, unless a key is "error_code".
pub extract_route_command :
    (msg : Members) (domain name : String) (payload : Json)
    → root_non_meta msg ≡ domain ∷ []
    → get domain msg ≡ object (member name payload empty)
    → domain ≢ "error_code"
    → name ≢ "error_code"
    → extract_route msg ≡ ((domain, name), [])
unfolding extract_route is_domain_root_error
extract_route_command msg domain name payload one value plain ordinary =
    rw (no_error_code msg absent) (
      ap (root_route msg) one
      ∙ ap (domain_route domain) value
      ∙ rw (same_ne "error_code" name (λ e. ordinary (sym e))) refl)
  where
    absent : Among "error_code" (root_non_meta msg) → ⊥
    absent = rw one (λ h. elim h [ inl e ↦ plain (sym e) | inr none_left ↦ elim none_left [ ] ])

-- A message that `_extract_route` gives a route without an error, other than an error envelope.
abbrev pub IsRoutable : Members → Type 0
IsRoutable msg =
    (domain : String) × (v : Members) × (root_non_meta msg ≡ domain ∷ [])
    × (get domain msg ≡ object v)
    × ((is_domain_root_error v ≡ true) ⊎ ((name : String) × (keys v ≡ name ∷ [])))

object_route-errors :
    (domain : String) (ks : List String)
    → (object_route domain ks).1 ≡ []
    → (name : String) × (ks ≡ name ∷ [])
object_route-errors domain [] h = cc
object_route-errors domain (k ∷ []) h = (k, refl)
object_route-errors domain (k ∷ l ∷ ks) h = cc

domain_route-errors :
    (domain : String) (j : Json)
    → (domain_route domain j).1 ≡ []
    → (v : Members) × (j ≡ object v)
      × ((is_domain_root_error v ≡ true) ⊎ ((name : String) × (keys v ≡ name ∷ [])))
domain_route-errors domain (object v) h = elim (Bool-cases (is_domain_root_error v)) [
  | inl e ↦ (v, refl, inl e)
  | inr e ↦ (v, refl, inr (object_route-errors domain (keys v) (rw e at h)))
]
domain_route-errors domain null h = cc
domain_route-errors domain (Json.bool _) h = cc
domain_route-errors domain (Json.int _) h = cc
domain_route-errors domain (Json.float _ _) h = cc
domain_route-errors domain (Json.str _) h = cc
domain_route-errors domain (Json.array _) h = cc

-- `_extract_route` reports no error exactly for the root error envelopes and the messages with one
-- domain whose object is a domain error or has one key.
pub extract_route_iff :
    (msg : Members)
    → ((extract_route msg).1 ≡ []) ↔ ((is_root_error_envelope msg ≡ true) ⊎ IsRoutable msg)
unfolding extract_route
extract_route_iff msg = elim (Bool-cases (is_root_error_envelope msg)) [
  | inl e ↦ (λ _. inl e, λ _. rw e refl)
  | inr e ↦ (
    λ h. inr (routable (root_non_meta msg) refl (rw e at h)),
    λ h. rw e (elim h [ inl yes_error ↦ cc | inr r ↦ clean r ]),
  )
]
  where
    routable :
        (ks : List String) → root_non_meta msg ≡ ks → (root_route msg ks).1 ≡ [] → IsRoutable msg
    routable [] e h = cc
    routable (domain ∷ []) e h =
        let (v, value, rest) = domain_route-errors domain (get domain msg) h in
        (domain, v, e, value, rest)
    routable (k ∷ l ∷ ks) e h = cc

    clean : IsRoutable msg → (root_route msg (root_non_meta msg)).1 ≡ []
    clean (domain, v, one, value, inl e) =
        ap (λ ks. (root_route msg ks).1) one ∙ ap (λ j. (domain_route domain j).1) value ∙ rw e refl
    clean (domain, v, one, value, inr (name, e)) =
        ap (λ ks. (root_route msg ks).1) one
        ∙ ap (λ j. (domain_route domain j).1) value
        ∙ single (is_domain_root_error v) (keys v) e
      where
        single :
            (b : Bool) (ks : List String)
            → ks ≡ name ∷ []
            → (if b then ((domain, "error"), []) else object_route domain ks).1 ≡ []
        single true ks e = refl
        single false ks e = ap (λ l. (object_route domain l).1) e
