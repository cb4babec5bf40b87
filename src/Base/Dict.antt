-- ===== src/Base/Dict.antt =====
-- A Python dict, as its items in insertion order, and the equality of its keys.
use Prim.Native.Nat.{ℕ}
use Prim.Native.String.{String}
use mathlib.Core.Path.{◌≡◌, refl}
use mathlib.Core.Logic.{◌≢◌, ◌↔◌, inl, inr}
use mathlib.Core.Bool.{Bool, true, false, ◌&&◌}
use mathlib.Core.Option.{Option, none, some}
use mathlib.Core.List.{List, [], ◌∷◌}
use native.Mathlib.Omega.{arith}
use text.Mathlib.Text.{◌==◌ as str_eq}
use text.Mathlib.TextEquality.{eq_iff}
use elke.Base.Tests.{◌==◌, ==_iff, if◌then◌else◌, Bool-cases}

pub record Key {ℓ} (K : Type ℓ) : Type ℓ where
  pub same : K → K → Bool
  pub same_iff : (a b : K) → (same a b ≡ true) ↔ (a ≡ b)

instance abbrev pub nat_key : Key ℕ
nat_key = record { same = ◌==◌; same_iff = ==_iff }

instance abbrev pub string_key : Key String
string_key = record { same = str_eq; same_iff = eq_iff }

pub pair_same_iff : (a b : String × String) → ((str_eq a.0 b.0 && str_eq a.1 b.1) ≡ true) ↔ (a ≡ b)
pair_same_iff (a, x) (b, y) = (
  λ h. both (str_eq a b) (str_eq x y) refl refl h,
  λ e.
      and_true (str_eq a b) (str_eq x y) ((eq_iff a b).1 (λ i. (e i).0))
        ((eq_iff x y).1 (λ i. (e i).1)),
)
  where
    and_true : (p q : Bool) → p ≡ true → q ≡ true → (p && q) ≡ true
    and_true true q e f = f
    and_true false q e f = cc

    both :
        (p q : Bool)
        → str_eq a b ≡ p
        → str_eq x y ≡ q
        → (p && q) ≡ true
        → ◌≡◌ {A = String × String} (a, x) (b, y)
    both true true e f h = λ i. ((eq_iff a b).0 e i, (eq_iff x y).0 f i)
    both true false e f h = cc
    both false q e f h = cc

instance abbrev pub pair_key : Key (String × String)
pair_key = record { same = λ a b. str_eq a.0 b.0 && str_eq a.1 b.1; same_iff = pair_same_iff }

abbrev pub Dict {ℓ κ} : Type ℓ → Type κ → Type (ℓ ⊔ κ)
Dict K V = List (K × V)

module _ {ℓ} {K : Type ℓ} ⦃key : Key K⦄ where
  pub same_refl : (k : K) → key.same k k ≡ true
  same_refl k = (key.same_iff k k).1 refl

  pub same_ne : (j k : K) → j ≢ k → key.same j k ≡ false
  same_ne j k h = elim (Bool-cases (key.same j k)) [
    | inl e ↦ absurd (h ((key.same_iff j k).0 e))
    | inr e ↦ e
  ]

  pub ne_of_same : (j k : K) → key.same j k ≡ false → j ≢ k
  ne_of_same j k h = λ e. cc ((key.same_iff j k).1 e)

module _ {ℓ κ} {K : Type ℓ} {V : Type κ} ⦃key : Key K⦄ where
  unfoldable pub lookup : K → Dict K V → Option V
  lookup k [] = none
  lookup k ((j, v) ∷ d) = if key.same k j then some v else lookup k d

  -- `d[k] = v`
  unfoldable pub insert : K → V → Dict K V → Dict K V
  insert k v [] = (k, v) ∷ []
  insert k v ((j, w) ∷ d) = if key.same k j then (k, v) ∷ d else (j, w) ∷ insert k v d

  -- `d.pop(k, None)`; a dict has a key at most once.
  unfoldable pub erase : K → Dict K V → Dict K V
  erase k [] = []
  erase k ((j, w) ∷ d) = let rest = erase k d in if key.same k j then rest else (j, w) ∷ rest

  unfoldable pub contains : K → Dict K V → Bool
  contains k [] = false
  contains k ((j, w) ∷ d) = if key.same k j then true else contains k d

  pub lookup-insert :
      (j k : K) (v : V) (d : Dict K V)
      → lookup j (insert k v d) ≡ (if key.same j k then some v else lookup j d)
  unfolding lookup insert
  lookup-insert j k v [] = refl
  lookup-insert j k v ((i, w) ∷ d) =
      ground (arith, key.same_iff j k, key.same_iff k i, key.same_iff j i, lookup-insert j k v d)

  pub lookup-erase :
      (j k : K) (d : Dict K V) → lookup j (erase k d) ≡ (if key.same j k then none else lookup j d)
  unfolding lookup erase
  lookup-erase j k [] = ground arith
  lookup-erase j k ((i, w) ∷ d) =
      ground (arith, key.same_iff j k, key.same_iff k i, key.same_iff j i, lookup-erase j k d)

  pub erase_missing : (k : K) (d : Dict K V) → lookup k d ≡ none → erase k d ≡ d
  unfolding lookup erase
  erase_missing k [] h = refl
  erase_missing k ((i, w) ∷ d) h = ground (arith, erase_missing k d)

  pub contains-lookup : (k : K) (d : Dict K V) → (contains k d ≡ true) ↔ (lookup k d ≢ none)
  unfolding lookup contains
  contains-lookup k [] = (λ h. cc, λ h. absurd (h refl))
  contains-lookup k ((i, w) ∷ d) = ground (arith, contains-lookup k d)
