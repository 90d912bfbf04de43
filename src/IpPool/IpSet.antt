-- ===== src/IpPool/IpSet.antt =====
-- pkg/ippool/set.go: a set of addresses over a Go map. `none` is the nil map of a zero IPSet: it
-- reads as empty, and a write to it panics.
use kube_loxilb.Base.{
  Bool, Bool-cases, List, Option, String, [], all_of, arith, bool_eq, elem, eq_iff, false,
  if◌then◌else◌, inl, inr, keep_if, nat_eq, none, not, refl, some, string_eq, subst, true, ◌&&◌,
  ◌==◌, ◌||◌, ◌∷◌, ◌≡◌,
}
use kube_loxilb.Base.Int.{int_eq}
use kube_loxilb.Base.Outcome.{Outcome, ok, panic, ◌>>=◌}
use kube_loxilb.IpPool.Range.{value}

pub record IpSet : Type 0 where
  pub ipaddress : Option (List String)

unfoldable pub new_set : IpSet
new_set = record { ipaddress = some [] }

-- The zero value of the type, as a named result has it.
abbrev pub zero_set : IpSet
zero_set = record { ipaddress = none }

abbrev pub keys : IpSet → List String
keys s = elim s.ipaddress [ none ↦ [] | some m ↦ m ]

unfoldable pub add : IpSet → String → Outcome IpSet
add s value = elim s.ipaddress [
  | none ↦ panic
  | some m ↦ ok (record { ipaddress = some (if elem value m then m else value ∷ m) })
]

unfoldable pub remove : IpSet → String → IpSet
remove s value = elim s.ipaddress [
  | none ↦ s
  | some m ↦ record { ipaddress = some (keep_if (λ x. not (x == value)) m) }
]

unfoldable pub contains : IpSet → String → Bool
contains s value = elem value (keys s)

unfoldable pub get_all : IpSet → List String
get_all s = keys s

-- One loop of IsEqual: the values that the other set lacks go into a named result.
unfoldable pub compare_loop : IpSet → List String → Bool → IpSet → Outcome (Bool × IpSet)
compare_loop other [] is_equal diff = ok (is_equal, diff)
compare_loop other (v ∷ vs) is_equal diff = elim (contains other v) [
  | true ↦ compare_loop other vs is_equal diff
  | false ↦ (do diff' ← add diff v; compare_loop other vs false diff')
]

unfoldable pub is_equal : IpSet → IpSet → Outcome (Bool × IpSet × IpSet)
unfolding compare_loop
is_equal s pair = do
  (eq, deleted) ← compare_loop pair (keys s) true zero_set
  (eq', added) ← compare_loop s (keys pair) eq zero_set
  ok (eq', added, deleted)

elem-keep_if_ne :
    (v x : String) (m : List String)
    → elem x (keep_if (λ y. not (y == v)) m) ≡ (if v == x then false else elem x m)
elem-keep_if_ne v x [] = ground arith
elem-keep_if_ne v x (y ∷ m) =
    ground (arith, eq_iff y v, eq_iff y x, eq_iff v x, elem-keep_if_ne v x m)

-- On a set that was made by NewSet an addition succeeds, and the set then holds the value and what it
-- held before; a removal takes out the value alone.
pub contains-add-remove :
    (m : List String) (v x : String)
    → let s : IpSet = record { ipaddress = some m } in
      ((t : IpSet) × (add s v ≡ ok t) × (contains t x ≡ (v == x || contains s x)))
      × (contains (remove s v) x ≡ (if v == x then false else contains s x))
unfolding add remove contains
contains-add-remove m v x = (
  (record { ipaddress = some (if elem v m then m else v ∷ m) }, refl, elem_added m v x),
  elem-keep_if_ne v x m,
)
  where
    elem_step : (m : List String) (v x : String) → v ≡ x → elem v m ≡ true → elem x m ≡ true
    elem_step m v x e h = subst (λ (y : String). elem y m ≡ true) e h

    elem_added :
        (m : List String) (v x : String)
        → elem x (if elem v m then m else v ∷ m) ≡ (v == x || elem x m)
    elem_added m v x = ground (arith, eq_iff v x, elem_step m v x)

compare_loop-panics :
    (other : IpSet) (vs : List String) (b : Bool)
    → compare_loop other vs b zero_set
      ≡ (if all_of (contains other) vs then ok (b, zero_set) else panic)
unfolding compare_loop add
compare_loop-panics other [] b = refl
compare_loop-panics other (v ∷ vs) b = elim (Bool-cases (contains other v)) [
  | inl e ↦ rw (e, compare_loop) (compare_loop-panics other vs b)
  | inr e ↦ rw (e, compare_loop)
]

-- IsEqual answers true, with two empty differences, when the sets have the same values, and panics
-- otherwise.
pub is_equal_panics :
    (s pair : IpSet)
    → is_equal s pair ≡ (
        if all_of (contains pair) (keys s) && all_of (contains s) (keys pair)
        then ok (true, zero_set, zero_set)
        else panic)
unfolding is_equal
is_equal_panics s pair =
    rw (compare_loop-panics pair (keys s) true)
      (elim (Bool-cases (all_of (contains pair) (keys s))) [
        | inl e ↦
            rw (e, compare_loop-panics s (keys pair) true)
              (elim (Bool-cases (all_of (contains s) (keys pair))) [ inl f ↦ rw f | inr f ↦ rw f ])
        | inr e ↦ rw e
      ])
