-- ===== src/Evaluator/Operators.antt =====
-- The operators of `compareValues` (internal/engine/evaluator.go).
use intelligent_workflows.Prelude.{
  ℕ, String, Option, ◌||◌, ◌==◌, ◌≡◌, refl, sym, subst, ◌∙◌, some, some_inj, ◌↔◌, ◌⊎◌, inl, inr,
  Bool, true, false, List, [], ◌∷◌, none, Err, Result, ok, err, arith, eq_iff, Bool-cases, ap,
}
use mathlib.Core.List.{Memᴰ}
use mathlib.Core.List.Memᴰ
use intelligent_workflows.Value.{
  Value, null, bool, string, float64, float32, int, int32, int64, uint, uint32, uint64, time,
  strings, objects, object, jsonb, list, Items, nil, cons, Go,
}
use intelligent_workflows.Evaluator.{
  to_float64, equals, not_numeric, greater_than, less_than, or_equal, compare_values, any_equal,
  equal_any,
}

-- The value is of one of the eight types of numbers, and has the given float64.
abbrev pub NumberOf : Go → Value → ℕ → Type 0
NumberOf go (float64 x) f = f ≡ x
NumberOf go (float32 x) f = f ≡ go.float_of_float32 x
NumberOf go (int x) f = f ≡ go.float_of_int x
NumberOf go (int32 x) f = f ≡ go.float_of_int x
NumberOf go (int64 x) f = f ≡ go.float_of_int x
NumberOf go (uint x) f = f ≡ go.float_of_uint x
NumberOf go (uint32 x) f = f ≡ go.float_of_uint x
NumberOf go (uint64 x) f = f ≡ go.float_of_uint x
NumberOf go _ f = ⊥

NumberOf-to_float64 : (go : Go) (v : Value) (f : ℕ) → NumberOf go v f → to_float64 go v ≡ some f
unfolding to_float64
NumberOf-to_float64 go (float64 x) f h = ap some (sym h)
NumberOf-to_float64 go (float32 x) f h = ap some (sym h)
NumberOf-to_float64 go (int x) f h = ap some (sym h)
NumberOf-to_float64 go (int32 x) f h = ap some (sym h)
NumberOf-to_float64 go (int64 x) f h = ap some (sym h)
NumberOf-to_float64 go (uint x) f h = ap some (sym h)
NumberOf-to_float64 go (uint32 x) f h = ap some (sym h)
NumberOf-to_float64 go (uint64 x) f h = ap some (sym h)
NumberOf-to_float64 go null f h = elim h [ ]
NumberOf-to_float64 go (bool x) f h = elim h [ ]
NumberOf-to_float64 go (string x) f h = elim h [ ]
NumberOf-to_float64 go (time x) f h = elim h [ ]
NumberOf-to_float64 go (strings x) f h = elim h [ ]
NumberOf-to_float64 go (list x) f h = elim h [ ]
NumberOf-to_float64 go (objects x) f h = elim h [ ]
NumberOf-to_float64 go (object x) f h = elim h [ ]
NumberOf-to_float64 go (jsonb x) f h = elim h [ ]

to_float64-NumberOf : (go : Go) (v : Value) (f : ℕ) → to_float64 go v ≡ some f → NumberOf go v f
unfolding to_float64
to_float64-NumberOf go (float64 x) f h = some_inj (sym h)
to_float64-NumberOf go (float32 x) f h = some_inj (sym h)
to_float64-NumberOf go (int x) f h = some_inj (sym h)
to_float64-NumberOf go (int32 x) f h = some_inj (sym h)
to_float64-NumberOf go (int64 x) f h = some_inj (sym h)
to_float64-NumberOf go (uint x) f h = some_inj (sym h)
to_float64-NumberOf go (uint32 x) f h = some_inj (sym h)
to_float64-NumberOf go (uint64 x) f h = some_inj (sym h)
to_float64-NumberOf go null f h = cc
to_float64-NumberOf go (bool x) f h = cc
to_float64-NumberOf go (string x) f h = cc
to_float64-NumberOf go (time x) f h = cc
to_float64-NumberOf go (strings x) f h = cc
to_float64-NumberOf go (list x) f h = cc
to_float64-NumberOf go (objects x) f h = cc
to_float64-NumberOf go (object x) f h = cc
to_float64-NumberOf go (jsonb x) f h = cc

-- Both values are numbers, and their float64 values are in the relation.
abbrev pub Numbers : Go → Value → Value → (ℕ → ℕ → Type 0) → Type 0
Numbers go v c R = (a : ℕ) × (b : ℕ) × NumberOf go v a × NumberOf go c b × R a b

-- The comparison by an operator fails where one value is no number, and else is true exactly where the
-- relation holds.
abbrev pub ComparesBy : Go → Value → Value → String → (ℕ → ℕ → Type 0) → Type 0
ComparesBy go v c op R =
    (((e : Err) × (compare_values go v op c ≡ err e)) ↔ (¬ Numbers go v c (λ a b. Unit)))
    × ((compare_values go v op c ≡ ok true) ↔ Numbers go v c R)

-- The same of a result.
abbrev Compares : Go → Value → Value → Result Bool → (ℕ → ℕ → Type 0) → Type 0
Compares go v c r R =
    (((e : Err) × (r ≡ err e)) ↔ (¬ Numbers go v c (λ a b. Unit)))
    × ((r ≡ ok true) ↔ Numbers go v c R)

module _ (go : Go) (v c : Value) where
  unnumbered :
      (r : Result Bool) (e : Err) (R : ℕ → ℕ → Type 0)
      → r ≡ err e
      → (¬ Numbers go v c (λ a b. Unit))
      → Compares go v c r R
  unnumbered r e R h k =
      ((λ q. k, λ q. (e, h)), (λ q. cc, λ (a, b, m, n, x). elim (k (a, b, m, n, tt)) [ ]))

  -- The numbers of the values are the only ones.
  number_eq : (w : Value) (x a : ℕ) → to_float64 go w ≡ some x → NumberOf go w a → x ≡ a
  number_eq w x a h m = some_inj (sym h ∙ NumberOf-to_float64 go w a m)

  numbered :
      (r : Result Bool) (b : Bool) (x y : ℕ) (R : ℕ → ℕ → Type 0)
      → to_float64 go v ≡ some x
      → to_float64 go c ≡ some y
      → r ≡ ok b
      → (b ≡ true) ↔ R x y
      → Compares go v c r R
  numbered r b x y R hx hy h t =
      let m = to_float64-NumberOf go v x hx in
      let n = to_float64-NumberOf go c y hy in
      (
        (λ (e, q). cc, λ k. elim (k (x, y, m, n, tt)) [ ]),
        (
          λ q. (x, y, m, n, t.0 (ok_true b (sym h ∙ q))),
          λ (a, b', m', n', q).
              h ∙ ap ok (t.1 (subst2 a b' (number_eq v x a hx m') (number_eq c y b' hy n') q)),
        ),
      )
    where
      ok_true : (b : Bool) → ◌≡◌ {A = Result Bool} (ok b) (ok true) → b ≡ true
      ok_true true q = refl
      ok_true false q = cc

      subst2 : (a b : ℕ) → x ≡ a → y ≡ b → R a b → R x y
      subst2 a b p q k = subst (λ z. R z y) (sym p) (subst (λ z. R a z) (sym q) k)

  none-unnumbered :
      (to_float64 go v ≡ none) ⊎ (to_float64 go c ≡ none) → ¬ Numbers go v c (λ a b. Unit)
  none-unnumbered (inl h) (a, b, m, n, k) = cc (sym h ∙ NumberOf-to_float64 go v a m)
  none-unnumbered (inr h) (a, b, m, n, k) = cc (sym h ∙ NumberOf-to_float64 go c b n)

module _ (go : Go) (v c : Value) where
  -- What a comparison of the numbers returns: an error where one value is no number.
  abbrev IsComparison : Result Bool → (ℕ → ℕ → Bool) → Type 0
  IsComparison r test =
      ((e : Err) × (r ≡ err e) × ((to_float64 go v ≡ none) ⊎ (to_float64 go c ≡ none)))
      ⊎ ((x : ℕ) × (y : ℕ) × (to_float64 go v ≡ some x)
          × (to_float64 go c ≡ some y)
          × (r ≡ ok (test x y)))

  greater_than-IsComparison :
      (x y : Option ℕ)
      → to_float64 go v ≡ x
      → to_float64 go c ≡ y
      → IsComparison (greater_than go v c) (λ a b. go.float_lt b a)
  unfolding greater_than
  greater_than-IsComparison none y h k =
      inl (not_numeric go " > " v c, rw (h, greater_than) refl, inl h)
  greater_than-IsComparison (some x) none h k =
      inl (not_numeric go " > " v c, rw (h, k, greater_than) refl, inr k)
  greater_than-IsComparison (some x) (some y) h k = inr (x, y, h, k, rw (h, k, greater_than) refl)

  less_than-IsComparison :
      (x y : Option ℕ)
      → to_float64 go v ≡ x
      → to_float64 go c ≡ y
      → IsComparison (less_than go v c) go.float_lt
  unfolding less_than
  less_than-IsComparison none y h k = inl (not_numeric go " < " v c, rw (h, less_than) refl, inl h)
  less_than-IsComparison (some x) none h k =
      inl (not_numeric go " < " v c, rw (h, k, less_than) refl, inr k)
  less_than-IsComparison (some x) (some y) h k = inr (x, y, h, k, rw (h, k, less_than) refl)

  strict-Compares :
      (r : Result Bool) (test : ℕ → ℕ → Bool)
      → IsComparison r test
      → Compares go v c r (λ a b. test a b ≡ true)
  strict-Compares r test (inl (e, h, n)) =
      unnumbered go v c r e (λ a b. test a b ≡ true) h (none-unnumbered go v c n)
  strict-Compares r test (inr (x, y, m, n, h)) =
      numbered go v c r (test x y) x y (λ a b. test a b ≡ true) m n h (λ q. q, λ q. q)

  or_true_iff : (a b : Bool) → ((a || b) ≡ true) ↔ ((a ≡ true) ⊎ (b ≡ true))
  or_true_iff a b = ground arith

  or_equal-ok : (a b : Bool) → ◌≡◌ {A = Result Bool} (or_equal (ok a) b) (ok (a || b))
  unfolding or_equal
  or_equal-ok true b = refl
  or_equal-ok false b = refl

  or_equal-Compares :
      (r : Result Bool) (same : Bool) (test : ℕ → ℕ → Bool)
      → IsComparison r test
      → Compares go v c (or_equal r same) (λ a b. (test a b ≡ true) ⊎ (same ≡ true))
  unfolding or_equal
  or_equal-Compares r same test (inl (e, h, n)) =
      unnumbered go v c (or_equal r same) e (λ a b. (test a b ≡ true) ⊎ (same ≡ true))
        (ap (λ k. or_equal k same) h) (none-unnumbered go v c n)
  or_equal-Compares r same test (inr (x, y, m, n, h)) =
      numbered go v c (or_equal r same) (test x y || same) x y
        (λ a b. (test a b ≡ true) ⊎ (same ≡ true)) m n
        (ap (λ k. or_equal k same) h ∙ or_equal-ok (test x y) same) (or_true_iff (test x y) same)

-- `gt`, `gte`, `lt` and `lte` fail exactly when one of the two values is not of one of the eight types
-- of numbers. Otherwise `gt` is true exactly when the float64 of the second value is less than that of
-- the first, `lt` exactly when that of the first is less than that of the second, and `gte` and `lte`
-- are so or when the values are printed in the same way.
pub ordering_operators :
    (go : Go) (v c : Value)
    → ComparesBy go v c "gt" (λ a b. go.float_lt b a ≡ true)
      × ComparesBy go v c "lt" (λ a b. go.float_lt a b ≡ true)
      × ComparesBy go v c "gte"
          (λ a b. (go.float_lt b a ≡ true) ⊎ ((go.sprint v == go.sprint c) ≡ true))
      × ComparesBy go v c "lte"
          (λ a b. (go.float_lt a b ≡ true) ⊎ ((go.sprint v == go.sprint c) ≡ true))
unfolding compare_values equals
ordering_operators go v c =
    let gt = greater_than-IsComparison go v c (to_float64 go v) (to_float64 go c) refl refl in
    let lt = less_than-IsComparison go v c (to_float64 go v) (to_float64 go c) refl refl in
    (
      strict-Compares go v c (greater_than go v c) (λ a b. go.float_lt b a) gt,
      strict-Compares go v c (less_than go v c) go.float_lt lt,
      or_equal-Compares go v c (greater_than go v c) (equals go v c) (λ a b. go.float_lt b a) gt,
      or_equal-Compares go v c (less_than go v c) (equals go v c) go.float_lt lt,
    )

abbrev pub item_list : Items → List Value
item_list nil = []
item_list (cons x xs) = x ∷ item_list xs

any_equal-mem :
    (go : Go) (v : Value) (items : Items)
    → any_equal go v items ≡ true
    → (x : Value) × Memᴰ x (item_list items) × (equals go v x ≡ true)
unfolding any_equal
any_equal-mem go v nil h = cc
any_equal-mem go v (cons x xs) h = elim (Bool-cases (equals go v x)) [
  | inl same ↦ (x, Memᴰ.head refl, same)
  | inr other ↦
      let (y, m, e) = any_equal-mem go v xs (unfold any_equal in ground arith) in
      (y, Memᴰ.tail m, e)
]

mem-any_equal :
    (go : Go) (v : Value) (items : Items) (x : Value)
    → Memᴰ x (item_list items)
    → equals go v x ≡ true
    → any_equal go v items ≡ true
unfolding any_equal
mem-any_equal go v nil x m h = absurd (Memᴰ.not-nil m)
mem-any_equal go v (cons y ys) x m h = elim (Memᴰ.cases_cons m) [
  | inl e ↦ ground arith
  | inr r ↦ ground (arith, mem-any_equal go v ys x r h)
]

equals-sym : (go : Go) (a b : Value) → equals go a b ≡ equals go b a
unfolding equals
equals-sym go a b =
    ground (arith, eq_iff (go.sprint a) (go.sprint b), eq_iff (go.sprint b) (go.sprint a))

equal_any-eq : (go : Go) (items : Items) (v : Value) → equal_any go items v ≡ any_equal go v items
unfolding equal_any any_equal
equal_any-eq go nil v = refl
equal_any-eq go (cons x xs) v = rw (equals-sym go x v, equal_any-eq go xs v) refl

-- `in` over a list of values, and `contains` with the operands exchanged, never fail; each is true
-- exactly when `eq` is true of the value and some item of the list.
pub in-contains_iff :
    (go : Go) (v : Value) (items : Items)
    → (compare_values go v "in" (list items) ≡ compare_values go (list items) "contains" v)
      × ((b : Bool) × (compare_values go v "in" (list items) ≡ ok b)
          × ((b ≡ true)
              ↔ ((x : Value) × Memᴰ x (item_list items) × (compare_values go v "eq" x ≡ ok true))))
unfolding compare_values
in-contains_iff go v items = (
  rw (equal_any-eq go items v) refl,
  (
    any_equal go v items,
    refl,
    (
      λ h. let (x, m, e) = any_equal-mem go v items h in (x, m, ap (λ b. ok b) e),
      λ (x, m, e). mem-any_equal go v items x m (cc),
    ),
  ),
)
