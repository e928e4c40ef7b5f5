-- ===== src/Evaluator/Path.antt =====
-- Field paths of the evaluator (`getFieldValue` of internal/engine/evaluator.go), against a
-- relation that follows nested objects, and dotted texts against lists of names.
use Prim.Native.Char.{Char, code}
use Prim.Native.String
use Prim.Native.String.append
use intelligent_workflows.Prelude.{
  ℕ, String, ◌≡◌, refl, ap, ◌∙◌, ◌↔◌, true, false, List, [], ◌∷◌, some, ok, arith, split, nat_eq,
  All,
}
use intelligent_workflows.Value.{Value, object, Fields, get}
use intelligent_workflows.Evaluator.{dot, walk, get_field_value}

-- `At m path v`: following the names of `path` from `m` through nested objects ends at `v`.
pub data At : Fields → List String → Value → Type 0 where
  leaf : {m : Fields} {name : String} {v : Value} → get name m ≡ some v → At m (name ∷ []) v
  deeper :
      {m : Fields} {name next : String} {path : List String} {n : Fields} {v : Value}
      → get name m ≡ some (object n)
      → At n (next ∷ path) v
      → At m (name ∷ next ∷ path) v

walk_object :
    (name p q : String) (path : List String) (m : Fields) {v : Value}
    → walk name (p ∷ q ∷ path) m ≡ ok v
    → (n : Fields) × (get p m ≡ some (object n)) × (walk name (q ∷ path) n ≡ ok v)
unfolding walk
walk_object name p q path m h = ground arith

walk_last :
    (name p : String) (m : Fields) {v : Value} → walk name (p ∷ []) m ≡ ok v → get p m ≡ some v
unfolding walk
walk_last name p m h = ground arith

walk-At :
    (name : String) (path : List String) (m : Fields) (v : Value)
    → walk name path m ≡ ok v
    → At m path v
walk-At name [] m v h = (unfold walk in cc)
walk-At name (p ∷ []) m v h = leaf (walk_last name p m h)
walk-At name (p ∷ q ∷ path) m v h =
    let (n, e, r) = walk_object name p q path m h in deeper e (walk-At name (q ∷ path) n v r)

At-walk :
    (name : String) {path : List String} {m : Fields} {v : Value}
    → At m path v
    → walk name path m ≡ ok v
unfolding walk
At-walk name (leaf e) = rw (e, walk) refl
At-walk name (deeper {next} {path} {n} e a) = rw (e, walk) (At-walk name a)

-- A text in which no character has the given code.
abbrev pub Lacks : ℕ → String → Type 0
Lacks sep String.[] = Unit
Lacks sep (String.◌∷◌ c s) = (nat_eq (code c) sep ≡ false) × Lacks sep s

-- The texts with one character between two of them, as `strings.Join` puts them together.
abbrev pub join : Char → List String → String
join c [] = String.[]
join c (s ∷ []) = s
join c (s ∷ t ∷ ss) = String.◌++◌ s (String.◌∷◌ c (join c (t ∷ ss)))

split-Lacks : (sep : ℕ) (s : String) → Lacks sep s → split sep s ≡ s ∷ []
unfolding split
split-Lacks sep String.[] h = refl
split-Lacks sep (String.◌∷◌ c s) h = rw (h.0, split-Lacks sep s h.1) refl

nat_eq_refl : (n : ℕ) → nat_eq n n ≡ true
nat_eq_refl n = ground arith

split-append :
    (s : String) (c : Char) (t : String)
    → Lacks (code c) s
    → split (code c) (String.◌++◌ s (String.◌∷◌ c t)) ≡ s ∷ split (code c) t
unfolding split
split-append String.[] c t h = rw append.nil (rw nat_eq_refl refl)
split-append (String.◌∷◌ d s) c t h = rw append.cons (rw (h.0, split-append s c t h.1) refl)

split-join :
    (c : Char) (s : String) (ss : List String)
    → All (Lacks (code c)) (s ∷ ss)
    → split (code c) (join c (s ∷ ss)) ≡ s ∷ ss
split-join c s [] h = split-Lacks (code c) s h.0
split-join c s (t ∷ ss) h =
    split-append s c (join c (t ∷ ss)) h.0 ∙ ap (λ rest. s ∷ rest) (split-join c t ss h.1)

-- For any names without a dot, reading the field spelled by joining them with dots succeeds with a
-- value exactly when following the names through nested objects ends at that value.
pub get_field_value-join_iff :
    (s : String) (ss : List String) (context : Fields) (v : Value)
    → All (Lacks dot) (s ∷ ss)
    → (get_field_value (join "." (s ∷ ss)) context ≡ ok v) ↔ At context (s ∷ ss) v
unfolding get_field_value
get_field_value-join_iff s ss context v h =
    rw (split-join "." s ss h) (walk-At _ (s ∷ ss) context v, At-walk _)
