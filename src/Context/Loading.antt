-- ===== src/Context/Loading.antt =====
-- What the context of an execution has after the loading of its resources.
use intelligent_workflows.Prelude.{
  ℕ, String, ◌≡◌, ◌≢◌, ◌⊎◌, inl, inr, refl, sym, ◌∙◌, List, [], ◌∷◌, Option, none, some, ◌==◌,
  if◌then◌else◌, Result, ok, err, arith, eq_iff, Bool-cases, Has,
}
use intelligent_workflows.Value.{Value, object, Fields, empty, field, get, put, merge, Go}
use intelligent_workflows.Context.State.{Config, Services, Trace, merge_into_context}
use intelligent_workflows.Context.Builder.{
  merged, load_resource, load_all, build_context, build_context_from_existing,
}

get-put :
    (k j : String) (v : Value) (m : Fields)
    → get k (put j v m) ≡ (if j == k then some v else get k m)
unfolding get put
get-put k j v empty = refl
get-put k j v (field i w m) = ground (arith, get-put k j v m, eq_iff i k, eq_iff i j, eq_iff j k)

get-merge : (k : String) (m : Fields) → get k (merge m empty) ≡ get k m
unfolding get merge
get-merge k empty = refl
get-merge k (field j v m) =
    get-put k j v (merge m empty)
    ∙ (elim (Bool-cases (j == k)) [ inl e ↦ rw (e) refl | inr e ↦ rw (e) (get-merge k m) ])

-- Under the key there is what there was before, or, if it is the name of a resource to load, a map
-- with an entry.
abbrev pub IsLoaded : String → List String → Fields → Fields → Type 0
IsLoaded k load before after =
    (get k after ≡ get k before)
    ⊎ ((d : Fields) × Has k load × (d ≢ empty) × (get k after ≡ some (object d)))

field≢empty : (k : String) (v : Value) (m : Fields) → field k v m ≢ empty
field≢empty k v m e = cc

module _ (k : String) where
  merge_into_context-IsLoaded :
      (context : Fields) (r : String) (m : Option Fields)
      → IsLoaded k (r ∷ []) context (merge_into_context context r m)
  unfolding merge_into_context
  merge_into_context-IsLoaded context r none = inl refl
  merge_into_context-IsLoaded context r (some empty) = inl refl
  merge_into_context-IsLoaded context r (some (field j v m)) =
      let e = get-put k r (object (field j v m)) context in
      elim (Bool-cases (r == k)) [
        | inl h ↦
            inr (field j v m, inl (sym ((eq_iff r k).0 h)), field≢empty j v m, e ∙ (rw (h) refl))
        | inr h ↦ inl (e ∙ (rw (h) refl))
      ]

  -- One resource, and then the others.
  IsLoaded-trans :
      (r : String) (rest : List String) (a b c : Fields)
      → IsLoaded k (r ∷ []) a b
      → IsLoaded k rest b c
      → IsLoaded k (r ∷ rest) a c
  IsLoaded-trans r rest a b c (inl e) (inl f) = inl (f ∙ e)
  IsLoaded-trans r rest a b c (inr (d, inl x, n, e)) (inl f) = inr (d, inl x, n, f ∙ e)
  IsLoaded-trans r rest a b c (inr (d, inr x, n, e)) (inl f) = elim x [ ]
  IsLoaded-trans r rest a b c h (inr (d, x, n, e)) = inr (d, inr x, n, e)

  module _ (go : Go) (config : Config) (services : Services) (organization : ℕ) where
    merged-IsLoaded :
        (context : Fields) (r : String) (m : Result (Option Fields))
        → IsLoaded k (r ∷ []) context (merged go config services organization context r m)
    merged-IsLoaded context r (err e) = inl refl
    merged-IsLoaded context r (ok m) = merge_into_context-IsLoaded context r m

    load_all-IsLoaded :
        (load : List String) (context : Fields) (t : Trace)
        → IsLoaded k load context (load_all go config services organization load context t).0
    unfolding load_all
    load_all-IsLoaded [] context t = inl refl
    load_all-IsLoaded (r ∷ rest) context t =
        let s = load_resource go config services organization r context t in
        IsLoaded-trans r rest context (merged go config services organization context r s.0)
          (load_all go config services organization rest
            (merged go config services organization context r s.0) s.1).0
          (merged-IsLoaded context r s.0)
          (load_all-IsLoaded rest (merged go config services organization context r s.0) s.1)

    -- The context that is built has under each key what the payload of the trigger has under it, or, if
    -- the key is the name of a resource to load, a map with an entry: whatever fails while loading, the
    -- values under other keys are those of the payload, and no key is lost. Loading again into an
    -- existing context keeps it in the same way.
    pub build_context-IsLoaded :
        (payload existing : Fields) (load : List String) (t : Trace)
        → IsLoaded k load payload (build_context go config services organization payload load t).0
          × IsLoaded k load existing
              (build_context_from_existing go config services organization existing load t).0
    unfolding build_context build_context_from_existing
    build_context-IsLoaded payload existing load t = (
      elim (load_all-IsLoaded load (merge payload empty) t) [
        | inl e ↦ inl (e ∙ get-merge k payload)
        | inr x ↦ inr x
      ],
      load_all-IsLoaded load existing t,
    )
