-- ===== src/Config/Valid.antt =====
-- What loadConfig guarantees of a configuration that it accepts.
use mizumi.Prelude.{ℕ, suc, ◌≡◌, refl, ap, length, inl, inr, List, [], ◌∷◌, Option, All, Bool-cases}
use mizumi.Text.{codes}
use mizumi.Config.{
  Json, arr, Items, nil, cons, ok, GeneratorConfig, GenerateConfig, property, is_object, read_seed,
  add_entry, load_generators, validate_entry, validate_entries, read_generators, load_config,
}
use mizumi.Config.Entry.{
  IsSeed, IsValidGenerator, Ensures, ok-Ensures, error-Ensures, Ensures-ok, bind-Ensures,
  read_seed-IsSeed, validate_entry-IsValidGenerator,
}

abbrev pub IsValid : GenerateConfig → Type 0
IsValid c = IsSeed c.seed × All IsValidGenerator c.generators

abbrev item_count : Items → ℕ
item_count nil = 0
item_count (cons item items) = suc (item_count items)

-- The elements of the array of generators.
abbrev pub generator_count : Json → ℕ
generator_count (arr items) = item_count items
generator_count _ = 0

abbrev AreValid : ℕ → List GeneratorConfig → Type 0
AreValid n gs = All IsValidGenerator gs × (length gs ≡ n)

validate_entries-AreValid :
    (items : Items) (index : ℕ)
    → Ensures (AreValid (item_count items)) (validate_entries items index)
unfolding validate_entries
validate_entries-AreValid nil index = ok-Ensures (AreValid 0) [] (tt, refl)
validate_entries-AreValid (cons item items) index =
    let rest = validate_entries items (suc index) in
    let all = AreValid (suc (item_count items)) in
    bind-Ensures IsValidGenerator all (validate_entry item index) (add_entry rest)
      (validate_entry-IsValidGenerator item index)
      (λ g v.
        bind-Ensures (AreValid (item_count items)) all rest (λ gs. ok (g ∷ gs))
          (validate_entries-AreValid items (suc index))
          (λ gs h. ok-Ensures all (g ∷ gs) ((v, h.0), ap suc h.1)))

read_generators-AreValid : (v : Json) → Ensures (AreValid (generator_count v)) (read_generators v)
unfolding read_generators
read_generators-AreValid (arr items) = validate_entries-AreValid items 0
read_generators-AreValid _ = error-Ensures (AreValid 0) _

module _ (raw : Json) where
  abbrev IsLoaded : GenerateConfig → Type 0
  IsLoaded config =
      IsValid config
      × (length config.generators ≡ generator_count (property (codes "generators") raw))

  load_generators-IsLoaded :
      (seed : Option ℕ) → IsSeed seed → Ensures IsLoaded (load_generators raw seed)
  unfolding load_generators
  load_generators-IsLoaded seed s =
      let v = property (codes "generators") raw in
      bind-Ensures (AreValid (generator_count v)) IsLoaded (read_generators v)
        (λ gs. ok (record { seed = seed; generators = gs })) (read_generators-AreValid v)
        (λ gs h. ok-Ensures IsLoaded (record { seed = seed; generators = gs }) ((s, h.0), h.1))

  load_config-IsLoaded : Ensures IsLoaded (load_config raw)
  unfolding load_config
  load_config-IsLoaded =
      let seed = property (codes "seed") raw in
      elim (Bool-cases (is_object raw)) [
        | inl e ↦ rw e (
            bind-Ensures IsSeed IsLoaded (read_seed seed (codes "seed")) (load_generators raw)
              (read_seed-IsSeed seed (codes "seed")) load_generators-IsLoaded)
        | inr e ↦ rw e (error-Ensures IsLoaded _)
      ]

-- What loadConfig accepts is valid: every count and every seed is positive, and every output and
-- every path that a generator's type needs is a text that is not blank; and it has one generator
-- for each element of the array.
pub load_config-IsValid :
    (raw : Json) (config : GenerateConfig)
    → load_config raw ≡ ok config
    → IsValid config
      × (length config.generators ≡ generator_count (property (codes "generators") raw))
load_config-IsValid raw config h =
    Ensures-ok (IsLoaded raw) (load_config raw) config (load_config-IsLoaded raw) h
