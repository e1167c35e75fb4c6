-- ===== src/Config/Print/Order.antt =====
-- The listings of contexts do not show the order in which Go walks a map.
use mathlib.Core.List.{Perm}
use airshipctl.Base.{
  String, is_set, List, [], ◌∷◌, Option, Bool-cases, Option-cases, none, some, ◌++◌, inl, inr, ◌≡◌,
  refl, sym, ap, ◌∙◌, arith, if◌then◌else◌,
}
use airshipctl.Base.GoMap.{GoMap, get, keys}
use airshipctl.Base.Sorting.{sort_strings, sort_strings-perm}
use airshipctl.Config.Types.{Context, Config, ContextOptions, Reply}
use airshipctl.Config.Print.{
  values_at, get_contexts, ReducedConfig, print, table_rows, table_text, table_names, printed_name,
  table_header,
}

-- Two walks of one map: the same keys in some order, and the same value under each.
pub record SameMap {V : Type 0} (m m' : GoMap V) : Type 0 where
  pub keys-perm : Perm (keys m) (keys m')
  pub get-eq : (k : String) → get k m ≡ get k m'

values_at-eq :
    {A : Type 0} (names : List String) (m m' : GoMap (Option A))
    → ((k : String) → get k m ≡ get k m')
    → values_at names m ≡ values_at names m'
unfolding values_at
values_at-eq [] m m' h = refl
values_at-eq (name ∷ names) m m' h = rw (h name, values_at-eq names m m' h)

-- GetContexts returns the same list, whatever the order of the walk.
pub get_contexts_order :
    (c : Config) (m : GoMap (Option Context))
    → SameMap c.contexts m
    → get_contexts c ≡ get_contexts (record c { contexts = m })
unfolding get_contexts
get_contexts_order c m s =
    rw (sort_strings-perm s.keys-perm) (values_at-eq (sort_strings (keys m)) c.contexts m s.get-eq)

table_rows-eq :
    (c : Config) (m : GoMap (Option Context)) (out names : List String)
    → ((k : String) → get k c.contexts ≡ get k m)
    → table_rows c out names ≡ table_rows (record c { contexts = m }) out names
unfolding table_rows
table_rows-eq c m out [] h = refl
table_rows-eq c m out (name ∷ names) h = elim (Option-cases (get name m)) [
  | inl e ↦ ground (arith, h name)
  | inr (none, e) ↦ ground (arith, h name)
  | inr (some context, e) ↦
      ground (arith, h name, table_rows-eq c m (out ++ (table_text c name context ∷ [])) names h)
]

table_names-eq :
    (name : String) (c : Config) (m : GoMap (Option Context))
    → SameMap c.contexts m
    → table_names name c ≡ table_names name (record c { contexts = m })
unfolding table_names
table_names-eq name c m s = elim (Bool-cases (is_set name)) [
  | inl e ↦ rw e
  | inr e ↦ rw e (sort_strings-perm s.keys-perm)
]

module _ (marshal : ReducedConfig → Reply String) (format : String → String) where
  table_of : ContextOptions → Config → List String × Reply Unit
  table_of o c = table_rows c (table_header ∷ []) (table_names (printed_name o c) c)

  print_table :
      (o : ContextOptions) (c : Config)
      → o.format ≡ "table"
      → print marshal format o c ≡ table_of o c
  unfolding print table_of
  print_table o c e = rw (e, print)

  table_of-eq :
      (o : ContextOptions) (c : Config) (m : GoMap (Option Context))
      → SameMap c.contexts m
      → table_of o c ≡ table_of o (record c { contexts = m })
  unfolding table_of printed_name
  table_of-eq o c m s =
      let name : String = if o.current_context then c.current_context else o.name in
      ap (table_rows c (table_header ∷ [])) (table_names-eq name c m s)
      ∙ table_rows-eq c m (table_header ∷ []) (table_names name (record c { contexts = m }))
          s.get-eq

-- The table that Print writes, and its error, are the same whatever the order of the walk.
pub print_order :
    (marshal : ReducedConfig → Reply String) (format : String → String) (o : ContextOptions)
    (c : Config) (m : GoMap (Option Context))
    → o.format ≡ "table"
    → SameMap c.contexts m
    → print marshal format o c ≡ print marshal format o (record c { contexts = m })
print_order marshal format o c m e s =
    print_table marshal format o c e
    ∙ table_of-eq marshal format o c m s
    ∙ sym (print_table marshal format o (record c { contexts = m }) e)
