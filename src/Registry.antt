-- ===== src/Registry.antt =====
-- experiments/__init__.py and topos/__init__.py: the tables of classes by their names. A class stands
-- here with its attribute `NAME`, where it has one, and its subclasses in the order of their
-- definitions.
use minitopo.Base.{
  String, ◌==◌, ◌≡◌, refl, sym, ◌∙◌, ap, List, [], ◌∷◌, ◌++◌, Option, some, if◌then◌else◌,
}
use minitopo.Base.Dict.{Dict, lookup, insert, lookup-insert}

mutual
  pub data Class (A : Type 0) : Type 0 where
    named : String → A → Classes A → Class A
    unnamed : Classes A → Class A

  pub data Classes (A : Type 0) : Type 0 where
    nothing : Classes A
    first : Class A → Classes A → Classes A

unfoldable mutual
  unfolding insert

  pub register_class : {A : Type 0} → Dict A → Class A → Dict A
  register_class d (named name a subclasses) = register (insert name a d) subclasses
  register_class d (unnamed subclasses) = register d subclasses

  -- `_register_all_subclasses` and `_get_all_subclasses`
  pub register : {A : Type 0} → Dict A → Classes A → Dict A
  register d nothing = d
  register d (first c cs) = register (register_class d c) cs

-- The classes that have a name, in the order of the walk: a class before its subclasses, and these
-- before its next sibling.
mutual
  pub walk_class : {A : Type 0} → Class A → List (String × A)
  walk_class (unnamed subclasses) = walk subclasses
  walk_class (named name a subclasses) = (name, a) ∷ walk subclasses

  pub walk : {A : Type 0} → Classes A → List (String × A)
  walk nothing = []
  walk (first c cs) = walk_class c ++ walk cs

-- The last class of that name, or else the one that is given.
abbrev pub last_named : {A : Type 0} → String → List (String × A) → Option A → Option A
last_named k [] found = found
last_named k ((name, a) ∷ l) found = last_named k l (if name == k then some a else found)

last_named-append :
    {A : Type 0} (k : String) (l m : List (String × A)) (found : Option A)
    → last_named k (l ++ m) found ≡ last_named k m (last_named k l found)
last_named-append k [] m found = refl
last_named-append k ((name, a) ∷ l) m found = last_named-append k l m _

mutual
  unfolding register walk

  lookup-register_class :
      {A : Type 0} (k : String) (c : Class A) (d : Dict A)
      → lookup k (register_class d c) ≡ last_named k (walk_class c) (lookup k d)
  lookup-register_class k (unnamed subclasses) d = lookup-register_all k subclasses d
  lookup-register_class k (named name a subclasses) d =
      lookup-register_all k subclasses (insert name a d)
      ∙ ap (last_named k (walk subclasses)) (lookup-insert name k a d)

  lookup-register_all :
      {A : Type 0} (k : String) (cs : Classes A) (d : Dict A)
      → lookup k (register d cs) ≡ last_named k (walk cs) (lookup k d)
  lookup-register_all k nothing d = refl
  lookup-register_all k (first c cs) d =
      lookup-register_all k cs (register_class d c)
      ∙ ap (last_named k (walk cs)) (lookup-register_class k c d)
      ∙ sym (last_named-append k (walk_class c) (walk cs) (lookup k d))

-- After the classes below a base class are registered, the class under a name is the last one of
-- that name in the order of the walk, and what the table held before where there is none.
pub lookup-register :
    {A : Type 0} (k : String) (cs : Classes A) (d : Dict A)
    → lookup k (register d cs) ≡ last_named k (walk cs) (lookup k d)
lookup-register = lookup-register_all
