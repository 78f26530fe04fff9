-- ===== src/TopoParameter/Loops.antt =====
-- The two loops over the sorted keys: what holds of each round holds of the loop.
use minitopo.Base.{String, ◌==◌, eq_iff, ◌≡◌, ◌≢◌, refl, true, List, [], ◌∷◌, ◌++◌, arith, ap, sym}
use mathlib.Core.Path.{subst}
use minitopo.Base.{inl, inr, Bool-cases, All}
use minitopo.Base.Int.{ℤ}
use minitopo.Base.Dict.{Dict, elem}
use minitopo.Errors.{Result, ok, err, value_error, attribute_error, ◌>>=◌}
use minitopo.Floats.{Floats}
use minitopo.Link.{LinkCharacteristics}
use minitopo.Text.{starts_with}
use minitopo.Parameter.{Value}
use minitopo.TopoParameter.{
  Fields, read_path, link_of, append_link, load_path, load_paths, load_netem_key, load_netem_keys,
}

pub >>=-eq-ok {ℓ κ} :
    {A : Type ℓ} {B : Type κ} (first : Result A) (rest : A → Result B) {value : B}
    → (first >>= rest) ≡ ok value
    → (a : A) × (first ≡ ok a) × (rest a ≡ ok value)
>>=-eq-ok (err raised) rest returned = cc
>>=-eq-ok (ok a) rest returned = (a, refl, returned)

pub ok-injective {ℓ} : {A : Type ℓ} {a b : A} → ok a ≡ ok b → a ≡ b
ok-injective h = cc

module _ (fl : Floats) where
  open fl use {F}

  -- A round leaves the links alone or appends the link that it read.
  pub data Round (d : Dict Value) (links : List (LinkCharacteristics F)) (k : String)
      (after : List (LinkCharacteristics F)) : Type 0 where
    kept : after ≡ links → Round d links k after
    appended :
        (r : String × ℤ × Fields F) (l : LinkCharacteristics F)
        → starts_with k "path" ≡ true
        → read_path fl d k ≡ ok r
        → link_of fl r ≡ ok l
        → after ≡ links ++ l ∷ []
        → Round d links k after

  append_link-Round :
      (d : Dict Value) (links : List (LinkCharacteristics F)) (k : String)
      (after : List (LinkCharacteristics F)) (q : Result (String × ℤ × Fields F))
      → starts_with k "path" ≡ true
      → read_path fl d k ≡ q
      → append_link fl links q ≡ ok after
      → Round d links k after
  append_link-Round d links k after (ok r) s e h =
      let (l, made, more) = >>=-eq-ok (link_of fl r) (λ path. ok (links ++ path ∷ [])) h in
      appended r l s e made (ground arith)
  append_link-Round d links k after (err value_error) s e h = kept (ground arith)
  append_link-Round d links k after (err _) s e h = cc

  pub load_path-Round :
      (d : Dict Value) (links : List (LinkCharacteristics F)) (k : String)
      (after : List (LinkCharacteristics F))
      → load_path fl d links k ≡ ok after
      → Round d links k after
  unfolding load_path
  load_path-Round d links k after h = elim (Bool-cases (starts_with k "path")) [
    | inl e ↦ append_link-Round d links k after (read_path fl d k) e refl (rw e at h)
    | inr e ↦ kept (ground arith)
  ]

  All-append :
      (P : LinkCharacteristics F → Type 0) (xs ys : List (LinkCharacteristics F))
      → All P xs
      → All P ys
      → All P (xs ++ ys)
  All-append P [] ys hx hy = hy
  All-append P (x ∷ xs) ys hx hy = (hx.0, All-append P xs ys hx.1 hy)

  module _ (d : Dict Value) (P : LinkCharacteristics F → Type 0)
      (each : (k : String) (r : String × ℤ × Fields F) (l : LinkCharacteristics F)
        → starts_with k "path" ≡ true
        → read_path fl d k ≡ ok r
        → link_of fl r ≡ ok l
        → P l) where
    All-Round :
        (links : List (LinkCharacteristics F)) (k : String) (after : List (LinkCharacteristics F))
        → Round d links k after
        → All P links
        → All P after
    All-Round links k after (kept e) all = subst (All P) (sym e) all
    All-Round links k after (appended r l s q made e) all =
        subst (All P) (sym e) (All-append P links (l ∷ []) all (each k r l s q made, tt))

    pub All-load_paths :
        (ks : List String) (links after : List (LinkCharacteristics F))
        → load_paths fl d links ks ≡ ok after
        → All P links
        → All P after
    unfolding load_paths
    All-load_paths [] links after h all = subst (All P) (ok-injective h) all
    All-load_paths (k ∷ ks) links after h all =
        let (more, e, rest) =
          >>=-eq-ok (load_path fl d links k) (λ more. load_paths fl d more ks) h in
        All-load_paths ks more after rest
          (All-Round links k more (load_path-Round d links k more e) all)

  -- A key whose round fails whatever was loaded before makes the loop fail.
  pub load_paths-fails :
      (d : Dict Value) (k : String)
      → ((links : List (LinkCharacteristics F)) → load_path fl d links k ≡ err attribute_error)
      → (ks : List String) (links after : List (LinkCharacteristics F)) → elem k ks ≡ true
      → load_paths fl d links ks ≢ ok after
  unfolding load_paths elem
  load_paths-fails d k fails [] links after m h = cc
  load_paths-fails d k fails (j ∷ ks) links after m h =
      let (more, e, rest) =
        >>=-eq-ok (load_path fl d links j) (λ more. load_paths fl d more ks) h in
      elim (Bool-cases (j == k)) [
        | inl same ↦ cc (e, fails links, ap (load_path fl d links) ((eq_iff j k).0 same))
        | inr other ↦ load_paths-fails d k fails ks more after (rw other at m) rest
      ]

  pub load_netem_keys-fails :
      (d : Dict Value) (k : String)
      → ((links : List (LinkCharacteristics F)) → load_netem_key fl d links k ≡ err attribute_error)
      → (ks : List String) (links after : List (LinkCharacteristics F)) → elem k ks ≡ true
      → load_netem_keys fl d links ks ≢ ok after
  unfolding load_netem_keys elem
  load_netem_keys-fails d k fails [] links after m h = cc
  load_netem_keys-fails d k fails (j ∷ ks) links after m h =
      let (more, e, rest) =
        >>=-eq-ok (load_netem_key fl d links j) (λ more. load_netem_keys fl d more ks) h in
      elim (Bool-cases (j == k)) [
        | inl same ↦ cc (e, fails links, ap (load_netem_key fl d links) ((eq_iff j k).0 same))
        | inr other ↦ load_netem_keys-fails d k fails ks more after (rw other at m) rest
      ]
