-- ===== src/MultiInterface/Ports.antt =====
-- The order in which the nodes are linked, which is the order in which Mininet numbers their
-- interfaces, against the interface names that the configuration computes.
use minitopo.Base.{
  ℕ, String, ◌==◌, eq_iff, eq_refl, code, ◌≢◌, ◌≡◌, refl, sym, ap, ◌∙◌, false, ◌||◌, List, [], ◌∷◌,
  ◌++◌,
}
use minitopo.Base.{arith, if◌then◌else◌, map, inl, inr, Bool-cases}
use minitopo.Base.{append_assoc, append-nil}
use minitopo.Text.{◌<>◌, concat}
use minitopo.Link.{LinkCharacteristics}
use minitopo.Topo.{Topo, BottleneckLink, get_bs_name, add_bottleneck_link}
use minitopo.MultiInterface.{add_bottleneck_links}

-- The links of a node, in the order in which they were added.
unfoldable pub links_at : String → List (String × String) → List (String × String)
links_at n [] = []
links_at n ((a, b) ∷ l) =
    let rest = links_at n l in if a == n || b == n then (a, b) ∷ rest else rest

pub links_at-append :
    (n : String) (l k : List (String × String)) → links_at n (l ++ k) ≡ links_at n l ++ links_at n k
unfolding links_at
links_at-append n [] k = refl
links_at-append n ((a, b) ∷ l) k = ground (arith, links_at-append n l k)

-- The name of a switch is the name of no client, router or server.
abbrev IsHostName : String → Type 0
IsHostName n = (s : String) → ("bs" <> s == n) ≡ false

module _ {F : Type 0} where
  get_bs_name-ne :
      (n : String)
      → IsHostName n
      → (l : LinkCharacteristics F) (i : ℕ) → (get_bs_name l i == n) ≡ false
  unfolding get_bs_name concat ◌<>◌
  get_bs_name-ne n h l i = h _

  -- The links of one bottleneck between two nodes.
  unfoldable pub chain : String → String → LinkCharacteristics F → List (String × String)
  chain from_a to_b l =
      (get_bs_name l 0, get_bs_name l 1)
      ∷ (get_bs_name l 1, get_bs_name l 2)
      ∷ (get_bs_name l 2, get_bs_name l 3)
      ∷ (from_a, get_bs_name l 0)
      ∷ (get_bs_name l 3, to_b)
      ∷ []

  links-add_bottleneck_link :
      (from_a to_b : String) (l : LinkCharacteristics F) (t : Topo F)
      → (add_bottleneck_link from_a to_b l t).1.topo_builder.links
        ≡ t.topo_builder.links ++ chain from_a to_b l
  unfolding add_bottleneck_link chain
  links-add_bottleneck_link from_a to_b l t = simp append_assoc

  -- What one bottleneck adds at its left and at its right end.
  links_at-chain_left :
      (n to_b : String) (l : LinkCharacteristics F)
      → IsHostName n
      → (to_b == n) ≡ false
      → links_at n (chain n to_b l) ≡ (n, get_bs_name l 0) ∷ []
  unfolding links_at chain
  links_at-chain_left n to_b l h ne =
      rw
        (
          get_bs_name-ne n h l 0,
          get_bs_name-ne n h l 1,
          get_bs_name-ne n h l 2,
          get_bs_name-ne n h l 3,
          ne,
        )
        (rw (eq_refl n) refl)

  links_at-chain_right :
      (n from_a : String) (l : LinkCharacteristics F)
      → IsHostName n
      → (from_a == n) ≡ false
      → links_at n (chain from_a n l) ≡ (get_bs_name l 3, n) ∷ []
  unfolding links_at chain
  links_at-chain_right n from_a l h ne =
      rw
        (
          get_bs_name-ne n h l 0,
          get_bs_name-ne n h l 1,
          get_bs_name-ne n h l 2,
          get_bs_name-ne n h l 3,
          ne,
        )
        (rw (eq_refl n) refl)

  unfoldable pub chains : String → String → List (LinkCharacteristics F) → List (String × String)
  chains from_a to_b [] = []
  chains from_a to_b (l ∷ ls) = chain from_a to_b l ++ chains from_a to_b ls

  -- The bottleneck that is made for a link.
  unfoldable pub bottleneck : LinkCharacteristics F → BottleneckLink F
  bottleneck l = record {
    link_characteristics = l;
    bs0 = get_bs_name l 0;
    bs1 = get_bs_name l 1;
    bs2 = get_bs_name l 2;
    bs3 = get_bs_name l 3;
  }

  pub links-add_bottleneck_links :
      (from_a to_b : String) (ls : List (LinkCharacteristics F)) (t : Topo F)
      → (add_bottleneck_links from_a to_b ls t).1.topo_builder.links
        ≡ t.topo_builder.links ++ chains from_a to_b ls
  unfolding add_bottleneck_links chains
  links-add_bottleneck_links from_a to_b [] t = sym (append-nil _)
  links-add_bottleneck_links from_a to_b (l ∷ ls) t =
      links-add_bottleneck_links from_a to_b ls (add_bottleneck_link from_a to_b l t).1
      ∙ ap (λ k. k ++ chains from_a to_b ls) (links-add_bottleneck_link from_a to_b l t)
      ∙ append_assoc t.topo_builder.links _ _

  pub add_bottleneck_links-eq-map :
      (from_a to_b : String) (ls : List (LinkCharacteristics F)) (t : Topo F)
      → (add_bottleneck_links from_a to_b ls t).0 ≡ map bottleneck ls
  unfolding add_bottleneck_links add_bottleneck_link bottleneck
  add_bottleneck_links-eq-map from_a to_b [] t = refl
  add_bottleneck_links-eq-map from_a to_b (l ∷ ls) t =
      ap (λ bs. bottleneck l ∷ bs) (add_bottleneck_links-eq-map from_a to_b ls _)

  pub links_at-chains_left :
      (n to_b : String) (ls : List (LinkCharacteristics F))
      → IsHostName n
      → (to_b == n) ≡ false
      → links_at n (chains n to_b ls) ≡ map (λ b. (n, b.bs0)) (map bottleneck ls)
  unfolding chains bottleneck
  links_at-chains_left n to_b [] h ne = unfold links_at in refl
  links_at-chains_left n to_b (l ∷ ls) h ne =
      links_at-append n (chain n to_b l) (chains n to_b ls)
      ∙ rw (links_at-chain_left n to_b l h ne)
          (ap (λ k. (n, get_bs_name l 0) ∷ k) (links_at-chains_left n to_b ls h ne))

  pub links_at-chains_right :
      (n from_a : String) (ls : List (LinkCharacteristics F))
      → IsHostName n
      → (from_a == n) ≡ false
      → links_at n (chains from_a n ls) ≡ map (λ b. (b.bs3, n)) (map bottleneck ls)
  unfolding chains bottleneck
  links_at-chains_right n from_a [] h ne = unfold links_at in refl
  links_at-chains_right n from_a (l ∷ ls) h ne =
      links_at-append n (chain from_a n l) (chains from_a n ls)
      ∙ rw (links_at-chain_right n from_a l h ne)
          (ap (λ k. (get_bs_name l 3, n) ∷ k) (links_at-chains_right n from_a ls h ne))

  links_at-chain_between :
      (n from_a to_b : String) (l : LinkCharacteristics F)
      → IsHostName n
      → (from_a == n) ≡ false
      → (to_b == n) ≡ false
      → links_at n (chain from_a to_b l) ≡ []
  unfolding links_at chain
  links_at-chain_between n from_a to_b l h nf nt =
      rw
        (
          get_bs_name-ne n h l 0,
          get_bs_name-ne n h l 1,
          get_bs_name-ne n h l 2,
          get_bs_name-ne n h l 3,
          nf,
          nt,
        )
        refl

  -- A bottleneck adds nothing at a node that it does not connect.
  pub links_at-chains_between :
      (n from_a to_b : String) (ls : List (LinkCharacteristics F))
      → IsHostName n
      → (from_a == n) ≡ false
      → (to_b == n) ≡ false
      → links_at n (chains from_a to_b ls) ≡ []
  unfolding chains
  links_at-chains_between n from_a to_b [] h nf nt = unfold links_at in refl
  links_at-chains_between n from_a to_b (l ∷ ls) h nf nt =
      links_at-append n (chain from_a to_b l) (chains from_a to_b ls)
      ∙ rw (links_at-chains_between n from_a to_b ls h nf nt)
          (ap (λ k. k ++ []) (links_at-chain_between n from_a to_b l h nf nt))

abbrev first_code : String → ℕ
first_code String.[] = 0
first_code (String.◌∷◌ c s) = code c

first_code-ne : (s t : String) → first_code s ≢ first_code t → (s == t) ≡ false
first_code-ne s t h = elim (Bool-cases (s == t)) [
  | inl e ↦ absurd (h (ap first_code ((eq_iff s t).0 e)))
  | inr e ↦ e
]

pub host_names : IsHostName "Client_0" × IsHostName "Router_0" × IsHostName "Server_0"
unfolding ◌<>◌
host_names = (
  λ s. first_code-ne ("bs" <> s) "Client_0" (omega arith),
  λ s. first_code-ne ("bs" <> s) "Router_0" (omega arith),
  λ s. first_code-ne ("bs" <> s) "Server_0" (omega arith),
)
