-- ===== src/Policy/LayerLaws.antt =====
-- Which layer owns a package (internal/groundwork/policy/policy.go: LayerOf, LayerRank).
use verdi_go.Prelude.{
  ℕ, ◌≤◌, ◌≡◌, refl, sym, ap, subst, ◌∙◌, ◌↔◌, ◌⊎◌, inl, inr, true, false, ◌&&◌, none, List, [],
  ◌∷◌, arith, Bool-cases, and_true, true_ne_false, length, In, All-In, bool_Eq, nat_Eq, list_eq,
  list_Eq, Str, Str_Eq, trim_left, trim_right, trim, pair_Eq, ℤ, above, pos, here, there,
}
use verdi_go.Vocabulary.Matcher.{match_prefix}
use verdi_go.Policy.Types.{Layer, Policy, blank}
use verdi_go.Policy.Layers.{Best, consider, scan_packages, scan_layers, no_best, layer_of}
use verdi_go.Policy.Validate.{validate}
use verdi_go.Policy.Validity.{validate-IsWellFormed}

-- The layer declares a prefix of that length which matches the package.
pub record Claims (pkg_path : Str) (l : Layer) (size : ℕ) : Type 0 where
  pub prefix : Str
  pub declared : In prefix l.packages
  pub matches : match_prefix pkg_path prefix ≡ true
  pub measured : size ≡ length prefix

above_trans : (n m : ℕ) (z : ℤ) → above m z ≡ true → above n z ≡ false → above n (pos m) ≡ false
above_trans n m z h k = ground arith

module _ (pkg_path : Str) where
  -- The best so far only grows.
  consider_mono :
      (name pre : Str) (b : Best) (n : ℕ)
      → above n b.size ≡ false
      → above n (consider pkg_path name pre b).size ≡ false
  unfolding consider
  consider_mono name pre b n h =
      elim (Bool-cases (match_prefix pkg_path pre && above (length pre) b.size)) [
        | inl e ↦ rw e (above_trans n (length pre) b.size (and_true _ _ e).1 h)
        | inr e ↦ rw e h
      ]

  consider_max :
      (name pre : Str) (b : Best)
      → match_prefix pkg_path pre ≡ true
      → above (length pre) (consider pkg_path name pre b).size ≡ false
  unfolding consider
  consider_max name pre b h = elim (Bool-cases (above (length pre) b.size)) [
    | inl e ↦ rw (h, e) (ground arith)
    | inr e ↦ rw (h, e) e
  ]

  consider_from :
      (l : Layer) (pre : Str) (b : Best)
      → In pre l.packages
      → (consider pkg_path l.name pre b ≡ b)
        ⊎ ((n : ℕ) × Claims pkg_path l n
            × (consider pkg_path l.name pre b ≡ record { name = l.name; size = pos n }))
  unfolding consider
  consider_from l pre b m =
      elim (Bool-cases (match_prefix pkg_path pre && above (length pre) b.size)) [
        | inr e ↦ rw e (inl refl)
        | inl e ↦ rw e (inr (length pre, claim (and_true _ _ e).0, refl))
      ]
    where
      claim : match_prefix pkg_path pre ≡ true → Claims pkg_path l (length pre)
      claim h = record { prefix = pre; declared = m; matches = h; measured = refl }

  packages_mono :
      (name : Str) (pres : List Str) (b : Best) (n : ℕ)
      → above n b.size ≡ false
      → above n (scan_packages pkg_path name pres b).size ≡ false
  unfolding scan_packages
  packages_mono name [] b n h = h
  packages_mono name (pre ∷ pres) b n h =
      packages_mono name pres (consider pkg_path name pre b) n (consider_mono name pre b n h)

  packages_max :
      (name : Str) (pres : List Str) (b : Best) {pre : Str}
      → In pre pres
      → match_prefix pkg_path pre ≡ true
      → above (length pre) (scan_packages pkg_path name pres b).size ≡ false
  unfolding scan_packages
  packages_max name [] b m h = elim m [ ]
  packages_max name (pre ∷ pres) b here h =
      packages_mono name pres (consider pkg_path name pre b) (length pre)
        (consider_max name pre b h)
  packages_max name (q ∷ pres) b (there m) h =
      packages_max name pres (consider pkg_path name q b) m h

  packages_from :
      (l : Layer) (pres : List Str) (b : Best)
      → ((pre : Str) → In pre pres → In pre l.packages)
      → (scan_packages pkg_path l.name pres b ≡ b)
        ⊎ ((n : ℕ) × Claims pkg_path l n
            × (scan_packages pkg_path l.name pres b ≡ record { name = l.name; size = pos n }))
  unfolding scan_packages
  packages_from l [] b within = inl refl
  packages_from l (pre ∷ pres) b within =
      elim (packages_from l pres (consider pkg_path l.name pre b) (λ p m. within p (there m))) [
        | inr later ↦ inr later
        | inl same ↦ elim (consider_from l pre b (within pre here)) [
          | inl still ↦ inl (same ∙ still)
          | inr (n, c, e) ↦ inr (n, c, same ∙ e)
        ]
      ]

  layers_mono :
      (ls : List Layer) (b : Best) (n : ℕ)
      → above n b.size ≡ false
      → above n (scan_layers pkg_path ls b).size ≡ false
  unfolding scan_layers
  layers_mono [] b n h = h
  layers_mono (l ∷ ls) b n h =
      layers_mono ls (scan_packages pkg_path l.name l.packages b) n
        (packages_mono l.name l.packages b n h)

  layers_max :
      (ls : List Layer) (b : Best) {l : Layer} {pre : Str}
      → In l ls
      → In pre l.packages
      → match_prefix pkg_path pre ≡ true
      → above (length pre) (scan_layers pkg_path ls b).size ≡ false
  unfolding scan_layers
  layers_max [] b i m h = elim i [ ]
  layers_max (l ∷ ls) b {pre = pre} here m h =
      layers_mono ls (scan_packages pkg_path l.name l.packages b) (length pre)
        (packages_max l.name l.packages b m h)
  layers_max (k ∷ ls) b (there i) m h =
      layers_max ls (scan_packages pkg_path k.name k.packages b) i m h

  layers_from :
      (ls : List Layer) (b : Best)
      → (scan_layers pkg_path ls b ≡ b)
        ⊎ ((l : Layer) × (n : ℕ) × In l ls
            × Claims pkg_path l n
            × (scan_layers pkg_path ls b ≡ record { name = l.name; size = pos n }))
  unfolding scan_layers
  layers_from [] b = inl refl
  layers_from (l ∷ ls) b = elim (layers_from ls (scan_packages pkg_path l.name l.packages b)) [
    | inr (k, n, i, c, e) ↦ inr (k, n, there i, c, e)
    | inl same ↦ elim (packages_from l l.packages b (λ pre m. m)) [
      | inl still ↦ inl (same ∙ still)
      | inr (n, c, e) ↦ inr (l, n, here, c, same ∙ e)
    ]
  ]

-- The owner of a package: the layer that declares a longest prefix which matches.
pub record Owner (layers : List Layer) (pkg_path name : Str) : Type 0 where
  pub owner : Layer
  pub size : ℕ
  pub declared : In owner layers
  pub claims : Claims pkg_path owner size
  pub named : name ≡ owner.name
  pub longest : (l : Layer) (n : ℕ) → In l layers → Claims pkg_path l n → n ≤ size

not_above : (n m : ℕ) → above n (pos m) ≡ false → n ≤ m
not_above n m h = ground arith

-- `LayerOf` returns the name of a layer with a longest declared prefix that matches the package, or the empty
-- name where no layer declares one that matches.
pub layer_of_lem :
    (layers : List Layer) (pkg_path : Str)
    → Owner layers pkg_path (layer_of layers pkg_path)
      ⊎ ((layer_of layers pkg_path ≡ [])
          × ((l : Layer) (n : ℕ) → In l layers → ¬ Claims pkg_path l n))
unfolding layer_of
layer_of_lem layers pkg_path = elim (layers_from pkg_path layers no_best) [
  | inl same ↦ inr (
    ap (λ (b : Best). b.name) same,
    λ l n i c. true_ne_false (
        subst (λ (b : Best). above (length c.prefix) b.size ≡ false) same
          (layers_max pkg_path layers no_best i c.declared c.matches)),
  )
  | inr (l, n, i, c, e) ↦ inl (record {
    owner = l;
    size = n;
    declared = i;
    claims = c;
    named = ap (λ (b : Best). b.name) e;
    longest = λ k m j d.
        subst (λ x. x ≤ n) (sym d.measured)
          (not_above (length d.prefix) n (
            subst (λ (b : Best). above (length d.prefix) b.size ≡ false) e
              (layers_max pkg_path layers no_best j d.declared d.matches)));
  })
]

-- In a policy that was accepted, a package is unassigned exactly when no declared prefix matches it.
pub layer_of-unassigned :
    (p : Policy) (pkg_path : Str)
    → validate p ≡ none
    → (layer_of p.layers pkg_path ≡ [])
      ↔ ((l : Layer) (n : ℕ) → In l p.layers → ¬ Claims pkg_path l n)
unfolding blank trim trim_left trim_right list_eq
layer_of-unassigned p pkg_path v = elim (layer_of_lem p.layers pkg_path) [
  | inr (e, n) ↦ (λ h. n, λ h. e)
  | inl o ↦ (
    λ h. absurd (
        true_ne_false (
          subst (λ s. blank s ≡ false) (sym o.named ∙ h)
            (All-In _ o.declared ((validate-IsWellFormed p).0 v).layers).named)),
    λ h. absurd (h o.owner o.size o.declared o.claims),
  )
]
