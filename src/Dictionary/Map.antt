-- ===== src/Dictionary/Map.antt =====
-- src/Dictionary.c: the table is a map from keys to values.
use http_server_from_scratch.Dictionary.{
  Kvp, Dictionary, dict_index, dict_init, bucket_set, chain_replace, node_head_insert, dict_insert,
  chain_find, dict_find,
}
use http_server_from_scratch.Prelude.{
  ◌≡◌, ◌⊎◌, inl, inr, refl, sym, ap, subst, ◌∙◌, List, [], ◌∷◌, ◌==◌, ==_iff, if◌then◌else◌, arith,
  CString, str_eq, str_eq_iff, Bool-cases, Option, none, some,
}

module _ {ℓ} {V : Type ℓ} (key : CString) (value : V) where
  Option-cases : (o : Option (List (Kvp V))) → (o ≡ none) ⊎ ((c : List (Kvp V)) × (o ≡ some c))
  Option-cases none = inl refl
  Option-cases (some c) = inr (c, refl)

  of_some : (a b : List (Kvp V)) → some a ≡ some b → a ≡ b
  of_some a b h = cc

  chain_find-replace :
      (chain chain' : List (Kvp V)) (q : CString)
      → chain_replace key value chain ≡ some chain'
      → chain_find chain' q ≡ (if str_eq key q then some value else chain_find chain q)
  unfolding chain_replace chain_find
  chain_find-replace [] chain' q h = cc
  chain_find-replace (kvp ∷ chain) chain' q h = elim (Bool-cases (str_eq kvp.key key)) [
    | inl e ↦
        let same = (str_eq_iff kvp.key key).0 e in
        let kept = rw e at h in
        subst
          (λ l. chain_find l q ≡ (if str_eq key q then some value else chain_find (kvp ∷ chain) q))
          (of_some _ _ kept) (ground (arith, ap (λ k. str_eq k q) same))
    | inr e ↦ elim (Option-cases (chain_replace key value chain)) [
      | inl f ↦ ground (arith, e, f)
      | inr (c, f) ↦
          let kept : some (kvp ∷ c) ≡ some chain' = ground (arith, e, f) in
          let t = chain_find-replace chain c q f in
          subst
            (λ l.
              chain_find l q ≡ (if str_eq key q then some value else chain_find (kvp ∷ chain) q))
            (of_some _ _ kept)
            (ground (arith, t, e, str_eq_iff key q, str_eq_iff kvp.key q, str_eq_iff kvp.key key))
    ]
  ]

  -- The chain that `dict_insert` leaves at the key's index.
  abbrev chain_write : List (Kvp V) → Option (List (Kvp V)) → List (Kvp V)
  chain_write chain none = node_head_insert chain (record { key = key; value = value })
  chain_write chain (some chain') = chain'

  dict_insert_lem :
      (d : Dictionary V)
      → let index = dict_index key in
        dict_insert d key value
        ≡ bucket_set d index (chain_write (d index) (chain_replace key value (d index)))
  unfolding dict_insert
  dict_insert_lem d =
      let index = dict_index key in
      elim (chain_replace key value (d index))
        as (λ o.
          elim o [
            | some chain ↦ bucket_set d index chain
            | none ↦ bucket_set d index (chain_write (d index) none)
          ]
          ≡ bucket_set d index (chain_write (d index) o)) [ none ↦ refl | some chain ↦ refl ]

  chain_find-write :
      (chain : List (Kvp V)) (q : CString)
      → chain_find (chain_write chain (chain_replace key value chain)) q
        ≡ (if str_eq key q then some value else chain_find chain q)
  unfolding chain_find node_head_insert
  chain_find-write chain q = elim (Option-cases (chain_replace key value chain)) [
    | inl e ↦ rw e refl
    | inr (c, e) ↦ rw e (chain_find-replace chain c q e)
  ]

  -- A lookup after an insertion finds the new value under the inserted key, and what was there
  -- before under every other key.
  pub dict_find-dict_insert :
      (d : Dictionary V) (q : CString)
      → dict_find (dict_insert d key value) q ≡ (if str_eq key q then some value else dict_find d q)
  unfolding dict_find
  dict_find-dict_insert d q =
      let index = dict_index key in
      rw dict_insert_lem (elim (Bool-cases (dict_index q == index)) [
        | inl e ↦ rw e (
            chain_find-write (d index) q
            ∙ ap (λ i. if str_eq key q then some value else chain_find (d i) q)
                (sym ((==_iff (dict_index q) index).0 e)))
        | inr e ↦ rw e (elim (Bool-cases (str_eq key q)) [
          | inr f ↦ rw f
          | inl f ↦
              let same = ap dict_index (sym ((str_eq_iff key q).0 f)) in
              cc (sym e ∙ (==_iff (dict_index q) index).1 same)
        ])
      ])

-- An empty table finds nothing.
pub dict_find-dict_init {ℓ} : {V : Type ℓ} (q : CString) → dict_find {V = V} dict_init q ≡ none
unfolding dict_find dict_init chain_find
dict_find-dict_init q = refl
