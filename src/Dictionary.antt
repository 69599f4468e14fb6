-- ===== src/Dictionary.antt =====
-- src/Dictionary.c, include/http_server/Dictionary.h and the list macros of
-- include/http_server/linked_node_macro.h: a hash table with chaining. A chain is the list of its
-- nodes from the head on; the back pointers of the nodes are never read. Allocation succeeds.
pub mod Map
pub mod Refinement
use http_server_from_scratch.Config.{http_bucket}
use http_server_from_scratch.Memory.{size_mod}
use http_server_from_scratch.Prelude.{
  ℕ, zero, suc, ◌*◌, ◌%◌, bit_xor, List, [], ◌∷◌, ◌==◌, if◌then◌else◌, CString, str_eq, Bool, true,
  false, Option, none, some,
}

-- The loop over the key, from a hash so far.
unfoldable pub hash_loop : ℕ → CString → ℕ
hash_loop hash [] = hash
hash_loop hash (c ∷ key) = hash_loop (bit_xor hash c * 1099511628211 % size_mod) key

-- FNV-1a with the literal start value of the source.
unfoldable pub key_hash : CString → ℕ
key_hash key = hash_loop 1469598103934665603 key

pub record Kvp {ℓ} (V : Type ℓ) : Type ℓ where
  pub key : CString
  pub value : V

-- `Dictionary`: the array of chains, as a function of the index.
abbrev pub Dictionary {ℓ} : Type ℓ → Type ℓ
Dictionary V = ℕ → List (Kvp V)

-- `key_hash(key) % HTTP_BUCKET`
unfoldable pub dict_index : CString → ℕ
dict_index key = key_hash key % http_bucket

module _ {ℓ} {V : Type ℓ} where
  unfoldable pub dict_init : Dictionary V
  dict_init i = []

  -- `d->bucket[index] = chain`
  abbrev pub bucket_set : Dictionary V → ℕ → List (Kvp V) → Dictionary V
  bucket_set d index chain i = if i == index then chain else d i

  -- The loop of `dict_insert` over a chain: the chain with the value replaced, or `none` when the
  -- key is not there.
  unfoldable pub chain_replace : CString → V → List (Kvp V) → Option (List (Kvp V))
  chain_replace key value [] = none
  chain_replace key value (kvp ∷ chain) =
      if str_eq kvp.key key
      then some (record kvp { value = value } ∷ chain)
      else elim (chain_replace key value chain) [ none ↦ none | some chain' ↦ some (kvp ∷ chain') ]

  unfoldable pub node_head_insert : List (Kvp V) → Kvp V → List (Kvp V)
  node_head_insert chain node = node ∷ chain

  unfoldable pub dict_insert : Dictionary V → CString → V → Dictionary V
  dict_insert d key value =
      let index = dict_index key in
      elim (chain_replace key value (d index)) [
        | some chain ↦ bucket_set d index chain
        | none ↦
            bucket_set d index (node_head_insert (d index) (record { key = key; value = value }))
      ]

  unfoldable pub chain_find : List (Kvp V) → CString → Option V
  chain_find [] key = none
  chain_find (kvp ∷ chain) key = if str_eq kvp.key key then some kvp.value else chain_find chain key

  unfoldable pub dict_find : Dictionary V → CString → Option V
  dict_find d key = chain_find (d (dict_index key)) key
