-- ===== src/Dictionary/Refinement.antt =====
-- src/Dictionary.c against maps from keys to values.
use http_server_from_scratch.Dictionary.Map.{dict_find-dict_insert, dict_find-dict_init}
use http_server_from_scratch.Dictionary.{Dictionary, dict_init, dict_insert, dict_find}
use http_server_from_scratch.Prelude.{
  ◌≡◌, ◌∙◌, ap, List, [], ◌∷◌, CString, str_eq, if◌then◌else◌, Option, none, some,
}

-- A map is what it holds for each key.
abbrev pub Map {ℓ} : Type ℓ → Type ℓ
Map V = CString → Option V

module _ {ℓ} {V : Type ℓ} where
  abbrev pub empty : CString → Option V
  empty q = none

  abbrev pub put : CString → V → Map V → Map V
  put key value f q = if str_eq key q then some value else f q

  -- The calls of `dict_insert` on a fresh table, the last one first.
  abbrev pub inserted : List (CString × V) → Dictionary V
  inserted [] = dict_init
  inserted ((key, value) ∷ calls) = dict_insert (inserted calls) key value

  abbrev pub puts : List (CString × V) → Map V
  puts [] = empty
  puts ((key, value) ∷ calls) = put key value (puts calls)

  -- After any insertions into a fresh table, `dict_find` is the map of the same insertions: the value
  -- last inserted under the key, or nothing when the key never was.
  pub dict_find-inserted :
      (calls : List (CString × V)) (q : CString) → dict_find (inserted calls) q ≡ puts calls q
  dict_find-inserted [] q = dict_find-dict_init q
  dict_find-inserted ((key, value) ∷ calls) q =
      dict_find-dict_insert key value (inserted calls) q
      ∙ ap (λ r. if str_eq key q then some value else r) (dict_find-inserted calls q)
