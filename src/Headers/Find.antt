-- ===== src/Headers/Find.antt =====
-- src/HttpHeaders.c, `header_find`, and `ascii_ieq` of src/parser.c: lookup without regard to case.
use http_server_from_scratch.Headers.{Header, header_find}
use http_server_from_scratch.Parser.{tolower, ascii_ieq}
use http_server_from_scratch.Prelude.{
  ◌≡◌, ◌↔◌, inl, inr, refl, ap, true, false, arith, CString, List, [], ◌∷◌, ◌++◌, map, Option, none,
  some, All, Bool-cases, ==_iff,
}

-- Two strings are equal for `ascii_ieq` exactly when they are the same in lower case.
pub ascii_ieq_iff : (a b : CString) → (ascii_ieq a b ≡ true) ↔ (map tolower a ≡ map tolower b)
unfolding ascii_ieq
ascii_ieq_iff [] [] = ground arith
ascii_ieq_iff [] (y ∷ b) = ground arith
ascii_ieq_iff (x ∷ a) [] = ground arith
ascii_ieq_iff (x ∷ a) (y ∷ b) = ground (arith, ascii_ieq_iff a b, ==_iff (tolower x) (tolower y))

-- What `header_find` returns: the first header of the name, or nothing when there is none.
abbrev pub FoundHeader : List Header → CString → Option Header → Type 0
FoundHeader headers name none = All (λ h. ascii_ieq h.key name ≡ false) headers
FoundHeader headers name (some h) =
    (before : List Header) × (after : List Header) × (headers ≡ before ++ h ∷ after)
    × (ascii_ieq h.key name ≡ true)
    × All (λ b. ascii_ieq b.key name ≡ false) before

FoundHeader-cons :
    (h : Header) (headers : List Header) (name : CString) (r : Option Header)
    → ascii_ieq h.key name ≡ false
    → FoundHeader headers name r
    → FoundHeader (h ∷ headers) name r
FoundHeader-cons h headers name none e t = (e, t)
FoundHeader-cons h headers name (some g) e (before, after, split, hit, others) =
    (h ∷ before, after, ap (◌∷◌ h) split, hit, (e, others))

-- `header_find` returns the first header whose name matches without regard to case, and NULL only
-- when no name matches.
pub header_find_lem :
    (headers : List Header) (name : CString) → FoundHeader headers name (header_find headers name)
unfolding header_find
header_find_lem [] name = tt
header_find_lem (h ∷ headers) name = elim (Bool-cases (ascii_ieq h.key name)) [
  | inl e ↦ rw (e, header_find) ([], headers, refl, e, tt)
  | inr e ↦ rw (e, header_find) (FoundHeader-cons h headers name _ e (header_find_lem headers name))
]
