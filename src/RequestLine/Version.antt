-- ===== src/RequestLine/Version.antt =====
-- src/HttpRequestLine.c, `version_parse`: which versions are accepted.
use http_server_from_scratch.Memory.Scan.{
  slice-Stands, Stands-slice, Stands-append, Stands-join, mem_eq-Stands, Stands-mem_eq,
}
use http_server_from_scratch.Memory.{Memory, slice, Stands, mem_eq}
use http_server_from_scratch.ParseResult.{parse_ok, parse_error_set}
use http_server_from_scratch.Prelude.{
  ℕ, ◌+◌, ◌-◌, ◌≡◌, ◌⊎◌, inl, inr, refl, subst, true, arith, CString, codes, ◌++◌, length, [], ◌∷◌,
}
use http_server_from_scratch.Parser.{isdigit}
use http_server_from_scratch.RequestLine.{HttpRequestLine, version_parse}

-- The versions that the server speaks.
abbrev pub IsVersion : CString → Type 0
IsVersion v = (v ≡ codes "HTTP/0.9") ⊎ (v ≡ codes "HTTP/1.0") ⊎ (v ≡ codes "HTTP/1.1")

-- The two comparisons of the code say what the whole range is.
joined :
    (m : Memory) (cur : ℕ) (v : CString)
    → mem_eq m cur (codes "HTTP/") ≡ true
    → mem_eq m (cur + 5) v ≡ true
    → slice m cur (length (codes "HTTP/" ++ v)) ≡ codes "HTTP/" ++ v
joined m cur v h k =
    slice-Stands m cur _ (
      Stands-join m cur (codes "HTTP/") v (mem_eq-Stands m cur _ h) (mem_eq-Stands m (cur + 5) v k))

-- PARSE_OK means that the range is one of the three versions, that it is stored as it stands, and
-- that nothing else of the line changes.
pub version_parse_sound :
    (m : Memory) (cur end : ℕ) (line : HttpRequestLine)
    → (version_parse m cur end line).0.status ≡ parse_ok
    → (end ≡ cur + 8)
      × IsVersion (slice m cur 8)
      × ((version_parse m cur end line).0.next ≡ end)
      × ((version_parse m cur end line).1 ≡ record line { version = slice m cur 8 })
unfolding version_parse parse_error_set
version_parse_sound m cur end line h =
    ground
      (arith, joined m cur (codes "0.9"), joined m cur (codes "1.0"), joined m cur (codes "1.1"))

-- A version `a.c` of digits passes every test but the last.
accepts :
    (m : Memory) (cur : ℕ) (line : HttpRequestLine) (a c : ℕ)
    → isdigit a ≡ true
    → isdigit c ≡ true
    → (a ∷ b'.' ∷ c ∷ [] ≡ codes "0.9")
      ⊎ (a ∷ b'.' ∷ c ∷ [] ≡ codes "1.0")
      ⊎ (a ∷ b'.' ∷ c ∷ [] ≡ codes "1.1")
    → slice m cur 8 ≡ codes "HTTP/" ++ a ∷ b'.' ∷ c ∷ []
    → (version_parse m cur (cur + 8) line).0.status ≡ parse_ok
unfolding version_parse parse_error_set
accepts m cur line a c ha hc known h =
    let v = a ∷ b'.' ∷ c ∷ [] in
    let t = subst (Stands m cur) h (Stands-slice m cur 8) in
    let (name, number) = Stands-append m cur (codes "HTTP/") v t in
    let eight : cur + 8 - cur ≡ 8 = omega arith in
    let last : cur + 8 - 1 ≡ cur + 5 + 1 + 1 = omega arith in
    let dot : cur + 6 ≡ cur + 5 + 1 = omega arith in
    let version = Stands-mem_eq m (cur + 5) v number in
    rw
      (
        eight,
        last,
        dot,
        Stands-mem_eq m cur (codes "HTTP/") name,
        number.0,
        number.1.0,
        number.1.1.0,
        ha,
        hc,
      )
      (elim known [
        | inl e ↦ rw (← e, version)
        | inr (inl e) ↦ rw (← e, version) (ground arith)
        | inr (inr e) ↦ rw (← e, version) (ground arith)
      ])

-- Each of the three versions is accepted.
pub version_parse_complete :
    (m : Memory) (cur : ℕ) (line : HttpRequestLine)
    → IsVersion (slice m cur 8)
    → (version_parse m cur (cur + 8) line).0.status ≡ parse_ok
version_parse_complete m cur line (inl v) = accepts m cur line b'0' b'9' refl refl (inl refl) v
version_parse_complete m cur line (inr (inl v)) =
    accepts m cur line b'1' b'0' refl refl (inr (inl refl)) v
version_parse_complete m cur line (inr (inr v)) =
    accepts m cur line b'1' b'1' refl refl (inr (inr refl)) v
