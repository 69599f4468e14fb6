-- ===== src/RequestLine/Uri/Loop.antt =====
-- src/HttpRequestLine.c, the loop of `uri_parse`: what it reads, and where it writes it.
use http_server_from_scratch.Config.{http_max_path_len, http_max_query_len}
use http_server_from_scratch.Memory.Scan.{slice-pop}
use http_server_from_scratch.Memory.{Memory, slice}
use http_server_from_scratch.ParseResult.{ParseResult, parse_ok, parse_bad_request, parse_error_set}
use http_server_from_scratch.Parser.{is_hex}
use http_server_from_scratch.Prelude.{
  ℕ, zero, suc, ◌+◌, ◌-◌, ◌<◌, ◌≤◌, ◌≡◌, ◌⊎◌, ◌≢◌, inl, inr, refl, sym, ap, ◌∙◌, true, false, arith,
  CString, List, [], ◌∷◌, ◌++◌, length, length-append, All, All-append, Bool-cases,
}
use http_server_from_scratch.RequestLine.{Target, target_len, target_cap, target_push, uri_loop}
use mathlib.Core.List.{append-nil, append_assoc}

-- A byte that may stand for itself in a target.
pub record IsPlain (c : ℕ) : Type 0 where
  pub printable : 0x20 ≤ c
  pub ascii : c < 0x7f
  pub no_fragment : c ≢ b'#'
  pub no_escape : c ≢ b'%'

-- Plain bytes and `%` with two hexadecimal digits.
pub data IsEscaped : List ℕ → Type 0 where
  nil : IsEscaped []
  plain : {c : ℕ} {cs : List ℕ} → IsPlain c → IsEscaped cs → IsEscaped (c ∷ cs)
  escape :
      {c a b : ℕ} {cs : List ℕ}
      → c ≡ b'%'
      → is_hex a ≡ true
      → is_hex b ≡ true
      → IsEscaped cs
      → IsEscaped (c ∷ a ∷ b ∷ cs)

-- The buffers fit with their NUL, the path has no `?`, and the query is empty or begins with one.
pub record IsSplit (t : Target) : Type 0 where
  pub path_fits : length t.path < http_max_path_len
  pub query_fits : length t.query < http_max_query_len
  pub path_free : All (λ c. c ≢ b'?') t.path
  pub query_form :
      ((t.in_query ≡ false) × (t.query ≡ []))
      ⊎ ((t.in_query ≡ true) × ((q : CString) × (t.query ≡ b'?' ∷ q)))

-- What the loop has done from `p` on, when it ends well.
pub record LoopRead (m : Memory) (sp p : ℕ) (t t' : Target) : Type 0 where
  pub raw : t'.path ++ t'.query ≡ (t.path ++ t.query) ++ slice m p (sp - p)
  pub split : IsSplit t'
  pub escaped : IsEscaped (slice m p (sp - p))

-- The ways on from `p`, each with the tests passed.
cases :
    (m : Memory) (sp n p : ℕ) (res : ParseResult) (t : Target)
    → res.status ≡ parse_bad_request
    → (uri_loop m sp res (suc n) p t).0.status ≡ parse_ok
    → ((sp ≤ p)
        × (uri_loop m sp res (suc n) p t ≡ (record res { status = parse_ok; next = sp + 1 }, t)))
      ⊎ ((p < sp)
          × (t.in_query ≡ false)
          × (m p ≡ b'?')
          × (uri_loop m sp res (suc n) p t
              ≡ uri_loop m sp res n (p + 1) (record t { query = m p ∷ []; in_query = true })))
      ⊎ ((p + 3 ≤ sp)
          × (m p ≡ b'%')
          × (is_hex (m (p + 1)) ≡ true)
          × (is_hex (m (p + 2)) ≡ true)
          × (target_len t + 3 < target_cap t)
          × (uri_loop m sp res (suc n) p t
              ≡ uri_loop m sp res n
                  (p + 3)
                  (target_push (target_push (target_push t (m p)) (m (p + 1))) (m (p + 2)))))
      ⊎ ((p < sp)
          × IsPlain (m p)
          × ((t.in_query ≡ true) ⊎ (m p ≢ b'?'))
          × (target_len t + 1 < target_cap t)
          × (uri_loop m sp res (suc n) p t ≡ uri_loop m sp res n (p + 1) (target_push t (m p))))
unfolding uri_loop parse_error_set
cases m sp n p res t bad h = ground arith

-- One byte is pushed onto the buffer being written.
record Pushed (t t' : Target) (c : ℕ) : Type 0 where
  split : IsSplit t'
  raw : t'.path ++ t'.query ≡ (t.path ++ t.query) ++ c ∷ []
  len : target_len t' ≡ target_len t + 1
  cap : target_cap t' ≡ target_cap t
  same : t'.in_query ≡ t.in_query

push_path :
    (path query : CString) (c : ℕ)
    → query ≡ []
    → (path ++ c ∷ []) ++ query ≡ (path ++ query) ++ c ∷ []
push_path path query c e = rw e (simp append-nil)

push-Pushed :
    (t : Target) (c : ℕ)
    → IsSplit t
    → (t.in_query ≡ true) ⊎ (c ≢ b'?')
    → target_len t + 1 < target_cap t
    → Pushed t (target_push t c) c
push-Pushed t c s free room = elim (Bool-cases t.in_query) [
  | inl e ↦ rw (e) (record {
    split = record {
      path_fits = s.path_fits;
      query_fits = rw length-append (ground arith);
      path_free = s.path_free;
      query_form = elim s.query_form [
        | inl (no_query, _) ↦ cc
        | inr (_, (q, form)) ↦ inr (refl, (q ++ c ∷ [], ap (λ l. l ++ c ∷ []) form))
      ];
    };
    raw = sym (append_assoc t.path t.query (c ∷ []));
    len = ground (arith, length-append t.query (c ∷ []));
    cap = ground arith;
    same = ground arith;
  })
  | inr e ↦ rw (e) (record {
    split = record {
      path_fits = rw length-append (ground arith);
      query_fits = s.query_fits;
      path_free = All-append (λ c. c ≢ b'?') t.path (c ∷ []) s.path_free (ground arith);
      query_form = ground (arith, s.query_form);
    };
    raw = push_path t.path t.query c (ground (arith, s.query_form));
    len = ground (arith, length-append t.path (c ∷ []));
    cap = ground arith;
    same = ground arith;
  })
]

-- One byte more in front of what the rest of the loop has read.
raw-pop :
    (m : Memory) (sp p : ℕ) (read held : List ℕ)
    → p < sp
    → read ≡ (held ++ m p ∷ []) ++ slice m (p + 1) (sp - (p + 1))
    → read ≡ held ++ slice m p (sp - p)
raw-pop m sp p read held h e =
    rw (slice-pop m p sp h) (e ∙ append_assoc held (m p ∷ []) (slice m (p + 1) (sp - (p + 1))))

plain-Read :
    (m : Memory) (sp p : ℕ) (t t₁ t' : Target)
    → p < sp
    → IsPlain (m p)
    → t₁.path ++ t₁.query ≡ (t.path ++ t.query) ++ m p ∷ []
    → LoopRead m sp (p + 1) t₁ t'
    → LoopRead m sp p t t'
plain-Read m sp p t t₁ t' h c e r = record {
  raw = raw-pop m sp p _ (t.path ++ t.query) h (rw (← e) r.raw);
  split = r.split;
  escaped = rw (slice-pop m p sp h) (plain c r.escaped);
}

start-IsSplit :
    (t : Target) (c : ℕ)
    → IsSplit t
    → c ≡ b'?'
    → IsSplit (record t { query = c ∷ []; in_query = true })
start-IsSplit t c s e = record {
  path_fits = s.path_fits;
  query_fits = omega arith;
  path_free = s.path_free;
  query_form = inr (refl, ([], rw e));
}

stop-Read : (m : Memory) (sp p : ℕ) (t : Target) → sp ≤ p → IsSplit t → LoopRead m sp p t t
unfolding slice
stop-Read m sp p t h s =
    let none_left : sp - p ≡ 0 = omega arith in
    record { raw = rw none_left (sym (append-nil _)); split = s; escaped = rw none_left nil }

no_query : (t : Target) → IsSplit t → t.in_query ≡ false → t.query ≡ []
no_query t s h = ground (arith, s.query_form)

start_raw : (t : Target) (c : ℕ) → t.query ≡ [] → t.path ++ c ∷ [] ≡ (t.path ++ t.query) ++ c ∷ []
start_raw t c e = rw e (simp append-nil)

query_mark-IsPlain : (c : ℕ) → c ≡ b'?' → IsPlain c
query_mark-IsPlain c e = omega arith

hex_free : (c : ℕ) → is_hex c ≡ true → c ≢ b'?'
unfolding is_hex
hex_free c h = ground arith

-- The three pushes of an escape.
record Escaped (m : Memory) (p : ℕ) (t t' : Target) : Type 0 where
  split : IsSplit t'
  raw :
      t'.path ++ t'.query ≡ (((t.path ++ t.query) ++ m p ∷ []) ++ m (p + 1) ∷ []) ++ m (p + 2) ∷ []

push-Escaped :
    (m : Memory) (p : ℕ) (t : Target)
    → IsSplit t
    → m p ≡ b'%'
    → is_hex (m (p + 1)) ≡ true
    → is_hex (m (p + 2)) ≡ true
    → target_len t + 3 < target_cap t
    → Escaped m p t (target_push (target_push (target_push t (m p)) (m (p + 1))) (m (p + 2)))
push-Escaped m p t s c x y room =
    let a = push-Pushed t (m p) s (inr (omega arith)) (omega arith) in
    let b = push-Pushed _ (m (p + 1)) a.split (inr (hex_free _ x)) (omega (arith, a.len, a.cap)) in
    let d =
      push-Pushed _ (m (p + 2)) b.split (inr (hex_free _ y))
        (omega (arith, a.len, a.cap, b.len, b.cap)) in
    record { split = d.split; raw = rw (d.raw, b.raw, a.raw) }

escape-Read :
    (m : Memory) (sp p : ℕ) (t t₁ t' : Target)
    → p + 3 ≤ sp
    → m p ≡ b'%'
    → is_hex (m (p + 1)) ≡ true
    → is_hex (m (p + 2)) ≡ true
    → Escaped m p t t₁
    → LoopRead m sp (p + 3) t₁ t'
    → LoopRead m sp p t t'
escape-Read m sp p t t₁ t' h c x y pushed r =
    let h₀ : p < sp = omega arith in
    let h₁ : p + 1 < sp = omega arith in
    let h₂ : p + 2 < sp = omega arith in
    let two : p + 1 + 1 ≡ p + 2 = omega arith in
    let three : p + 2 + 1 ≡ p + 3 = omega arith in
    let read = t'.path ++ t'.query in
    let one_held = (t.path ++ t.query) ++ m p ∷ [] in
    let two_held = one_held ++ m (p + 1) ∷ [] in
    let third = raw-pop m sp (p + 2) read two_held h₂ (rw (three, ← pushed.raw) r.raw) in
    let second = raw-pop m sp (p + 1) read one_held h₁ (rw two third) in
    record {
      raw = raw-pop m sp p read (t.path ++ t.query) h₀ second;
      split = r.split;
      escaped =
          rw (slice-pop m p sp h₀, slice-pop m (p + 1) sp h₁, two, slice-pop m (p + 2) sp h₂, three)
            (escape c x y r.escaped);
    }

module _ (m : Memory) (sp : ℕ) (res : ParseResult) (bad : res.status ≡ parse_bad_request) where
  -- The loop from `p` ends well, with `next` behind the space.
  abbrev pub Ends : ℕ → ℕ → Target → Type 0
  Ends n p t =
      LoopRead m sp p t (uri_loop m sp res n p t).1 × ((uri_loop m sp res n p t).0.next ≡ sp + 1)

  pub uri_loop-Ends :
      (n p : ℕ) (t : Target)
      → sp - p ≤ n
      → IsSplit t
      → (uri_loop m sp res n p t).0.status ≡ parse_ok
      → Ends n p t
  uri_loop-Ends zero p t fuel s h =
      (unfold uri_loop in stop-Read m sp p t (omega arith) s, unfold uri_loop in refl)
  uri_loop-Ends (suc n) p t fuel s h = elim (cases m sp n p res t bad h) [
    | inl (past, e) ↦ rw e (stop-Read m sp p t past s, refl)
    | inr (inl (inside, path, c, e)) ↦
        let t₁ = record t { query = m p ∷ []; in_query = true } in
        let r = uri_loop-Ends n (p + 1) t₁ (omega arith) (start-IsSplit t (m p) s c) (rw e at h) in
        rw e (
          plain-Read m sp p t t₁ _ inside (query_mark-IsPlain _ c)
              (start_raw t (m p) (no_query t s path)) r.0,
          r.1,
        )
    | inr (inr (inl (inside, c, x, y, room, e))) ↦
        let pushed = push-Escaped m p t s c x y room in
        let r = uri_loop-Ends n (p + 3) _ (omega arith) pushed.split (rw e at h) in
        rw e (escape-Read m sp p t _ _ inside c x y pushed r.0, r.1)
    | inr (inr (inr (inside, c, free, room, e))) ↦
        let pushed = push-Pushed t (m p) s free room in
        let r = uri_loop-Ends n (p + 1) _ (omega arith) pushed.split (rw e at h) in
        rw e (plain-Read m sp p t _ _ inside c pushed.raw r.0, r.1)
  ]
