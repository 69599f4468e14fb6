-- ===== src/Router/Revalidation.antt =====
-- Lookups in the content registry of src/HttpRouter.c read no missing revalidation data.
use http_server_from_scratch.Router.Safety.{
  HasReval, IsEntry, IsRegistry, dict_insert-IsRegistry, dynamic_load-IsEntry,
}
use Prim.{absurd}
use http_server_from_scratch.Dictionary.{dict_find, dict_insert}
use http_server_from_scratch.Prelude.{
  ◌≡◌, inl, inr, refl, subst, Bool-cases, not, ◌||◌, CString, Option, none, some, if_cases, ◌==◌,
}
use http_server_from_scratch.Request.{HttpRequest}
use http_server_from_scratch.Router.Content.{
  Stat, Files, ServeMode, serve_dyn_resident, RevalMeta, ContentEntry, ContentRegistry, reval_fill,
}
use http_server_from_scratch.Router.Serving.{
  ContentLookupResult, content_miss, content_gone, content_hit, revalidated, lookup_dynamic,
  stat_dynamic, lookup_entry, content_registry_lookup, request_validators_match,
}

-- A lookup that returns: what it found, and the registry after it.
pub record IsLookup (r : Option (ContentLookupResult × ContentRegistry)) : Type 0 where
  pub result : ContentLookupResult × ContentRegistry
  pub returned : r ≡ some result
  pub registry : IsRegistry result.1
  pub found : (e : ContentEntry) → result.0 ≡ content_hit e → IsEntry e

hit_inj : {d e : ContentEntry} → content_hit d ≡ content_hit e → d ≡ e
hit_inj h = cc h

none_found :
    (d : ContentLookupResult) (registry : ContentRegistry)
    → IsRegistry registry
    → ((e : ContentEntry) → d ≡ content_hit e → IsEntry e)
    → IsLookup (some (d, registry))
none_found d registry v h = record {
  result = (d, registry);
  returned = refl;
  registry = v;
  found = h;
}

revalidated-IsEntry :
    (files : Files) (req : HttpRequest) (entry : ContentEntry) (reval : RevalMeta)
    → IsEntry entry
    → (e : ContentEntry) → revalidated files req entry reval ≡ content_hit e
    → IsEntry e
revalidated-IsEntry files req entry reval v e h =
    elim (Bool-cases (request_validators_match files req reval)) [
      | inl f ↦ absurd (cc (rw f at h))
      | inr f ↦ subst IsEntry (hit_inj (rw f at h)) v
    ]

fresh-IsLookup :
    (files : Files) (registry : ContentRegistry) (req : HttpRequest) (url_path : CString)
    (st : Stat) (reval : RevalMeta) (o : Option ContentEntry)
    → IsRegistry registry
    → ((e : ContentEntry) → o ≡ some e → IsEntry e)
    → IsLookup (
        some (elim o [
          | none ↦ (content_gone, registry)
          | some fresh ↦ (
            revalidated files req fresh (reval_fill files st reval.fs_path),
            dict_insert registry url_path fresh,
          )
        ]))
fresh-IsLookup files registry req url_path st reval none v k =
    none_found _ _ v (λ e h. absurd (cc h))
fresh-IsLookup files registry req url_path st reval (some e) v k =
    none_found _ _ (dict_insert-IsRegistry registry url_path e v (k e refl))
      (revalidated-IsEntry files req e _ (k e refl))

stat-IsLookup :
    (files : Files) (registry : ContentRegistry) (req : HttpRequest) (url_path : CString)
    (entry : ContentEntry) (reval : RevalMeta) (o : Option Stat)
    → IsRegistry registry
    → IsEntry entry
    → IsLookup (some (stat_dynamic files registry req url_path entry reval o))
unfolding stat_dynamic
stat-IsLookup files registry req url_path entry reval none v w =
    none_found _ _ v (λ e h. absurd (cc h))
stat-IsLookup files registry req url_path entry reval (some st) v w =
    if_cases (λ r. IsLookup (some r))
      (not (st.st_mtime == reval.mtime) || not (st.st_size == reval.size))
      (λ e.
        fresh-IsLookup files registry req url_path st reval _ v
          (λ d h. dynamic_load-IsEntry files reval.fs_path st d h))
      (λ e. none_found _ _ v (revalidated-IsEntry files req entry reval w))

reval-IsLookup :
    (files : Files) (registry : ContentRegistry) (req : HttpRequest) (url_path : CString)
    (entry : ContentEntry) (o : Option RevalMeta)
    → HasReval serve_dyn_resident o
    → IsRegistry registry
    → IsEntry entry
    → IsLookup (elim o [
      | none ↦ none
      | some reval ↦ some (lookup_dynamic files registry req url_path entry reval)
    ])
unfolding lookup_dynamic
reval-IsLookup files registry req url_path entry none h v w = absurd h
reval-IsLookup files registry req url_path entry (some reval) h v w =
    stat-IsLookup files registry req url_path entry reval (files.stat reval.fs_path) v w

entry-IsLookup :
    (files : Files) (registry : ContentRegistry) (req : HttpRequest) (url_path : CString)
    (entry : ContentEntry) (mode : ServeMode)
    → entry.mode ≡ mode
    → IsRegistry registry
    → IsEntry entry
    → IsLookup (lookup_entry files registry req url_path entry mode)
unfolding lookup_entry
entry-IsLookup files registry req url_path entry serve_dyn_resident p v w =
    reval-IsLookup files registry req url_path entry entry.reval
      (subst (λ t. HasReval t entry.reval) p w) v w
entry-IsLookup files registry req url_path entry _ p v w =
    none_found _ _ v (λ e h. subst IsEntry (hit_inj h) w)

-- In a well-formed registry `content_registry_lookup` never reads through a missing `reval`: it
-- returns, the registry is well formed again, and an entry to be served has what its mode reads.
pub content_registry_lookup-IsLookup :
    (files : Files) (registry : ContentRegistry) (req : HttpRequest) (url_path : CString)
    → IsRegistry registry
    → IsLookup (content_registry_lookup files registry req url_path)
unfolding content_registry_lookup
content_registry_lookup-IsLookup files registry req url_path v =
    found-IsLookup (dict_find registry url_path) (v url_path)
  where
    found-IsLookup :
        (o : Option ContentEntry)
        → ((e : ContentEntry) → o ≡ some e → IsEntry e)
        → IsLookup (elim o [
          | none ↦ some (content_miss, registry)
          | some entry ↦ lookup_entry files registry req url_path entry entry.mode
        ])
    found-IsLookup none k = none_found _ _ v (λ e h. absurd (cc h))
    found-IsLookup (some entry) k =
        entry-IsLookup files registry req url_path entry entry.mode refl v (k entry refl)
