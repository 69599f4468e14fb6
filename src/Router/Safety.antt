-- ===== src/Router/Safety.antt =====
-- The assertions of the content registry in src/HttpRouter.c hold.
use mathlib.Core.Option.{some_inj}
use Prim.{tt, ⊥}
use http_server_from_scratch.Dictionary.Map.{dict_find-dict_insert, dict_find-dict_init}
use http_server_from_scratch.Dictionary.{dict_find, dict_insert, dict_init}
use http_server_from_scratch.Prelude.{
  ℕ, ◌≡◌, inl, inr, refl, sym, subst, ◌∙◌, Bool, true, false, Bool-cases, not, CString, str_eq,
  Option, none, some, List, [], ◌∷◌, if◌then◌else◌, if_cases, bind-some, codes,
}
use http_server_from_scratch.Router.Content.{
  Stat, Files, ServeMode, serve_static_resident, serve_static_streamed, serve_dyn_resident,
  serve_dyn_streamed, RevalMeta, ContentEntry, ContentRegistry, content_entry_static_load,
  content_entry_dynamic_load, content_entry_streamed_load,
}
use http_server_from_scratch.Router.Registration.{
  entry_load, add_loaded, add_found, starts_with_dot, content_registry_add_file, Dirent,
  add_dir_loop, content_registry_add_dir,
}

-- An entry has the revalidation data that its mode reads.
abbrev pub HasReval : ServeMode → Option RevalMeta → Type 0
HasReval serve_static_resident r = Unit {0}
HasReval _ none = ⊥
HasReval _ (some r) = Unit {0}

abbrev pub IsEntry : ContentEntry → Type 0
IsEntry e = HasReval e.mode e.reval

-- Every entry of the registry has.
abbrev pub IsRegistry : ContentRegistry → Type 0
IsRegistry registry =
    (url : CString) (e : ContentEntry) → dict_find registry url ≡ some e → IsEntry e

pub dict_init-IsRegistry : IsRegistry dict_init
dict_init-IsRegistry url e h = cc (sym (dict_find-dict_init url) ∙ h)

pub dict_insert-IsRegistry :
    (registry : ContentRegistry) (url : CString) (entry : ContentEntry)
    → IsRegistry registry
    → IsEntry entry
    → IsRegistry (dict_insert registry url entry)
dict_insert-IsRegistry registry url entry w v q e h =
    let f : (if str_eq url q then some entry else dict_find registry q) ≡ some e =
      sym (dict_find-dict_insert url entry registry q) ∙ h in
    elim (Bool-cases (str_eq url q)) [
      | inl t ↦ subst IsEntry (some_inj.0 (rw t at f)) v
      | inr t ↦ w q e (rw t at f)
    ]

pub dynamic_load-IsEntry :
    (files : Files) (fs_path : CString) (st : Stat) (e : ContentEntry)
    → content_entry_dynamic_load files fs_path st ≡ some e
    → IsEntry e
unfolding content_entry_dynamic_load
dynamic_load-IsEntry files fs_path st e h =
    let (bytes, f, g) = bind-some (files.file_read fs_path st.st_size) _ e h in
    subst IsEntry (some_inj.0 g) tt

static_load-IsEntry :
    (files : Files) (fs_path : CString) (e : ContentEntry)
    → content_entry_static_load files fs_path ≡ some e
    → IsEntry e
unfolding content_entry_static_load
static_load-IsEntry files fs_path e h =
    let (st, f, g) = bind-some (files.stat fs_path) _ e h in
    let (bytes, f', g') = bind-some (files.file_read fs_path st.st_size) _ e g in
    subst IsEntry (some_inj.0 g') tt

entry_load-IsEntry :
    (files : Files) (fs_path : CString) (st : Stat) (mode : ServeMode) (e : ContentEntry)
    → entry_load files fs_path st mode ≡ some e
    → IsEntry e
unfolding entry_load content_entry_streamed_load
entry_load-IsEntry files fs_path st serve_static_resident e h =
    static_load-IsEntry files fs_path e h
entry_load-IsEntry files fs_path st serve_dyn_resident e h =
    dynamic_load-IsEntry files fs_path st e h
entry_load-IsEntry files fs_path st serve_static_streamed e h = subst IsEntry (some_inj.0 h) tt
entry_load-IsEntry files fs_path st serve_dyn_streamed e h = subst IsEntry (some_inj.0 h) tt

loaded-IsRegistry :
    (registry : ContentRegistry) (url : CString) (o : Option ContentEntry)
    → IsRegistry registry
    → ((e : ContentEntry) → o ≡ some e → IsEntry e)
    → IsRegistry (add_loaded registry url o).1
unfolding add_loaded
loaded-IsRegistry registry url none v k = v
loaded-IsRegistry registry url (some e) v k = dict_insert-IsRegistry registry url e v (k e refl)

stat-IsRegistry :
    (files : Files) (registry : ContentRegistry) (fs_path url : CString) (mode : ServeMode)
    (o : Option Stat)
    → IsRegistry registry
    → IsRegistry (add_found files registry fs_path url mode o).1
unfolding add_found
stat-IsRegistry files registry fs_path url mode none v = v
stat-IsRegistry files registry fs_path url mode (some st) v =
    loaded-IsRegistry registry url (entry_load files fs_path st mode) v
      (λ e h. entry_load-IsEntry files fs_path st mode e h)

pub add_file-IsRegistry :
    (files : Files) (registry : ContentRegistry) (fs_path url : CString) (mode : ServeMode)
    → IsRegistry registry
    → IsRegistry (content_registry_add_file files registry fs_path url mode).1
unfolding content_registry_add_file
add_file-IsRegistry files registry fs_path url mode v =
    stat-IsRegistry files registry fs_path url mode (files.stat fs_path) v

index-IsRegistry :
    (files : Files) (registry : ContentRegistry) (fs_path : CString) (mode : ServeMode) (b : Bool)
    → IsRegistry registry
    → IsRegistry (
        if b
        then (content_registry_add_file files registry fs_path (codes "/") mode).1
        else registry)
index-IsRegistry files registry fs_path mode true v =
    add_file-IsRegistry files registry fs_path (codes "/") mode v
index-IsRegistry files registry fs_path mode false v = v

add_dir_loop-IsRegistry :
    (files : Files) (dir_path : CString) (url_prefix : Option CString) (mode : ServeMode)
    (entries : List Dirent) (f_count : ℕ) (registry : ContentRegistry)
    → IsRegistry registry
    → IsRegistry (add_dir_loop files dir_path url_prefix mode entries f_count registry).1
unfolding add_dir_loop
add_dir_loop-IsRegistry files dir_path url_prefix mode [] f_count registry v = v
add_dir_loop-IsRegistry files dir_path url_prefix mode (de ∷ entries) f_count registry v =
    let P : ℕ × ContentRegistry → Type 0 = λ r. IsRegistry r.1 in
    let skip = add_dir_loop-IsRegistry files dir_path url_prefix mode entries f_count registry v in
    if_cases P (starts_with_dot de.d_name) (λ e. skip)
      (λ e.
        if_cases P (not de.is_regular) (λ f. skip)
          (λ f. add_dir_loop-IsRegistry files dir_path url_prefix mode entries _ _ (
            index-IsRegistry files _ _ mode (str_eq (codes "index.html") de.d_name)
              (add_file-IsRegistry files registry _ _ mode v))))

-- Adding a directory keeps the registry well formed: every entry has the revalidation data that its
-- mode reads, whatever the file system answers.
pub content_registry_add_dir-IsRegistry :
    (files : Files) (registry : ContentRegistry) (dir_path : CString)
    (entries : Option (List Dirent)) (url_prefix : Option CString) (mode : ServeMode)
    → IsRegistry registry
    → IsRegistry (content_registry_add_dir files registry dir_path entries url_prefix mode).1
unfolding content_registry_add_dir
content_registry_add_dir-IsRegistry files registry dir_path none url_prefix mode v = v
content_registry_add_dir-IsRegistry files registry dir_path (some entries) url_prefix mode v =
    add_dir_loop-IsRegistry files dir_path url_prefix mode entries 0 registry v
