-- ===== src/Router/Registration.antt =====
-- src/HttpRouter.c: filling the content registry from files and directories.
use http_server_from_scratch.Router.Content.{
  Stat, Files, ServeMode, serve_static_resident, serve_static_streamed, serve_dyn_resident,
  serve_dyn_streamed, ContentEntry, ContentRegistry, content_entry_static_load,
  content_entry_dynamic_load, content_entry_streamed_load,
}
use http_server_from_scratch.Dictionary.{dict_insert}
use http_server_from_scratch.Network.{take}
use http_server_from_scratch.Prelude.{
  ℕ, ◌+◌, Bool, false, not, List, [], ◌∷◌, ◌++◌, ◌==◌, if◌then◌else◌, CString, codes, str_eq,
  Option, none, some,
}

-- The `switch (mode)` of `content_registry_add_file`: the entry, when it can be loaded.
unfoldable pub entry_load : Files → CString → Stat → ServeMode → Option ContentEntry
entry_load files fs_path st serve_static_resident = content_entry_static_load files fs_path
entry_load files fs_path st serve_static_streamed = some (
    content_entry_streamed_load files fs_path st serve_static_streamed
      (codes "max-age=31536000, immutable"))
entry_load files fs_path st serve_dyn_resident = content_entry_dynamic_load files fs_path st
entry_load files fs_path st serve_dyn_streamed =
    some (content_entry_streamed_load files fs_path st serve_dyn_streamed (codes "no-cache"))

-- The entry is inserted when it could be loaded: the result 1, else 0, and the registry.
unfoldable pub add_loaded : ContentRegistry → CString → Option ContentEntry → ℕ × ContentRegistry
add_loaded cache url none = (0, cache)
add_loaded cache url (some entry) = (1, dict_insert cache url entry)

-- What follows `stat`.
unfoldable pub add_found :
    Files → ContentRegistry → CString → CString → ServeMode → Option Stat → ℕ × ContentRegistry
add_found files cache fs_path url mode none = (0, cache)
add_found files cache fs_path url mode (some st) =
    add_loaded cache url (entry_load files fs_path st mode)

unfoldable pub content_registry_add_file :
    Files → ContentRegistry → CString → CString → ServeMode → ℕ × ContentRegistry
content_registry_add_file files cache fs_path url mode =
    add_found files cache fs_path url mode (files.stat fs_path)

-- A directory entry: its name, and whether it is a regular file.
pub record Dirent : Type 0 where
  pub d_name : CString
  pub is_regular : Bool

abbrev pub starts_with_dot : CString → Bool
starts_with_dot [] = false
starts_with_dot (c ∷ name) = c == b'.'

-- `url` and `fpath` are cut to 511 bytes; `url_prefix` is `none` for NULL.
abbrev dir_url : Option CString → CString → CString
dir_url none name = take 511 (codes "/" ++ name)
dir_url (some url_prefix) name = take 511 (url_prefix ++ (codes "/" ++ name))

-- The loop over the directory, with the count so far.
unfoldable pub add_dir_loop :
    Files
    → CString
    → Option CString
    → ServeMode
    → List Dirent
    → ℕ
    → ContentRegistry
    → ℕ × ContentRegistry
add_dir_loop files dir_path url_prefix mode [] f_count cache = (f_count, cache)
add_dir_loop files dir_path url_prefix mode (de ∷ entries) f_count cache =
    let fpath = take 511 (dir_path ++ (codes "/" ++ de.d_name)) in
    let added = content_registry_add_file files cache fpath (dir_url url_prefix de.d_name) mode in
    let index =
      if str_eq (codes "index.html") de.d_name
      then (content_registry_add_file files added.1 fpath (codes "/") mode).1
      else added.1 in
    let skip = add_dir_loop files dir_path url_prefix mode entries f_count cache in
    let take_it = add_dir_loop files dir_path url_prefix mode entries (f_count + added.0) index in
    if starts_with_dot de.d_name then skip else if not de.is_regular then skip else take_it

-- `opendir` gives the entries, or `none`.
unfoldable pub content_registry_add_dir :
    Files
    → ContentRegistry
    → CString
    → Option (List Dirent)
    → Option CString
    → ServeMode
    → ℕ × ContentRegistry
content_registry_add_dir files cache dir_path none url_prefix mode = (0, cache)
content_registry_add_dir files cache dir_path (some entries) url_prefix mode =
    add_dir_loop files dir_path url_prefix mode entries 0 cache
