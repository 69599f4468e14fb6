-- ===== src/Router/Content.antt =====
-- src/HttpRouter.c: the entries of the content registry and how they are loaded. The file system is
-- a parameter, `Files`. Allocation succeeds.
use http_server_from_scratch.Dictionary.{Dictionary}
use http_server_from_scratch.Network.{take}
use http_server_from_scratch.Prelude.{
  ◌>>=◌, ℕ, List, [], ◌∷◌, ◌++◌, length, CString, codes, Option, none, some,
}
use http_server_from_scratch.Router.{content_type}
use http_server_from_scratch.Response.{ResponseHeader, Pull, print_uint}

pub record Stat : Type 0 where
  pub st_mtime : ℕ
  pub st_size : ℕ

-- What the code asks of the system: stat(2), reading at most so many bytes of a file, opening one
-- for streaming (the results of its reads), and the two directions of an HTTP date.
pub record Files : Type 0 where
  pub stat : CString → Option Stat
  pub file_read : CString → ℕ → Option (List ℕ)
  pub open_stream : CString → Option (List Pull)
  pub http_date_format : ℕ → CString
  pub http_date_parse : CString → Option ℕ

pub data ServeMode : Type 0 where
  serve_static_resident serve_static_streamed serve_dyn_resident serve_dyn_streamed : ServeMode

pub record RevalMeta : Type 0 where
  pub mtime : ℕ
  pub size : ℕ
  pub fs_path : CString
  pub etag : CString
  pub last_modified : CString

-- `len` is the length of `data_bytes`, except that a streamed entry holds none.
pub record ContentEntry : Type 0 where
  pub mode : ServeMode
  pub headers : List ResponseHeader
  pub reval : Option RevalMeta
  pub data_bytes : List ℕ

abbrev pub ContentRegistry : Type 0
ContentRegistry = Dictionary ContentEntry

abbrev header : CString → CString → ResponseHeader
header key value = record { key = key; value = value }

-- The three arrays cut what they are given to 255, 39 and 31 bytes.
unfoldable pub reval_fill : Files → Stat → CString → RevalMeta
reval_fill files st fs_path = record {
  mtime = st.st_mtime;
  size = st.st_size;
  fs_path = take 255 fs_path;
  etag = take 39 (
      codes "W/\""
      ++ (print_uint 16 st.st_mtime ++ (codes "-" ++ (print_uint 16 st.st_size ++ codes "\""))));
  last_modified = take 31 (files.http_date_format st.st_mtime);
}

unfoldable pub content_type_header : CString → ResponseHeader
content_type_header fs_path = header (codes "Content-Type") (content_type fs_path)

unfoldable pub content_entry_static_load : Files → CString → Option ContentEntry
content_entry_static_load files fs_path = do
  st ← files.stat fs_path
  bytes ← files.file_read fs_path st.st_size
  some (record {
    mode = serve_static_resident;
    headers =
        content_type_header fs_path
        ∷ header (codes "Content-Length") (take 31 (print_uint 10 (length bytes)))
        ∷ header (codes "Cache-Control") (codes "max-age=31536000, immutable")
        ∷ [];
    reval = none;
    data_bytes = bytes;
  })

unfoldable pub content_entry_dynamic_load : Files → CString → Stat → Option ContentEntry
content_entry_dynamic_load files fs_path st = do
  bytes ← files.file_read fs_path st.st_size
  let reval = reval_fill files st fs_path
  some (record {
    mode = serve_dyn_resident;
    headers =
        content_type_header fs_path
        ∷ header (codes "Content-Length") (take 31 (print_uint 10 (length bytes)))
        ∷ header (codes "ETag") reval.etag
        ∷ header (codes "Last-Modified") reval.last_modified
        ∷ header (codes "Cache-Control") (codes "no-cache")
        ∷ [];
    reval = some reval;
    data_bytes = bytes;
  })

unfoldable pub content_entry_streamed_load :
    Files → CString → Stat → ServeMode → CString → ContentEntry
content_entry_streamed_load files fs_path st mode cache_control =
    let reval = reval_fill files st fs_path in
    record {
      mode = mode;
      headers =
          content_type_header fs_path
          ∷ header (codes "ETag") reval.etag
          ∷ header (codes "Last-Modified") reval.last_modified
          ∷ header (codes "Cache-Control") cache_control
          ∷ [];
      reval = some reval;
      data_bytes = [];
    }
