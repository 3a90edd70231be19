-- ===== src/Legacy/Http/Files.antt =====
-- 0old/server/net_mgr/net_http.hpp: `mime_type` and `send_file`. Opening a file is a parameter.
use Prim.Native.String.{String}
use f1985gfw.Base.{
  ℕ, ◌+◌, Bool, false, ◌&&◌, ◌||◌, not, Option, none, some, List, [], ◌∷◌, ◌++◌, if◌then◌else◌, leb,
  ◌==◌,
}
use f1985gfw.Base.Texts.{Text, same_text, codes}
use f1985gfw.Legacy.Http.{
  HttpWorker, HttpResponse, string_reply, send_bad_response, status_ok, status_not_found,
  writing_file,
}

-- `beast::iequals`, of ASCII letters.
unfoldable pub to_lower : ℕ → ℕ
to_lower c = if leb b'A' c && leb c b'Z' then c + 32 else c

unfoldable pub lower : Text → Text
lower [] = []
lower (c ∷ cs) = to_lower c ∷ lower cs

unfoldable pub iequals : Text → Text → Bool
iequals a b = same_text (lower a) (lower b)

unfoldable pub has_dot : Text → Bool
has_dot [] = false
has_dot (c ∷ cs) = c == b'.' || has_dot cs

-- `ext`: from the last dot on, empty without a dot.
unfoldable pub extension : Text → Text
extension [] = []
extension (c ∷ cs) =
    let rest = extension cs in if has_dot cs then rest else (if c == b'.' then c ∷ cs else [])

-- The tests of `mime_type`, in their order.
unfoldable pub mime_types : List (String × String)
mime_types =
    (".htm", "text/html")
    ∷ (".html", "text/html")
    ∷ (".php", "text/html")
    ∷ (".css", "text/css")
    ∷ (".txt", "text/plain")
    ∷ (".js", "application/javascript")
    ∷ (".json", "application/json")
    ∷ (".xml", "application/xml")
    ∷ (".swf", "application/x-shockwave-flash")
    ∷ (".flv", "video/x-flv")
    ∷ (".png", "image/png")
    ∷ (".jpe", "image/jpeg")
    ∷ (".jpeg", "image/jpeg")
    ∷ (".jpg", "image/jpeg")
    ∷ (".gif", "image/gif")
    ∷ (".bmp", "image/bmp")
    ∷ (".ico", "image/vnd.microsoft.icon")
    ∷ (".tiff", "image/tiff")
    ∷ (".tif", "image/tiff")
    ∷ (".svg", "image/svg+xml")
    ∷ (".svgz", "image/svg+xml")
    ∷ []

unfoldable pub first_match : Text → List (String × String) → String
first_match ext [] = "application/text"
first_match ext ((e, kind) ∷ more) = if iequals ext (codes e) then kind else first_match ext more

unfoldable pub mime_type : Text → String
mime_type path = first_match (extension path) mime_types

-- `target.find("..")` finds something.
unfoldable pub has_dots : Text → Bool
has_dots [] = false
has_dots (c ∷ cs) = elim cs [ [] ↦ false | d ∷ _ ↦ (c == b'.' && d == b'.') || has_dots cs ]

-- `target.empty() || target[0] != '/'`
unfoldable pub is_absolute : Text → Bool
is_absolute [] = false
is_absolute (c ∷ cs) = c == b'/'

module _ {S : Type 0} (open_file : Text → Option Text) where
  unfoldable pub file_not_found : HttpWorker S → HttpWorker S
  file_not_found w = send_bad_response status_not_found (codes "File not found" ++ 13 ∷ 10 ∷ []) w

  unfoldable pub write_file : HttpResponse → HttpWorker S → HttpWorker S
  write_file response w = record w {
    file_response = some response;
    pending = writing_file;
    sent = w.sent ++ response ∷ [];
  }

  unfoldable pub send_file : Text → HttpWorker S → HttpWorker S
  send_file target w =
      if not (is_absolute target) || has_dots target
      then file_not_found w
      else elim (open_file (w.doc_root ++ target)) [
        | none ↦ file_not_found w
        | some file ↦ write_file (string_reply status_ok (mime_type target) file) w
      ]
