-- ===== src/Legacy/Http/Paths.antt =====
-- 0old/server/net_mgr/net_http.hpp: the path of a target, the type of a file and the files that may be sent.
use Prim.Native.String.{String}
use f1985gfw.Base.{
  ℕ, ◌≡◌, ◌≢◌, ◌∙◌, refl, sym, ap, inl, inr, true, false, Option, none, some, List, [], ◌∷◌, ◌++◌,
  arith, ◌==◌, Bool-cases, Option-cases, some-eq, none≢some,
}
use f1985gfw.Base.Texts.{Text}
use f1985gfw.Legacy.Http.{
  HttpWorker, HttpResponse, path_of, string_reply, send_bad_response, write_string, status_ok,
}
use f1985gfw.Legacy.Http.Files.{
  to_lower, lower, iequals, has_dot, extension, mime_types, first_match, mime_type, has_dots,
  is_absolute, file_not_found, write_file, send_file,
}

-- A target with parameters: the path is what stands before the first question mark.
pub path_of-append :
    (path query : Text) → path_of path ≡ path → path_of (path ++ b'?' ∷ query) ≡ path
unfolding path_of
path_of-append [] query plain = refl
path_of-append (c ∷ cs) query plain = elim (Bool-cases (c == b'?')) [
  | inl mark ↦ absurd (empty≢cons (rw mark at plain))
  | inr other ↦
      let kept : c ∷ path_of cs ≡ c ∷ cs = rw other at plain in
      rw other (ap (◌∷◌ c) (path_of-append cs query (tail_eq kept)))
]
  where
    empty≢cons : {d : ℕ} {ds : Text} → [] ≡ d ∷ ds → ⊥
    empty≢cons e = cc

    tail_eq : {d : ℕ} {ds es : Text} → d ∷ ds ≡ d ∷ es → ds ≡ es
    tail_eq e = cc

to_lower-twice : (c : ℕ) → to_lower (to_lower c) ≡ to_lower c
unfolding to_lower
to_lower-twice c = ground arith

lower-twice : (t : Text) → lower (lower t) ≡ lower t
unfolding lower
lower-twice [] = refl
lower-twice (c ∷ cs) = rw (to_lower-twice c, lower-twice cs) refl

to_lower-dot : (c : ℕ) → (to_lower c == b'.') ≡ (c == b'.')
unfolding to_lower
to_lower-dot c = ground arith

has_dot-lower : (t : Text) → has_dot (lower t) ≡ has_dot t
unfolding has_dot lower
has_dot-lower [] = refl
has_dot-lower (c ∷ cs) = rw (to_lower-dot c, has_dot-lower cs) refl

extension-dotless : (t : Text) → has_dot t ≡ false → extension t ≡ []
unfolding extension has_dot
extension-dotless [] dotless = refl
extension-dotless (c ∷ cs) dotless = ground (arith, extension-dotless cs)

has_dot-append : (stem ext : Text) → has_dot (stem ++ b'.' ∷ ext) ≡ true
unfolding has_dot
has_dot-append [] ext = refl
has_dot-append (c ∷ cs) ext = ground (arith, has_dot-append cs ext)

extension-append :
    (stem ext : Text) → has_dot ext ≡ false → extension (stem ++ b'.' ∷ ext) ≡ b'.' ∷ ext
unfolding extension
extension-append [] ext dotless = rw dotless refl
extension-append (c ∷ cs) ext dotless = rw (has_dot-append cs ext) (extension-append cs ext dotless)

first_match-lower :
    (ext : Text) (types : List (String × String))
    → first_match (lower ext) types ≡ first_match ext types
unfolding first_match iequals
first_match-lower ext [] = refl
first_match-lower ext ((e, kind) ∷ more) = rw (lower-twice ext, first_match-lower ext more) refl

-- The type of a file depends on the letters after its last dot alone, large or small.
pub mime_type-extension :
    (stem ext : Text)
    → has_dot ext ≡ false
    → mime_type (stem ++ b'.' ∷ ext) ≡ mime_type (b'.' ∷ lower ext)
unfolding mime_type lower to_lower
mime_type-extension stem ext dotless = rw (extension-append stem ext dotless) (
    rw (extension-append [] (lower ext) (has_dot-lower ext ∙ dotless))
      (sym (first_match-lower (b'.' ∷ ext) mime_types)))

has_dots-append : (a b : Text) → has_dots (a ++ b'.' ∷ b'.' ∷ b) ≡ true
unfolding has_dots
has_dots-append [] b = refl
has_dots-append (c ∷ []) b = ground arith
has_dots-append (c ∷ d ∷ cs) b = ground (arith, has_dots-append (d ∷ cs) b)

absolute-slash : (t : Text) → is_absolute t ≡ true → (rest : Text) × (t ≡ b'/' ∷ rest)
unfolding is_absolute
absolute-slash [] e = cc
absolute-slash (c ∷ cs) e = (cs, ground arith)

-- `send_file` is called by no handler.
module _ {S : Type 0} (open_file : Text → Option Text) where
  -- A file that `send_file` writes is the one under the document root at the target, the target begins with
  -- a slash, and no two dots follow each other in it: the path does not leave the root. The response has the
  -- file's contents and its type.
  pub send_file-safe :
      (target : Text) (w : HttpWorker S) (r : HttpResponse)
      → w.file_response ≡ none
      → (send_file open_file target w).file_response ≡ some r
      → ((rest : Text) × (target ≡ b'/' ∷ rest))
        × ((a b : Text) → target ≢ a ++ b'.' ∷ b'.' ∷ b)
        × ((file : Text) × (open_file (w.doc_root ++ target) ≡ some file)
            × (r ≡ string_reply status_ok (mime_type target) file))
  unfolding send_file file_not_found send_bad_response write_string write_file
  send_file-safe target w r kept e = elim (Bool-cases (is_absolute target)) [
    | inr relative ↦ absurd (none≢some (rw (relative, kept) at e))
    | inl absolute ↦ elim (Bool-cases (has_dots target)) [
      | inl dots ↦ absurd (none≢some (rw (absolute, dots, kept) at e))
      | inr clean ↦ elim (Option-cases (open_file (w.doc_root ++ target))) [
        | inl missing ↦ absurd (none≢some (rw (absolute, clean, missing, kept) at e))
        | inr (file, found) ↦ (
          absolute-slash target absolute,
          λ a b climbs. true≢false (rw (climbs, has_dots-append a b) at clean),
          (file, found, sym (some-eq (rw (absolute, clean, found) at e))),
        )
      ]
    ]
  ]
    where
      true≢false : true ≡ false → ⊥
      true≢false h = cc
