-- ===== src/Imports/Source.antt =====
-- The sources, titles and slugs of import.go. File names and extensions are texts of code points.
use open_blog.Base.{
  ℕ, ◌+◌, ◌-◌, ◌++◌, Bool, ◌||◌, ◌==◌, nat_eq, text_eq_instance, if◌then◌else◌, List, [], ◌∷◌,
  reverse, Text, codes, trim_space, trim, trim_right, trim_prefix, split, find, elem, ltb, leb,
  take, length, or_else, is_lower, is_upper, is_digit, to_lower, rune_len, Option,
}
use open_blog.Store.Errors.{Error, Result, ok, err}

pub data SourceKind : Type 0 where
  multipart google_docs unknown_kind : SourceKind

pub record Source : Type 0 where
  pub kind : SourceKind
  pub file : Text
  pub filename : Text
  pub mime_type : Text
  pub doc_id : Text

abbrev pub known_exts : List Text
known_exts =
    codes ".docx"
    ∷ codes ".odt"
    ∷ codes ".rtf"
    ∷ codes ".html"
    ∷ codes ".htm"
    ∷ codes ".pdf"
    ∷ codes ".md"
    ∷ codes ".txt"
    ∷ []

-- `filepath.Ext` reads from the end: the extension so far, and what stands before it.
unfoldable pub ext_back : Text → Text → Text
ext_back acc [] = []
ext_back acc (c ∷ s) =
    let longer = ext_back (c ∷ acc) s in
    if c == b'/' then [] else if c == b'.' then c ∷ acc else longer

unfoldable pub file_ext : Text → Text
unfolding ext_back
file_ext name = ext_back [] (reverse name)

abbrev pub is_known_ext : Text → Bool
is_known_ext e = elem e known_exts

abbrev pub by_name : (ℕ → ℕ) → Text → Text
by_name lower_table filename =
    let ext : Text = to_lower lower_table (file_ext filename) in
    if is_known_ext ext then ext else []

-- `exts_by_type` is `mime.ExtensionsByType`.
unfoldable pub ext_from_mime_or_name :
    (lower_table : ℕ → ℕ) → (exts_by_type : Text → List Text) → (mime_type filename : Text) → Text
unfolding file_ext
ext_from_mime_or_name lower_table exts_by_type mime_type filename =
    let by_mime : Option Text = find is_known_ext (exts_by_type mime_type) in
    if mime_type == codes ""
    then by_name lower_table filename
    else or_else by_mime (by_name lower_table filename)

-- The extension and the format.
abbrev pub with_format : (ext : Text) → Result (Text × Text)
with_format ext =
    let format : Text = trim_prefix (codes ".") ext in
    if format == codes "" then err Error.unsupported_file_type else ok (ext, format)

abbrev pub parse_kind : (ext : Text) → SourceKind → Source → Result (Text × Text)
parse_kind ext multipart source =
    if source.file == codes "" then err Error.invalid_source else with_format ext
parse_kind ext google_docs source =
    if source.doc_id == codes "" then err Error.invalid_source else ok (codes ".docx", codes "gdoc")
parse_kind ext unknown_kind source = err Error.invalid_source

unfoldable pub parse_source :
    (lower_table : ℕ → ℕ) → (exts_by_type : Text → List Text) → Source → Result (Text × Text)
unfolding ext_from_mime_or_name
parse_source lower_table exts_by_type source =
    parse_kind (ext_from_mime_or_name lower_table exts_by_type source.mime_type source.filename)
      source.kind source

-- The longest beginning that has so many bytes at most and cuts no code point.
unfoldable pub take_bytes : ℕ → Text → Text
take_bytes n [] = []
take_bytes n (c ∷ s) =
    let rest = take_bytes (n - rune_len c) s in if leb (rune_len c) n then c ∷ rest else []

abbrev pub max_title : ℕ
max_title = 200

-- The first line that is not blank, without its blanks, a "# " and what is beyond 200 bytes.
unfoldable pub first_title : List Text → Text
unfolding take_bytes
first_title [] = []
first_title (l ∷ ls) =
    let later = first_title ls in
    let line : Text = trim_space l in
    if line == codes "" then later else take_bytes max_title (trim_prefix (codes "# ") line)

unfoldable pub title_from_content : Text → Text
unfolding first_title
title_from_content content = first_title (split b'\n' content)

-- `strings.Map`: a letter or digit, a hyphen, or nothing.
unfoldable pub map_slug : Text → Text
map_slug [] = []
map_slug (c ∷ s) =
    let rest = map_slug s in
    if is_lower c || is_digit c
    then c ∷ rest
    else if is_upper c
    then (c + 32) ∷ rest
    else if c == b'_' || c == b' ' || c == b'-'
    then b'-' ∷ rest
    else rest

abbrev pub is_dash : ℕ → Bool
is_dash c = c == b'-'

abbrev pub or_id : (id : Text) → Text → Text
or_id id [] = codes "import-" ++ take 8 id
or_id id (c ∷ s) = c ∷ s

abbrev pub shortened : Text → Text
shortened s = if ltb 63 (length s) then trim_right is_dash (take 63 s) else s

-- `id` is the text of the import's id.
unfoldable pub derive_slug : (content id : Text) → Text
unfolding title_from_content map_slug
derive_slug content id =
    or_id id (shortened (trim is_dash (map_slug (or_id id (title_from_content content)))))
