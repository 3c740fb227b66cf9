-- ===== src/Imports/Convert.antt =====
-- convert.go: the converters, over what the tools and the Drive endpoint do.
use open_blog.Base.{
  ℕ, ◌*◌, ◌/◌, ◌++◌, Bool, true, not, ◌||◌, ◌==◌, nat_eq, string_eq, text_eq_instance,
  if◌then◌else◌, Option, none, some, List, [], Text, codes, byte_len, trim_space, split, has_prefix,
  ltb, itoa, length, select,
}

abbrev pub max_output_bytes : ℕ
max_output_bytes = 2097152

-- What a tool does: it is not in the path, it takes longer than the timeout, it ends with an error, or
-- it prints. The texts are those of the errors.
pub data ToolRun : Type 0 where
  missing : Text → ToolRun
  timed_out : ToolRun
  exits : Text → ToolRun
  prints : Text → ToolRun

-- What the Drive endpoint does: no request, no answer, or a status with a body that may not be read.
pub data DriveRun : Type 0 where
  unsent no_answer : Text → DriveRun
  answers : (status : ℕ) (body : Option Text) → DriveRun

-- Markdown with its fidelity, or an error with the fidelity that stands beside it.
pub data Conversion : Type 0 where
  markdown : Text → (fidelity : Text) → Conversion
  no_markdown : (fidelity message : Text) → Conversion

-- The tools by source format, `pdftotext`, and the endpoint by document and access token.
pub record Tools : Type 0 where
  pub pandoc : (from : Text) → Text → ToolRun
  pub pdf_to_text : Text → ToolRun
  pub drive : (doc_id token : Text) → DriveRun

abbrev pub sized_output : (tool : Text) → Text → Conversion → Conversion
sized_output tool out good =
    if ltb max_output_bytes (byte_len out)
    then no_markdown [] (tool ++ codes " output exceeds 2097152 bytes")
    else good

abbrev pub of_pandoc : ToolRun → Conversion
of_pandoc (missing e) =
    no_markdown [] (e ++ codes ": pandoc not found; install pandoc or add to PATH")
of_pandoc timed_out = no_markdown [] (codes "pandoc timed out after 10s")
of_pandoc (exits e) = no_markdown [] (codes "pandoc failed: " ++ e)
of_pandoc (prints out) = sized_output (codes "pandoc") out (
    if out == codes ""
    then no_markdown [] (codes "pandoc produced no output")
    else markdown out (codes "high"))

abbrev pub pandoc_name : Text → Text
pandoc_name from = if from == codes "md" then codes "markdown" else from

abbrev pub is_meta : Text → Bool
is_meta line = trim_space line == codes "" || has_prefix (codes "%") (trim_space line)

-- Short output, or output of which more than three quarters of the lines are blank or marks.
unfoldable pub is_scanned_pdf : Text → Bool
unfolding byte_len split
is_scanned_pdf text =
    let trimmed : Text = trim_space text in
    let lines : List Text = split b'\n' trimmed in
    if ltb (byte_len trimmed) 50
    then true
    else ltb (length lines * 3 / 4) (length (select is_meta lines))

abbrev pub of_pdf_to_text : ToolRun → Conversion
of_pdf_to_text (missing e) =
    no_markdown [] (e ++ codes ": pdftotext not found; install poppler-utils or add to PATH")
of_pdf_to_text timed_out = no_markdown [] (codes "pdftotext timed out after 10s")
of_pdf_to_text (exits e) = no_markdown [] (codes "pdftotext failed: " ++ e)
of_pdf_to_text (prints out) = sized_output (codes "pdftotext") out (
    if out == codes ""
    then no_markdown [] (codes "pdftotext produced no output (scanned PDF?)")
    else if is_scanned_pdf out
    then no_markdown []
        (codes "scanned PDF detected: no text layer found; run OCR before importing")
    else markdown out (codes "medium"))

abbrev pub re_consent : Text
re_consent = codes "import: Google re-consent required"

module _ (tools : Tools) where
  open tools use {pandoc, pdf_to_text, drive}

  unfoldable pub run_pandoc : (from : Text) → Text → Conversion
  run_pandoc from src = of_pandoc (pandoc (pandoc_name from) src)

  unfoldable pub pdftotext : Text → Conversion
  unfolding is_scanned_pdf
  pdftotext src = of_pdf_to_text (pdf_to_text src)

  unfoldable pub dispatch : (format : Text) → Option (Text → Conversion)
  unfolding run_pandoc pdftotext
  dispatch format =
      if format == codes "docx"
        || format == codes "odt"
        || format == codes "rtf"
        || format == codes "html"
        || format == codes "md"
      then some (run_pandoc format)
      else if format == codes "pdf"
      then some pdftotext
      else none

  abbrev pub exported : Option Text → Conversion
  exported none = no_markdown [] (codes "gdoc: read export")
  exported (some body) =
      if ltb max_output_bytes (byte_len body)
      then no_markdown [] (codes "gdoc: exported DOCX exceeds 2097152 bytes")
      else run_pandoc (codes "docx") body

  abbrev pub of_drive : DriveRun → Conversion
  of_drive (unsent e) = no_markdown [] (codes "gdoc: create request: " ++ e)
  of_drive (no_answer e) = no_markdown [] (codes "gdoc: export request failed: " ++ e)
  of_drive (answers status body) =
      if status == 401 || status == 403
      then no_markdown []
          (re_consent ++ codes ": Google token expired or drive.readonly not granted")
      else if not (status == 200)
      then no_markdown [] (codes "gdoc: export returned HTTP " ++ itoa status)
      else exported body

  unfoldable pub gdoc_export : (doc_id token : Text) → Conversion
  unfolding run_pandoc
  gdoc_export doc_id token = of_drive (drive doc_id token)
