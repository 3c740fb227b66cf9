-- ===== src/Imports/Conversion.antt =====
-- What the converters give, and the import job done twice.
use mathlib.Core.Path.{subst}
use open_blog.Base.{
  ℕ, ◌≡◌, refl, ◌≤◌, ◌≢◌, ◌∙◌, sym, ap, false, ◌==◌, nat_eq, text_eq_instance, text_eq_iff, Option,
  none, some, [], ◌∷◌, Text, codes, byte_len, find, find-update_where, find-any, update_where,
  find_sound, arith, ltb, Bool-cases, inl, inr,
}
use open_blog.Store.Errors.{Error, Result, ok, err, eq_of_ok}
use open_blog.Store.Rows.{Db, Import}
use open_blog.Store.Tx.{Scope, scoped, scoped_rw, row}
use open_blog.Store.Tx.Laws.{scoped_rw-eq-ok}
use open_blog.Store.Imports.{ImportUpdate, is_import, get_import_by_id, update_import, updated}
use open_blog.Render.Html.{External}
use open_blog.Imports.Convert.{
  Tools, Conversion, markdown, no_markdown, ToolRun, missing, timed_out, exits, prints, of_pandoc,
  of_pdf_to_text, sized_output, run_pandoc, pdftotext, dispatch, gdoc_export, max_output_bytes,
  of_drive, exported, DriveRun, unsent, no_answer, answers, is_scanned_pdf,
}
use open_blog.Imports.Service.{
  ImportExternal, handle_job, handle_found, record_outcome, tenant_scope, of_conversion,
  convert_source, is_converting,
}

-- Markdown is not empty and has two MiB at most.
abbrev pub IsBounded : Conversion → Type 0
IsBounded (markdown md fidelity) = (md ≢ []) × (byte_len md ≤ max_output_bytes)
IsBounded (no_markdown fidelity message) = Unit {0}

not_empty : (t : Text) → (t == codes "") ≡ false → t ≢ []
not_empty t h = λ k. ground (arith, (text_eq_iff t []).1 k)

sized_output-IsBounded :
    (tool out : Text) (c : Conversion)
    → (byte_len out ≤ max_output_bytes → IsBounded c)
    → IsBounded (sized_output tool out c)
sized_output-IsBounded tool out c h = elim (Bool-cases (ltb max_output_bytes (byte_len out))) [
  | inl e ↦ rw e tt
  | inr e ↦ rw e (h (ground arith))
]

of_pandoc-IsBounded : (r : ToolRun) → IsBounded (of_pandoc r)
of_pandoc-IsBounded (missing e) = tt
of_pandoc-IsBounded timed_out = tt
of_pandoc-IsBounded (exits e) = tt
of_pandoc-IsBounded (prints out) = sized_output-IsBounded (codes "pandoc") out _ (λ b.
    elim (Bool-cases (out == codes "")) [ inl e ↦ rw e tt | inr e ↦ rw e (not_empty out e, b) ])

of_pdf_to_text-IsBounded : (r : ToolRun) → IsBounded (of_pdf_to_text r)
of_pdf_to_text-IsBounded (missing e) = tt
of_pdf_to_text-IsBounded timed_out = tt
of_pdf_to_text-IsBounded (exits e) = tt
of_pdf_to_text-IsBounded (prints out) = sized_output-IsBounded (codes "pdftotext") out _ (λ b.
    elim (Bool-cases (out == codes "")) [
      | inl e ↦ rw e tt
      | inr e ↦ elim (Bool-cases (is_scanned_pdf out)) [
        | inl s ↦ rw (e, s) tt
        | inr s ↦ rw (e, s) (not_empty out e, b)
      ]
    ])

module _ (tools : Tools) where
  run_pandoc-IsBounded : (from src : Text) → IsBounded (run_pandoc tools from src)
  unfolding run_pandoc
  run_pandoc-IsBounded from src = of_pandoc-IsBounded _

  pdftotext-IsBounded : (src : Text) → IsBounded (pdftotext tools src)
  unfolding pdftotext
  pdftotext-IsBounded src = of_pdf_to_text-IsBounded (tools.pdf_to_text src)

  exported-IsBounded : (o : Option Text) → IsBounded (exported tools o)
  exported-IsBounded none = tt
  exported-IsBounded (some body) = let k = run_pandoc-IsBounded (codes "docx") body in ground arith

  of_drive-IsBounded : (r : DriveRun) → IsBounded (of_drive tools r)
  of_drive-IsBounded (unsent e) = tt
  of_drive-IsBounded (no_answer e) = tt
  of_drive-IsBounded (answers status body) = let k = exported-IsBounded body in ground arith

  -- Whatever the tools and the Drive endpoint do, Markdown that a converter gives, for any format that
  -- has one and for a Google document, is not empty and has two MiB at most.
  pub conversions-IsBounded :
      (format src doc_id token : Text) (conv : Text → Conversion)
      → dispatch tools format ≡ some conv
      → IsBounded (conv src) × IsBounded (gdoc_export tools doc_id token)
  unfolding gdoc_export dispatch
  conversions-IsBounded format src doc_id token conv h =
      let a = run_pandoc-IsBounded format src in
      let b = pdftotext-IsBounded src in
      (ground arith, of_drive-IsBounded (tools.drive doc_id token))

-- The import is gone, or its conversion has ended.
abbrev pub IsEnded : Result Import → Type 0
IsEnded (ok i) = is_converting i.status ≡ false
IsEnded (err e) = e ≡ Error.no_rows

module _ (s : Scope) (id : ℕ) where
  updated_found :
      (now : ℕ) (u : ImportUpdate) (i : Import) (db : Db) {v : Unit {0}} {db' : Db}
      → find (is_import s id) db.imports ≡ some i
      → update_import s now id u db ≡ ok (v, db')
      → get_import_by_id s id db' ≡ ok (updated now u i)
  unfolding update_import get_import_by_id
  updated_found now u i db {db'} f h =
      let any_row = find-any (is_import s id) db.imports f in
      let e : db'.imports ≡ update_where (is_import s id) (updated now u) db.imports =
        ground arith in
      ap (λ rows. row (find (is_import s id) rows)) e
      ∙ ap row (find-update_where (is_import s id) (updated now u) db.imports i (λ y. refl) f)

of_conversion-status :
    (c : Conversion) (i : Import) (now : ℕ)
    → is_converting (updated now (of_conversion c) i).status ≡ false
of_conversion-status (markdown md fidelity) i now = refl
of_conversion-status (no_markdown [] message) i now = refl
of_conversion-status (no_markdown (x ∷ fidelity) message) i now = refl

found_row : (s : Scope) (id : ℕ) (o : Option Import) {i : Import} → row o ≡ ok i → o ≡ some i
found_row s id none h = cc
found_row s id (some j) h = ap some (eq_of_ok h)

module _ (ext : External) (origin : Text) (id_text : ℕ → Text) (io : ImportExternal) where
  record_outcome-IsEnded :
      (now tenant id : ℕ) (i : Import) (r : Result Conversion) (db db' : Db)
      → i.id ≡ id
      → find (is_import (tenant_scope tenant) id) db.imports ≡ some i
      → record_outcome now tenant i r db ≡ (ok tt, db')
      → IsEnded (get_import_by_id (tenant_scope tenant) id db')
  record_outcome-IsEnded now tenant id i (err e) db db' k f h = cc (ap (λ p. p.0) h)
  record_outcome-IsEnded now tenant id i (ok c) db db' k f h =
      let s = tenant_scope tenant in
      let h1 : update_import s now id (of_conversion c) db ≡ ok (tt, db') =
        scoped_rw-eq-ok (update_import s now id (of_conversion c)) (
          subst (λ x. scoped_rw (update_import s now x (of_conversion c)) db ≡ (ok tt, db')) k h) in
      subst IsEnded (sym (updated_found s id now (of_conversion c) i db f h1))
        (of_conversion-status c i now)

  handle_found-IsEnded :
      (now tenant id : ℕ) (format key doc_id : Text) (r : Result Import) (db db' : Db)
      → get_import_by_id (tenant_scope tenant) id db ≡ r
      → handle_found ext origin id_text io now tenant format key doc_id r db ≡ (ok tt, db')
      → IsEnded (get_import_by_id (tenant_scope tenant) id db')
  handle_found-IsEnded now tenant id format key doc_id (err Error.no_rows) db db' e h =
      subst (λ d. IsEnded (get_import_by_id (tenant_scope tenant) id d)) (ap (λ p. p.1) h)
        (subst IsEnded (sym e) refl)
  handle_found-IsEnded now tenant id format key doc_id (err x) db db' e h = cc (ap (λ p. p.0) h)
  handle_found-IsEnded now tenant id format key doc_id (ok i) db db' e h =
      elim (Bool-cases (is_converting i.status)) [
        | inl c ↦
            let s = tenant_scope tenant in
            let f : find (is_import s id) db.imports ≡ some i =
              found_row s id (find (is_import s id) db.imports) (unfold get_import_by_id in e) in
            record_outcome-IsEnded now tenant id i
              (convert_source ext origin id_text io i.user_id format key doc_id) db db'
              (ground (arith, find_sound (is_import s id) db.imports f)) f (rw c at h)
        | inr c ↦
            let h' : ◌≡◌ {A = Result (Unit {0}) × Db} (ok tt, db) (ok tt, db') = rw c at h in
            subst (λ d. IsEnded (get_import_by_id (tenant_scope tenant) id d)) (ap (λ p. p.1) h')
              (subst IsEnded (sym e) c)
      ]

  handle_found-ended :
      (now tenant : ℕ) (format key doc_id : Text) (r : Result Import) (db : Db)
      → IsEnded r
      → handle_found ext origin id_text io now tenant format key doc_id r db ≡ (ok tt, db)
  handle_found-ended now tenant format key doc_id (err x) db h = rw h refl
  handle_found-ended now tenant format key doc_id (ok i) db h = rw h refl

  -- The job of an import that has ended well is idempotent: handled again, at any time and whatever the
  -- payload names, it succeeds and changes nothing.
  pub handle_job_idem :
      (now now' tenant id : ℕ) (format key doc_id format' key' doc_id' : Text) (db db' : Db)
      → handle_job ext origin id_text io now tenant id format key doc_id db ≡ (ok tt, db')
      → handle_job ext origin id_text io now' tenant id format' key' doc_id' db' ≡ (ok tt, db')
  unfolding handle_job scoped
  handle_job_idem now now' tenant id format key doc_id format' key' doc_id' db db' h =
      handle_found-ended now' tenant format' key' doc_id'
        (get_import_by_id (tenant_scope tenant) id db') db'
        (handle_found-IsEnded now tenant id format key doc_id
          (get_import_by_id (tenant_scope tenant) id db) db db' refl h)
