-- ===== src/Rag/Ingestion.antt =====
-- The adapters of the ingest pipeline (infrastructure/ingestion, infrastructure/embedding) and the
-- sniffer of the uploads (interface/http/mime_sniffer.py). What pymupdf, python-docx, zipfile, the
-- splitter and the model answer is the environment's.
use holahost.Base.{
  ℕ, ◌+◌, String, ◌||◌, not, Option, none, some, List, [], ◌∷◌, map, keep, Result, ok, err, ltb,
  traverse, or_raise, and_then, if◌then◌else◌,
}
use holahost.Base.Int.{ℤ, pos}
use holahost.Base.Equality.{◌=?◌, string_eq}
use holahost.Base.Text.{is_blank, join_lines}
use holahost.Rag.Values.{
  Valid, MimeType, make_page_number, Embedding, make_embedding, allowed_mime_types, pdf, docx,
}
use holahost.Rag.Data.{
  Bytes, Env, Raised, domain, document_parse, unsupported_media_type, embedding_failed, value_error,
  TextFragment, make_text_fragment,
}

-- `enumerate`
unfoldable pub enumerate : {A : Type 0} → ℕ → List A → List (ℕ × A)
enumerate n [] = []
enumerate n (x ∷ xs) = (n, x) ∷ enumerate (n + 1) xs

-- `TextFragment(text=…, page=PageNumber(…))`
unfoldable pub fragment : String → Option ℤ → Valid TextFragment
unfolding make_page_number make_text_fragment
fragment text page = and_then (make_page_number page) (make_text_fragment text)

-- One fragment of a text without pages, or none.
abbrev pub whole_text : String → Result Raised (List TextFragment)
whole_text text =
    if is_blank text then ok [] else or_raise domain (traverse (λ t. fragment t none) (text ∷ []))

module _ (env : Env) where
  -- `_parse_pdf`, where a `DomainValidationError` is a `ValueError` too
  unfoldable pub parse_pdf : Bytes → Result Raised (List TextFragment)
  unfolding keep traverse enumerate
  parse_pdf content = elim (env.pdf_pages content) [
    | none ↦ err document_parse
    | some pages ↦
        or_raise (λ _. document_parse)
          (traverse (λ (p : ℕ × String). fragment p.1 (some (pos (p.0 + 1))))
            (keep (λ (p : ℕ × String). not (is_blank p.1)) (enumerate 0 pages)))
  ]

  -- `_parse_docx`
  unfoldable pub parse_docx : Bytes → Result Raised (List TextFragment)
  unfolding traverse
  parse_docx content = elim (env.docx_paragraphs content) [
    | none ↦ err document_parse
    | some paragraphs ↦ whole_text (join_lines paragraphs)
  ]

  -- `_parse_plain_text`
  unfoldable pub parse_plain_text : Bytes → Result Raised (List TextFragment)
  unfolding traverse
  parse_plain_text content = elim (env.decode content) [
    | none ↦ err document_parse
    | some text ↦ whole_text text
  ]

  -- `CompositeFileParser.parse`
  unfoldable pub parse : Bytes → MimeType → Result Raised (List TextFragment)
  parse content mime_type =
      if mime_type.value =? pdf
      then parse_pdf content
      else if mime_type.value =? docx
      then parse_docx content
      else if mime_type.value =? "text/plain" || mime_type.value =? "text/markdown"
      then parse_plain_text content
      else err (unsupported_media_type allowed_mime_types)

  -- `RecursiveTextChunker.split`
  unfoldable pub split : List TextFragment → Result Raised (List TextFragment)
  unfolding traverse
  split fragments = or_raise domain (
      traverse (λ (piece : String × Option ℕ). fragment piece.0 (page_of piece.1))
        (env.split_documents (map (λ (f : TextFragment). (f.text, f.page.value)) fragments)))
    where
      page_of : Option ℕ → Option ℤ
      page_of none = none
      page_of (some page) = some (pos page)

  -- `FastembedEmbeddingModel.embed_texts`, where `_to_embedding` may refuse
  unfoldable pub embed_texts : List String → Result Raised (List Embedding)
  unfolding traverse
  embed_texts texts = elim (env.embed texts) [
    | none ↦ err embedding_failed
    | some vectors ↦ or_raise (λ _. embedding_failed) (traverse make_embedding vectors)
  ]

  unfoldable pub embed_query : String → Result Raised Embedding
  embed_query text = elim (env.query_embed text) [
    | none ↦ err embedding_failed
    | some vector ↦ or_raise (λ _. embedding_failed) (make_embedding vector)
  ]

-- `RecursiveTextChunker.__init__`: the window must fit the model's input, where its size is known
unfoldable pub check_window : ℕ → Option ℕ → Result Raised (Unit {0})
check_window chunk_window none = ok tt
check_window chunk_window (some max_input_tokens) =
    if ltb max_input_tokens chunk_window then err value_error else ok tt
