-- ===== src/Rag/Requests.antt =====
-- Requests to the document service, each of the owner that its token names, served one after the
-- other. What runs beside them is the environment's.
use holahost.Base.{ℕ, ◌≡◌, refl, String, false, List, [], ◌∷◌, All, none}
use holahost.Base.Int.{ℤ}
use holahost.Base.Equality.{◌=?◌, string_eq}
use holahost.Rag.Storage.{DocumentRow, ChunkRow, Tables}
use holahost.Rag.Storage.Isolation.{Stores}
use holahost.Rag.Data.{
  World, Env, CreateDocumentCmd, ReplaceDocumentCmd, GetDocumentCmd, DeleteDocumentCmd, SearchCmd,
}
use holahost.Rag.Ports.Isolation.{IsApart, Spares}
use holahost.Rag.UseCases.{
  create_document_use_case, replace_document_use_case, get_document_use_case,
  delete_document_use_case, search_document_use_case,
}
use holahost.Rag.UseCases.Isolation.{
  create_document_use_case-Keeps, replace_document_use_case-Keeps, get_document_use_case-Keeps,
  delete_document_use_case-Keeps, search_document_use_case-Keeps,
}

pub data Request : Type 0 where
  create : CreateDocumentCmd → Request
  replace : ReplaceDocumentCmd → Request
  get : GetDocumentCmd → Request
  delete : DeleteDocumentCmd → Request
  search_in : SearchCmd → Request

abbrev pub owner_of : Request → String
owner_of (create cmd) = cmd.owner
owner_of (replace cmd) = cmd.owner
owner_of (get cmd) = cmd.owner
owner_of (delete cmd) = cmd.owner
owner_of (search_in cmd) = cmd.owner

-- A world in which no transaction is open.
abbrev pub at_rest : Tables → World
at_rest t = record {
  units = 0;
  statements = 0;
  instants = 0;
  identifiers = 0;
  in_transaction = false;
  setting = none;
  committed = t;
  visible = t;
}

-- Of an environment and the three parameters of the search.
module _ (env : Env) (k : ℕ) (threshold : ℤ) (max_query_length : ℕ) where
  -- The world after a request, whatever it is answered with.
  unfoldable pub serve : Request → World → World
  serve (create cmd) w = (create_document_use_case env cmd w).1
  serve (replace cmd) w = (replace_document_use_case env cmd w).1
  serve (get cmd) w = (get_document_use_case env cmd w).1
  serve (delete cmd) w = (delete_document_use_case env cmd w).1
  serve (search_in cmd) w = (search_document_use_case env k threshold max_query_length cmd w).1

  unfoldable pub serve_all : List Request → World → World
  serve_all [] w = w
  serve_all (r ∷ rs) w = serve_all rs (serve r w)

  module _ (id : ℕ) (row : DocumentRow) (rows : List ChunkRow)
      (spares : Spares env id row rows) where
    serve-IsApart :
        (r : Request) (w : World)
        → (row.owner_subject =? owner_of r) ≡ false
        → IsApart id row rows w
        → IsApart id row rows (serve r w)
    unfolding serve
    serve-IsApart (create cmd) w h =
        (create_document_use_case-Keeps env id row rows spares cmd h).keeps w
    serve-IsApart (replace cmd) w h =
        (replace_document_use_case-Keeps env id row rows spares cmd h).keeps w
    serve-IsApart (get cmd) w h = (get_document_use_case-Keeps env id row rows spares cmd h).keeps w
    serve-IsApart (delete cmd) w h =
        (delete_document_use_case-Keeps env id row rows spares cmd h).keeps w
    serve-IsApart (search_in cmd) w h =
        (search_document_use_case-Keeps env id row rows spares k threshold max_query_length cmd
            h).keeps
          w

    serve_all-IsApart :
        (rs : List Request) (w : World)
        → All (λ r. (row.owner_subject =? owner_of r) ≡ false) rs
        → IsApart id row rows w
        → IsApart id row rows (serve_all rs w)
    unfolding serve_all
    serve_all-IsApart [] w hs h = h
    serve_all-IsApart (r ∷ rs) w hs h =
        serve_all-IsApart rs (serve r w) hs.1 (serve-IsApart r w hs.0 h)

    -- Where a document and its chunks are stored, and no other request of the environment changes them, any
    -- sequence of requests of other owners leaves the document's row and its chunks as they are, whether
    -- the requests succeed or fail.
    pub serve_all-Stores :
        (t : Tables) (rs : List Request)
        → Stores id row rows t
        → All (λ r. (row.owner_subject =? owner_of r) ≡ false) rs
        → Stores id row rows (serve_all rs (at_rest t)).committed
    serve_all-Stores t rs h hs =
        (serve_all-IsApart rs (at_rest t) hs
          (record { committed = h; visible = h; hidden = refl })).committed
