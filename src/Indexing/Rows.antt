-- ===== src/Indexing/Rows.antt =====
-- The tables that talap/indexing/processor.py reads and writes, of talap/db/models: the columns that
-- the code uses. `F` is the type of a vector's entries.
use talap_ml.Common.{ℕ, Option, List, Result}
use talap_ml.Common.Int.{ℤ}
use talap_ml.Common.Text.{Text}
use talap_ml.Common.Table.{Uuid}
use talap_ml.Indexing.Worker.{Task}

pub record Product : Type 0 where
  pub id : Uuid
  pub merchant_id : Uuid
  pub name : Text
  pub category : Text
  pub description : Text

pub record ProductVariant : Type 0 where
  pub id : Uuid
  pub product_id : Uuid
  pub merchant_id : Uuid
  pub material : Option Text

pub record ProductEmbedding (F : Type 0) : Type 0 where
  pub id : Uuid
  pub merchant_id : Uuid
  pub product_id : Uuid
  pub provider : Text
  pub model : Text
  pub dimensions : ℕ
  pub document_text : Text
  pub document_sha256 : Text
  pub embedding : List F
  pub embedded_at : ℤ
  pub updated_at : ℤ

pub record Database (F : Type 0) : Type 0 where
  pub tasks : List Task
  pub products : List Product
  pub variants : List ProductVariant
  pub embeddings : List (ProductEmbedding F)

-- talap/embeddings/types.py
pub record EmbeddingResult (F : Type 0) : Type 0 where
  pub vector : List F
  pub provider : Text
  pub model : Text
  pub dimensions : ℕ

-- what a provider call raises: a `JinaEmbeddingError` with its text, or another exception
pub data ProviderError : Type 0 where
  jina_error : Text → ProviderError
  other_error : ProviderError

-- The provider is outside the program: its answer to a document is a parameter.
pub record EmbeddingClient (F : Type 0) : Type 0 where
  pub provider : Text
  pub model : Text
  pub dimensions : ℕ
  pub embed_document : Text → Result ProviderError (EmbeddingResult F)

-- `_CatalogSnapshot` of talap/indexing/processor.py
pub record CatalogSnapshot (F : Type 0) : Type 0 where
  pub product : Option Product
  pub variant : Option ProductVariant
  pub existing_embedding : Option (ProductEmbedding F)
  pub document_text : Option Text
  pub document_sha256 : Option Text
