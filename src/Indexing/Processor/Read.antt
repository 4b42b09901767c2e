-- ===== src/Indexing/Processor/Read.antt =====
-- talap/indexing/processor.py: the first read, and the test for an embedding that is already current.
-- `sha256 s` stands for `hashlib.sha256(s.encode("utf-8")).hexdigest()`.
use talap_ml.Common.{
  ◌≡◌, arith, [], ◌∷◌, Bool, false, ◌&&◌, Option, none, some, List, ◌==◌, first, select, Result, ok,
  err, ◌>>=◌,
}
use talap_ml.Common.Text.{Text, text_eq}
use talap_ml.Common.Table.{Uuid, find_row}
use talap_ml.Indexing.Worker.{ClaimedTask}
use talap_ml.Indexing.Rows.{
  Product, ProductVariant, ProductEmbedding, Database, EmbeddingClient, CatalogSnapshot,
}
use talap_ml.Indexing.Documents.{build_product_index_text}
use talap_ml.Indexing.Processor.Results.{ProcessError, multiple_results, scalar_one_or_none}

abbrev pub product_key : Product → Uuid
product_key p = p.id

abbrev pub find_product : {F : Type 0} → ClaimedTask → Database F → Option Product
find_product c db = find_row product_key c.product_id db.products

-- the variants of the claimed product, of its merchant; `.first()` takes one
unfoldable pub find_variant : {F : Type 0} → ClaimedTask → Database F → Option ProductVariant
find_variant c db = first (
    select (λ (v : ProductVariant). v.product_id == c.product_id && v.merchant_id == c.merchant_id)
      db.variants)

abbrev pub is_embedding_of : {F : Type 0} → ClaimedTask → ProductEmbedding F → Bool
is_embedding_of c e = e.product_id == c.product_id && e.merchant_id == c.merchant_id

unfoldable pub find_embedding :
    {F : Type 0} → ClaimedTask → Database F → Result ProcessError (Option (ProductEmbedding F))
find_embedding c db = scalar_one_or_none (select (is_embedding_of c) db.embeddings)

unfoldable pub index_text : Product → ProductVariant → Text
index_text p v = build_product_index_text p.name p.category p.description v.material

module _ {F : Type 0} (sha256 : Text → Text) where
  snapshot_of : Product → Option (ProductEmbedding F) → Option ProductVariant → CatalogSnapshot F
  snapshot_of p existing none = record {
    product = some p;
    variant = none;
    existing_embedding = existing;
    document_text = none;
    document_sha256 = none;
  }
  snapshot_of p existing (some v) = record {
    product = some p;
    variant = some v;
    existing_embedding = existing;
    document_text = some (index_text p v);
    document_sha256 = some (sha256 (index_text p v));
  }

  read_product : ClaimedTask → Database F → Option Product → Result ProcessError (CatalogSnapshot F)
  unfolding snapshot_of
  read_product c db none = ok (record {
    product = none;
    variant = none;
    existing_embedding = none;
    document_text = none;
    document_sha256 = none;
  })
  read_product c db (some p) = do
    existing ← find_embedding c db
    ok (snapshot_of p existing (find_variant c db))

  unfoldable pub read_catalog_state :
      ClaimedTask → Database F → Result ProcessError (CatalogSnapshot F)
  unfolding read_product find_row
  read_catalog_state c db = read_product c db (find_product c db)

unfoldable pub embedding_identical :
    {F : Type 0} → Option (ProductEmbedding F) → EmbeddingClient F → Text → Bool
embedding_identical none client document_sha256 = false
embedding_identical (some e) client document_sha256 =
    text_eq e.provider client.provider
    && text_eq e.model client.model
    && e.dimensions == client.dimensions
    && text_eq e.document_sha256 document_sha256

scalar_one_or_none-raises :
    {A : Type 0} (rows : List A) (e : ProcessError)
    → scalar_one_or_none rows ≡ err e
    → e ≡ multiple_results
scalar_one_or_none-raises [] e h = cc
scalar_one_or_none-raises (x ∷ []) e h = cc
scalar_one_or_none-raises (x ∷ y ∷ rows) e h = ground arith

pub find_embedding-raises :
    {F : Type 0} (c : ClaimedTask) (db : Database F) (e : ProcessError)
    → find_embedding c db ≡ err e
    → e ≡ multiple_results
unfolding find_embedding
find_embedding-raises c db e h =
    scalar_one_or_none-raises (select (is_embedding_of c) db.embeddings) e h
