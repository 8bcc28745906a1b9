-- ===== src/Server.antt =====
-- What the file system uses of the MongoDB driver and its GridFS class: a record of operations on an
-- abstract database. Each may throw a `DBException`. What the code relies on of them is stated as the
-- laws of Server/Laws.antt, which the concrete database of Server/Memory.antt meets.
pub mod Laws
pub mod Memory
pub mod Answers
pub mod Listing
pub mod Names
use mgridfs.Base.{ℕ, Option, none, List, Name}

-- The `metadata` object of a document; a field that is absent is `none`. Dates are in milliseconds.
pub record Meta : Type 0 where
  pub kind : Option Name
  pub base : Option Name
  pub directory : Option Name
  pub last_updated : Option ℕ
  pub uid : Option ℕ
  pub gid : Option ℕ
  pub mode : Option ℕ
  pub target : Option Name

abbrev pub no_meta : Meta
no_meta = record {
  kind = none;
  base = none;
  directory = none;
  last_updated = none;
  uid = none;
  gid = none;
  mode = none;
  target = none;
}

-- A `GridFile` that exists: its document.
pub record GridFile : Type 0 where
  pub filename : Name
  pub content_length : ℕ
  pub chunk_size : ℕ
  pub upload_date : ℕ
  pub metadata : Meta

-- The fields of a `$set`; those that are `none` are not named by it.
pub record Changes : Type 0 where
  pub filename : Option Name
  pub upload_date : Option ℕ
  pub metadata : Meta

-- A query by file name, the query for a directory of that name, and an update by `_id`.
pub data Query : Type 0 where
  named : Name → Query
  directory_named : Name → Query

pub data Selector (Oid : Type 0) : Type 0 where
  by_name : Name → Selector Oid
  by_id : Oid → Selector Oid

pub data Reply (A : Type 0) : Type 0 where
  ok : A → Reply A
  thrown : Reply A

-- The fields of `dbstats` that are used.
pub record Stats : Type 0 where
  pub storage_size : ℕ
  pub file_size : ℕ
  pub objects : ℕ

pub record Server : Type 1 where
  pub Db : Type 0
  pub Oid : Type 0
  -- `ScopedDbConnection` and the constructor of `GridFS`
  pub connect : Db → Reply (Unit {0}) × Db
  pub grid_fs : Db → Reply (Unit {0}) × Db
  -- `GridFS::findFile`; `none` is a file that does not exist
  pub find_file : Query → Db → Reply (Option GridFile)
  -- `GridFS::storeFile`; `none` is an invalid object
  pub store_file : List ℕ → Name → Db → Reply (Option Oid) × Db
  pub remove_file : Name → Db → Reply (Unit {0}) × Db
  -- an update, with the number of documents that it met
  pub update : Selector Oid → Changes → Db → Reply ℕ × Db
  -- `GridFile::getNumChunks`, `getChunk` with `data`; `none` is the null pointer
  pub num_chunks : GridFile → ℕ
  pub get_chunk : GridFile → ℕ → Db → Reply (Option (List ℕ))
  -- the documents of a directory: their `metadata.filename`, if that is a text
  pub list_directory : Name → Db → Reply (List (Option Name))
  pub db_stats : Db → Reply (Option Stats)
  -- `getIntField` of an absent field, and the size of a `metadata` object
  pub absent_int : ℕ
  pub obj_size : Meta → ℕ
