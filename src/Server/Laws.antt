-- ===== src/Server/Laws.antt =====
-- What the code relies on of the MongoDB driver and its GridFS class: a file that was stored can be
-- found under its name with its bytes, and a connection or an update of other fields does not change
-- a file's bytes; how the bytes of a file that is found are read in chunks; how updates change
-- documents, and how documents are listed and found by name; and what a server that is there answers.
use mgridfs.Base.{ℕ, ◌*◌, ◌^◌, ◌≤◌, ◌<◌, ◌≡◌, Option, none, some, List, length, take, drop, Name}
use mathlib.Core.List.{Memᴰ}
use mgridfs.Server.{Server, GridFile, Meta, by_name, by_id, named, Selector, Changes, Query, ok}

pub record StoreLaws (s : Server) : Type 0 where
  -- the bytes of the file of that name
  pub stored : s.Db → Name → Option (List ℕ)
  pub connect_keeps : (db : s.Db) (n : Name) → stored (s.connect db).1 n ≡ stored db n
  pub grid_fs_keeps : (db : s.Db) (n : Name) → stored (s.grid_fs db).1 n ≡ stored db n
  pub store_saves :
      (buf : List ℕ) (n : Name) (db : s.Db) (id : s.Oid)
      → (s.store_file buf n db).0 ≡ ok (some id)
      → stored (s.store_file buf n db).1 n ≡ some buf
  pub update_keeps :
      (sel : Selector s.Oid) (ch : Changes) (db : s.Db) (n : Name)
      → ch.filename ≡ none
      → stored (s.update sel ch db).1 n ≡ stored db n

-- A file that is found: its bytes are cut into chunks of one size, the last one shorter, and each
-- chunk that is there is read, unless an exception is thrown.
pub record Document (s : Server) (g : GridFile) (buf : List ℕ) (db : s.Db) : Type 0 where
  pub size : g.content_length ≡ length buf
  pub some_bytes : 0 < g.chunk_size
  pub small : g.chunk_size < 2 ^ 31
  pub all : length buf ≤ s.num_chunks g * g.chunk_size
  pub tight : (i : ℕ) → i < s.num_chunks g → i * g.chunk_size < length buf
  pub chunk :
      (i : ℕ) (c : Option (List ℕ))
      → i < s.num_chunks g
      → s.get_chunk g i db ≡ ok c
      → c ≡ some (take g.chunk_size (drop (i * g.chunk_size) buf))

pub record ReadLaws (s : Server) : Type 0 where
  pub store : StoreLaws s
  pub found :
      (n : Name) (db : s.Db) (g : GridFile)
      → s.find_file (named n) db ≡ ok (some g)
      → (buf : List ℕ) × (store.stored db n ≡ some buf) × Document s g buf db
  pub missing :
      (n : Name) (db : s.Db) → s.find_file (named n) db ≡ ok none → store.stored db n ≡ none

-- A server that is there: it answers whatever it is asked, and has room for every file.
pub record Calm (s : Server) : Type 0 where
  pub connect : (db : s.Db) → (s.connect db).0 ≡ ok tt
  pub grid_fs : (db : s.Db) → (s.grid_fs db).0 ≡ ok tt
  pub find_file : (q : Query) (db : s.Db) → (o : Option GridFile) × (s.find_file q db ≡ ok o)
  pub store_file :
      (buf : List ℕ) (n : Name) (db : s.Db)
      → (id : s.Oid) × ((s.store_file buf n db).0 ≡ ok (some id))
  pub remove_file : (n : Name) (db : s.Db) → (s.remove_file n db).0 ≡ ok tt
  pub update :
      (sel : Selector s.Oid) (ch : Changes) (db : s.Db) → (n : ℕ) × ((s.update sel ch db).0 ≡ ok n)
  pub get_chunk :
      (g : GridFile) (i : ℕ) (db : s.Db)
      → i < s.num_chunks g
      → (c : Option (List ℕ)) × (s.get_chunk g i db ≡ ok c)

abbrev pub either : {A : Type 0} → Option A → Option A → Option A
either none b = b
either (some a) b = some a

abbrev pub or_old {ℓ} : {A : Type ℓ} → Option A → A → A
or_old none a = a
or_old (some b) a = b

-- A `$set`: the fields that it names have the new values, and the others stay as they are.
abbrev pub merge : Meta → Meta → Meta
merge new old = record {
  kind = either new.kind old.kind;
  base = either new.base old.base;
  directory = either new.directory old.directory;
  last_updated = either new.last_updated old.last_updated;
  uid = either new.uid old.uid;
  gid = either new.gid old.gid;
  mode = either new.mode old.mode;
  target = either new.target old.target;
}

abbrev pub changed : Changes → GridFile → GridFile
changed ch g = record g {
  filename = or_old ch.filename g.filename;
  upload_date = or_old ch.upload_date g.upload_date;
  metadata = merge ch.metadata g.metadata;
}

-- The documents of the files by name, and what an update by name does to them: it meets the document
-- of that name, if there is one, and a new name takes it over if no other document has it.
pub record DocumentLaws (s : Server) : Type 0 where
  pub document : s.Db → Name → Option GridFile
  pub found :
      (n : Name) (db : s.Db) (o : Option GridFile)
      → s.find_file (named n) db ≡ ok o
      → o ≡ document db n
  pub connect_keeps : (db : s.Db) (n : Name) → document (s.connect db).1 n ≡ document db n
  pub grid_fs_keeps : (db : s.Db) (n : Name) → document (s.grid_fs db).1 n ≡ document db n
  pub meets :
      (n : Name) (ch : Changes) (db : s.Db) (g : GridFile) (k : ℕ)
      → document db n ≡ some g
      → (s.update (by_name n) ch db).0 ≡ ok k
      → 0 < k
  pub misses :
      (n : Name) (ch : Changes) (db : s.Db) (k : ℕ)
      → document db n ≡ none
      → (s.update (by_name n) ch db).0 ≡ ok k
      → k ≡ 0
  pub updates :
      (n : Name) (ch : Changes) (db : s.Db) (g : GridFile) (k : ℕ)
      → document db n ≡ some g
      → (s.update (by_name n) ch db).0 ≡ ok k
      → ch.filename ≡ none
      → document (s.update (by_name n) ch db).1 n ≡ some (changed ch g)
  pub renames :
      (n to : Name) (ch : Changes) (db : s.Db) (g : GridFile) (k : ℕ)
      → document db n ≡ some g
      → document db to ≡ none
      → (s.update (by_name n) ch db).0 ≡ ok k
      → ch.filename ≡ some to
      → document (s.update (by_name n) ch db).1 to ≡ some (changed ch g)

-- The documents by their id, and how a directory is listed: of every document in it, a listing has the
-- last part of its name.
pub record ListingLaws (s : Server) : Type 0 where
  pub entry : s.Db → s.Oid → Option Meta
  pub connect_keeps : (db : s.Db) (id : s.Oid) → entry (s.connect db).1 id ≡ entry db id
  pub grid_fs_keeps : (db : s.Db) (id : s.Oid) → entry (s.grid_fs db).1 id ≡ entry db id
  pub stored :
      (buf : List ℕ) (n : Name) (db : s.Db) (id : s.Oid)
      → (s.store_file buf n db).0 ≡ ok (some id)
      → (m : Meta) × (entry (s.store_file buf n db).1 id ≡ some m)
  pub updated :
      (id : s.Oid) (ch : Changes) (db : s.Db) (m : Meta) (k : ℕ)
      → entry db id ≡ some m
      → (s.update (by_id id) ch db).0 ≡ ok k
      → entry (s.update (by_id id) ch db).1 id ≡ some (merge ch.metadata m)
  pub listed :
      (id : s.Oid) (db : s.Db) (m : Meta) (d : Name) (ns : List (Option Name))
      → entry db id ≡ some m
      → m.directory ≡ some d
      → s.list_directory d db ≡ ok ns
      → Memᴰ m.base ns

-- The metadata of the document that is found under a name, and the id by which an update meets that
-- document: after a file is stored, it is the one that is found.
pub record NameLaws (s : Server) : Type 1 where
  pub metadata : s.Db → Name → Option Meta
  pub Owns : s.Db → Name → s.Oid → Type 0
  pub found :
      (n : Name) (db : s.Db) (g : GridFile)
      → s.find_file (named n) db ≡ ok (some g)
      → metadata db n ≡ some g.metadata
  pub missing : (n : Name) (db : s.Db) → s.find_file (named n) db ≡ ok none → metadata db n ≡ none
  pub connect_keeps : (db : s.Db) (n : Name) → metadata (s.connect db).1 n ≡ metadata db n
  pub grid_fs_keeps : (db : s.Db) (n : Name) → metadata (s.grid_fs db).1 n ≡ metadata db n
  pub stored :
      (buf : List ℕ) (n : Name) (db : s.Db) (id : s.Oid)
      → (s.store_file buf n db).0 ≡ ok (some id)
      → Owns (s.store_file buf n db).1 n id
        × ((m : Meta) × (metadata (s.store_file buf n db).1 n ≡ some m))
  pub updated :
      (id : s.Oid) (ch : Changes) (db : s.Db) (n : Name) (m : Meta) (k : ℕ)
      → Owns db n id
      → metadata db n ≡ some m
      → ch.filename ≡ none
      → (s.update (by_id id) ch db).0 ≡ ok k
      → metadata (s.update (by_id id) ch db).1 n ≡ some (merge ch.metadata m)
