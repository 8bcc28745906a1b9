-- ===== src/DataOps/Answered.antt =====
-- A read from a server that answers everything.
use mgridfs.Base.{
  ℕ, ◌^◌, ◌<◌, ◌≡◌, refl, ◌∙◌, Option, none, some, List, [], length, neg, Name, bytes,
}
use mgridfs.Server.{GridFile, ok, named}
use mgridfs.Server.Laws.{ReadLaws, Calm}
use mgridfs.World.{Env, World, ask, command, return, ◌>>=◌, ◌>>◌}
use mgridfs.World.Ends.{Ends, Ends-bind, Ends-ask_ok, Ends-command_ok, Ends-catching}
use mgridfs.World.Quiet.{Never}
use mgridfs.DataOps.Remote.{Part, Asks, serve-Part}
use mgridfs.DataOps.{serve, remote_read}

module _ (e : Env) (calm : Calm e.server) where
  open e.server use {Db, connect, grid_fs, find_file, get_chunk}

  calm-Asks : (g : GridFile) → Asks e g Never
  calm-Asks g i w inside =
      let (c, got) = calm.get_chunk g i w.db inside in Ends-ask_ok (get_chunk g i) w got (refl, got)

  module _ (laws : ReadLaws e.server) (buf : List ℕ) (file : Name) (len offset : ℕ)
      (some_bytes : 0 < len) (small : len < 2 ^ 31) (countable : length buf < 2 ^ 32)
      (in_range : offset < 2 ^ 63) where
    found-Part :
        (found : Option GridFile) (v : World Db)
        → laws.store.stored v.db file ≡ some buf
        → find_file (named file) v.db ≡ ok found
        → Ends (λ r u. Part buf len offset r) Never (serve e len offset found v)
    found-Part none v s h = absurd (cc (laws.missing file v.db h, s))
    found-Part (some g) v s h =
        let (bytes, e1, doc) = laws.found file v.db g h in
        let same : bytes ≡ buf = cc (e1, s) in
        serve-Part e laws buf file len offset some_bytes small countable in_range g (calm-Asks g) v
          (rw same at doc)

    -- On a server that answers everything, a read of a stored file returns its bytes from the offset
    -- on, at most as many as were asked for.
    pub remote_read-Part :
        (w : World Db)
        → laws.store.stored w.db file ≡ some buf
        → Ends (λ r v. Part buf len offset r) Never (remote_read e file len offset w)
    unfolding remote_read
    remote_read-Part w stored =
        Ends-catching {S = Never}
          (do
            command connect
            command grid_fs
            found ← ask (find_file (named file))
            serve e len offset found)
          (return (neg 5, [])) w
          (Ends-bind {P = λ a v. laws.store.stored v.db file ≡ some buf} (command connect) _ w
            (Ends-command_ok connect w (calm.connect w.db)
              (laws.store.connect_keeps w.db file ∙ stored))
            (λ a w1 s1.
              Ends-bind {P = λ b v. laws.store.stored v.db file ≡ some buf} (command grid_fs) _ w1
                (Ends-command_ok grid_fs w1 (calm.grid_fs w1.db)
                  (laws.store.grid_fs_keeps w1.db file ∙ s1))
                (λ b w2 s2.
                  let (o, found) = calm.find_file (named file) w2.db in
                  Ends-bind
                    {P = λ o' v.
                      (laws.store.stored v.db file ≡ some buf)
                      × (find_file (named file) v.db ≡ ok o')}
                    (ask (find_file (named file))) _ w2
                    (Ends-ask_ok (find_file (named file)) w2 found (s2, found))
                    (λ o' w3 s3. found-Part o' w3 s3.0 s3.1))))
          (λ v t. absurd t)
